-- ===== src/Routing/Entitled.antt =====
-- Entitlement in apps/gateway/src/lib/policyRouter.ts: what a caller is given is on its plan.
use Prim.Native.String.{String}
use modelforge_ai.Base.{◌≡◌, ◌⊎◌, inl, inr, true, Option, List, arith, subst, Option-cases}
use modelforge_ai.Base.Int.{ℤ}
use modelforge_ai.Base.Text.{◌==◌, text_eq, eq_of_beq}
use modelforge_ai.Base.Preds.{find, filter, In, find_sound, In-filter}
use modelforge_ai.Base.Result.{ok, throw_if, >>=-eq-ok}
use modelforge_ai.Routing.Policy.{Document, Context, Decision, is_nil, evaluate_routing_policy}
use modelforge_ai.Routing.Router.{
  AuthContext, HostedModel, PolicyVersion, PiiFinding, ResolveModelInput, ResolveModelResult,
  model_not_found, allows, is_offered, document_of, routing_context, coded, complete_resolution,
  resolve_model_for_request, resolve_voice_analysis_model,
}

-- What the result of a resolution promises to the caller.
pub record IsEntitled (input : ResolveModelInput) (registry : List HostedModel)
    (r : ResolveModelResult) : Type 0 where
  pub allowed : allows input.auth r.resolved_model_slug ≡ true
  pub requested_allowed :
      (input.requested_model ≡ "auto") ⊎ (allows input.auth input.requested_model ≡ true)
  pub hosted_is_resolved : r.hosted.model_id ≡ r.resolved_model_slug
  pub hosted_in_registry : In r.hosted registry

module _ (redact : String → String × List PiiFinding) (sha : String → String) where
  complete-IsEntitled :
      (input : ResolveModelInput) (registry : List HostedModel) (binding : Option PolicyVersion)
      (d : Decision) (r : ResolveModelResult)
      → complete_resolution redact sha input (filter (is_offered input) registry) binding d ≡ ok r
      → IsEntitled input registry r
  unfolding complete_resolution
  complete-IsEntitled input registry binding d r h =
      let models = filter (is_offered input) registry in
      elim (Option-cases (find (λ m. m.model_id == d.resolved_model_slug) models)) [
        | inl missing ↦ absurd (ground arith)
        | inr (m, found) ↦
            let (is, stands) =
              find_sound (λ m. m.model_id == d.resolved_model_slug) models m found in
            record {
              allowed = ground arith;
              requested_allowed = ground (arith, eq_of_beq input.requested_model "auto");
              hosted_is_resolved = ground (arith, eq_of_beq m.model_id d.resolved_model_slug is);
              hosted_in_registry =
                  let same : m ≡ r.hosted = ground arith in
                  subst (λ x. In x registry) same
                    ((In-filter (is_offered input) registry m).0 stands).0;
            }
      ]

  -- A resolved model is one of the registry that the caller's plan allows, and so is a model that the
  -- caller asked for by name: an unlisted name is refused, also where a policy would replace it.
  pub resolve_model-IsEntitled :
      (lc : String → String → ℤ) (hash : String → String → Document → Context → String)
      (input : ResolveModelInput) (registry : List HostedModel) (binding : Option PolicyVersion)
      (r : ResolveModelResult)
      → resolve_model_for_request redact sha lc hash input registry binding ≡ ok r
      → IsEntitled input registry r
  unfolding resolve_model_for_request
  resolve_model-IsEntitled lc hash input registry binding r h =
      let (_, _, h1) =
        >>=-eq-ok (throw_if (is_nil (filter (is_offered input) registry)) model_not_found) _ h in
      let (d, _, h2) =
        >>=-eq-ok
          (coded (
            evaluate_routing_policy lc hash (document_of binding) (routing_context input registry)))
          (complete_resolution redact sha input (filter (is_offered input) registry) binding) h1 in
      complete-IsEntitled input registry binding d r h2

-- A model for voice analysis is on the caller's plan.
pub resolve_voice-allowed :
    (trim : String → String) (auth : AuthContext) (requested : Option String)
    (registry : List HostedModel) (slug : String)
    → resolve_voice_analysis_model trim auth requested registry ≡ ok slug
    → allows auth slug ≡ true
unfolding resolve_voice_analysis_model
resolve_voice-allowed trim auth requested registry slug h = ground arith
