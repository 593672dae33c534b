-- ===== src/Routing/Router.antt =====
-- resolveModelForRequest and resolveVoiceAnalysisModel of apps/gateway/src/lib/policyRouter.ts. The
-- registry, the policy binding and the redaction of messages are arguments; a price, which the source
-- holds as a fractional number of cents, is counted in hundredths of a cent.
use Prim.Native.String.{String, ◌++◌}
use modelforge_ai.Base.{
  ℕ, ◌+◌, ◌*◌, ◌/◌, Bool, true, not, ◌&&◌, ◌||◌, Option, none, some, List, [], ◌∷◌, map,
  if◌then◌else◌,
}
use modelforge_ai.Base.Int.{ℤ}
use modelforge_ai.Base.Text.{◌==◌, text_eq}
use modelforge_ai.Base.Preds.{find, filter, any}
use modelforge_ai.Base.Result.{Result, ok, err, ◌>>=◌, ◌>>◌, throw_if}
use modelforge_ai.Routing.Policy.{
  Document, Candidate, Context, RoutingError, Decision, is_nil, evaluate_routing_policy,
}

pub record AuthContext : Type 0 where
  pub customer_id : String
  pub api_key_id : String
  pub allowed_model_ids : List String

pub record HostedModel : Type 0 where
  pub model_id : String
  pub price_per_mtok_in : ℕ
  pub price_per_mtok_out : ℕ
  pub quality_class : ℤ
  pub latency_class : ℤ
  pub is_platform_default : Bool

-- The latest version of the policy that binds the caller.
pub record PolicyVersion : Type 0 where
  pub id : String
  pub document : Option Document

pub record Message : Type 0 where
  pub role : String
  pub content : String

pub record PiiFinding : Type 0 where
  pub rule_id : String
  pub count : ℕ

pub record ResolveModelInput : Type 0 where
  pub auth : AuthContext
  pub requested_model : String
  pub max_tokens : ℕ
  pub messages : Option (List Message)
  pub apply_pii : Bool

pub record ResolveModelResult : Type 0 where
  pub hosted : HostedModel
  pub requested_model_slug : String
  pub resolved_model_slug : String
  pub reason : String
  pub decision_hash : String
  pub policy_version_id : Option String
  pub redacted_messages : Option (List Message)
  pub pii_findings : Option (List PiiFinding)

-- The `code` that the thrown errors carry.
pub data ResolveError : Type 0 where
  model_not_found : ResolveError
  routing_policy_failed : RoutingError → ResolveError
  no_default_model : ResolveError

-- `allowed.has(id)`, `allowedModelIds.includes(id)`
unfoldable pub allows : AuthContext → String → Bool
allows auth id = any (λ m. m == id) auth.allowed_model_ids

-- Math.ceil(((512 + maxTokens) * (in + out)) / 100), with the prices in hundredths.
unfoldable pub estimate_candidate_cost : HostedModel → ℕ → ℕ
estimate_candidate_cost model max_tokens =
    ((512 + max_tokens) * (model.price_per_mtok_in + model.price_per_mtok_out) + 9999) / 10000

-- The test that the query and the filter after it make.
abbrev pub is_offered : ResolveModelInput → HostedModel → Bool
is_offered input m =
    allows input.auth m.model_id
    || not (input.requested_model == "auto") && input.requested_model == m.model_id

unfoldable pub to_candidate : ResolveModelInput → HostedModel → Candidate
to_candidate input m = record {
  model_slug = m.model_id;
  cost_micros = estimate_candidate_cost m input.max_tokens;
  quality_class = m.quality_class;
  latency_class = m.latency_class;
  available = true;
}

abbrev pub no_policy : Document
no_policy = record {
  max_cost_micros = none;
  min_quality = none;
  max_latency_class = none;
  preferred_models = [];
  fallback_models = [];
}

-- `binding?.policy.versions[0]?.document ?? {}`
abbrev pub document_of : Option PolicyVersion → Document
document_of none = no_policy
document_of (some v) = elim v.document [ none ↦ no_policy | some d ↦ d ]

abbrev pub version_id : Option PolicyVersion → Option String
version_id none = none
version_id (some v) = some v.id

-- prisma.hostedModel.findFirst({ where: { isPlatformDefault: true } })
abbrev pub platform_default : List HostedModel → Option HostedModel
platform_default registry = find (λ m. m.is_platform_default) registry

abbrev pub id_of : Option HostedModel → Option String
id_of none = none
id_of (some m) = some m.model_id

abbrev pub routing_context : ResolveModelInput → List HostedModel → Context
routing_context input registry = record {
  requested_model = input.requested_model;
  candidates = map (to_candidate input) (filter (is_offered input) registry);
  platform_default_model = id_of (platform_default registry);
}

-- `catch (error)` of the evaluation.
abbrev pub coded {ℓ} : {A : Type ℓ} → Result RoutingError A → Result ResolveError A
coded (ok a) = ok a
coded (err e) = err (routing_policy_failed e)

-- The findings of one rule, added up in the order in which rules are first met.
unfoldable pub add_finding : PiiFinding → List PiiFinding → List PiiFinding
add_finding f [] = f ∷ []
add_finding f (g ∷ gs) =
    let rest = add_finding f gs in
    if g.rule_id == f.rule_id then record g { count = g.count + f.count } ∷ gs else g ∷ rest

unfoldable pub add_findings : List PiiFinding → List PiiFinding → List PiiFinding
add_findings [] acc = acc
add_findings (f ∷ fs) acc = add_findings fs (add_finding f acc)

module _ (redact : String → String × List PiiFinding) where
  unfoldable pub redact_messages : List Message → List PiiFinding → List Message × List PiiFinding
  redact_messages [] acc = ([], acc)
  redact_messages (m ∷ ms) acc =
      let (text, findings) = redact m.content in
      let (rest, total) = redact_messages ms (add_findings findings acc) in
      (record m { content = text } ∷ rest, total)

  unfoldable pub apply_redaction :
      Bool → Option (List Message) → Option (List Message) × Option (List PiiFinding)
  apply_redaction true (some ms) =
      let (redacted, findings) = redact_messages ms [] in (some redacted, some findings)
  apply_redaction _ messages = (messages, none)

  module _ (sha256_hex : String → String) where
    -- What follows the decision: the checks of entitlement, and the result.
    unfoldable pub complete_resolution :
        ResolveModelInput
        → List HostedModel
        → Option PolicyVersion
        → Decision
        → Result ResolveError ResolveModelResult
    complete_resolution input models binding decision = do
      throw_if
          (not (input.requested_model == "auto") && not (allows input.auth input.requested_model))
          model_not_found
      throw_if (not (allows input.auth decision.resolved_model_slug)) model_not_found
      elim (find (λ m. m.model_id == decision.resolved_model_slug) models) [
        | none ↦ err model_not_found
        | some hosted ↦
            let (messages, findings) = apply_redaction input.apply_pii input.messages in
            ok (record {
              hosted = hosted;
              requested_model_slug = input.requested_model;
              resolved_model_slug = decision.resolved_model_slug;
              reason = decision.reason;
              decision_hash =
                  if decision.decision_hash == ""
                  then sha256_hex (input.requested_model ++ ":" ++ decision.resolved_model_slug)
                  else decision.decision_hash;
              policy_version_id = version_id binding;
              redacted_messages = messages;
              pii_findings = findings;
            })
      ]

    module _ (locale_compare : String → String → ℤ)
        (hash_payload : String → String → Document → Context → String) where
      unfoldable pub resolve_model_for_request :
          ResolveModelInput
          → List HostedModel
          → Option PolicyVersion
          → Result ResolveError ResolveModelResult
      resolve_model_for_request input registry binding = do
        let models = filter (is_offered input) registry
        throw_if (is_nil models) model_not_found
        decision ← coded (
            evaluate_routing_policy locale_compare hash_payload (document_of binding)
              (routing_context input registry))
        complete_resolution input models binding decision

-- The model named, after `trim`: none where it is left out, empty or `auto`.
unfoldable pub named_model : (String → String) → Option String → Option String
named_model trim none = none
named_model trim (some r) =
    let requested = trim r in
    if requested == "" || requested == "auto" then none else some requested

unfoldable pub resolve_voice_analysis_model :
    (String → String) → AuthContext → Option String → List HostedModel → Result ResolveError String
resolve_voice_analysis_model trim auth requested registry = elim (named_model trim requested) [
  | some r ↦ do throw_if (not (allows auth r)) model_not_found; ok r
  | none ↦ elim (platform_default registry) [
    | none ↦ err no_default_model
    | some m ↦ do throw_if (not (allows auth m.model_id)) model_not_found; ok m.model_id
  ]
]
