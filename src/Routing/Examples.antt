-- ===== src/Routing/Examples.antt =====
-- Routing (packages/platform/src/policy.ts, apps/gateway/src/lib/policyRouter.ts) of concrete
-- requests to two models.
use Prim.Native.String.{String}
use modelforge_ai.Base.{◌≡◌, refl, inl, inr, arith, none, some, List, [], ◌∷◌, true, false}
use modelforge_ai.Base.Int.{ℤ, pos}
use modelforge_ai.Base.Result.{ok}
use modelforge_ai.Base.Preds.{In}
use modelforge_ai.Routing.Policy.{
  Document, Candidate, Context, Decision, is_eligible, best_eligible, evaluate_routing_policy,
  parse_document, parse_context, select_requested, select_default, select_model, fall_backs,
  with_slug, first_listed_candidate, sort_candidates, insert_candidate, compare_candidates,
}
use modelforge_ai.Routing.Router.{
  HostedModel, ResolveModelInput, ResolveModelResult, PiiFinding, allows, resolve_model_for_request,
  estimate_candidate_cost, to_candidate, complete_resolution, apply_redaction,
}
use modelforge_ai.Routing.Eligible.{Satisfies, evaluate-Satisfies}
use modelforge_ai.Routing.Best.{IsConsistent}
use modelforge_ai.Routing.Outcomes.{evaluate_total}
use modelforge_ai.Routing.Entitled.{IsEntitled, resolve_model-IsEntitled}

abbrev large : Candidate
large = record {
  model_slug = "large";
  cost_micros = 90;
  quality_class = pos 3;
  latency_class = pos 2;
  available = true;
}

abbrev small : Candidate
small = record {
  model_slug = "small";
  cost_micros = 10;
  quality_class = pos 1;
  latency_class = pos 1;
  available = true;
}

abbrev cheap : Document
cheap = record {
  max_cost_micros = some 50;
  min_quality = none;
  max_latency_class = some (pos 2);
  preferred_models = [];
  fallback_models = [];
}

abbrev same_order : String → String → ℤ
same_order a b = pos 0

same_order-IsConsistent : IsConsistent same_order
same_order-IsConsistent = record {
  total = λ a b. inl (omega arith);
  trans = λ a b c h k. omega arith;
}

abbrev no_hash : String → String → Document → Context → String
no_hash slug reason d ctx = ""

abbrev asks_small : Context
asks_small = record {
  requested_model = "small";
  candidates = large ∷ small ∷ [];
  platform_default_model = none;
}

abbrev asks_auto : Context
asks_auto = record {
  requested_model = "auto";
  candidates = large ∷ small ∷ [];
  platform_default_model = some "small";
}

abbrev asks_large : Context
asks_large = record {
  requested_model = "large";
  candidates = large ∷ small ∷ [];
  platform_default_model = none;
}

abbrev decide : String → String → Decision
decide slug reason = record { resolved_model_slug = slug; reason = reason; decision_hash = "" }

-- The model asked for is too dear, the cheaper one is taken.
evaluate-Satisfies_example :
    (c : Candidate) × In c asks_large.candidates × Satisfies cheap c × (c.model_slug ≡ "small")
unfolding evaluate_routing_policy parse_document parse_context is_eligible select_model
    select_requested select_default fall_backs with_slug first_listed_candidate best_eligible
    sort_candidates insert_candidate compare_candidates
evaluate-Satisfies_example =
    evaluate-Satisfies same_order no_hash cheap asks_large
      (decide "small" "requested_model_ineligible:best_eligible") refl

evaluate_total_example :
    (r : Decision) × (evaluate_routing_policy same_order no_hash cheap asks_large ≡ ok r)
unfolding parse_document parse_context is_eligible
evaluate_total_example =
    evaluate_total same_order no_hash cheap asks_large refl refl small (inr (inl refl)) refl
      (inl (λ e. cc))

abbrev large_model : HostedModel
large_model = record {
  model_id = "large";
  price_per_mtok_in = 90;
  price_per_mtok_out = 90;
  quality_class = pos 3;
  latency_class = pos 2;
  is_platform_default = false;
}

abbrev small_model : HostedModel
small_model = record {
  model_id = "small";
  price_per_mtok_in = 10;
  price_per_mtok_out = 10;
  quality_class = pos 1;
  latency_class = pos 1;
  is_platform_default = true;
}

abbrev input : ResolveModelInput
input = record {
  auth = record { customer_id = "ada"; api_key_id = "k1"; allowed_model_ids = "small" ∷ [] };
  requested_model = "small";
  max_tokens = 100;
  messages = none;
  apply_pii = false;
}

abbrev no_pii : String → String × List PiiFinding
no_pii text = (text, [])

abbrev no_sha : String → String
no_sha text = "sha"

abbrev resolved : ResolveModelResult
resolved = record {
  hosted = small_model;
  requested_model_slug = "small";
  resolved_model_slug = "small";
  reason = "requested_model_eligible";
  decision_hash = "sha";
  policy_version_id = none;
  redacted_messages = none;
  pii_findings = none;
}

resolve_model-IsEntitled_example : IsEntitled input (large_model ∷ small_model ∷ []) resolved
unfolding resolve_model_for_request complete_resolution apply_redaction to_candidate
    estimate_candidate_cost evaluate_routing_policy parse_document parse_context is_eligible
    select_model select_requested select_default fall_backs with_slug allows best_eligible
    sort_candidates insert_candidate first_listed_candidate
resolve_model-IsEntitled_example =
    resolve_model-IsEntitled no_pii no_sha same_order no_hash input (large_model ∷ small_model ∷ [])
      none resolved refl
