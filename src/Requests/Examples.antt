-- ===== src/Requests/Examples.antt =====
-- A request (apps/gateway/src/lib/execution.ts) that is created, started and finalized.
use modelforge_ai.Base.{◌≡◌, refl, none, some, [], ◌∷◌, false}
use modelforge_ai.Requests.Execution.{
  InferenceRequest, Store, AttemptInput, FinalizeInferenceRequestFields, succeeded, new_request,
  new_attempt, start_attempt, update_request, create_attempt, finalize_inference_request,
}
use modelforge_ai.Requests.Final.{started}
use modelforge_ai.Requests.Lifecycle.{IsFinalized, finalize_inference_request-started}

abbrev created : InferenceRequest
created = new_request "r1" (record {
  customer_id = "ada";
  api_key_id = "k1";
  requested_model_slug = "small";
  requested_model_id = none;
  stream = false;
})

abbrev other : InferenceRequest
other = record created { id = "r2" }

abbrev store : Store
store = record { requests = created ∷ other ∷ []; attempts = [] }

abbrev attempt : AttemptInput
attempt = record { backend = "llama"; model_slug = "small"; node_id = none; attempt_no = 1 }

abbrev running_store : Store
running_store = record {
  requests = started 10 created ∷ other ∷ [];
  attempts = new_attempt "r1" attempt 10 ∷ [];
}

abbrev fields : FinalizeInferenceRequestFields
fields = record {
  status = succeeded;
  prompt_tokens = some 5;
  completion_tokens = some 7;
  queue_ms = none;
  cold_start_ms = none;
  ttft_ms = some none;
  generation_ms = none;
  latency_ms = some 90;
  finish_reason = some (some "stop");
  error = none;
  pricing_version_id = none;
  cost_micros = some 12;
  resolved_model_id = none;
  resolved_model_slug = none;
  policy_version_id = none;
  policy_decision_hash = none;
  node_id = none;
  attempt_no = some 1;
}

finalize_inference_request-started_example :
    (after : Store) × (finalize_inference_request "r1" fields 100 running_store ≡ (none, after))
    × IsFinalized "r1" attempt fields 10 100 store after
unfolding start_attempt update_request create_attempt new_request new_attempt
finalize_inference_request-started_example =
    finalize_inference_request-started "r1" attempt fields 10 100 store running_store refl refl
