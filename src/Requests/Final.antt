-- ===== src/Requests/Final.antt =====
-- The rows that a started and finalized request has (apps/gateway/src/lib/execution.ts), field by field.
use Prim.Native.String.{String}
use modelforge_ai.Base.{ℕ, ◌≡◌, refl, Option, none, some}
use modelforge_ai.Requests.Execution.{
  InferenceRequest, InferenceAttempt, ErrorInfo, patch, code_of, message_of, running, AttemptInput,
  new_attempt, FinalizeInferenceRequestFields, finalized_request, finalized_attempt,
}

abbrev pub started : ℕ → InferenceRequest → InferenceRequest
started now r = record r { status = running; started_at = some now }

-- A field of an update: one that is given is written, another stays.
pub data Updates {ℓ} {A : Type ℓ} (old : A) : Option A → A → Type ℓ where
  unchanged : Updates old none old
  replaced : (new : A) → Updates old (some new) new

-- The code and the message are those of the error, null where there is none.
pub data Describes : Option ErrorInfo → Option String → Option String → Type 0 where
  no_error : Describes none none none
  of_error : (e : ErrorInfo) → Describes (some e) e.code e.message

-- A request that was started at `now` and finalized at `later`, beside what it was before.
pub record IsFinalRequest (f : FinalizeInferenceRequestFields) (now later : ℕ)
    (old r : InferenceRequest) : Type 0 where
  pub same_id : r.id ≡ old.id
  pub same_customer : r.customer_id ≡ old.customer_id
  pub same_key : r.api_key_id ≡ old.api_key_id
  pub same_model : r.requested_model_slug ≡ old.requested_model_slug
  pub same_model_id : r.requested_model_id ≡ old.requested_model_id
  pub same_stream : r.stream ≡ old.stream
  pub has_status : r.status ≡ f.status
  pub started : r.started_at ≡ some now
  pub completed : r.completed_at ≡ some later
  pub error : Describes f.error r.error_code r.error_message
  pub prompt_tokens : Updates old.prompt_tokens f.prompt_tokens r.prompt_tokens
  pub completion_tokens : Updates old.completion_tokens f.completion_tokens r.completion_tokens
  pub cost : Updates old.cost_micros f.cost_micros r.cost_micros
  pub queue : Updates old.queue_ms f.queue_ms r.queue_ms
  pub cold_start : Updates old.cold_start_ms f.cold_start_ms r.cold_start_ms
  pub ttft : Updates old.ttft_ms f.ttft_ms r.ttft_ms
  pub generation : Updates old.generation_ms f.generation_ms r.generation_ms
  pub latency : Updates old.latency_ms f.latency_ms r.latency_ms
  pub finish_reason : Updates old.finish_reason f.finish_reason r.finish_reason
  pub pricing : Updates old.pricing_version_id f.pricing_version_id r.pricing_version_id
  pub resolved_id : Updates old.resolved_model_id f.resolved_model_id r.resolved_model_id
  pub resolved : Updates old.resolved_model_slug f.resolved_model_slug r.resolved_model_slug
  pub policy : Updates old.policy_version_id f.policy_version_id r.policy_version_id
  pub decision : Updates old.policy_decision_hash f.policy_decision_hash r.policy_decision_hash
  pub node : Updates old.node_id f.node_id r.node_id

-- The attempt of such a request: figures that are not given are those of a new attempt.
pub record IsFinalAttempt (id : String) (input : AttemptInput) (f : FinalizeInferenceRequestFields)
    (now later : ℕ) (a : InferenceAttempt) : Type 0 where
  pub of_request : a.request_id ≡ id
  pub same_number : a.attempt_no ≡ input.attempt_no
  pub same_backend : a.backend ≡ input.backend
  pub same_model : a.model_slug ≡ input.model_slug
  pub same_node : a.node_id ≡ input.node_id
  pub has_status : a.status ≡ f.status
  pub started : a.started_at ≡ some now
  pub completed : a.completed_at ≡ some later
  pub error : Describes f.error a.error_code a.error_message
  pub prompt_tokens : Updates 0 f.prompt_tokens a.prompt_tokens
  pub completion_tokens : Updates 0 f.completion_tokens a.completion_tokens
  pub cost : Updates 0 f.cost_micros a.cost_micros
  pub queue : Updates 0 f.queue_ms a.queue_ms
  pub cold_start : Updates 0 f.cold_start_ms a.cold_start_ms
  pub ttft : Updates none f.ttft_ms a.ttft_ms
  pub generation : Updates 0 f.generation_ms a.generation_ms

patch-Updates {ℓ} : {A : Type ℓ} (old : A) (new : Option A) → Updates old new (patch new old)
patch-Updates old none = unchanged
patch-Updates old (some new) = replaced new

error-Describes : (e : Option ErrorInfo) → Describes e (code_of e) (message_of e)
error-Describes none = no_error
error-Describes (some e) = of_error e

pub finalized_request-IsFinalRequest :
    (f : FinalizeInferenceRequestFields) (now later : ℕ) (r : InferenceRequest)
    → IsFinalRequest f now later r (finalized_request f later (started now r))
unfolding finalized_request
finalized_request-IsFinalRequest f now later r = record {
  same_id = refl;
  same_customer = refl;
  same_key = refl;
  same_model = refl;
  same_model_id = refl;
  same_stream = refl;
  has_status = refl;
  started = refl;
  completed = refl;
  error = error-Describes f.error;
  prompt_tokens = patch-Updates _ f.prompt_tokens;
  completion_tokens = patch-Updates _ f.completion_tokens;
  cost = patch-Updates _ f.cost_micros;
  queue = patch-Updates _ f.queue_ms;
  cold_start = patch-Updates _ f.cold_start_ms;
  ttft = patch-Updates _ f.ttft_ms;
  generation = patch-Updates _ f.generation_ms;
  latency = patch-Updates _ f.latency_ms;
  finish_reason = patch-Updates _ f.finish_reason;
  pricing = patch-Updates _ f.pricing_version_id;
  resolved_id = patch-Updates _ f.resolved_model_id;
  resolved = patch-Updates _ f.resolved_model_slug;
  policy = patch-Updates _ f.policy_version_id;
  decision = patch-Updates _ f.policy_decision_hash;
  node = patch-Updates _ f.node_id;
}

pub finalized_attempt-IsFinalAttempt :
    (id : String) (input : AttemptInput) (f : FinalizeInferenceRequestFields) (now later : ℕ)
    → IsFinalAttempt id input f now later (finalized_attempt f later (new_attempt id input now))
unfolding finalized_attempt new_attempt
finalized_attempt-IsFinalAttempt id input f now later = record {
  of_request = refl;
  same_number = refl;
  same_backend = refl;
  same_model = refl;
  same_node = refl;
  has_status = refl;
  started = refl;
  completed = refl;
  error = error-Describes f.error;
  prompt_tokens = patch-Updates _ f.prompt_tokens;
  completion_tokens = patch-Updates _ f.completion_tokens;
  cost = patch-Updates _ f.cost_micros;
  queue = patch-Updates _ f.queue_ms;
  cold_start = patch-Updates _ f.cold_start_ms;
  ttft = patch-Updates _ f.ttft_ms;
  generation = patch-Updates _ f.generation_ms;
}
