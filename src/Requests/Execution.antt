-- ===== src/Requests/Execution.antt =====
-- apps/gateway/src/lib/execution.ts: the rows of inference requests and of their attempts
-- (packages/db/prisma/schema.prisma), and the functions that write them. A field left `undefined`
-- in an update is `none` and keeps its value; for a nullable field `some none` is null. A time is a
-- number of milliseconds, `now` is the time of the call.
use Prim.Native.String.{String}
use modelforge_ai.Base.{ℕ, Bool, ◌&&◌, Option, none, some, List, ◌∷◌, map, if◌then◌else◌}
use modelforge_ai.Base.Text.{◌==◌, text_eq, nat_eq}
use modelforge_ai.Base.Preds.{any}
use modelforge_ai.Base.Result.{Result, ok, err, ◌>>=◌}

pub data InferenceStatus : Type 0 where
  queued running succeeded failed canceled rejected : InferenceStatus

pub record InferenceRequest : Type 0 where
  pub id : String
  pub customer_id : String
  pub api_key_id : String
  pub status : InferenceStatus
  pub requested_model_id : Option String
  pub requested_model_slug : String
  pub resolved_model_id : Option String
  pub resolved_model_slug : Option String
  pub pricing_version_id : Option String
  pub policy_version_id : Option String
  pub policy_decision_hash : Option String
  pub prompt_tokens : ℕ
  pub completion_tokens : ℕ
  pub cost_micros : ℕ
  pub queue_ms : ℕ
  pub cold_start_ms : ℕ
  pub ttft_ms : Option ℕ
  pub generation_ms : ℕ
  pub latency_ms : ℕ
  pub finish_reason : Option String
  pub error_code : Option String
  pub error_message : Option String
  pub stream : Bool
  pub node_id : Option String
  pub started_at : Option ℕ
  pub completed_at : Option ℕ

pub record InferenceAttempt : Type 0 where
  pub request_id : String
  pub attempt_no : ℕ
  pub backend : String
  pub node_id : Option String
  pub model_slug : String
  pub status : InferenceStatus
  pub prompt_tokens : ℕ
  pub completion_tokens : ℕ
  pub cost_micros : ℕ
  pub queue_ms : ℕ
  pub cold_start_ms : ℕ
  pub ttft_ms : Option ℕ
  pub generation_ms : ℕ
  pub error_code : Option String
  pub error_message : Option String
  pub started_at : Option ℕ
  pub completed_at : Option ℕ

pub record Store : Type 0 where
  pub requests : List InferenceRequest
  pub attempts : List InferenceAttempt

-- What Prisma throws: P2025 and P2002.
pub data StoreError : Type 0 where
  record_not_found unique_violation : StoreError

pub record CreateInferenceRequestInput : Type 0 where
  pub customer_id : String
  pub api_key_id : String
  pub requested_model_slug : String
  pub requested_model_id : Option String
  pub stream : Bool

-- The row that is created, under the id that the database gives it: the other fields have the
-- schema's defaults.
unfoldable pub new_request : String → CreateInferenceRequestInput → InferenceRequest
new_request id input = record {
  id = id;
  customer_id = input.customer_id;
  api_key_id = input.api_key_id;
  status = queued;
  requested_model_id = input.requested_model_id;
  requested_model_slug = input.requested_model_slug;
  resolved_model_id = none;
  resolved_model_slug = none;
  pricing_version_id = none;
  policy_version_id = none;
  policy_decision_hash = none;
  prompt_tokens = 0;
  completion_tokens = 0;
  cost_micros = 0;
  queue_ms = 0;
  cold_start_ms = 0;
  ttft_ms = none;
  generation_ms = 0;
  latency_ms = 0;
  finish_reason = none;
  error_code = none;
  error_message = none;
  stream = input.stream;
  node_id = none;
  started_at = none;
  completed_at = none;
}

abbrev pub is_request : String → InferenceRequest → Bool
is_request id r = r.id == id

abbrev pub is_attempt : String → ℕ → InferenceAttempt → Bool
is_attempt id number a = a.request_id == id && a.attempt_no == number

unfoldable pub create_inference_request :
    String → CreateInferenceRequestInput → Store → Result StoreError Store
create_inference_request id input s =
    if any (is_request id) s.requests
    then err unique_violation
    else ok (record s { requests = new_request id input ∷ s.requests })

-- prisma.inferenceRequest.update({ where: { id } })
unfoldable pub update_request :
    String → (InferenceRequest → InferenceRequest) → Store → Result StoreError Store
update_request id f s =
    if any (is_request id) s.requests
    then ok (record s { requests = map (λ r. if is_request id r then f r else r) s.requests })
    else err record_not_found

-- prisma.inferenceAttempt.update({ where: { requestId_attemptNo } })
unfoldable pub update_attempt :
    String → ℕ → (InferenceAttempt → InferenceAttempt) → Store → Result StoreError Store
update_attempt id number f s =
    if any (is_attempt id number) s.attempts
    then ok
        (record s { attempts = map (λ a. if is_attempt id number a then f a else a) s.attempts })
    else err record_not_found

-- prisma.inferenceAttempt.create
unfoldable pub create_attempt : InferenceAttempt → Store → Result StoreError Store
create_attempt a s =
    if any (is_attempt a.request_id a.attempt_no) s.attempts
    then err unique_violation
    else ok (record s { attempts = a ∷ s.attempts })

pub record AttemptInput : Type 0 where
  pub backend : String
  pub model_slug : String
  pub node_id : Option String
  pub attempt_no : ℕ

unfoldable pub new_attempt : String → AttemptInput → ℕ → InferenceAttempt
new_attempt id input now = record {
  request_id = id;
  attempt_no = input.attempt_no;
  backend = input.backend;
  node_id = input.node_id;
  model_slug = input.model_slug;
  status = running;
  prompt_tokens = 0;
  completion_tokens = 0;
  cost_micros = 0;
  queue_ms = 0;
  cold_start_ms = 0;
  ttft_ms = none;
  generation_ms = 0;
  error_code = none;
  error_message = none;
  started_at = some now;
  completed_at = none;
}

-- A transaction: what throws leaves the store as it was.
unfoldable pub start_attempt : String → AttemptInput → ℕ → Store → Result StoreError Store
start_attempt id input now s =
    update_request id (λ r. record r { status = running; started_at = some now }) s
    >>= create_attempt (new_attempt id input now)

pub record ErrorInfo : Type 0 where
  pub code : Option String
  pub message : Option String

pub record FinalizeInferenceRequestFields : Type 0 where
  pub status : InferenceStatus
  pub prompt_tokens : Option ℕ
  pub completion_tokens : Option ℕ
  pub queue_ms : Option ℕ
  pub cold_start_ms : Option ℕ
  pub ttft_ms : Option (Option ℕ)
  pub generation_ms : Option ℕ
  pub latency_ms : Option ℕ
  pub finish_reason : Option (Option String)
  pub error : Option ErrorInfo
  pub pricing_version_id : Option (Option String)
  pub cost_micros : Option ℕ
  pub resolved_model_id : Option (Option String)
  pub resolved_model_slug : Option (Option String)
  pub policy_version_id : Option (Option String)
  pub policy_decision_hash : Option (Option String)
  pub node_id : Option (Option String)
  pub attempt_no : Option ℕ

abbrev pub patch {ℓ} : {A : Type ℓ} → Option A → A → A
patch none old = old
patch (some new) old = new

abbrev pub code_of : Option ErrorInfo → Option String
code_of none = none
code_of (some e) = e.code

abbrev pub message_of : Option ErrorInfo → Option String
message_of none = none
message_of (some e) = e.message

unfoldable pub finalized_request :
    FinalizeInferenceRequestFields → ℕ → InferenceRequest → InferenceRequest
finalized_request f now r = record r {
  status = f.status;
  prompt_tokens = patch f.prompt_tokens r.prompt_tokens;
  completion_tokens = patch f.completion_tokens r.completion_tokens;
  queue_ms = patch f.queue_ms r.queue_ms;
  cold_start_ms = patch f.cold_start_ms r.cold_start_ms;
  ttft_ms = patch f.ttft_ms r.ttft_ms;
  generation_ms = patch f.generation_ms r.generation_ms;
  latency_ms = patch f.latency_ms r.latency_ms;
  finish_reason = patch f.finish_reason r.finish_reason;
  error_code = code_of f.error;
  error_message = message_of f.error;
  pricing_version_id = patch f.pricing_version_id r.pricing_version_id;
  cost_micros = patch f.cost_micros r.cost_micros;
  resolved_model_id = patch f.resolved_model_id r.resolved_model_id;
  resolved_model_slug = patch f.resolved_model_slug r.resolved_model_slug;
  policy_version_id = patch f.policy_version_id r.policy_version_id;
  policy_decision_hash = patch f.policy_decision_hash r.policy_decision_hash;
  node_id = patch f.node_id r.node_id;
  completed_at = some now;
}

unfoldable pub finalized_attempt :
    FinalizeInferenceRequestFields → ℕ → InferenceAttempt → InferenceAttempt
finalized_attempt f now a = record a {
  status = f.status;
  prompt_tokens = patch f.prompt_tokens a.prompt_tokens;
  completion_tokens = patch f.completion_tokens a.completion_tokens;
  queue_ms = patch f.queue_ms a.queue_ms;
  cold_start_ms = patch f.cold_start_ms a.cold_start_ms;
  ttft_ms = patch f.ttft_ms a.ttft_ms;
  generation_ms = patch f.generation_ms a.generation_ms;
  cost_micros = patch f.cost_micros a.cost_micros;
  error_code = code_of f.error;
  error_message = message_of f.error;
  completed_at = some now;
}

-- Whether it has thrown, and the store: the two updates are not one transaction.
unfoldable pub finalize_inference_request :
    String → FinalizeInferenceRequestFields → ℕ → Store → Option StoreError × Store
finalize_inference_request id f now s = elim (update_request id (finalized_request f now) s) [
  | err e ↦ (some e, s)
  | ok s' ↦ elim f.attempt_no [
    | none ↦ (none, s')
    | some number ↦ elim (update_attempt id number (finalized_attempt f now) s') [
      | err e ↦ (some e, s')
      | ok s'' ↦ (none, s'')
    ]
  ]
]
