-- ===== src/Chat/Settlement.antt =====
-- How the chat handler of apps/gateway/src/routes/v1.ts settles a request: finalizeAndMeter where the
-- engine has answered, and its `catch` where something was thrown. The two tables are those of Quota and
-- of Requests; enqueueUsage is that of apps/gateway/src/lib/queues.ts, and `queued` are the jobs of its
-- queue. The event of the audit is left out.
use Prim.Native.String.{String, ◌++◌}
use modelforge_ai.Base.{ℕ, ◌+◌, Bool, true, false, Option, none, some, List, if◌then◌else◌, ltb}
use modelforge_ai.Base.Int.{pos}
use modelforge_ai.Base.Text.{text_eq}
use modelforge_ai.Base.Result.{Result, ok, err}
use modelforge_ai.Quota.Tables.{Db, LedgerEntry, QuotaError}
use modelforge_ai.Quota.Operations.{
  World, CommitQuotaInput, ReleaseQuotaInput, commit_quota, release_quota,
}
use modelforge_ai.Quota.Usage.{UsageJob, persist_usage_event}
use modelforge_ai.Requests.Execution.{
  Store, StoreError, InferenceStatus, FinalizeInferenceRequestFields, finalize_inference_request,
}
use modelforge_ai.Access.QuotaCheck.{Redis, disabled, down, up, bump_quota_cache}
use modelforge_ai.Chat.Errors.{
  Thrown, retrieval_error, quota_exceeded_error, engine_error, remote_engine_error, other_error,
  not_an_error, quota_message,
}

-- The state that the two ends of the handler write.
pub record Gateway : Type 0 where
  pub ledger : Db
  pub store : Store
  pub cache : Redis
  pub queued : List UsageJob

-- The clients beside a commit or a release, and beside a usage job; what adding a job to the queue does,
-- or that it throws; and the time.
pub record Surroundings : Type 0 where
  pub world : World
  pub usage_world : World
  pub add_job : UsageJob → List UsageJob → Option (List UsageJob)
  pub now : ℕ

pub record MeterInput : Type 0 where
  pub execution_id : String
  pub customer_id : String
  pub api_key_id : String
  pub hosted_id : Option String
  pub model_slug : String
  pub pricing_version_id : Option String
  pub prompt_tokens : ℕ
  pub completion_tokens : ℕ
  pub latency_ms : ℕ
  pub ttft_ms : Option ℕ
  pub generation_ms : ℕ
  pub queue_ms : ℕ
  pub finish_reason : String
  pub request_id : String
  pub reserved_tokens : ℕ
  pub policy_version_id : Option String
  pub policy_decision_hash : Option String
  pub cost_micros : ℕ

pub data SettlementError : Type 0 where
  store_error : StoreError → SettlementError
  quota_error : QuotaError → SettlementError
  queue_error cache_error : SettlementError

-- A field that is `undefined` is not written.
abbrev pub present : Option String → Option (Option String)
present none = none
present (some s) = some (some s)

abbrev pub success_fields : MeterInput → FinalizeInferenceRequestFields
success_fields i = record {
  status = InferenceStatus.succeeded;
  prompt_tokens = some i.prompt_tokens;
  completion_tokens = some i.completion_tokens;
  queue_ms = some i.queue_ms;
  cold_start_ms = none;
  ttft_ms = some i.ttft_ms;
  generation_ms = some i.generation_ms;
  latency_ms = some i.latency_ms;
  finish_reason = some (some i.finish_reason);
  error = none;
  pricing_version_id = present i.pricing_version_id;
  cost_micros = some i.cost_micros;
  resolved_model_id = present i.hosted_id;
  resolved_model_slug = some (some i.model_slug);
  policy_version_id = present i.policy_version_id;
  policy_decision_hash = present i.policy_decision_hash;
  node_id = none;
  attempt_no = some 1;
}

abbrev pub meter_commit : MeterInput → CommitQuotaInput
meter_commit i = record {
  customer_id = i.customer_id;
  request_id = i.execution_id;
  actual_tokens = pos (i.prompt_tokens + i.completion_tokens);
  idempotency_key = i.execution_id ++ ":usage:commit";
}

abbrev pub usage_job : MeterInput → UsageJob
usage_job i = record {
  customer_id = i.customer_id;
  api_key_id = i.api_key_id;
  hosted_model_id = i.hosted_id;
  model_slug = i.model_slug;
  prompt_tokens = i.prompt_tokens;
  completion_tokens = i.completion_tokens;
  latency_ms = i.latency_ms;
  request_id = i.request_id;
  idempotency_key = i.execution_id ++ ":usage";
  inference_request_id = some i.execution_id;
}

abbrev pub thrown_by : Result QuotaError LedgerEntry → Option SettlementError
thrown_by (ok r) = none
thrown_by (err e) = some (quota_error e)

-- What the handler knows of its request where something is thrown.
pub record Underway : Type 0 where
  pub customer_id : String
  pub execution_id : Option String
  pub reserved_tokens : ℕ
  pub resolved_slug : String

abbrev pub is_quota_exceeded : Thrown → Bool
is_quota_exceeded quota_exceeded_error = true
is_quota_exceeded _ = false

abbrev pub thrown_message : Thrown → String
thrown_message (retrieval_error m) = m
thrown_message quota_exceeded_error = quota_message
thrown_message (engine_error c m) = m
thrown_message (remote_engine_error c m) = m
thrown_message (other_error e) = e.message
thrown_message not_an_error = "Inference failed"

abbrev pub failure_fields : Underway → Thrown → FinalizeInferenceRequestFields
failure_fields u t = record {
  status = if is_quota_exceeded t then InferenceStatus.rejected else InferenceStatus.failed;
  prompt_tokens = none;
  completion_tokens = none;
  queue_ms = none;
  cold_start_ms = none;
  ttft_ms = none;
  generation_ms = none;
  latency_ms = none;
  finish_reason = none;
  error = some (record {
    code = some (if is_quota_exceeded t then "quota_exceeded" else "inference_error");
    message = some (thrown_message t);
  });
  pricing_version_id = none;
  cost_micros = none;
  resolved_model_id = none;
  resolved_model_slug = some (some u.resolved_slug);
  policy_version_id = none;
  policy_decision_hash = none;
  node_id = none;
  attempt_no = some 1;
}

abbrev pub failure_release : String → Underway → ReleaseQuotaInput
failure_release id u = record {
  customer_id = u.customer_id;
  request_id = id;
  reserved_tokens = pos u.reserved_tokens;
  idempotency_key = id ++ ":release";
}

module _ (s : Surroundings) where
  abbrev pub add_to_queue : Option (List UsageJob) → Gateway → Option SettlementError × Gateway
  add_to_queue none g = (some queue_error, g)
  add_to_queue (some jobs) g = (none, record g { queued = jobs })

  -- enqueueUsage: without Redis the job is persisted at once.
  unfoldable pub enqueue_usage : UsageJob → Gateway → Option SettlementError × Gateway
  enqueue_usage job g = elim g.cache [
    | disabled ↦ (none, record g { ledger = persist_usage_event s.usage_world job g.ledger })
    | down ↦ add_to_queue (s.add_job job g.queued) g
    | up cache ↦ add_to_queue (s.add_job job g.queued) g
  ]

  -- bumpQuotaCache
  unfoldable pub meter_cache :
      MeterInput → Option SettlementError × Gateway → Option SettlementError × Gateway
  meter_cache i (some e, g) = (some e, g)
  meter_cache i (none, g) =
      elim (bump_quota_cache i.customer_id (i.prompt_tokens + i.completion_tokens) g.cache) [
        | none ↦ (some cache_error, g)
        | some cache ↦ (none, record g { cache = cache })
      ]

  -- commitQuota, for a request that has reserved.
  unfoldable pub meter_quota : MeterInput → Gateway → Option SettlementError × Gateway
  meter_quota i g =
      if ltb 0 i.reserved_tokens
      then (let (r, ledger) = commit_quota s.world (meter_commit i) g.ledger in
          (thrown_by r, record g { ledger = ledger }))
      else (none, g)

  unfoldable pub meter_usage :
      MeterInput → Option SettlementError × Gateway → Option SettlementError × Gateway
  meter_usage i (some e, g) = (some e, g)
  meter_usage i (none, g) = meter_cache i (enqueue_usage (usage_job i) g)

  abbrev pub after_store :
      MeterInput → Option StoreError → Gateway → Option SettlementError × Gateway
  after_store i (some e) g = (some (store_error e), g)
  after_store i none g = meter_usage i (meter_quota i g)

  unfoldable pub finalize_and_meter : MeterInput → Gateway → Option SettlementError × Gateway
  finalize_and_meter i g =
      let (e, store) = finalize_inference_request i.execution_id (success_fields i) s.now g.store in
      after_store i e (record g { store = store })

  -- The errors of the two calls are swallowed.
  unfoldable pub settle_failure : Underway → Thrown → Gateway → Gateway
  settle_failure u t g = elim u.execution_id [
    | none ↦ g
    | some id ↦ record g {
      ledger =
          if ltb 0 u.reserved_tokens
          then (release_quota s.world (failure_release id u) g.ledger).1
          else g.ledger;
      store = (finalize_inference_request id (failure_fields u t) s.now g.store).1;
    }
  ]
