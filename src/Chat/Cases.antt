-- ===== src/Chat/Cases.antt =====
-- A chat request that is answered, and one that fails (apps/gateway/src/routes/v1.ts), on concrete rows.
use modelforge_ai.Base.{true, ◌≡◌, refl, arith, false, none, some, [], ◌∷◌}
use modelforge_ai.Base.Int.{pos, ◌+ℤ◌}
use modelforge_ai.Base.Text.{text_eq, nat_eq}
use modelforge_ai.Quota.Tables.{
  Db, Ledger, find_ledger, find_entry, create_entry, update_ledger, adjust, upsert_ledger,
  new_ledger,
}
use modelforge_ai.Quota.Operations.{
  World, ReserveQuotaInput, reserve_tx, reserve_entry, would_exceed_quota,
}
use modelforge_ai.Requests.Execution.{
  CreateInferenceRequestInput, new_request, new_attempt, finalize_inference_request, update_request,
  update_attempt,
}
use modelforge_ai.Access.QuotaCheck.{disabled}
use modelforge_ai.Chat.Errors.{engine_error}
use modelforge_ai.Chat.Settlement.{
  Gateway, Surroundings, MeterInput, finalize_and_meter, Underway, settle_failure,
}
use modelforge_ai.Chat.Errors.{not_an_error}
use modelforge_ai.Chat.Twice.{still_reserved, settle_failure-takes_others}
use modelforge_ai.Chat.Settlement.{queue_error}
use modelforge_ai.Access.QuotaCheck.{up}
use modelforge_ai.Base.Int.{ltb_ℤ}
use modelforge_ai.Chat.Charged.{HasBalances, finalize_and_meter-charges, settle_failure-HasBalances}

abbrev undisturbed : World
undisturbed = record { others = λ n d. d; aborts = λ n. none; new_id = "l2"; now = 100 }

abbrev around : Surroundings
around = record {
  world = undisturbed;
  usage_world = undisturbed;
  add_job = λ job jobs. some (job ∷ jobs);
  now = 900;
}

abbrev eve : Ledger
eve = record {
  id = "l1";
  customer_id = "eve";
  period_start = 0;
  period_end = 1_000;
  tokens_used = pos 5;
  tokens_reserved = pos 3;
}

abbrev rows : Db
rows = record { ledgers = eve ∷ []; entries = []; usage_events = [] }

abbrev asks_six : ReserveQuotaInput
asks_six = record {
  customer_id = "eve";
  request_id = "r1";
  estimated_tokens = pos 6;
  idempotency_key = "r1:reserve";
  limit = pos 50;
  period_start = none;
  period_end = none;
}

abbrev reserved_six : Db
reserved_six = record {
  ledgers = record eve { tokens_reserved = pos 9 } ∷ [];
  entries = reserve_entry eve asks_six ∷ [];
  usage_events = [];
}

abbrev creates : CreateInferenceRequestInput
creates = record {
  customer_id = "eve";
  api_key_id = "k1";
  requested_model_slug = "llama";
  requested_model_id = none;
  stream = false;
}

abbrev gateway : Gateway
gateway = record {
  ledger = reserved_six;
  store = record {
    requests = new_request "r1" creates ∷ [];
    attempts =
        new_attempt "r1"
          (record {
            backend = "llama-server";
            model_slug = "llama";
            node_id = none;
            attempt_no = 1;
          })
          200
        ∷ [];
  };
  cache = disabled;
  queued = [];
}

abbrev answered : MeterInput
answered = record {
  execution_id = "r1";
  customer_id = "eve";
  api_key_id = "k1";
  hosted_id = some "m1";
  model_slug = "llama";
  pricing_version_id = none;
  prompt_tokens = 2;
  completion_tokens = 2;
  latency_ms = 700;
  ttft_ms = some 90;
  generation_ms = 600;
  queue_ms = 100;
  finish_reason = "stop";
  request_id = "r1";
  reserved_tokens = 6;
  policy_version_id = none;
  policy_decision_hash = none;
  cost_micros = 40;
}

finalize_and_meter-charges_example :
    ((finalize_and_meter around answered gateway).0 ≡ none)
    × HasBalances "eve"
        (pos 5 +ℤ pos 4)
        (pos 3)
        (finalize_and_meter around answered gateway).1.ledger
unfolding find_entry reserve_tx would_exceed_quota ◌+ℤ◌ upsert_ledger find_ledger new_ledger
    create_entry update_ledger adjust finalize_inference_request update_request new_request
    update_attempt new_attempt
finalize_and_meter-charges_example =
    finalize_and_meter-charges around (record { no_others = λ d. refl; no_abort = refl })
      undisturbed asks_six rows (reserve_entry eve asks_six) reserved_six answered gateway
      (record { no_entry = tt; new_key = refl; new_next_key = refl; apart = refl }) refl refl refl
      refl refl refl refl refl refl

abbrev underway : Underway
underway = record {
  customer_id = "eve";
  execution_id = some "r1";
  reserved_tokens = 6;
  resolved_slug = "llama";
}

settle_failure-HasBalances_example :
    HasBalances "eve"
      (pos 5)
      (pos 3)
      (settle_failure around underway (engine_error "OOM" "full") gateway).ledger
unfolding find_entry reserve_tx would_exceed_quota ◌+ℤ◌ upsert_ledger find_ledger new_ledger
    create_entry update_ledger adjust
settle_failure-HasBalances_example =
    settle_failure-HasBalances around (record { no_others = λ d. refl; no_abort = refl })
      undisturbed asks_six rows (reserve_entry eve asks_six) reserved_six underway
      (engine_error "OOM" "full") gateway
      (record { no_entry = tt; new_key = refl; new_next_key = refl; apart = refl }) refl refl refl
      (omega arith) refl refl refl refl refl

-- The queue throws.
abbrev no_queue : Surroundings
no_queue = record around { add_job = λ job jobs. none }

abbrev with_redis : Gateway
with_redis = record gateway { cache = up [] }

-- Of the three tokens that other requests of the customer hold, none are left.
settle_failure-takes_others_example :
    ((finalize_and_meter no_queue answered with_redis).0 ≡ some queue_error)
    × HasBalances "eve"
        (pos 5 +ℤ pos 4)
        (still_reserved (pos 3) (pos 6))
        (settle_failure no_queue underway not_an_error
          (finalize_and_meter no_queue answered with_redis).1).ledger
    × (ltb_ℤ (still_reserved (pos 3) (pos 6)) (pos 3) ≡ true)
unfolding find_entry reserve_tx would_exceed_quota ◌+ℤ◌ upsert_ledger find_ledger new_ledger
    create_entry update_ledger adjust finalize_inference_request update_request new_request
    update_attempt new_attempt
settle_failure-takes_others_example =
    settle_failure-takes_others no_queue (record { no_others = λ d. refl; no_abort = refl })
      undisturbed asks_six rows (reserve_entry eve asks_six) reserved_six answered underway
      not_an_error with_redis []
      (record { no_entry = tt; new_key = refl; new_next_key = refl; apart = refl })
      (record { no_entry = tt; new_key = refl; new_next_key = refl; apart = refl }) refl refl refl
      refl refl refl refl refl refl refl refl refl refl refl refl refl
