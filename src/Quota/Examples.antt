-- ===== src/Quota/Examples.antt =====
-- Runs of the quota ledger (apps/gateway/src/lib/quotaLedger.ts, usage.ts) on concrete rows.
use modelforge_ai.Base.{ℕ, zero, suc, ◌≡◌, refl, Option, none, some, [], ◌∷◌}
use modelforge_ai.Base.Int.{pos, ◌+ℤ◌, ◌≤ℤ◌}
use modelforge_ai.Quota.Tables.{
  Ledger, LedgerEntry, Db, QuotaError, reserve, commit, write_conflict, find_ledger, find_entry,
  create_entry, adjust, update_ledger, new_ledger, upsert_ledger,
}
use modelforge_ai.Quota.Operations.{
  World, ReserveQuotaInput, CommitQuotaInput, ReleaseQuotaInput, reserve_quota, reserve_tx,
  reserve_ledger, reserve_entry, commit_entry, release_entry, would_exceed_quota,
}
use modelforge_ai.Quota.Usage.{UsageJob, persist_usage_event}
use modelforge_ai.Quota.Balance.{IsBalanced}
use modelforge_ai.Quota.Runs.{reserve_quota-IsBalanced}
use modelforge_ai.Quota.Keys.{IsQuiet}
use modelforge_ai.Quota.Amounts.{Moved, reserve_tx-within_limit}
use modelforge_ai.Quota.Usage.{persist_usage_event-counts_once}

abbrev ada : Ledger
ada = record {
  id = "l1";
  customer_id = "ada";
  period_start = 0;
  period_end = 1_000;
  tokens_used = pos 5;
  tokens_reserved = pos 3;
}

abbrev reserved_three : LedgerEntry
reserved_three = record {
  ledger_id = "l1";
  idempotency_key = "r1:reserve";
  delta_tokens = pos 0;
  reserved_delta = pos 3;
  reason = reserve;
  request_id = "r1";
}

abbrev used_five : LedgerEntry
used_five = record {
  ledger_id = "l1";
  idempotency_key = "r0:commit";
  delta_tokens = pos 5;
  reserved_delta = pos 0;
  reason = commit;
  request_id = "r0";
}

abbrev rows : Db
rows = record { ledgers = ada ∷ []; entries = reserved_three ∷ used_five ∷ []; usage_events = [] }

abbrev quiet : World
quiet = record { others = λ n d. d; aborts = λ n. none; new_id = "l9"; now = 100 }

abbrev conflict_first : ℕ → Option QuotaError
conflict_first zero = some write_conflict
conflict_first (suc n) = none

-- The first attempt meets a write conflict.
abbrev busy : World
busy = record { others = λ n d. d; aborts = conflict_first; new_id = "l9"; now = 100 }

quiet-IsQuiet : IsQuiet quiet
quiet-IsQuiet = record { no_others = λ d. refl; no_abort = refl }

abbrev asks_four : ReserveQuotaInput
asks_four = record {
  customer_id = "ada";
  request_id = "r2";
  estimated_tokens = pos 4;
  idempotency_key = "r2:reserve";
  limit = pos 20;
  period_start = none;
  period_end = none;
}

abbrev commits_two : CommitQuotaInput
commits_two = record {
  customer_id = "ada";
  request_id = "r1";
  actual_tokens = pos 2;
  idempotency_key = "r1:commit";
}

abbrev releases_two : ReleaseQuotaInput
releases_two = record {
  customer_id = "ada";
  request_id = "r9";
  reserved_tokens = pos 2;
  idempotency_key = "r9:release";
}

reserve_quota-IsBalanced_example : IsBalanced (reserve_quota busy asks_four rows).1
unfolding ◌+ℤ◌
reserve_quota-IsBalanced_example =
    reserve_quota-IsBalanced busy rows asks_four (λ n d f. f)
      (((refl, refl), tt), (refl, (refl, tt)))

abbrev after_reserve : Db
after_reserve = record {
  ledgers = record ada { tokens_reserved = pos 7 } ∷ [];
  entries = reserve_entry ada asks_four ∷ reserved_three ∷ used_five ∷ [];
  usage_events = [];
}

abbrev after_commit : Db
after_commit = record {
  ledgers = record ada { tokens_used = pos 7; tokens_reserved = pos 0 } ∷ [];
  entries = commit_entry ada commits_two rows ∷ reserved_three ∷ used_five ∷ [];
  usage_events = [];
}

abbrev after_release : Db
after_release = record {
  ledgers = record ada { tokens_reserved = pos 1 } ∷ [];
  entries = release_entry ada releases_two ∷ reserved_three ∷ used_five ∷ [];
  usage_events = [];
}

reserve_tx-within_limit_example :
    (l' : Ledger) × (find_ledger "ada" after_reserve ≡ some l')
    × Moved (reserve_ledger quiet asks_four rows).0 (pos 0) (pos 4) l'
    × (l'.tokens_used +ℤ l'.tokens_reserved ≤ℤ pos 20)
unfolding reserve_tx find_entry find_ledger create_entry update_ledger adjust upsert_ledger
    new_ledger would_exceed_quota ◌+ℤ◌
reserve_tx-within_limit_example =
    reserve_tx-within_limit quiet asks_four rows (reserve_entry ada asks_four) after_reserve refl
      refl refl

abbrev job : UsageJob
job = record {
  customer_id = "ada";
  api_key_id = "k1";
  hosted_model_id = some "";
  model_slug = "llama";
  prompt_tokens = 3;
  completion_tokens = 2;
  latency_ms = 40;
  request_id = "r0";
  idempotency_key = "r0";
  inference_request_id = none;
}

persist_usage_event-counts_once_example :
    ((persist_usage_event quiet job rows).ledgers ≡ rows.ledgers)
    × ((persist_usage_event quiet job rows).entries ≡ rows.entries)
unfolding find_entry find_ledger
persist_usage_event-counts_once_example =
    persist_usage_event-counts_once quiet job rows ada used_five refl refl

-- The request "r2" commits three of the four tokens that it has reserved.
abbrev commits_three : CommitQuotaInput
commits_three = record {
  customer_id = "ada";
  request_id = "r2";
  actual_tokens = pos 3;
  idempotency_key = "r2:usage:commit";
}

abbrev after_commit_three : Db
after_commit_three = record {
  ledgers = record ada { tokens_used = pos 8; tokens_reserved = pos 3 } ∷ [];
  entries = commit_entry ada commits_three after_reserve ∷ after_reserve.entries;
  usage_events = [];
}

abbrev releases_four : ReleaseQuotaInput
releases_four = record {
  customer_id = "ada";
  request_id = "r2";
  reserved_tokens = pos 4;
  idempotency_key = "r2:release";
}

abbrev after_release_four : Db
after_release_four = record {
  ledgers = ada ∷ [];
  entries =
      release_entry (record ada { tokens_reserved = pos 7 }) releases_four ∷ after_reserve.entries;
  usage_events = [];
}
