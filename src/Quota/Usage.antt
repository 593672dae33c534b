-- ===== src/Quota/Usage.antt =====
-- The transaction of persistUsageEvent (apps/gateway/src/lib/usage.ts), which records a usage event
-- and, unless `commitQuota` has done so, counts its tokens.
use Prim.Native.String.{String, ◌++◌}
use modelforge_ai.Base.{
  ℕ, ◌+◌, ◌≡◌, inl, inr, Bool, true, false, Option, none, some, ◌∷◌, arith, if◌then◌else◌,
  Option-cases,
}
use modelforge_ai.Base.Int.{ℤ, pos}
use modelforge_ai.Base.Text.{◌==◌, text_eq, beq_refl}
use modelforge_ai.Base.Preds.{find}
use modelforge_ai.Quota.Tables.{
  Ledger, LedgerEntry, UsageEvent, Db, Reason, find_entry, find_ledger, update_ledger,
  upsert_ledger, new_ledger,
}
use modelforge_ai.Quota.Operations.{World, period_ms}
use modelforge_ai.Quota.Post.{posted}
use modelforge_ai.Quota.Balance.{IsBalanced, Unused, posted-IsBalanced, upsert_ledger-IsBalanced}

pub record UsageJob : Type 0 where
  pub customer_id : String
  pub api_key_id : String
  pub hosted_model_id : Option String
  pub model_slug : String
  pub prompt_tokens : ℕ
  pub completion_tokens : ℕ
  pub latency_ms : ℕ
  pub request_id : String
  pub idempotency_key : String
  pub inference_request_id : Option String

abbrev pub commit_key : UsageJob → String
commit_key job = job.idempotency_key ++ ":commit"

abbrev pub tokens : UsageJob → ℤ
tokens job = pos (job.prompt_tokens + job.completion_tokens)

abbrev pub or_text : Option String → String → String
or_text none d = d
or_text (some s) d = s

-- `hostedModelId || null`: the empty text is no model.
abbrev pub non_empty : Option String → Option String
non_empty none = none
non_empty (some s) = if s == "" then none else some s

abbrev pub commit_row : String → UsageJob → LedgerEntry
commit_row ledger_id job = record {
  ledger_id = ledger_id;
  idempotency_key = commit_key job;
  delta_tokens = tokens job;
  reserved_delta = pos 0;
  reason = Reason.usage_commit;
  request_id = or_text job.inference_request_id job.request_id;
}

abbrev pub event_row : UsageJob → UsageEvent
event_row job = record {
  customer_id = job.customer_id;
  api_key_id = job.api_key_id;
  model_id = non_empty job.hosted_model_id;
  model_slug = job.model_slug;
  prompt_tokens = job.prompt_tokens;
  completion_tokens = job.completion_tokens;
  latency_ms = job.latency_ms;
  request_id = job.request_id;
  idempotency_key = job.idempotency_key;
  inference_request_id = job.inference_request_id;
}

-- tx.usageEvent.findUnique({ where: { idempotencyKey } })
unfoldable pub find_usage_event : String → Db → Option UsageEvent
find_usage_event key db = find (λ e. e.idempotency_key == key) db.usage_events

-- tx.quotaLedgerEntry.createMany({ data, skipDuplicates: true }): `count === 1`, and the database.
unfoldable pub create_entry_once : LedgerEntry → Db → Bool × Db
create_entry_once e db = elim (find_entry e.idempotency_key db) [
  | none ↦ (true, record db { entries = e ∷ db.entries })
  | some _ ↦ (false, db)
]

-- tx.usageEvent.upsert({ where: { idempotencyKey }, update: {}, create }). The other unique column,
-- inferenceRequestId, is not asked for: every caller of enqueueUsage gives a job of an inference request the
-- key `<its id>:usage`, so that another event of the request has the same key.
unfoldable pub upsert_usage_event : UsageEvent → Db → Db
unfolding find_usage_event
upsert_usage_event e db = elim (find_usage_event e.idempotency_key db) [
  | none ↦ record db { usage_events = e ∷ db.usage_events }
  | some _ ↦ db
]

-- The upsert of the event, and the update of the ledger if the entry was inserted.
abbrev count_tokens : Bool → String → UsageJob → Db → Db
count_tokens inserted id job db =
    let with_event = upsert_usage_event (event_row job) db in
    if inserted then update_ledger id (tokens job) (pos 0) with_event else with_event

-- The transaction's writes, where the event is new.
unfoldable pub record_usage : World → UsageJob → Db → Db
record_usage w job db =
    let (ledger, up) =
      upsert_ledger (new_ledger w.new_id job.customer_id w.now (w.now + period_ms)) db in
    let (inserted, with_entry) = create_entry_once (commit_row ledger.id job) up in
    count_tokens inserted ledger.id job with_entry

unfoldable pub persist_usage_event : World → UsageJob → Db → Db
persist_usage_event w job db = elim (find_usage_event job.idempotency_key db) [
  | some _ ↦ db
  | none ↦ record_usage w job db
]

-- The transaction's own writes of an event leave the ledgers and the entries.
upsert_usage_event-ledgers :
    (e : UsageEvent) (db : Db)
    → ((upsert_usage_event e db).ledgers ≡ db.ledgers)
      × ((upsert_usage_event e db).entries ≡ db.entries)
unfolding upsert_usage_event
upsert_usage_event-ledgers e db = ground arith

find_usage_event-upsert :
    (e : UsageEvent) (db : Db)
    → (x : UsageEvent) × (find_usage_event e.idempotency_key (upsert_usage_event e db) ≡ some x)
unfolding upsert_usage_event
find_usage_event-upsert e db = elim (Option-cases (find_usage_event e.idempotency_key db)) [
  | inl new ↦ (e, rw (new, upsert_usage_event, beq_refl e.idempotency_key))
  | inr (x, old) ↦ (x, rw (old, upsert_usage_event) old)
]

count_tokens-found :
    (inserted : Bool) (id : String) (job : UsageJob) (db : Db)
    → (x : UsageEvent) × (find_usage_event job.idempotency_key (count_tokens inserted id job db)
        ≡ some x)
unfolding find_usage_event update_ledger
count_tokens-found true id job db = find_usage_event-upsert (event_row job) db
count_tokens-found false id job db = find_usage_event-upsert (event_row job) db

count_tokens-IsBalanced :
    (id : String) (job : UsageJob) (db : Db)
    → IsBalanced db
    → let (inserted, with_entry) = create_entry_once (commit_row id job) db in
      IsBalanced (count_tokens inserted id job with_entry)
unfolding create_entry_once update_ledger
count_tokens-IsBalanced id job db b = elim (Option-cases (find_entry (commit_key job) db)) [
  | inl new ↦
      rw (new, create_entry_once)
        (keep (record db { entries = commit_row id job ∷ db.entries })
          (unfold posted in posted-IsBalanced (commit_row id job) db b))
  | inr (e, old) ↦
      rw (old, create_entry_once)
        (let (ls, es) = upsert_usage_event-ledgers (event_row job) db in rw (ls, es) b)
]
  where
    keep :
        (d : Db)
        → IsBalanced (update_ledger id (tokens job) (pos 0) d)
        → IsBalanced (update_ledger id (tokens job) (pos 0) (upsert_usage_event (event_row job) d))
    keep d h = let (ls, es) = upsert_usage_event-ledgers (event_row job) d in rw (ls, es) h

module _ (w : World) (job : UsageJob) (db : Db) where
  -- If the commit of the job's tokens is in the ledger already, as `commitQuota` leaves it under the
  -- key `<key>:commit`, then the tokens are not counted again: ledgers and entries stay as they are.
  pub persist_usage_event-counts_once :
      (l : Ledger) (e : LedgerEntry)
      → find_entry (commit_key job) db ≡ some e
      → find_ledger job.customer_id db ≡ some l
      → ((persist_usage_event w job db).ledgers ≡ db.ledgers)
        × ((persist_usage_event w job db).entries ≡ db.entries)
  unfolding persist_usage_event record_usage upsert_ledger new_ledger create_entry_once
      upsert_usage_event
  persist_usage_event-counts_once l e known of = ground arith

  persist_usage_event_new :
      find_usage_event job.idempotency_key db ≡ none
      → persist_usage_event w job db ≡ record_usage w job db
  unfolding persist_usage_event
  persist_usage_event_new new = rw (persist_usage_event, new)

  persist_usage_event_known :
      (x : UsageEvent)
      → find_usage_event job.idempotency_key db ≡ some x
      → persist_usage_event w job db ≡ db
  unfolding persist_usage_event
  persist_usage_event_known x old = rw (persist_usage_event, old)

  persist_usage_event-found :
      (x : UsageEvent) × (find_usage_event job.idempotency_key (persist_usage_event w job db)
        ≡ some x)
  unfolding record_usage
  persist_usage_event-found = elim (Option-cases (find_usage_event job.idempotency_key db)) [
    | inl new ↦ rw (persist_usage_event_new new) (count_tokens-found _ _ job _)
    | inr (x, old) ↦ rw (persist_usage_event_known x old) (x, old)
  ]

  -- A job keeps every ledger's balances equal to the sums of its entries' deltas, if the id generated
  -- for a new ledger is unused.
  pub persist_usage_event-IsBalanced :
      Unused w.new_id db.entries → IsBalanced db → IsBalanced (persist_usage_event w job db)
  unfolding record_usage
  persist_usage_event-IsBalanced unused b =
      elim (Option-cases (find_usage_event job.idempotency_key db)) [
        | inr (x, old) ↦ rw (persist_usage_event_known x old) b
        | inl new ↦ rw (persist_usage_event_new new) (
            count_tokens-IsBalanced _ job _
              (upsert_ledger-IsBalanced w.new_id job.customer_id _ _ db unused b))
      ]

-- A job that is persisted again, at another time, changes nothing.
pub persist_usage_event-again :
    (w v : World) (job : UsageJob) (db : Db)
    → persist_usage_event v job (persist_usage_event w job db) ≡ persist_usage_event w job db
persist_usage_event-again w v job db =
    let (x, found) = persist_usage_event-found w job db in
    persist_usage_event_known v job (persist_usage_event w job db) x found
