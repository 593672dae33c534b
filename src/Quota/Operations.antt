-- ===== src/Quota/Operations.antt =====
-- reserveQuota, commitQuota and releaseQuota of apps/gateway/src/lib/quotaLedger.ts.
-- Each is a transaction (`…_tx`: a function of the database that throws or gives the new rows; what
-- throws is rolled back), run by `serializable` at most three times, with the recovery from P2002.
-- The other clients of the database act between the attempts, and the database may abort an attempt
-- with an error of its own: both are given by a `World`.
use Prim.Native.String.{String}
use modelforge_ai.Base.{
  ℕ, zero, suc, ◌+◌, ◌*◌, Bool, ◌&&◌, Option, none, some, List, [], ◌∷◌, if◌then◌else◌,
}
use modelforge_ai.Base.Int.{ℤ, pos, ◌+ℤ◌, ◌-ℤ◌, ltb_ℤ}
use modelforge_ai.Base.Text.{◌==◌, text_eq}
use modelforge_ai.Base.Result.{Result, ok, err, ◌>>=◌, ◌>>◌, throw_if}
use modelforge_ai.Quota.Tables.{
  Ledger, LedgerEntry, Db, Reason, QuotaError, quota_exceeded, unique_violation, write_conflict,
  record_not_found, find_entry, find_ledger, create_entry, update_ledger, upsert_ledger, new_ledger,
}

unfoldable pub would_exceed_quota : ℤ → ℤ → ℤ → ℤ → Bool
would_exceed_quota used reserved estimate limit =
    ltb_ℤ (pos 0) limit && ltb_ℤ limit (used +ℤ reserved +ℤ estimate)

pub record World : Type 0 where
  -- What the other clients commit before an attempt, by the attempt's number.
  pub others : ℕ → Db → Db
  -- The error with which the database aborts an attempt.
  pub aborts : ℕ → Option QuotaError
  -- The id that the database gives a new ledger, and `Date.now()`.
  pub new_id : String
  pub now : ℕ

-- `catch (error)` of the loop: an attempt aborted by P2034 is made again, other errors are thrown.
abbrev pub retry_on_conflict {ℓ} :
    {A : Type ℓ}
    → (Db → Result QuotaError A × Db)
    → Result QuotaError A × Db
    → Result QuotaError A × Db
retry_on_conflict again (ok a, db) = (ok a, db)
retry_on_conflict again (err write_conflict, db) = again db
retry_on_conflict again (err e, db) = (err e, db)

module _ {A : Type 0} (w : World) (operation : Db → Result QuotaError (A × Db)) where
  -- One `await operation()`: the database afterwards, and what it gives or throws.
  unfoldable pub attempt_once : ℕ → Db → Result QuotaError A × Db
  attempt_once attempt db =
      let db' = w.others attempt db in
      elim (w.aborts attempt) [
        | some e ↦ (err e, db')
        | none ↦ elim (operation db') [ ok (a, db'') ↦ (ok a, db'') | err e ↦ (err e, db') ]
      ]

  -- The loop `for (let attempt = 0; ; attempt += 1)`; the first number is what `attempt < 2` leaves.
  unfoldable pub serializable : ℕ → ℕ → Db → Result QuotaError A × Db
  serializable zero attempt db = attempt_once attempt db
  serializable (suc left) attempt db =
      retry_on_conflict (serializable left (suc attempt)) (attempt_once attempt db)

-- `catch (error)`: P2002 means that another client has written the entry, which is read back.
unfoldable pub recover :
    String → Result QuotaError LedgerEntry × Db → Result QuotaError LedgerEntry × Db
recover key (err unique_violation, db) = elim (find_entry key db) [
  | some e ↦ (ok e, db)
  | none ↦ (err record_not_found, db)
]
recover key other = other

-- The three functions run their transaction alike.
unfoldable pub run :
    World
    → String
    → (Db → Result QuotaError (LedgerEntry × Db))
    → Db
    → Result QuotaError LedgerEntry × Db
run w key operation db = recover key (serializable w operation 2 0 db)

-- 30 days in milliseconds.
abbrev pub period_ms : ℕ
period_ms = 30 * 86_400_000

pub record ReserveQuotaInput : Type 0 where
  pub customer_id : String
  pub request_id : String
  pub estimated_tokens : ℤ
  pub idempotency_key : String
  pub limit : ℤ
  pub period_start : Option ℕ
  pub period_end : Option ℕ

abbrev pub or_default : Option ℕ → ℕ → ℕ
or_default none d = d
or_default (some t) d = t

-- The upsert of `reserveQuota`: the customer's ledger, and the database that has it.
abbrev pub reserve_ledger : World → ReserveQuotaInput → Db → Ledger × Db
reserve_ledger w input db =
    upsert_ledger
      (new_ledger w.new_id input.customer_id (or_default input.period_start w.now)
        (or_default input.period_end (w.now + period_ms)))
      db

-- Whether the estimate does not fit the ledger.
abbrev pub over_limit : Ledger → ReserveQuotaInput → Bool
over_limit l input =
    would_exceed_quota l.tokens_used l.tokens_reserved input.estimated_tokens input.limit

abbrev pub reserve_entry : Ledger → ReserveQuotaInput → LedgerEntry
reserve_entry l input = record {
  ledger_id = l.id;
  idempotency_key = input.idempotency_key;
  delta_tokens = pos 0;
  reserved_delta = input.estimated_tokens;
  reason = Reason.reserve;
  request_id = input.request_id;
}

unfoldable pub reserve_tx : World → ReserveQuotaInput → Db → Result QuotaError (LedgerEntry × Db)
reserve_tx w input db = elim (find_entry input.idempotency_key db) [
  | some existing ↦ ok (existing, db)
  | none ↦ do
    let up = reserve_ledger w input db
    throw_if (over_limit up.0 input) quota_exceeded
    db' ← create_entry (reserve_entry up.0 input) up.1
    ok (reserve_entry up.0 input, update_ledger up.0.id (pos 0) input.estimated_tokens db')
]

unfoldable pub reserve_quota : World → ReserveQuotaInput → Db → Result QuotaError LedgerEntry × Db
reserve_quota w input = run w input.idempotency_key (reserve_tx w input)

-- `_sum: { reservedDelta: true }` over the entries of a ledger that name a request.
unfoldable pub reserved_for : String → String → List LedgerEntry → ℤ
reserved_for id request [] = pos 0
reserved_for id request (e ∷ es) =
    let rest = reserved_for id request es in
    if e.ledger_id == id && e.request_id == request then e.reserved_delta +ℤ rest else rest

pub record CommitQuotaInput : Type 0 where
  pub customer_id : String
  pub request_id : String
  pub actual_tokens : ℤ
  pub idempotency_key : String

-- `reserved > 0n ? reserved : 0n`
abbrev pub commit_release : Ledger → CommitQuotaInput → Db → ℤ
commit_release ledger input db =
    let reserved = reserved_for ledger.id input.request_id db.entries in
    if ltb_ℤ (pos 0) reserved then reserved else pos 0

abbrev pub commit_entry : Ledger → CommitQuotaInput → Db → LedgerEntry
commit_entry ledger input db = record {
  ledger_id = ledger.id;
  idempotency_key = input.idempotency_key;
  delta_tokens = input.actual_tokens;
  reserved_delta = pos 0 -ℤ commit_release ledger input db;
  reason = Reason.commit;
  request_id = input.request_id;
}

unfoldable pub commit_tx : CommitQuotaInput → Db → Result QuotaError (LedgerEntry × Db)
commit_tx input db = elim (find_entry input.idempotency_key db) [
  | some existing ↦ ok (existing, db)
  | none ↦ elim (find_ledger input.customer_id db) [
    | none ↦ err record_not_found
    | some ledger ↦ do
      let entry = commit_entry ledger input db
      db' ← create_entry entry db
      ok (
        entry,
        update_ledger ledger.id input.actual_tokens (pos 0 -ℤ commit_release ledger input db) db',
      )
  ]
]

unfoldable pub commit_quota : World → CommitQuotaInput → Db → Result QuotaError LedgerEntry × Db
commit_quota w input = run w input.idempotency_key (commit_tx input)

pub record ReleaseQuotaInput : Type 0 where
  pub customer_id : String
  pub request_id : String
  pub reserved_tokens : ℤ
  pub idempotency_key : String

-- `reserved > ledger.tokensReserved ? ledger.tokensReserved : reserved`
abbrev pub release_amount : Ledger → ReleaseQuotaInput → ℤ
release_amount ledger input =
    if ltb_ℤ ledger.tokens_reserved input.reserved_tokens
    then ledger.tokens_reserved
    else input.reserved_tokens

abbrev pub release_entry : Ledger → ReleaseQuotaInput → LedgerEntry
release_entry ledger input = record {
  ledger_id = ledger.id;
  idempotency_key = input.idempotency_key;
  delta_tokens = pos 0;
  reserved_delta = pos 0 -ℤ release_amount ledger input;
  reason = Reason.release;
  request_id = input.request_id;
}

unfoldable pub release_tx : ReleaseQuotaInput → Db → Result QuotaError (LedgerEntry × Db)
release_tx input db = elim (find_entry input.idempotency_key db) [
  | some existing ↦ ok (existing, db)
  | none ↦ elim (find_ledger input.customer_id db) [
    | none ↦ err record_not_found
    | some ledger ↦ do
      let entry = release_entry ledger input
      db' ← create_entry entry db
      ok (entry, update_ledger ledger.id (pos 0) (pos 0 -ℤ release_amount ledger input) db')
  ]
]

unfoldable pub release_quota : World → ReleaseQuotaInput → Db → Result QuotaError LedgerEntry × Db
release_quota w input = run w input.idempotency_key (release_tx input)
