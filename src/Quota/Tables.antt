-- ===== src/Quota/Tables.antt =====
-- The rows of the quota ledger, and the database operations that the ledger's code makes on them:
-- packages/db/prisma/schema.prisma (QuotaLedger, QuotaLedgerEntry) and the `tx` calls of
-- apps/gateway/src/lib/quotaLedger.ts. A bigint is an integer; a time is a number of milliseconds.
use Prim.Native.String.{String}
use modelforge_ai.Base.{ℕ, Option, none, some, List, ◌∷◌, map, if◌then◌else◌}
use modelforge_ai.Base.Int.{ℤ, pos, ◌+ℤ◌}
use modelforge_ai.Base.Text.{◌==◌, text_eq}
use modelforge_ai.Base.Preds.{find}
use modelforge_ai.Base.Result.{Result, ok, err}

pub record Ledger : Type 0 where
  pub id : String
  pub customer_id : String
  pub period_start : ℕ
  pub period_end : ℕ
  pub tokens_used : ℤ
  pub tokens_reserved : ℤ

pub data Reason : Type 0 where
  reserve commit release usage_commit : Reason

pub record LedgerEntry : Type 0 where
  pub ledger_id : String
  pub idempotency_key : String
  pub delta_tokens : ℤ
  pub reserved_delta : ℤ
  pub reason : Reason
  pub request_id : String

pub record UsageEvent : Type 0 where
  pub customer_id : String
  pub api_key_id : String
  pub model_id : Option String
  pub model_slug : String
  pub prompt_tokens : ℕ
  pub completion_tokens : ℕ
  pub latency_ms : ℕ
  pub request_id : String
  pub idempotency_key : String
  pub inference_request_id : Option String

pub record Db : Type 0 where
  pub ledgers : List Ledger
  pub entries : List LedgerEntry
  pub usage_events : List UsageEvent

-- What a transaction can throw: the ledger's own error, and Prisma's codes P2002, P2034 and P2025.
pub data QuotaError : Type 0 where
  quota_exceeded unique_violation write_conflict record_not_found : QuotaError
  other_error : ℕ → QuotaError

-- tx.quotaLedgerEntry.findUnique({ where: { idempotencyKey } })
unfoldable pub find_entry : String → Db → Option LedgerEntry
find_entry key db = find (λ e. e.idempotency_key == key) db.entries

-- tx.quotaLedger.findUnique({ where: { customerId } })
unfoldable pub find_ledger : String → Db → Option Ledger
find_ledger customer db = find (λ l. l.customer_id == customer) db.ledgers

-- tx.quotaLedgerEntry.create: the idempotency key is unique.
unfoldable pub create_entry : LedgerEntry → Db → Result QuotaError Db
create_entry e db = elim (find_entry e.idempotency_key db) [
  | none ↦ ok (record db { entries = e ∷ db.entries })
  | some _ ↦ err unique_violation
]

-- { increment } and { decrement } on the two balances of a ledger.
unfoldable pub adjust : String → ℤ → ℤ → Ledger → Ledger
adjust id used reserved l =
    if l.id == id
    then record l {
      tokens_used = l.tokens_used +ℤ used;
      tokens_reserved = l.tokens_reserved +ℤ reserved;
    }
    else l

-- tx.quotaLedger.update({ where: { id }, data: … })
unfoldable pub update_ledger : String → ℤ → ℤ → Db → Db
update_ledger id used reserved db = record db { ledgers = map (adjust id used reserved) db.ledgers }

-- The row that tx.quotaLedger.upsert creates; the two balances default to 0.
unfoldable pub new_ledger : String → String → ℕ → ℕ → Ledger
new_ledger id customer start end = record {
  id = id;
  customer_id = customer;
  period_start = start;
  period_end = end;
  tokens_used = pos 0;
  tokens_reserved = pos 0;
}

-- tx.quotaLedger.upsert({ where: { customerId }, update: {}, create })
unfoldable pub upsert_ledger : Ledger → Db → Ledger × Db
upsert_ledger fresh db = elim (find_ledger fresh.customer_id db) [
  | some l ↦ (l, db)
  | none ↦ (fresh, record db { ledgers = fresh ∷ db.ledgers })
]
