-- ===== src/Quota/Post.antt =====
-- What a successful transaction of apps/gateway/src/lib/quotaLedger.ts has done: it has found the
-- entry of its key, or it has posted a new one, which is an entry and the update of its ledger.
use Prim.Native.String.{String}
use modelforge_ai.Base.{◌≡◌, ◌⊎◌, inl, inr, false, none, some, ◌∷◌, arith, Bool-cases, Option-cases}
use modelforge_ai.Base.Result.{Result, ok, ◌>>=◌}
use modelforge_ai.Quota.Tables.{
  Ledger, LedgerEntry, Db, find_entry, find_ledger, create_entry, update_ledger, QuotaError,
}
use modelforge_ai.Quota.Operations.{
  World, ReserveQuotaInput, reserve_tx, CommitQuotaInput, commit_tx, reserve_ledger, over_limit,
  reserve_entry, commit_entry, release_entry, ReleaseQuotaInput, release_tx,
}

-- The database after an entry and the increments of its ledger by the entry's deltas.
unfoldable pub posted : LedgerEntry → Db → Db
unfolding update_ledger
posted e db =
    update_ledger e.ledger_id e.delta_tokens e.reserved_delta
      (record db { entries = e ∷ db.entries })

abbrev post : LedgerEntry → Db → Result QuotaError (LedgerEntry × Db)
post e db = do
  db' ← create_entry e db
  ok (e, update_ledger e.ledger_id e.delta_tokens e.reserved_delta db')

pub record Posted (e : LedgerEntry) (db : Db) (r : LedgerEntry) (db' : Db) : Type 0 where
  pub is_entry : r ≡ e
  pub is_posted : db' ≡ posted e db

post_lem :
    (e : LedgerEntry) (db : Db) {r : LedgerEntry} {db' : Db}
    → post e db ≡ ok (r, db')
    → Posted e db r db'
unfolding posted create_entry
post_lem e db {r} {db'} h = ground arith

module _ (key : String) (db : Db) (r : LedgerEntry) (db' : Db) where
  -- The entry of the key is given back and nothing is written.
  pub record Found : Type 0 where
    pub found : find_entry key db ≡ some r
    pub same : db' ≡ db

module _ (w : World) (i : ReserveQuotaInput) (db : Db) (r : LedgerEntry) (db' : Db) where
  pub record Reserved : Type 0 where
    pub fresh_key : find_entry i.idempotency_key db ≡ none
    pub within : over_limit (reserve_ledger w i db).0 i ≡ false
    pub written : Posted (reserve_entry (reserve_ledger w i db).0 i) (reserve_ledger w i db).1 r db'

  pub reserve_tx_cases :
      reserve_tx w i db ≡ ok (r, db') → Found i.idempotency_key db r db' ⊎ Reserved
  unfolding reserve_tx
  reserve_tx_cases h = elim (Option-cases (find_entry i.idempotency_key db)) [
    | inr (e, found) ↦ inl (ground arith)
    | inl fresh ↦ elim (Bool-cases (over_limit (reserve_ledger w i db).0 i)) [
      | inl over ↦ absurd (ground arith)
      | inr within ↦ inr (record {
        fresh_key = fresh;
        within = within;
        written = post_lem _ _ (rw (fresh, reserve_tx, within) at h);
      })
    ]
  ]

module _ (i : CommitQuotaInput) (db : Db) (r : LedgerEntry) (db' : Db) where
  pub record Committed : Type 0 where
    pub ledger : Ledger
    pub fresh_key : find_entry i.idempotency_key db ≡ none
    pub of_customer : find_ledger i.customer_id db ≡ some ledger
    pub written : Posted (commit_entry ledger i db) db r db'

  pub commit_tx_cases : commit_tx i db ≡ ok (r, db') → Found i.idempotency_key db r db' ⊎ Committed
  unfolding commit_tx
  commit_tx_cases h = elim (Option-cases (find_entry i.idempotency_key db)) [
    | inr (e, found) ↦ inl (ground arith)
    | inl fresh ↦ elim (Option-cases (find_ledger i.customer_id db)) [
      | inl missing ↦ absurd (ground arith)
      | inr (l, found) ↦ inr (record {
        ledger = l;
        fresh_key = fresh;
        of_customer = found;
        written = post_lem _ _ (rw (fresh, commit_tx, found) at h);
      })
    ]
  ]

module _ (i : ReleaseQuotaInput) (db : Db) (r : LedgerEntry) (db' : Db) where
  pub record Released : Type 0 where
    pub ledger : Ledger
    pub fresh_key : find_entry i.idempotency_key db ≡ none
    pub of_customer : find_ledger i.customer_id db ≡ some ledger
    pub written : Posted (release_entry ledger i) db r db'

  pub release_tx_cases : release_tx i db ≡ ok (r, db') → Found i.idempotency_key db r db' ⊎ Released
  unfolding release_tx
  release_tx_cases h = elim (Option-cases (find_entry i.idempotency_key db)) [
    | inr (e, found) ↦ inl (ground arith)
    | inl fresh ↦ elim (Option-cases (find_ledger i.customer_id db)) [
      | inl missing ↦ absurd (ground arith)
      | inr (l, found) ↦ inr (record {
        ledger = l;
        fresh_key = fresh;
        of_customer = found;
        written = post_lem _ _ (rw (fresh, release_tx, found) at h);
      })
    ]
  ]
