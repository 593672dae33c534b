-- ===== src/Quota/Keys.antt =====
-- The idempotency keys of apps/gateway/src/lib/quotaLedger.ts.
use Prim.Native.String.{String}
use modelforge_ai.Base.{◌≡◌, ap, inl, inr, none, some, subst}
use modelforge_ai.Base.Text.{beq_refl}
use modelforge_ai.Base.Result.{Result, ok}
use modelforge_ai.Quota.Tables.{LedgerEntry, Db, QuotaError, find_entry}
use modelforge_ai.Quota.Operations.{
  World, attempt_once, serializable, retry_on_conflict, recover, run, reserve_quota, commit_quota,
  release_quota, ReserveQuotaInput, CommitQuotaInput, ReleaseQuotaInput, reserve_tx, commit_tx,
  release_tx,
}
use modelforge_ai.Quota.Post.{
  posted, Found, Posted, reserve_tx_cases, commit_tx_cases, release_tx_cases,
}
use modelforge_ai.Quota.Runs.{After, run-After}

find_entry-posted :
    (e : LedgerEntry) (db : Db) → find_entry e.idempotency_key (posted e db) ≡ some e
unfolding find_entry posted
find_entry-posted e db = rw (beq_refl e.idempotency_key)

Posted-key :
    {e r : LedgerEntry} {db db' : Db}
    → Posted e db r db'
    → find_entry e.idempotency_key db' ≡ some r
Posted-key {e} {db} p = rw (p.is_entry, p.is_posted) (find_entry-posted e db)

Found-key :
    {key : String} {db db' : Db} {r : LedgerEntry}
    → Found key db r db'
    → find_entry key db' ≡ some r
Found-key f = rw f.same f.found

-- The entry given by a successful transaction is the one that its key finds afterwards.
module _ (db : Db) (r : LedgerEntry) (db' : Db) where
  reserve_tx-key :
      (w : World) (i : ReserveQuotaInput)
      → reserve_tx w i db ≡ ok (r, db')
      → find_entry i.idempotency_key db' ≡ some r
  reserve_tx-key w i h = elim (reserve_tx_cases w i db r db' h) [
    | inl f ↦ Found-key f
    | inr p ↦ Posted-key p.written
  ]

  pub commit_tx-key :
      (i : CommitQuotaInput)
      → commit_tx i db ≡ ok (r, db')
      → find_entry i.idempotency_key db' ≡ some r
  commit_tx-key i h = elim (commit_tx_cases i db r db' h) [
    | inl f ↦ Found-key f
    | inr p ↦ Posted-key p.written
  ]

  release_tx-key :
      (i : ReleaseQuotaInput)
      → release_tx i db ≡ ok (r, db')
      → find_entry i.idempotency_key db' ≡ some r
  release_tx-key i h = elim (release_tx_cases i db r db' h) [
    | inl f ↦ Found-key f
    | inr p ↦ Posted-key p.written
  ]

-- A world in which the first attempt runs undisturbed.
pub record IsQuiet (w : World) : Type 0 where
  pub no_others : (db : Db) → w.others 0 db ≡ db
  pub no_abort : w.aborts 0 ≡ none

module _ (w : World) (operation : Db → Result QuotaError (LedgerEntry × Db)) (db : Db)
    (r : LedgerEntry) (db' : Db) (q : IsQuiet w) (h : operation db ≡ ok (r, db')) where
  attempt_once_quiet : attempt_once w operation 0 db ≡ (ok r, db')
  unfolding attempt_once
  attempt_once_quiet = rw (q.no_abort, attempt_once, q.no_others db, h)

  -- An undisturbed call is its transaction.
  pub run_quiet : (key : String) → run w key operation db ≡ (ok r, db')
  unfolding run serializable recover
  run_quiet key =
      ap (λ t. recover key (retry_on_conflict (serializable w operation 1 1) t)) attempt_once_quiet

run-key :
    (w : World) (key : String) (operation : Db → Result QuotaError (LedgerEntry × Db)) (db : Db)
    → ((d : Db) (r : LedgerEntry) (d' : Db) → operation d ≡ ok (r, d') → find_entry key d' ≡ some r)
    → After (λ _. Unit {0}) (λ r d. find_entry key d ≡ some r) (run w key operation db)
run-key w key operation db keeps =
    run-After key (λ _. Unit) (λ r d. find_entry key d ≡ some r) (λ d e _ h. h) w operation
      (λ _ _ _. tt) (λ d r d' _. keeps d r d') db tt

module _ (w v : World) (q : IsQuiet v) (db : Db) (r : LedgerEntry) (db' : Db) where
  After-key :
      {key key' : String} {c : Result QuotaError LedgerEntry × Db}
      → key' ≡ key
      → After (λ _. Unit {0}) (λ e d. find_entry key d ≡ some e) c
      → c ≡ (ok r, db')
      → find_entry key' db' ≡ some r
  After-key {key} same a h =
      rw same (subst (After (λ _. Unit) (λ e d. find_entry key d ≡ some e)) h a)

  -- A repeated `reserveQuota` is answered with the entry of the first call and changes nothing: the
  -- first call may have met aborts and other clients, and the second, which the database lets run,
  -- may differ in all but the idempotency key.
  pub reserve_quota-again :
      (i j : ReserveQuotaInput)
      → j.idempotency_key ≡ i.idempotency_key
      → reserve_quota w i db ≡ (ok r, db')
      → reserve_quota v j db' ≡ (ok r, db')
  unfolding reserve_quota reserve_tx
  reserve_quota-again i j same h =
      let known =
        After-key same
          (run-key w i.idempotency_key (reserve_tx w i) db (λ d e d'. reserve_tx-key d e d' w i))
          h in
      run_quiet v (reserve_tx v j) db' r db' q (rw (known, reserve_tx)) j.idempotency_key

  -- A repeated `commitQuota` is answered with the entry of the first call and changes nothing.
  pub commit_quota-again :
      (i j : CommitQuotaInput)
      → j.idempotency_key ≡ i.idempotency_key
      → commit_quota w i db ≡ (ok r, db')
      → commit_quota v j db' ≡ (ok r, db')
  unfolding commit_quota commit_tx
  commit_quota-again i j same h =
      let known =
        After-key same
          (run-key w i.idempotency_key (commit_tx i) db (λ d e d'. commit_tx-key d e d' i)) h in
      run_quiet v (commit_tx j) db' r db' q (rw (known, commit_tx)) j.idempotency_key

  -- A repeated `releaseQuota` is answered with the entry of the first call and changes nothing.
  pub release_quota-again :
      (i j : ReleaseQuotaInput)
      → j.idempotency_key ≡ i.idempotency_key
      → release_quota w i db ≡ (ok r, db')
      → release_quota v j db' ≡ (ok r, db')
  unfolding release_quota release_tx
  release_quota-again i j same h =
      let known =
        After-key same
          (run-key w i.idempotency_key (release_tx i) db (λ d e d'. release_tx-key d e d' i)) h in
      run_quiet v (release_tx j) db' r db' q (rw (known, release_tx)) j.idempotency_key
