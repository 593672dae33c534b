-- ===== src/Quota/Runs.antt =====
-- The loop `serializable` of apps/gateway/src/lib/quotaLedger.ts and the recovery from P2002: what a
-- transaction keeps is kept by the whole call, whatever the other clients and the database do.
use Prim.Native.String.{String}
use modelforge_ai.Base.{ℕ, zero, suc, ◌≡◌, inl, inr, some, Option-cases}
use modelforge_ai.Base.Result.{Result, ok, err, Result-cases}
use modelforge_ai.Quota.Tables.{
  LedgerEntry, Db, QuotaError, write_conflict, unique_violation, find_entry,
}
use modelforge_ai.Quota.Operations.{
  World, retry_on_conflict, attempt_once, serializable, recover, run, reserve_quota, commit_quota,
  release_quota, ReserveQuotaInput, CommitQuotaInput, ReleaseQuotaInput, reserve_tx, commit_tx,
  release_tx,
}
use modelforge_ai.Quota.Balance.{
  IsBalanced, Unused, reserve_tx-IsBalanced, commit_tx-IsBalanced, release_tx-IsBalanced,
}

-- What holds of the database after a call that gives a value, or throws.
abbrev pub After {ℓ} :
    {A : Type 0} → (Db → Type ℓ) → (A → Db → Type ℓ) → Result QuotaError A × Db → Type ℓ
After P Q (ok a, db) = Q a db
After P Q (err e, db) = P db

module _ {A : Type 0} (w : World) (operation : Db → Result QuotaError (A × Db)) (P : Db → Type 0)
    (Q : A → Db → Type 0) (others : (n : ℕ) (db : Db) → P db → P (w.others n db))
    (keeps : (db : Db) (a : A) (db' : Db) → P db → operation db ≡ ok (a, db') → Q a db') where
  attempt_once-After : (n : ℕ) (db : Db) → P db → After P Q (attempt_once w operation n db)
  unfolding attempt_once
  attempt_once-After n db p = elim (Option-cases (w.aborts n)) [
    | inr (e, aborted) ↦ rw (aborted, attempt_once) (others n db p)
    | inl runs ↦ elim (Result-cases (operation (w.others n db))) [
      | inl ((a, db'), done) ↦ rw (runs, attempt_once, done) (keeps _ a db' (others n db p) done)
      | inr (e, failed) ↦ rw (runs, attempt_once, failed) (others n db p)
    ]
  ]

  retry-After :
      (again : Db → Result QuotaError A × Db)
      → ((db : Db) → P db → After P Q (again db))
      → (r : Result QuotaError A × Db) → After P Q r
      → After P Q (retry_on_conflict again r)
  retry-After again h (ok a, db) q = q
  retry-After again h (err write_conflict, db) p = h db p
  retry-After again h (err _, db) p = p

  serializable-After :
      (left n : ℕ) (db : Db) → P db → After P Q (serializable w operation left n db)
  unfolding serializable
  serializable-After zero n db p = attempt_once-After n db p
  serializable-After (suc left) n db p =
      retry-After _ (serializable-After left (suc n)) (attempt_once w operation n db)
        (attempt_once-After n db p)

module _ (key : String) (P : Db → Type 0) (Q : LedgerEntry → Db → Type 0)
    (recovers : (db : Db) (e : LedgerEntry) → P db → find_entry key db ≡ some e → Q e db) where
  recover-After : (r : Result QuotaError LedgerEntry × Db) → After P Q r → After P Q (recover key r)
  unfolding recover
  recover-After (ok a, db) q = q
  recover-After (err unique_violation, db) p = elim (Option-cases (find_entry key db)) [
    | inl missing ↦ rw (missing, recover) p
    | inr (e, found) ↦ rw (found, recover) (recovers db e p found)
  ]
  recover-After (err _, db) p = p

  -- What holds after every attempt holds after the call.
  pub run-After :
      (w : World) (operation : Db → Result QuotaError (LedgerEntry × Db))
      → ((n : ℕ) (db : Db) → P db → P (w.others n db))
      → ((db : Db) (a : LedgerEntry) (db' : Db) → P db → operation db ≡ ok (a, db') → Q a db')
      → (db : Db) → P db
      → After P Q (run w key operation db)
  unfolding run
  run-After w operation others keeps db p =
      recover-After _ (serializable-After w operation P Q others keeps 2 0 db p)

After-weaken :
    {A : Type 0} (P Q : Db → Type 0)
    → ((db : Db) → P db → Q db)
    → (r : Result QuotaError A × Db) → After P (λ _. Q) r
    → Q r.1
After-weaken P Q weaken (ok a, db) q = q
After-weaken P Q weaken (err e, db) p = weaken db p

module _ (w : World) (db : Db) where
  abbrev pub Fresh : Db → Type 0
  Fresh d = IsBalanced d × Unused w.new_id d.entries

  -- Whatever the number of attempts and however each ends, `reserveQuota` leaves every ledger's
  -- balances equal to the sums of its entries' deltas, if they were so before, if what other clients
  -- commit between the attempts keeps that, and if the id generated for a new ledger is unused.
  pub reserve_quota-IsBalanced :
      (i : ReserveQuotaInput)
      → ((n : ℕ) (d : Db) → Fresh d → Fresh (w.others n d))
      → Fresh db
      → IsBalanced (reserve_quota w i db).1
  unfolding reserve_quota
  reserve_quota-IsBalanced i others fresh =
      After-weaken Fresh IsBalanced (λ d f. f.0) _
        (run-After i.idempotency_key Fresh (λ _. IsBalanced) (λ d e f _. f.0) w (reserve_tx w i)
          others (λ d a d' f h. reserve_tx-IsBalanced d f.0 w i f.1 h) db fresh)

  module _ (others : (n : ℕ) (d : Db) → IsBalanced d → IsBalanced (w.others n d)) where
    -- `commitQuota` keeps every ledger's balances equal to the sums of its entries' deltas, on every
    -- path, if what other clients commit between the attempts keeps that.
    pub commit_quota-IsBalanced :
        (i : CommitQuotaInput) → IsBalanced db → IsBalanced (commit_quota w i db).1
    unfolding commit_quota
    commit_quota-IsBalanced i b =
        After-weaken IsBalanced IsBalanced (λ d p. p) _
          (run-After i.idempotency_key IsBalanced (λ _. IsBalanced) (λ d e p _. p) w (commit_tx i)
            others (λ d a d' p h. commit_tx-IsBalanced d p i h) db b)

    -- `releaseQuota` keeps every ledger's balances equal to the sums of its entries' deltas, on every
    -- path, if what other clients commit between the attempts keeps that.
    pub release_quota-IsBalanced :
        (i : ReleaseQuotaInput) → IsBalanced db → IsBalanced (release_quota w i db).1
    unfolding release_quota
    release_quota-IsBalanced i b =
        After-weaken IsBalanced IsBalanced (λ d p. p) _
          (run-After i.idempotency_key IsBalanced (λ _. IsBalanced) (λ d e p _. p) w (release_tx i)
            others (λ d a d' p h. release_tx-IsBalanced d p i h) db b)
