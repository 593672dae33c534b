-- ===== src/Quota/Cycle.antt =====
-- The life of one request in the ledger (apps/gateway/src/lib/quotaLedger.ts, usage.ts): it reserves,
-- and then commits, or releases.
use Prim.Native.String.{String}
use modelforge_ai.Base.{
  ◌≡◌, refl, sym, ap, ◌∙◌, subst, inl, inr, arith, true, false, none, some, List, [], ◌∷◌,
}
use modelforge_ai.Base.Int.{ℤ, pos, ◌+ℤ◌, ◌-ℤ◌, ◌≤ℤ◌, ltb_ℤ, int_laws, +ℤ_parts, eq_of_parts}
use modelforge_ai.Base.Text.{◌==◌, text_eq, beq_refl}
use modelforge_ai.Base.Preds.{All}
use modelforge_ai.Base.Result.{ok}
use modelforge_ai.Quota.Tables.{
  Ledger, LedgerEntry, Db, find_entry, find_ledger, create_entry, upsert_ledger, new_ledger,
  update_ledger,
}
use modelforge_ai.Quota.Operations.{
  World, reserve_ledger, ReserveQuotaInput, CommitQuotaInput, ReleaseQuotaInput, reserve_tx,
  commit_tx, release_tx, reserved_for, commit_release, release_amount, reserve_entry, commit_entry,
  release_entry,
}
use modelforge_ai.Quota.Post.{posted, reserve_tx_cases}
use modelforge_ai.Quota.Amounts.{reserve_tx-within_limit, commit_tx-settles, release_tx-moves}

-- The ledger has no entry of the request, and none under the two keys, which differ.
pub record IsFresh (request key next_key : String) (db : Db) : Type 0 where
  pub no_entry : All (λ (e : LedgerEntry). (e.request_id == request) ≡ false) db.entries
  pub new_key : find_entry key db ≡ none
  pub new_next_key : find_entry next_key db ≡ none
  pub apart : (key == next_key) ≡ false

-- A commit and a release under a new key, for a customer who has a ledger, do not throw.
pub commit_tx_total :
    (c : CommitQuotaInput) (db : Db) (l : Ledger)
    → find_entry c.idempotency_key db ≡ none
    → find_ledger c.customer_id db ≡ some l
    → (r : LedgerEntry) × (db' : Db) × (commit_tx c db ≡ ok (r, db'))
unfolding commit_tx create_entry
commit_tx_total c db l new of =
    let e = commit_entry l c db in
    (
      e,
      update_ledger l.id c.actual_tokens (pos 0 -ℤ commit_release l c db)
          (record db { entries = e ∷ db.entries }),
      rw (commit_tx, new, of, create_entry, new) refl,
    )

pub release_tx_total :
    (c : ReleaseQuotaInput) (db : Db) (l : Ledger)
    → find_entry c.idempotency_key db ≡ none
    → find_ledger c.customer_id db ≡ some l
    → (r : LedgerEntry) × (db' : Db) × (release_tx c db ≡ ok (r, db'))
unfolding release_tx create_entry
release_tx_total c db l new of =
    let e = release_entry l c in
    (
      e,
      update_ledger l.id (pos 0) (pos 0 -ℤ release_amount l c)
          (record db { entries = e ∷ db.entries }),
      rw (release_tx, new, of, create_entry, new) refl,
    )

reserved_for-absent :
    (id request : String) (es : List LedgerEntry)
    → All (λ (e : LedgerEntry). (e.request_id == request) ≡ false) es
    → reserved_for id request es ≡ pos 0
unfolding reserved_for
reserved_for-absent id request [] h = refl
reserved_for-absent id request (e ∷ es) (other, h) =
    ground (arith, other, reserved_for-absent id request es h)

reserve_ledger-entries :
    (w : World) (i : ReserveQuotaInput) (db : Db) → (reserve_ledger w i db).1.entries ≡ db.entries
unfolding upsert_ledger new_ledger
reserve_ledger-entries w i db = ground arith

pub no_change : (a : ℤ) → a +ℤ pos 0 ≡ a
no_change a = eq_of_parts _ _ (omega int_laws)

taken_back : (a b : ℤ) → a +ℤ b +ℤ (pos 0 -ℤ b) ≡ a
taken_back a b = eq_of_parts _ _ (omega int_laws)

held_enough : (a b : ℤ) → pos 0 ≤ℤ a → ltb_ℤ (a +ℤ b) b ≡ false
held_enough a b h = ground (arith, +ℤ_parts a b)

-- The customer's ledger before a reservation: the one that is there, or a new one.
abbrev pub ledger_before : World → ReserveQuotaInput → Db → Ledger
ledger_before w i db = (reserve_ledger w i db).0

module _ (w : World) (i : ReserveQuotaInput) (db : Db) (r : LedgerEntry) (db' : Db)
    (next_key : String) (fresh : IsFresh i.request_id i.idempotency_key next_key db)
    (limited : ltb_ℤ (pos 0) i.limit ≡ true) (asked : ltb_ℤ (pos 0) i.estimated_tokens ≡ true)
    (h : reserve_tx w i db ≡ ok (r, db')) where
  entries_after : db'.entries ≡ reserve_entry (ledger_before w i db) i ∷ db.entries
  unfolding posted update_ledger
  entries_after = elim (reserve_tx_cases w i db r db' h) [
    | inl f ↦ absurd (let e : none ≡ some r = sym fresh.new_key ∙ f.found in cc)
    | inr p ↦
        ap (λ d. d.entries) p.written.is_posted
        ∙ ap (λ es. reserve_entry (ledger_before w i db) i ∷ es) (reserve_ledger-entries w i db)
  ]

  pub next_key_new : find_entry next_key db' ≡ none
  unfolding find_entry
  next_key_new = rw (entries_after, fresh.apart) fresh.new_next_key

  holds_estimate :
      reserved_for (ledger_before w i db).id i.request_id db'.entries ≡ i.estimated_tokens
  unfolding reserved_for
  holds_estimate =
      rw
        (
          entries_after,
          beq_refl (ledger_before w i db).id,
          beq_refl i.request_id,
          reserved_for-absent (ledger_before w i db).id i.request_id db.entries fresh.no_entry,
        )
        (eq_of_parts _ _ (omega int_laws))

  -- A request that reserves and then commits has used the actual tokens and holds nothing: the reserved
  -- tokens of its customer are what they were.
  pub reserve_tx-commit_tx :
      (c : CommitQuotaInput) (r' : LedgerEntry) (db'' : Db)
      → c.customer_id ≡ i.customer_id
      → c.request_id ≡ i.request_id
      → c.idempotency_key ≡ next_key
      → commit_tx c db' ≡ ok (r', db'')
      → (l : Ledger) × (find_ledger i.customer_id db'' ≡ some l)
        × (l.tokens_used ≡ (ledger_before w i db).tokens_used +ℤ c.actual_tokens)
        × (l.tokens_reserved ≡ (ledger_before w i db).tokens_reserved)
  reserve_tx-commit_tx c r' db'' customer request key k =
      let (l, found, (used, reserved, id), _) =
        reserve_tx-within_limit w i db r db' limited fresh.new_key h in
      let (l', found', (used', reserved', _), _) =
        commit_tx-settles c db' r' db'' l (rw key next_key_new) (rw customer found) k in
      let held : reserved_for l.id c.request_id db'.entries ≡ i.estimated_tokens =
        rw (request, id) holds_estimate in
      let released : commit_release l c db' ≡ i.estimated_tokens = rw held (rw asked refl) in
      (
        l',
        subst (λ s. find_ledger s db'' ≡ some l') customer found',
        used'
            ∙ ap (λ n. n +ℤ c.actual_tokens) (used ∙ no_change (ledger_before w i db).tokens_used),
        reserved'
            ∙ ap (λ n. n +ℤ (pos 0 -ℤ commit_release l c db')) reserved
            ∙ ap (λ n. (ledger_before w i db).tokens_reserved +ℤ i.estimated_tokens +ℤ (pos 0 -ℤ n))
                released
            ∙ taken_back (ledger_before w i db).tokens_reserved i.estimated_tokens,
      )

  -- A request that reserves and then releases what it has reserved leaves its customer's balances as
  -- they were, if the reserved tokens were not negative.
  pub reserve_tx-release_tx :
      (c : ReleaseQuotaInput) (r' : LedgerEntry) (db'' : Db)
      → pos 0 ≤ℤ (ledger_before w i db).tokens_reserved
      → c.customer_id ≡ i.customer_id
      → c.reserved_tokens ≡ i.estimated_tokens
      → c.idempotency_key ≡ next_key
      → release_tx c db' ≡ ok (r', db'')
      → (l : Ledger) × (find_ledger i.customer_id db'' ≡ some l)
        × (l.tokens_used ≡ (ledger_before w i db).tokens_used)
        × (l.tokens_reserved ≡ (ledger_before w i db).tokens_reserved)
  reserve_tx-release_tx c r' db'' held customer amount key k =
      let (l, found, (used, reserved, id), _) =
        reserve_tx-within_limit w i db r db' limited fresh.new_key h in
      let (l', found', (used', reserved', _)) =
        release_tx-moves c db' r' db'' l (rw key next_key_new) (rw customer found) k in
      let released : release_amount l c ≡ i.estimated_tokens =
        rw
          (
            reserved,
            amount,
            held_enough (ledger_before w i db).tokens_reserved i.estimated_tokens held,
          )
          refl in
      (
        l',
        subst (λ s. find_ledger s db'' ≡ some l') customer found',
        used' ∙ no_change l.tokens_used ∙ used ∙ no_change (ledger_before w i db).tokens_used,
        reserved'
            ∙ ap (λ n. n +ℤ (pos 0 -ℤ release_amount l c)) reserved
            ∙ ap (λ n. (ledger_before w i db).tokens_reserved +ℤ i.estimated_tokens +ℤ (pos 0 -ℤ n))
                released
            ∙ taken_back (ledger_before w i db).tokens_reserved i.estimated_tokens,
      )
