-- ===== src/Quota/Amounts.antt =====
-- What the operations of apps/gateway/src/lib/quotaLedger.ts do to the balances.
use Prim.Native.String.{String}
use modelforge_ai.Base.{
  ◌≡◌, refl, sym, ◌∙◌, inl, inr, true, false, none, some, List, [], ◌∷◌, map, arith, subst,
  if◌then◌else◌, Bool-cases,
}
use modelforge_ai.Base.Int.{
  ℤ, pos, ◌+ℤ◌, ◌-ℤ◌, ◌≤ℤ◌, ltb_ℤ, int_laws, +ℤ_parts, -ℤ_parts, eq_of_parts,
}
use modelforge_ai.Base.Text.{◌==◌, text_eq, beq_refl}
use modelforge_ai.Base.Preds.{find}
use modelforge_ai.Base.Result.{ok}
use modelforge_ai.Quota.Tables.{
  Ledger, LedgerEntry, Db, find_entry, find_ledger, upsert_ledger, adjust, new_ledger,
}
use modelforge_ai.Quota.Operations.{
  World, would_exceed_quota, reserve_ledger, ReserveQuotaInput, CommitQuotaInput, ReleaseQuotaInput,
  reserve_tx, commit_tx, release_tx, reserved_for, commit_release, release_amount, reserve_entry,
  commit_entry, release_entry,
}
use modelforge_ai.Quota.Post.{
  posted, Found, Posted, reserve_tx_cases, commit_tx_cases, release_tx_cases,
}

-- A customer's ledger after the increments of the ledger with an id.
find_ledger-map :
    (customer id : String) (u r : ℤ) (ls : List Ledger) (l : Ledger)
    → find (λ l. l.customer_id == customer) ls ≡ some l
    → find (λ l. l.customer_id == customer) (map (adjust id u r) ls) ≡ some (adjust id u r l)
unfolding adjust
find_ledger-map customer id u r [] l h = cc
find_ledger-map customer id u r (x ∷ xs) l h = ground (arith, find_ledger-map customer id u r xs l)

-- Both balances of a ledger, moved by an entry's deltas.
abbrev pub Moved : Ledger → ℤ → ℤ → Ledger → Type 0
Moved l used reserved l' =
    (l'.tokens_used ≡ l.tokens_used +ℤ used)
    × (l'.tokens_reserved ≡ l.tokens_reserved +ℤ reserved)
    × (l'.id ≡ l.id)

find_ledger-posted :
    (customer : String) (e : LedgerEntry) (db : Db) (l : Ledger)
    → find_ledger customer db ≡ some l
    → e.ledger_id ≡ l.id
    → (l' : Ledger) × (find_ledger customer (posted e db) ≡ some l')
      × Moved l e.delta_tokens e.reserved_delta l'
unfolding find_ledger posted adjust
find_ledger-posted customer e db l h same = (
  adjust e.ledger_id e.delta_tokens e.reserved_delta l,
  find_ledger-map customer e.ledger_id e.delta_tokens e.reserved_delta db.ledgers l h,
  rw (same, beq_refl l.id) (refl, refl, refl),
)

reserve_ledger_found :
    (w : World) (i : ReserveQuotaInput) (db : Db)
    → find_ledger i.customer_id (reserve_ledger w i db).1 ≡ some (reserve_ledger w i db).0
unfolding upsert_ledger find_ledger new_ledger
reserve_ledger_found w i db = ground (arith, beq_refl i.customer_id)

not_lt : (a b : ℤ) → ltb_ℤ a b ≡ false → b ≤ℤ a
not_lt a b h = ground arith

fits-le :
    (u r e limit : ℤ)
    → would_exceed_quota u r e limit ≡ false
    → ltb_ℤ (pos 0) limit ≡ true
    → (u +ℤ pos 0) +ℤ (r +ℤ e) ≤ℤ limit
unfolding would_exceed_quota
fits-le u r e limit h positive =
    let fits = not_lt limit (u +ℤ r +ℤ e) (ground arith) in omega (int_laws, fits)

settle : (x : ℤ) → (pos 0 -ℤ (if ltb_ℤ (pos 0) x then x else pos 0)) +ℤ x ≤ℤ pos 0
settle x = elim (Bool-cases (ltb_ℤ (pos 0) x)) [
  | inl positive ↦ rw positive (omega int_laws)
  | inr other ↦ rw other (let below = not_lt (pos 0) x other in omega (int_laws, below))
]

release-nonneg :
    (held asked : ℤ) → pos 0 ≤ℤ held +ℤ (pos 0 -ℤ (if ltb_ℤ held asked then held else asked))
release-nonneg held asked = elim (Bool-cases (ltb_ℤ held asked)) [
  | inl more ↦ rw more (omega int_laws)
  | inr less ↦ rw less (let below = not_lt held asked less in omega (int_laws, below))
]

sub-lt : (held x : ℤ) → ltb_ℤ (pos 0) x ≡ true → ltb_ℤ (held +ℤ (pos 0 -ℤ x)) held ≡ true
sub-lt held x h = ground (arith, +ℤ_parts held (pos 0 -ℤ x), -ℤ_parts (pos 0) x)

pub release-lt :
    (held asked : ℤ)
    → ltb_ℤ (pos 0) held ≡ true
    → ltb_ℤ (pos 0) asked ≡ true
    → ltb_ℤ (held +ℤ (pos 0 -ℤ (if ltb_ℤ held asked then held else asked))) held ≡ true
release-lt held asked h k = elim (Bool-cases (ltb_ℤ held asked)) [
  | inl more ↦ rw more (sub-lt held held h)
  | inr less ↦ rw less (sub-lt held asked k)
]

abbrev Fresh-key : String → Db → Type 0
Fresh-key key db = find_entry key db ≡ none

Found-absurd :
    {key : String} {db db' : Db} {r : LedgerEntry} → Fresh-key key db → Found key db r db' → ⊥
Found-absurd {r} new f = let e : none ≡ some r = sym new ∙ f.found in cc

-- A reservation under a new key, with a positive limit, adds its estimate to the reserved tokens of
-- the customer's ledger, and what is then used and reserved together does not pass the limit.
pub reserve_tx-within_limit :
    (w : World) (i : ReserveQuotaInput) (db : Db) (r : LedgerEntry) (db' : Db)
    → ltb_ℤ (pos 0) i.limit ≡ true
    → find_entry i.idempotency_key db ≡ none
    → reserve_tx w i db ≡ ok (r, db')
    → (l' : Ledger) × (find_ledger i.customer_id db' ≡ some l')
      × Moved (reserve_ledger w i db).0 (pos 0) i.estimated_tokens l'
      × (l'.tokens_used +ℤ l'.tokens_reserved ≤ℤ i.limit)
reserve_tx-within_limit w i db r db' positive new h = elim (reserve_tx_cases w i db r db' h) [
  | inl f ↦ absurd (Found-absurd new f)
  | inr p ↦
      let (l, up) = reserve_ledger w i db in
      let (l', found, moved) =
        find_ledger-posted i.customer_id (reserve_entry l i) up l (reserve_ledger_found w i db)
          refl in
      (
        l',
        rw p.written.is_posted found,
        moved,
        rw (moved.0, moved.1)
            (fits-le l.tokens_used l.tokens_reserved i.estimated_tokens i.limit p.within positive),
      )
]

-- `commitQuota` under a new key adds the actual tokens to the used ones and takes back what the
-- request's entries still reserve, after which they reserve nothing.
pub commit_tx-settles :
    (i : CommitQuotaInput) (db : Db) (r : LedgerEntry) (db' : Db) (l : Ledger)
    → find_entry i.idempotency_key db ≡ none
    → find_ledger i.customer_id db ≡ some l
    → commit_tx i db ≡ ok (r, db')
    → (l' : Ledger) × (find_ledger i.customer_id db' ≡ some l')
      × Moved l i.actual_tokens (pos 0 -ℤ commit_release l i db) l'
      × (reserved_for l.id i.request_id db'.entries ≤ℤ pos 0)
unfolding reserved_for posted
commit_tx-settles i db r db' l new of h = elim (commit_tx_cases i db r db' h) [
  | inl f ↦ absurd (Found-absurd new f)
  | inr p ↦
      let same : p.ledger ≡ l = cc (p.of_customer, of) in
      let written : Posted (commit_entry l i db) db r db' =
        subst (λ m. Posted (commit_entry m i db) db r db') same p.written in
      let (l', found, moved) =
        find_ledger-posted i.customer_id (commit_entry l i db) db l of refl in
      (
        l',
        rw written.is_posted found,
        moved,
        rw (written.is_posted, beq_refl l.id, beq_refl i.request_id)
            (settle (reserved_for l.id i.request_id db.entries)),
      )
]

module _ (i : ReleaseQuotaInput) (db : Db) (r : LedgerEntry) (db' : Db) (l : Ledger)
    (new : find_entry i.idempotency_key db ≡ none) (of : find_ledger i.customer_id db ≡ some l)
    (h : release_tx i db ≡ ok (r, db')) where
  pub release_tx-moves :
      (l' : Ledger) × (find_ledger i.customer_id db' ≡ some l')
      × Moved l (pos 0) (pos 0 -ℤ release_amount l i) l'
  release_tx-moves = elim (release_tx_cases i db r db' h) [
    | inl f ↦ absurd (Found-absurd new f)
    | inr p ↦
        let same : p.ledger ≡ l = cc (p.of_customer, of) in
        let written : Posted (release_entry l i) db r db' =
          subst (λ m. Posted (release_entry m i) db r db') same p.written in
        let (l', found, moved) =
          find_ledger-posted i.customer_id (release_entry l i) db l of refl in
        (l', rw written.is_posted found, moved)
  ]

  -- `releaseQuota` under a new key never makes the reserved tokens negative, and leaves the used ones.
  pub release_tx-nonneg :
      (l' : Ledger) × (find_ledger i.customer_id db' ≡ some l')
      × (l'.tokens_used ≡ l.tokens_used)
      × (pos 0 ≤ℤ l'.tokens_reserved)
  release_tx-nonneg =
      let (l', found, moved) = release_tx-moves in
      (
        l',
        found,
        moved.0 ∙ eq_of_parts _ _ (omega int_laws),
        rw (moved.1) (release-nonneg l.tokens_reserved i.reserved_tokens),
      )
