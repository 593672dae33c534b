-- ===== src/Quota/Balance.antt =====
-- The balances of a ledger against its append-only entries (apps/gateway/src/lib/quotaLedger.ts).
use Prim.Native.String.{String}
use modelforge_ai.Base.{
  ℕ, ◌≡◌, refl, sym, subst, inl, inr, false, List, [], ◌∷◌, map, arith, if◌then◌else◌, Bool-cases,
  Option-cases,
}
use modelforge_ai.Base.Int.{ℤ, pos, ◌+ℤ◌}
use modelforge_ai.Base.Text.{◌==◌, text_eq, eq_of_beq, beq_refl, beq-false_symm}
use modelforge_ai.Base.Preds.{All}
use modelforge_ai.Base.Result.{ok}
use modelforge_ai.Quota.Tables.{
  Ledger, LedgerEntry, Db, find_ledger, upsert_ledger, new_ledger, adjust,
}
use modelforge_ai.Quota.Operations.{
  World, ReserveQuotaInput, reserve_tx, reserve_ledger, CommitQuotaInput, commit_tx,
  ReleaseQuotaInput, release_tx,
}
use modelforge_ai.Quota.Post.{posted, Found, reserve_tx_cases, commit_tx_cases, release_tx_cases}

-- The sum of the deltas of a ledger's entries.
abbrev pub used_in : String → List LedgerEntry → ℤ
used_in id [] = pos 0
used_in id (e ∷ es) = if e.ledger_id == id then used_in id es +ℤ e.delta_tokens else used_in id es

abbrev pub reserved_in : String → List LedgerEntry → ℤ
reserved_in id [] = pos 0
reserved_in id (e ∷ es) =
    if e.ledger_id == id then reserved_in id es +ℤ e.reserved_delta else reserved_in id es

abbrev pub Agrees : List LedgerEntry → Ledger → Type 0
Agrees es l = (l.tokens_used ≡ used_in l.id es) × (l.tokens_reserved ≡ reserved_in l.id es)

-- Each ledger's two balances are the sums of its entries' deltas.
abbrev pub IsBalanced : Db → Type 0
IsBalanced db = All (Agrees db.entries) db.ledgers

-- No entry names the ledger.
abbrev pub Unused : String → List LedgerEntry → Type 0
Unused id es = All (λ e. (e.ledger_id == id) ≡ false) es

Unused-sums :
    (id : String) (es : List LedgerEntry)
    → Unused id es
    → (used_in id es ≡ pos 0) × (reserved_in id es ≡ pos 0)
Unused-sums id [] h = (refl, refl)
Unused-sums id (e ∷ es) (h, hs) = rw h (Unused-sums id es hs)

adjust_other : (id : String) (u r : ℤ) (l : Ledger) → (l.id == id) ≡ false → adjust id u r l ≡ l
unfolding adjust
adjust_other id u r l h = rw h

-- The entry and the update of its ledger go together.
adjust-Agrees :
    (e : LedgerEntry) (es : List LedgerEntry) (l : Ledger)
    → Agrees es l
    → Agrees (e ∷ es) (adjust e.ledger_id e.delta_tokens e.reserved_delta l)
unfolding adjust
adjust-Agrees e es l (h, k) = elim (Bool-cases (l.id == e.ledger_id)) [
  | inl same ↦ ground (arith, beq_refl l.id, eq_of_beq l.id e.ledger_id same)
  | inr other ↦
      subst (Agrees (e ∷ es)) (sym (adjust_other e.ledger_id _ _ l other))
        (rw (beq-false_symm l.id e.ledger_id other) (h, k))
]

All-map :
    {A B : Type 0} {P : A → Type 0} (Q : B → Type 0) (f : A → B)
    → ((a : A) → P a → Q (f a))
    → (xs : List A) → All P xs
    → All Q (map f xs)
All-map Q f keep [] h = tt
All-map Q f keep (x ∷ xs) (h, hs) = (keep x h, All-map Q f keep xs hs)

pub posted-IsBalanced : (e : LedgerEntry) (db : Db) → IsBalanced db → IsBalanced (posted e db)
unfolding posted
posted-IsBalanced e db b =
    All-map (Agrees (e ∷ db.entries)) _ (adjust-Agrees e db.entries) db.ledgers b

pub upsert_ledger-IsBalanced :
    (id customer : String) (start end : ℕ) (db : Db)
    → Unused id db.entries
    → IsBalanced db
    → IsBalanced (upsert_ledger (new_ledger id customer start end) db).1
unfolding upsert_ledger new_ledger
upsert_ledger-IsBalanced id customer start end db unused b =
    elim (Option-cases (find_ledger customer db)) [
      | inl missing ↦
          let (u, r) = Unused-sums id db.entries unused in
          rw (missing, upsert_ledger) ((sym u, sym r), b)
      | inr (l, found) ↦ rw (found, upsert_ledger) b
    ]

module _ {r : LedgerEntry} {db' : Db} (db : Db) (b : IsBalanced db) where
  Found-IsBalanced : (key : String) → Found key db r db' → IsBalanced db'
  Found-IsBalanced key f = subst IsBalanced (sym f.same) b

  -- A successful reservation keeps the balances; the id of a new ledger is one that no entry names.
  pub reserve_tx-IsBalanced :
      (w : World) (i : ReserveQuotaInput)
      → Unused w.new_id db.entries
      → reserve_tx w i db ≡ ok (r, db')
      → IsBalanced db'
  reserve_tx-IsBalanced w i unused h = elim (reserve_tx_cases w i db r db' h) [
    | inl f ↦ Found-IsBalanced i.idempotency_key f
    | inr p ↦ subst IsBalanced (sym p.written.is_posted) (
        posted-IsBalanced _ (reserve_ledger w i db).1
          (upsert_ledger-IsBalanced w.new_id i.customer_id _ _ db unused b))
  ]

  pub commit_tx-IsBalanced : (i : CommitQuotaInput) → commit_tx i db ≡ ok (r, db') → IsBalanced db'
  commit_tx-IsBalanced i h = elim (commit_tx_cases i db r db' h) [
    | inl f ↦ Found-IsBalanced i.idempotency_key f
    | inr p ↦ subst IsBalanced (sym p.written.is_posted) (posted-IsBalanced _ db b)
  ]

  pub release_tx-IsBalanced :
      (i : ReleaseQuotaInput) → release_tx i db ≡ ok (r, db') → IsBalanced db'
  release_tx-IsBalanced i h = elim (release_tx_cases i db r db' h) [
    | inl f ↦ Found-IsBalanced i.idempotency_key f
    | inr p ↦ subst IsBalanced (sym p.written.is_posted) (posted-IsBalanced _ db b)
  ]
