-- ===== src/Receipts/Chain.antt =====
-- What issueUsageReceipt of apps/gateway/src/lib/receipts.ts keeps: one receipt for a request, each with the
-- hash of the one before.
use Prim.Native.String.{String}
use modelforge_ai.Base.{
  ℕ, suc, ◌+◌, ◌≤◌, ◌<◌, ◌≡◌, refl, sym, ap, subst, ◌∙◌, ◌⊎◌, inl, inr, Bool, true, false, Option,
  none, some, List, [], ◌∷◌, ◌++◌, arith, if◌then◌else◌, Bool-cases,
}
use modelforge_ai.Base.Text.{◌==◌, text_eq, eq_of_beq}
use modelforge_ai.Base.Preds.{find, In}
use modelforge_ai.Receipts.Issue.{UsageReceipt, is_for, later_of, latest_receipt, hash_of}

abbrev IsAfter : Option UsageReceipt → UsageReceipt → Type 0
IsAfter none r = Unit
IsAfter (some s) r = s.issued_at < r.issued_at

-- Every receipt is later than the one before, and has its hash.
abbrev pub IsChained : Option UsageReceipt → List UsageReceipt → Type 0
IsChained previous [] = Unit
IsChained previous (r ∷ rs) =
    (r.previous_hash ≡ hash_of previous) × IsAfter previous r × IsChained (some r) rs

abbrev last_or : Option UsageReceipt → List UsageReceipt → Option UsageReceipt
last_or previous [] = previous
last_or previous (r ∷ rs) = last_or (some r) rs

-- How many receipts a request has.
unfoldable pub receipt_count : String → List UsageReceipt → ℕ
receipt_count request [] = 0
receipt_count request (r ∷ rs) =
    let rest = receipt_count request rs in if is_for request r then suc rest else rest

last_or-later :
    (r : UsageReceipt) (rs : List UsageReceipt)
    → IsChained (some r) rs
    → (l : UsageReceipt) × ((last_or (some r) rs ≡ some l) × (r.issued_at ≤ l.issued_at))
last_or-later r [] h = (r, (refl, omega arith))
last_or-later r (s ∷ ss) (e, lt, h) =
    let (l, (f, le)) = last_or-later s ss h in (l, (f, omega arith))

latest_receipt-last :
    (previous : Option UsageReceipt) (r : UsageReceipt) (rs : List UsageReceipt)
    → IsChained previous (r ∷ rs)
    → latest_receipt (r ∷ rs) ≡ last_or previous (r ∷ rs)
unfolding latest_receipt
latest_receipt-last previous r [] h = refl
latest_receipt-last previous r (s ∷ ss) (e, lt, (f, less, h)) =
    let (l, (g, le)) = last_or-later s ss h in
    let q : latest_receipt (s ∷ ss) ≡ some l = latest_receipt-last (some r) s ss (f, less, h) ∙ g in
    ap (λ o. some (later_of r o)) q ∙ (ground arith) ∙ sym g

latest_receipt_is_last :
    (rs : List UsageReceipt) → IsChained none rs → latest_receipt rs ≡ last_or none rs
unfolding latest_receipt
latest_receipt_is_last [] h = refl
latest_receipt_is_last (r ∷ rs) h = latest_receipt-last none r rs h

IsChained-append :
    (previous : Option UsageReceipt) (rs : List UsageReceipt) (r : UsageReceipt)
    → IsChained previous rs
    → r.previous_hash ≡ hash_of (last_or previous rs)
    → IsAfter (last_or previous rs) r
    → IsChained previous (rs ++ (r ∷ []))
IsChained-append previous [] r h e lt = (e, lt, tt)
IsChained-append previous (s ∷ ss) r (f, less, h) e lt =
    (f, less, IsChained-append (some s) ss r h e lt)

receipt_count-append :
    (request : String) (rs : List UsageReceipt) (r : UsageReceipt)
    → receipt_count request (rs ++ (r ∷ []))
      ≡ receipt_count request rs + receipt_count request (r ∷ [])
unfolding receipt_count
receipt_count-append request [] r = omega arith
receipt_count-append request (s ∷ ss) r = ground (arith, receipt_count-append request ss r)

receipt_count-none :
    (request : String) (rs : List UsageReceipt)
    → find (is_for request) rs ≡ none
    → receipt_count request rs ≡ 0
unfolding receipt_count
receipt_count-none request [] h = refl
receipt_count-none request (s ∷ ss) h = ground (arith, receipt_count-none request ss)

pub find-append :
    (p : UsageReceipt → Bool) (rs : List UsageReceipt) (r : UsageReceipt)
    → find p rs ≡ none
    → p r ≡ true
    → find p (rs ++ (r ∷ [])) ≡ some r
find-append p [] r h k = rw k refl
find-append p (s ∷ ss) r h k = elim (Bool-cases (p s)) [
  | inl here ↦ let l = rw here at h in cc
  | inr gone ↦ rw gone (find-append p ss r (rw gone at h) k)
]

last_or-In :
    (previous : Option UsageReceipt) (rs : List UsageReceipt) (l : UsageReceipt)
    → last_or previous rs ≡ some l
    → (previous ≡ some l) ⊎ In l rs
last_or-In previous [] l h = inl h
last_or-In previous (r ∷ rs) l h = elim (last_or-In (some r) rs l h) [
  | inl e ↦ let q : r ≡ l = cc in inr (inl (sym q))
  | inr m ↦ inr (inr m)
]

-- The receipts are chained, and no request has two of them.
abbrev pub IsLedger : List UsageReceipt → Type 0
IsLedger rs = IsChained none rs × ((request : String) → receipt_count request rs ≤ 1)

-- Later than any receipt.
abbrev pub IsLater : ℕ → List UsageReceipt → Type 0
IsLater now rs = (r : UsageReceipt) → In r rs → r.issued_at < now

count_single : (request : String) (r : UsageReceipt) → receipt_count request (r ∷ []) ≤ 1
unfolding receipt_count
count_single request r = ground arith

count_other :
    (request : String) (r : UsageReceipt)
    → is_for request r ≡ false
    → receipt_count request (r ∷ []) ≡ 0
unfolding receipt_count
count_other request r h = ground arith

pub IsLedger-append :
    (rs : List UsageReceipt) (r : UsageReceipt)
    → IsLedger rs
    → r.previous_hash ≡ hash_of (latest_receipt rs)
    → IsLater r.issued_at rs
    → find (is_for r.request_id) rs ≡ none
    → IsLedger (rs ++ (r ∷ []))
IsLedger-append rs r (chained, once) e later missing =
    let q = latest_receipt_is_last rs chained in
    (
      IsChained-append none rs r chained (e ∙ ap hash_of q)
          (after (last_or none rs) (λ l h. last_or-In none rs l h)),
      λ request. one request,
    )
  where
    after :
        (o : Option UsageReceipt)
        → ((l : UsageReceipt) → o ≡ some l → (none ≡ some l) ⊎ In l rs)
        → IsAfter o r
    after none k = tt
    after (some l) k = elim (k l refl) [ inl none_before ↦ cc | inr m ↦ later l m ]

    one : (request : String) → receipt_count request (rs ++ (r ∷ [])) ≤ 1
    one request = elim (Bool-cases (r.request_id == request)) [
      | inl own ↦
          let e : r.request_id ≡ request = eq_of_beq r.request_id request own in
          let z : receipt_count request rs ≡ 0 =
            subst (λ x. receipt_count x rs ≡ 0) e (receipt_count-none r.request_id rs missing) in
          omega (arith, receipt_count-append request rs r, count_single request r)
      | inr other ↦
          let z : receipt_count request (r ∷ []) ≡ 0 = count_other request r other in
          omega (arith, receipt_count-append request rs r, once request)
    ]
