-- ===== src/Routing/Best.antt =====
-- The best eligible candidate of packages/platform/src/policy.ts: the comparison that the candidates
-- are sorted by is a total order up to ties, and the first of them is least.
use Prim.Native.String.{String}
use modelforge_ai.Base.{
  zero, suc, ◌+◌, ◌≤◌, ◌≡◌, refl, sym, ap, ◌⊎◌, inl, inr, some, List, [], ◌∷◌, arith, subst,
  Bool-cases,
}
use modelforge_ai.Base.Int.{
  ℤ, pos, negsuc, ◌-ℤ◌, ◌≤ℤ◌, ltb_ℤ, pos_part, neg_part, int_laws, -ℤ_parts, eq_of_parts,
}
use modelforge_ai.Base.Preds.{In}
use modelforge_ai.Routing.Eligible.{In-sort, best_eligible-In}
use modelforge_ai.Routing.Policy.{
  Candidate, or_else, compare_candidates, insert_candidate, sort_candidates, best_eligible, head,
}

-- What ECMA-402 says of `localeCompare`: it is a consistent comparison.
pub record IsConsistent (lc : String → String → ℤ) : Type 0 where
  pub total : (a b : String) → (lc a b ≤ℤ pos 0) ⊎ (lc b a ≤ℤ pos 0)
  pub trans : (a b c : String) → lc a b ≤ℤ pos 0 → lc b c ≤ℤ pos 0 → lc a c ≤ℤ pos 0

abbrev IsNeg : ℤ → Type 0
IsNeg x = suc (pos_part x) ≤ neg_part x

or_else-cases : (x r : ℤ) → or_else x r ≤ℤ pos 0 → IsNeg x ⊎ ((x ≡ pos 0) × (r ≤ℤ pos 0))
or_else-cases (pos zero) r h = inr (refl, h)
or_else-cases (pos (suc n)) r h = absurd (omega arith)
or_else-cases (negsuc n) r h = inl (omega arith)

or_else-neg : (x r : ℤ) → IsNeg x → or_else x r ≤ℤ pos 0
or_else-neg (pos zero) r h = absurd (omega arith)
or_else-neg (pos (suc n)) r h = absurd (omega arith)
or_else-neg (negsuc n) r h = omega arith

or_else-zero : (x r : ℤ) → x ≡ pos 0 → r ≤ℤ pos 0 → or_else x r ≤ℤ pos 0
or_else-zero x r e h = rw e h

-- One key of the comparison, and the keys that follow it.
sign_cases : (x : ℤ) → IsNeg x ⊎ ((x ≡ pos 0) ⊎ (suc (neg_part x) ≤ pos_part x))
sign_cases (pos zero) = inr (inl refl)
sign_cases (pos (suc n)) = inr (inr (omega arith))
sign_cases (negsuc n) = inl (omega arith)

key_total :
    (a b r r' : ℤ)
    → (r ≤ℤ pos 0) ⊎ (r' ≤ℤ pos 0)
    → (or_else (a -ℤ b) r ≤ℤ pos 0) ⊎ (or_else (b -ℤ a) r' ≤ℤ pos 0)
key_total a b r r' h = elim (sign_cases (a -ℤ b)) [
  | inl neg ↦ inl (or_else-neg (a -ℤ b) r neg)
  | inr rest ↦ elim rest [
    | inr positive ↦
        inr (or_else-neg (b -ℤ a) r' (let d = -ℤ_parts a b in let d' = -ℤ_parts b a in omega arith))
    | inl zero' ↦ elim h [
      | inl k ↦ inl (or_else-zero (a -ℤ b) r zero' k)
      | inr k ↦ inr (
          or_else-zero (b -ℤ a) r'
            (let d = -ℤ_parts a b in
              let d' = -ℤ_parts b a in omega (int_laws, ap pos_part zero', ap neg_part zero'))
            k)
    ]
  ]
]

-- The differences x, y and z are such that z = x + y.
abbrev SumsTo : ℤ → ℤ → ℤ → Type 0
SumsTo x y z = pos_part z + neg_part x + neg_part y ≡ neg_part z + pos_part x + pos_part y

key_trans :
    (x y z r s t : ℤ)
    → SumsTo x y z
    → (r ≤ℤ pos 0 → s ≤ℤ pos 0 → t ≤ℤ pos 0)
    → or_else x r ≤ℤ pos 0
    → or_else y s ≤ℤ pos 0
    → or_else z t ≤ℤ pos 0
key_trans x y z r s t e rest h k = elim (or_else-cases x r h) [
  | inl n ↦ elim (or_else-cases y s k) [
    | inl m ↦ or_else-neg z t (omega arith)
    | inr m ↦ or_else-neg z t (omega (arith, ap pos_part (m.0), ap neg_part (m.0)))
  ]
  | inr n ↦ elim (or_else-cases y s k) [
    | inl m ↦ or_else-neg z t (omega (arith, ap pos_part (n.0), ap neg_part (n.0)))
    | inr m ↦
        or_else-zero z t
          (eq_of_parts z (pos 0) (
            omega
              (arith, ap pos_part (n.0), ap neg_part (n.0), ap pos_part (m.0), ap neg_part (m.0))))
          (rest n.1 m.1)
  ]
]

sub-SumsTo : (a b c : ℤ) → SumsTo (a -ℤ b) (b -ℤ c) (a -ℤ c)
sub-SumsTo a b c = omega (arith, -ℤ_parts a b, -ℤ_parts b c, -ℤ_parts a c)

sub-SumsTo_rev : (a b c : ℤ) → SumsTo (b -ℤ a) (c -ℤ b) (c -ℤ a)
sub-SumsTo_rev a b c = omega (arith, -ℤ_parts b a, -ℤ_parts c b, -ℤ_parts c a)

module _ (lc : String → String → ℤ) (laws : IsConsistent lc) where
  -- The candidate is not after the other.
  abbrev pub Le : Candidate → Candidate → Type 0
  Le c k = compare_candidates lc c k ≤ℤ pos 0

  Le-total : (c k : Candidate) → Le c k ⊎ Le k c
  unfolding compare_candidates
  Le-total c k = key_total (pos c.cost_micros) (pos k.cost_micros) _ _ (
      key_total k.quality_class c.quality_class _ _
        (key_total c.latency_class k.latency_class _ _ (laws.total c.model_slug k.model_slug)))

  Le-trans : (a b c : Candidate) → Le a b → Le b c → Le a c
  unfolding compare_candidates
  Le-trans a b c = key_trans (pos a.cost_micros -ℤ pos b.cost_micros) _ _ _ _ _ (sub-SumsTo _ _ _) (
      key_trans (b.quality_class -ℤ a.quality_class) _ _ _ _ _ (sub-SumsTo_rev _ _ _) (
        key_trans (a.latency_class -ℤ b.latency_class) _ _ _ _ _ (sub-SumsTo _ _ _)
          (laws.trans a.model_slug b.model_slug c.model_slug)))

  Le-refl : (c : Candidate) → Le c c
  Le-refl c = elim (Le-total c c) [ inl h ↦ h | inr h ↦ h ]

  -- The candidate is before or level with each of the list.
  abbrev pub Least : Candidate → List Candidate → Type 0
  Least c cs = (k : Candidate) → In k cs → Le c k

  head-insert :
      (x y : Candidate) (ys : List Candidate) (m : Candidate)
      → head (insert_candidate lc x (y ∷ ys)) ≡ some m
      → ((m ≡ y) × Le y x) ⊎ ((m ≡ x) × Le x y)
  unfolding insert_candidate
  head-insert x y ys m h = elim (Le-total x y) [
    | inl le ↦ inr (ground arith, le)
    | inr ge ↦ ground arith
  ]

  insert-Least :
      (x : Candidate) (xs l : List Candidate) (m : Candidate)
      → ((k : Candidate) → In k xs → In k l)
      → ((y : Candidate) → head l ≡ some y → Least y xs)
      → head (insert_candidate lc x l) ≡ some m
      → Least m (x ∷ xs)
  unfolding insert_candidate
  insert-Least x xs [] m sub least h k (inl same) = let e : m ≡ x = cc in rw (e, same) (Le-refl x)
  insert-Least x xs [] m sub least h k (inr i) = absurd ((sub k i).1)
  insert-Least x xs (y ∷ ys) m sub least h k i = elim (head-insert x y ys m h) [
    | inl (e, le) ↦
        subst (λ c. Le c k) (sym e)
          (elim i [ inl same ↦ subst (Le y) (sym same) le | inr j ↦ least y refl k j ])
    | inr (e, le) ↦
        subst (λ c. Le c k) (sym e)
          (elim i [
            | inl same ↦ subst (Le x) (sym same) (Le-refl x)
            | inr j ↦ Le-trans x y k le (least y refl k j)
          ])
  ]

  sort-Least :
      (cs : List Candidate) (m : Candidate) → head (sort_candidates lc cs) ≡ some m → Least m cs
  unfolding sort_candidates
  sort-Least [] m h = cc
  sort-Least (x ∷ xs) m h =
      insert-Least x xs (sort_candidates lc xs) m (λ k. (In-sort lc k xs).1) (sort-Least xs) h

  -- The best of a list is one of its candidates, and none of them is before it: by cost, then by
  -- quality, then by latency, then by name.
  pub best_eligible-Least :
      (cs : List Candidate) (m : Candidate) → best_eligible lc cs ≡ some m → In m cs × Least m cs
  unfolding best_eligible
  best_eligible-Least cs m h = (best_eligible-In lc cs m h, sort-Least cs m h)

module _ (lc : String → String → ℤ) where
  head-insert_some :
      (c : Candidate) (l : List Candidate)
      → (m : Candidate) × (head (insert_candidate lc c l) ≡ some m)
  unfolding insert_candidate
  head-insert_some c [] = (c, refl)
  head-insert_some c (k ∷ ks) = elim (Bool-cases (ltb_ℤ (pos 0) (compare_candidates lc c k))) [
    | inl after ↦ (k, rw (insert_candidate, after))
    | inr before ↦ (c, rw (insert_candidate, before))
  ]

  -- A list that is not empty has a best candidate.
  pub best_eligible-some :
      (c : Candidate) (cs : List Candidate) → (m : Candidate) × (best_eligible lc (c ∷ cs) ≡ some m)
  unfolding best_eligible sort_candidates
  best_eligible-some c cs = head-insert_some c (sort_candidates lc cs)
