-- ===== src/Base/Units.antt =====
-- Texts as the lists of their code units, with String.prototype.trim for a test of white space.
use modelforge_ai.Base.{
  ℕ, ◌≤◌, length, ◌≡◌, refl, sym, ap, ◌∙◌, Bool, true, false, not, ◌&&◌, List, [], ◌∷◌, ◌++◌, arith,
  inl, inr, if◌then◌else◌, Bool-cases,
}
use modelforge_ai.Base.Preds.{filter}

abbrev pub Units : Type 0
Units = List ℕ

abbrev pub is_empty : Units → Bool
is_empty [] = true
is_empty (c ∷ cs) = false

-- join
abbrev pub join : Units → List Units → Units
join separator [] = []
join separator (t ∷ []) = t
join separator (t ∷ u ∷ us) = t ++ separator ++ join separator (u ∷ us)

pub is_empty-eq : (xs : Units) → is_empty xs ≡ true → xs ≡ []
is_empty-eq [] h = refl
is_empty-eq (c ∷ cs) h = cc

module _ (is_space : ℕ → Bool) where
  unfoldable pub trim_start : Units → Units
  trim_start [] = []
  trim_start (c ∷ cs) = let rest = trim_start cs in if is_space c then rest else c ∷ cs

  unfoldable pub trim_end : Units → Units
  trim_end [] = []
  trim_end (c ∷ cs) = let rest = trim_end cs in if is_space c && is_empty rest then [] else c ∷ rest

  unfoldable pub trim : Units → Units
  trim text = trim_end (trim_start text)

  -- What is not white space.
  abbrev pub visible : Units → Units
  visible text = filter (λ c. not (is_space c)) text

  pub visible-append : (xs ys : Units) → visible (xs ++ ys) ≡ visible xs ++ visible ys
  visible-append [] ys = refl
  visible-append (c ∷ cs) ys = ground (arith, visible-append cs ys)

  visible-trim_start : (xs : Units) → visible (trim_start xs) ≡ visible xs
  unfolding trim_start
  visible-trim_start [] = refl
  visible-trim_start (c ∷ cs) = ground (arith, visible-trim_start cs)

  visible-trim_end : (xs : Units) → visible (trim_end xs) ≡ visible xs
  unfolding trim_end
  visible-trim_end [] = refl
  visible-trim_end (c ∷ cs) = ground (arith, visible-trim_end cs, is_empty-eq (trim_end cs))

  -- Trimming takes white space alone.
  pub visible-trim : (xs : Units) → visible (trim xs) ≡ visible xs
  unfolding trim
  visible-trim xs = visible-trim_end (trim_start xs) ∙ visible-trim_start xs

  trim_start_blank : (xs : Units) → visible xs ≡ [] → trim_start xs ≡ []
  unfolding trim_start
  trim_start_blank [] h = refl
  trim_start_blank (c ∷ cs) h = ground (arith, trim_start_blank cs, h)

  -- The trimmed text is empty exactly where nothing is visible.
  pub is_empty-trim : (xs : Units) → is_empty (trim xs) ≡ is_empty (visible xs)
  unfolding trim trim_end
  is_empty-trim xs = elim (Bool-cases (is_empty (visible xs))) [
    | inl blank ↦ rw (trim_start_blank xs (is_empty-eq _ blank), blank) refl
    | inr some_left ↦ elim (Bool-cases (is_empty (trim xs))) [
      | inl gone ↦
          gone ∙ sym (ap is_empty (sym (visible-trim xs) ∙ ap visible (is_empty-eq _ gone)))
      | inr left ↦ left ∙ sym some_left
    ]
  ]

  length-trim_start : (xs : Units) → length (trim_start xs) ≤ length xs
  unfolding trim_start
  length-trim_start [] = omega arith
  length-trim_start (c ∷ cs) = ground (arith, length-trim_start cs)

  length-trim_end : (xs : Units) → length (trim_end xs) ≤ length xs
  unfolding trim_end
  length-trim_end [] = omega arith
  length-trim_end (c ∷ cs) = ground (arith, length-trim_end cs)

  pub length-trim : (xs : Units) → length (trim xs) ≤ length xs
  unfolding trim
  length-trim xs = omega (arith, length-trim_start xs, length-trim_end (trim_start xs))
