-- ===== src/Base/Preds.antt =====
-- Searches and filters by a Boolean test, and predicates on lists by recursion.
use modelforge_ai.Base.{
  ◌≡◌, refl, ◌⊎◌, inl, inr, Bool, true, false, ◌||◌, ◌&&◌, Option, none, some, List, [], ◌∷◌, arith,
  if◌then◌else◌, Option-cases, ◌↔◌,
}

module _ {ℓ} {A : Type ℓ} where
  -- Array.prototype.find
  abbrev pub find : (A → Bool) → List A → Option A
  find p [] = none
  find p (x ∷ xs) = if p x then some x else find p xs

  -- Array.prototype.filter
  abbrev pub filter : (A → Bool) → List A → List A
  filter p [] = []
  filter p (x ∷ xs) = if p x then x ∷ filter p xs else filter p xs

  -- Array.prototype.some
  abbrev pub any : (A → Bool) → List A → Bool
  any p [] = false
  any p (x ∷ xs) = p x || any p xs

  -- Array.prototype.every
  abbrev pub all : (A → Bool) → List A → Bool
  all p [] = true
  all p (x ∷ xs) = p x && all p xs

module _ {ℓ κ} {A : Type ℓ} (P : A → Type κ) where
  abbrev pub All : List A → Type κ
  All [] = Unit
  All (x ∷ xs) = P x × All xs

-- The value stands in the list.
abbrev pub In {ℓ} : {A : Type ℓ} → A → List A → Type ℓ
In a [] = Unit {ℓ} × ⊥
In a (x ∷ xs) = (a ≡ x) ⊎ In a xs

module _ {ℓ} {A : Type ℓ} where
  pub find_sound :
      (p : A → Bool) (xs : List A) (a : A) → find p xs ≡ some a → (p a ≡ true) × In a xs
  find_sound p [] a h = cc
  find_sound p (x ∷ xs) a h = ground (arith, find_sound p xs a)

  pub find-none : (p : A → Bool) (xs : List A) (a : A) → find p xs ≡ none → In a xs → p a ≡ false
  find-none p [] a h m = absurd m.1
  find-none p (x ∷ xs) a h (inl e) = rw e (ground arith)
  find-none p (x ∷ xs) a h (inr m) = find-none p xs a (ground arith) m

  pub find_complete :
      (p : A → Bool) (xs : List A) (a : A) → In a xs → p a ≡ true → (b : A) × (find p xs ≡ some b)
  find_complete p xs a m h = elim (Option-cases (find p xs)) [
    | inl missed ↦ let q : p a ≡ false = find-none p xs a missed m in cc
    | inr found ↦ found
  ]

  pub In-filter :
      (p : A → Bool) (xs : List A) (a : A) → In a (filter p xs) ↔ (In a xs × (p a ≡ true))
  In-filter p [] a = (λ m. absurd m.1, λ m. absurd m.0.1)
  In-filter p (x ∷ xs) a = ground (arith, In-filter p xs a)

  -- `pick` chooses by `p`: nothing chosen means that the filtered list is empty.
  pub filter-nil : (p : A → Bool) (xs : List A) (a : A) → filter p xs ≡ [] → In a xs → p a ≡ false
  filter-nil p [] a h m = absurd m.1
  filter-nil p (x ∷ xs) a h (inl e) = rw e (ground arith)
  filter-nil p (x ∷ xs) a h (inr m) = filter-nil p xs a (ground arith) m

module _ {ℓ κ} {A : Type ℓ} (P : A → Type κ) where
  pub All-of_In : (xs : List A) → ((a : A) → In a xs → P a) → All P xs
  All-of_In [] h = tt
  All-of_In (x ∷ xs) h = (h x (inl refl), All-of_In xs (λ a m. h a (inr m)))

module _ {ℓ} {A : Type ℓ} where
  pub any_of_In : (p : A → Bool) (xs : List A) (x : A) → In x xs → p x ≡ true → any p xs ≡ true
  any_of_In p [] x m h = absurd m.1
  any_of_In p (y ∷ ys) x (inl e) h = rw (← e) (ground (arith, h))
  any_of_In p (y ∷ ys) x (inr m) h = ground (arith, any_of_In p ys x m h)
