-- ===== src/Slo/Percentile.antt =====
-- `percentile` of apps/gateway/src/lib/modernJobs.ts, on latencies in whole milliseconds.
use modelforge_ai.Base.{
  ℕ, zero, suc, ◌+◌, ◌-◌, ◌*◌, ◌/◌, ◌≤◌, ◌<◌, ◌≡◌, refl, subst, Option, none, some, List, [], ◌∷◌,
  arith, if◌then◌else◌, leb, min, length, get_elem?, Bool-cases, inl, inr,
}
use modelforge_ai.Base.Preds.{All}

unfoldable pub insert_value : ℕ → List ℕ → List ℕ
insert_value x [] = x ∷ []
insert_value x (y ∷ ys) = if leb x y then x ∷ y ∷ ys else y ∷ insert_value x ys

-- [...values].sort((a, b) => a - b)
unfoldable pub sort_values : List ℕ → List ℕ
sort_values [] = []
sort_values (x ∷ xs) = insert_value x (sort_values xs)

abbrev pub value_or_zero : Option ℕ → ℕ
value_or_zero none = 0
value_or_zero (some v) = v

abbrev pub percentile_index : ℕ → ℕ → ℕ
percentile_index p n = min (n - 1) (p * n / 100)

unfoldable pub percentile : List ℕ → ℕ → ℕ
percentile [] p = 0
percentile (x ∷ xs) p =
    let sorted = sort_values (x ∷ xs) in
    value_or_zero (get_elem? sorted (percentile_index p (length sorted)))

-- How many of the values are at most v.
abbrev pub count_le : ℕ → List ℕ → ℕ
count_le v [] = 0
count_le v (x ∷ xs) = if leb x v then count_le v xs + 1 else count_le v xs

count_le-insert : (v x : ℕ) (xs : List ℕ) → count_le v (insert_value x xs) ≡ count_le v (x ∷ xs)
unfolding insert_value
count_le-insert v x [] = refl
count_le-insert v x (y ∷ ys) = ground (arith, count_le-insert v x ys)

count_le-sort : (v : ℕ) (xs : List ℕ) → count_le v (sort_values xs) ≡ count_le v xs
unfolding sort_values
count_le-sort v [] = refl
count_le-sort v (x ∷ xs) = ground (arith, count_le-insert v x (sort_values xs), count_le-sort v xs)

length-insert : (x : ℕ) (xs : List ℕ) → length (insert_value x xs) ≡ suc (length xs)
unfolding insert_value
length-insert x [] = refl
length-insert x (y ∷ ys) = ground (arith, length-insert x ys)

length-sort : (xs : List ℕ) → length (sort_values xs) ≡ length xs
unfolding sort_values
length-sort [] = refl
length-sort (x ∷ xs) = omega (arith, length-insert x (sort_values xs), length-sort xs)

abbrev IsSorted : List ℕ → Type 0
IsSorted [] = Unit
IsSorted (x ∷ xs) = All (λ y. x ≤ y) xs × IsSorted xs

All-insert :
    (b x : ℕ) (xs : List ℕ) → b ≤ x → All (λ y. b ≤ y) xs → All (λ y. b ≤ y) (insert_value x xs)
unfolding insert_value
All-insert b x [] h all = (h, tt)
All-insert b x (y ∷ ys) h (k, all) = ground (arith, All-insert b x ys h all)

All-le : (b c : ℕ) (xs : List ℕ) → b ≤ c → All (λ y. c ≤ y) xs → All (λ y. b ≤ y) xs
All-le b c [] h all = tt
All-le b c (x ∷ xs) h (k, all) = (omega arith, All-le b c xs h all)

insert-IsSorted : (x : ℕ) (xs : List ℕ) → IsSorted xs → IsSorted (insert_value x xs)
unfolding insert_value
insert-IsSorted x [] s = (tt, tt)
insert-IsSorted x (y ∷ ys) (least, s) = elim (Bool-cases (leb x y)) [
  | inl le ↦ rw le ((ground arith, All-le x y ys (ground arith) least), (least, s))
  | inr gt ↦ rw gt (All-insert y x ys (ground arith) least, insert-IsSorted x ys s)
]

sort-IsSorted : (xs : List ℕ) → IsSorted (sort_values xs)
unfolding sort_values
sort-IsSorted [] = tt
sort-IsSorted (x ∷ xs) = insert-IsSorted x (sort_values xs) (sort-IsSorted xs)

All-at :
    (b : ℕ) (xs : List ℕ) (i : ℕ)
    → All (λ y. b ≤ y) xs
    → i < length xs
    → b ≤ value_or_zero (get_elem? xs i)
All-at b [] i all h = absurd (omega arith)
All-at b (x ∷ xs) zero (k, all) h = k
All-at b (x ∷ xs) (suc i) (k, all) h = All-at b xs i all (omega arith)

-- In a sorted list the entries up to an index are at most its value.
below_index :
    (xs : List ℕ) (i : ℕ)
    → IsSorted xs
    → i < length xs
    → i < count_le (value_or_zero (get_elem? xs i)) xs
below_index [] i s h = absurd (omega arith)
below_index (x ∷ xs) zero s h = ground arith
below_index (x ∷ xs) (suc i) (least, s) h =
    ground (arith, below_index xs i s (omega arith), All-at x xs i least (omega arith))

index_covers :
    (p n : ℕ)
    → p < 100
    → 0 < n
    → (percentile_index p n < n) × (p * n < 100 * (percentile_index p n + 1))
index_covers p n h k = let low : p * n ≤ 99 * n = grind arith in (omega arith, omega arith)

-- More than p of every hundred latencies are at most the percentile, for any p below 100.
pub percentile_covers :
    (x : ℕ) (xs : List ℕ) (p : ℕ)
    → p < 100
    → p * length (x ∷ xs) < 100 * count_le (percentile (x ∷ xs) p) (x ∷ xs)
unfolding percentile
percentile_covers x xs p h =
    let sorted = sort_values (x ∷ xs) in
    let i = percentile_index p (length sorted) in
    let n = length-sort (x ∷ xs) in
    let (inside, covers) = index_covers p (length sorted) h (omega (arith, n)) in
    let below = below_index sorted i (sort-IsSorted (x ∷ xs)) inside in
    let same = count_le-sort (value_or_zero (get_elem? sorted i)) (x ∷ xs) in
    let covers' : p * length (x ∷ xs) < 100 * (i + 1) =
      subst (λ m. p * m < 100 * (i + 1)) n covers in
    omega arith
