-- ===== src/Engine/LeastRecent.antt =====
-- The order in which apps/gateway/src/engine/llamaServer.ts unloads models: by the time of their last use.
use modelforge_ai.Base.{
  ◌≤◌, ◌≡◌, ◌⊎◌, inl, inr, arith, true, false, List, [], ◌∷◌, ◌++◌, leb, Bool-cases, ◌↔◌,
}
use modelforge_ai.Base.Preds.{In}
use modelforge_ai.Engine.Instances.{Instance, insert_by_use, sort_by_use}

-- An instance that comes earlier has not been used later.
abbrev pub IsOldestFirst : List Instance → Type 0
IsOldestFirst [] = Unit
IsOldestFirst (i ∷ is) =
    ((j : Instance) → In j is → i.last_used_at ≤ j.last_used_at) × IsOldestFirst is

In-insert : (a i : Instance) (is : List Instance) → In a (insert_by_use i is) ↔ In a (i ∷ is)
unfolding insert_by_use
In-insert a i [] = (λ m. m, λ m. m)
In-insert a i (j ∷ js) = ground (arith, In-insert a i js)

pub In-sort : (a : Instance) (is : List Instance) → In a (sort_by_use is) ↔ In a is
unfolding sort_by_use
In-sort a [] = (λ m. m, λ m. m)
In-sort a (i ∷ is) = ground (arith, In-insert a i (sort_by_use is), In-sort a is)

insert_by_use-IsOldestFirst :
    (i : Instance) (is : List Instance) → IsOldestFirst is → IsOldestFirst (insert_by_use i is)
unfolding insert_by_use
insert_by_use-IsOldestFirst i [] o = (λ j m. absurd m.1, tt)
insert_by_use-IsOldestFirst i (j ∷ js) (first, o) =
    elim (Bool-cases (leb i.last_used_at j.last_used_at)) [
      | inl older ↦ rw older (below older, (first, o))
      | inr later ↦ rw later (above later, insert_by_use-IsOldestFirst i js o)
    ]
  where
    below :
        leb i.last_used_at j.last_used_at ≡ true
        → (a : Instance) → In a (j ∷ js)
        → i.last_used_at ≤ a.last_used_at
    below older a (inl e) = rw e (ground (arith, older))
    below older a (inr m) = ground (arith, older, first a m)

    above :
        leb i.last_used_at j.last_used_at ≡ false
        → (a : Instance) → In a (insert_by_use i js)
        → j.last_used_at ≤ a.last_used_at
    above later a m = elim ((In-insert a i js).0 m) [
      | inl e ↦ rw e (ground (arith, later))
      | inr m' ↦ first a m'
    ]

pub sort_by_use-IsOldestFirst : (is : List Instance) → IsOldestFirst (sort_by_use is)
unfolding sort_by_use
sort_by_use-IsOldestFirst [] = tt
sort_by_use-IsOldestFirst (i ∷ is) =
    insert_by_use-IsOldestFirst i (sort_by_use is) (sort_by_use-IsOldestFirst is)

pub In-left : (a : Instance) (is js : List Instance) → In a is → In a (is ++ js)
In-left a [] js m = absurd m.1
In-left a (i ∷ is) js (inl e) = inl e
In-left a (i ∷ is) js (inr m) = inr (In-left a is js m)

In-right : (a : Instance) (is js : List Instance) → In a js → In a (is ++ js)
In-right a [] js m = m
In-right a (i ∷ is) js m = inr (In-right a is js m)

pub In-either : (a : Instance) (is js : List Instance) → In a (is ++ js) → In a is ⊎ In a js
In-either a [] js m = inr m
In-either a (i ∷ is) js (inl e) = inl (inl e)
In-either a (i ∷ is) js (inr m) = elim (In-either a is js m) [
  | inl left ↦ inl (inr left)
  | inr right ↦ inr right
]

pub IsOldestFirst-left : (is js : List Instance) → IsOldestFirst (is ++ js) → IsOldestFirst is
IsOldestFirst-left [] js o = tt
IsOldestFirst-left (i ∷ is) js (first, o) =
    (λ j m. first j (In-left j is js m), IsOldestFirst-left is js o)

-- What stands in the first part has not been used later than what stands in the second.
pub IsOldestFirst-across :
    (is js : List Instance) (a b : Instance)
    → IsOldestFirst (is ++ js)
    → In a is
    → In b js
    → a.last_used_at ≤ b.last_used_at
IsOldestFirst-across [] js a b o m n = absurd m.1
IsOldestFirst-across (i ∷ is) js a b (first, o) (inl e) n = rw e (first b (In-right b is js n))
IsOldestFirst-across (i ∷ is) js a b (first, o) (inr m) n = IsOldestFirst-across is js a b o m n
