-- ===== src/Engine/Sound.antt =====
-- What every operation of apps/gateway/src/engine/llamaServer.ts keeps of the instances: one for each
-- model, one for each port, and all within the budget.
use Prim.Native.String.{String}
use modelforge_ai.Base.{
  ℕ, zero, suc, ◌+◌, ◌≤◌, ◌<◌, ◌≡◌, refl, sym, ◌∙◌, subst, inl, inr, arith, Bool, true, false, not,
  ◌&&◌, ◌||◌, none, some, List, [], ◌∷◌, ◌++◌, Bool-cases,
}
use modelforge_ai.Base.Text.{◌==◌, text_eq, nat_eq, beq-false_symm}
use modelforge_ai.Base.Preds.{filter, any}
use modelforge_ai.Engine.Instances.{
  Instance, Engine, Keep, has_id, is_taken, get_instance, delete_instance, set_instance,
  used_ram_mb, free_port, unload_model, evict_for_budget,
}
use modelforge_ai.Engine.Removal.{HasUniqueIds, any-filter}
use modelforge_ai.Engine.Keeping.{unload_model_keeps, evict_for_budget_keeps}

-- No port is used twice.
abbrev pub HasUniquePorts : List Instance → Type 0
HasUniquePorts [] = Unit
HasUniquePorts (i ∷ is) = (is_taken i.port is ≡ false) × HasUniquePorts is

pub record IsSound (budget : ℕ) (is : List Instance) : Type 0 where
  pub ids : HasUniqueIds is
  pub ports : HasUniquePorts is
  pub within : used_ram_mb is ≤ budget

HasUniqueIds-filter :
    (p : Instance → Bool) (is : List Instance) → HasUniqueIds is → HasUniqueIds (filter p is)
HasUniqueIds-filter p [] u = tt
HasUniqueIds-filter p (i ∷ is) (single, u) = elim (Bool-cases (p i)) [
  | inl kept ↦ rw kept (any-filter (has_id i.model_id) p is single, HasUniqueIds-filter p is u)
  | inr gone ↦ rw gone (HasUniqueIds-filter p is u)
]

HasUniquePorts-filter :
    (p : Instance → Bool) (is : List Instance) → HasUniquePorts is → HasUniquePorts (filter p is)
HasUniquePorts-filter p [] u = tt
HasUniquePorts-filter p (i ∷ is) (single, u) = elim (Bool-cases (p i)) [
  | inl kept ↦
      rw kept (any-filter (λ j. j.port == i.port) p is single, HasUniquePorts-filter p is u)
  | inr gone ↦ rw gone (HasUniquePorts-filter p is u)
]

used_ram_mb-filter :
    (p : Instance → Bool) (is : List Instance) → used_ram_mb (filter p is) ≤ used_ram_mb is
unfolding used_ram_mb
used_ram_mb-filter p [] = omega arith
used_ram_mb-filter p (i ∷ is) = ground (arith, used_ram_mb-filter p is)

pub delete_instance-IsSound :
    {budget : ℕ} (id : String) (is : List Instance)
    → IsSound budget is
    → IsSound budget (delete_instance id is)
unfolding delete_instance
delete_instance-IsSound id is s = record {
  ids = HasUniqueIds-filter (λ i. not (has_id id i)) is s.ids;
  ports = HasUniquePorts-filter (λ i. not (has_id id i)) is s.ports;
  within = omega (arith, used_ram_mb-filter (λ i. not (has_id id i)) is, s.within);
}

pub unload_model-IsSound :
    {budget : ℕ} (database : Bool) (id : String) (e : Engine)
    → IsSound budget e.instances
    → IsSound budget (unload_model database id e).instances
unload_model-IsSound {budget} database id e s =
    unload_model_keeps (IsSound budget) delete_instance-IsSound database id e s

pub evict_for_budget-IsSound :
    {budget : ℕ} (database : Bool) (k : Keep) (limit need : ℕ) (e : Engine)
    → IsSound budget e.instances
    → IsSound budget (evict_for_budget database k limit need e).1.instances
evict_for_budget-IsSound {budget} database k limit need e s =
    evict_for_budget_keeps (IsSound budget) delete_instance-IsSound database k limit need e s

delete_instance-absent :
    (id other : String) (is : List Instance)
    → get_instance id is ≡ none
    → get_instance id (delete_instance other is) ≡ none
unfolding get_instance delete_instance
delete_instance-absent id other [] h = refl
delete_instance-absent id other (i ∷ is) h = ground (arith, h, delete_instance-absent id other is)

-- An eviction makes no instance.
pub evict_for_budget-absent :
    (database : Bool) (k : Keep) (limit need : ℕ) (e : Engine) (id : String)
    → get_instance id e.instances ≡ none
    → get_instance id (evict_for_budget database k limit need e).1.instances ≡ none
evict_for_budget-absent database k limit need e id absent =
    evict_for_budget_keeps (λ is. get_instance id is ≡ none)
      (λ other is h. delete_instance-absent id other is h) database k limit need e absent

-- The port found is in the range, can be bound and has no instance.
pub free_port_sound :
    (available : ℕ → Bool) (left from : ℕ) (is : List Instance) (port : ℕ)
    → free_port available left from is ≡ some port
    → (from ≤ port) × (port < from + left) × (available port ≡ true) × (is_taken port is ≡ false)
unfolding free_port
free_port_sound available zero from is port h = cc
free_port_sound available (suc left) from is port h =
    elim (Bool-cases (not (is_taken from is) && available from)) [
      | inl free ↦
          let same : from ≡ port = ground (arith, h, free) in rw (← same) (ground (arith, free))
      | inr busy ↦
          ground
            (arith, free_port_sound available left (from + 1) is port (ground (arith, h, busy)))
    ]

-- A model that has no instance is registered behind the others.
pub set_instance-absent :
    (i : Instance) (is : List Instance)
    → get_instance i.model_id is ≡ none
    → set_instance i is ≡ is ++ i ∷ []
unfolding set_instance get_instance
set_instance-absent i [] h = refl
set_instance-absent i (j ∷ js) h = ground (arith, set_instance-absent i js, h)

any-append :
    (p : Instance → Bool) (is : List Instance) (i : Instance)
    → any p (is ++ i ∷ []) ≡ (any p is || p i)
any-append p [] i = ground arith
any-append p (j ∷ js) i = ground (arith, any-append p js i)

HasUniqueIds-append :
    (is : List Instance) (i : Instance)
    → HasUniqueIds is
    → get_instance i.model_id is ≡ none
    → HasUniqueIds (is ++ i ∷ [])
unfolding get_instance
HasUniqueIds-append [] i u h = (refl, tt)
HasUniqueIds-append (j ∷ js) i (single, u) h = elim (Bool-cases (has_id i.model_id j)) [
  | inl same ↦ absurd (ground (arith, h, same))
  | inr other ↦ (
    any-append (has_id j.model_id) js i
        ∙ ground (arith, single, beq-false_symm j.model_id i.model_id other),
    HasUniqueIds-append js i u (ground (arith, h, other)),
  )
]

HasUniquePorts-append :
    (is : List Instance) (i : Instance)
    → HasUniquePorts is
    → is_taken i.port is ≡ false
    → HasUniquePorts (is ++ i ∷ [])
HasUniquePorts-append [] i u h = (refl, tt)
HasUniquePorts-append (j ∷ js) i (single, u) h = (
  any-append (λ k. k.port == j.port) js i ∙ ground (arith, single, h),
  HasUniquePorts-append js i u (ground (arith, h)),
)

pub used_ram_mb-append :
    (is : List Instance) (i : Instance) → used_ram_mb (is ++ i ∷ []) ≡ used_ram_mb is + i.ram_mb
unfolding used_ram_mb
used_ram_mb-append [] i = omega arith
used_ram_mb-append (j ∷ js) i = omega (arith, used_ram_mb-append js i)

-- Registering a model that has no instance, on a port that none has, within the budget.
pub set_instance-IsSound :
    {budget : ℕ} (i : Instance) (is : List Instance)
    → IsSound budget is
    → get_instance i.model_id is ≡ none
    → is_taken i.port is ≡ false
    → used_ram_mb is + i.ram_mb ≤ budget
    → IsSound budget (set_instance i is)
set_instance-IsSound {budget} i is s absent free room =
    subst (IsSound budget) (sym (set_instance-absent i is absent)) (record {
      ids = HasUniqueIds-append is i s.ids absent;
      ports = HasUniquePorts-append is i s.ports free;
      within = omega (arith, used_ram_mb-append is i, room);
    })
