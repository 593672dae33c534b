-- ===== src/Engine/Removal.antt =====
-- What deleting instances leaves (apps/gateway/src/engine/llamaServer.ts): unloading several models one
-- after the other keeps the instances of the other models, in their order.
use Prim.Native.String.{String}
use modelforge_ai.Base.{
  ◌≡◌, refl, sym, ap, ◌∙◌, inl, inr, arith, Bool, true, false, not, ◌&&◌, ◌||◌, none, List, [], ◌∷◌,
  Bool-cases, Option-cases,
}
use modelforge_ai.Base.Text.{◌==◌, text_eq, beq_refl, eq_of_beq}
use modelforge_ai.Base.Preds.{any_of_In, filter, any, In}
use modelforge_ai.Engine.Instances.{
  Instance, Engine, RegistryStatus, has_id, get_instance, delete_instance, set_registry_status,
  unload_model, insert_by_use, sort_by_use,
}

-- No model has two instances.
abbrev pub HasUniqueIds : List Instance → Type 0
HasUniqueIds [] = Unit
HasUniqueIds (i ∷ is) = (any (has_id i.model_id) is ≡ false) × HasUniqueIds is

module _ {ℓ} {A : Type ℓ} where
  pub filter-congr :
      (p q : A → Bool) (xs : List A) → ((x : A) → In x xs → p x ≡ q x) → filter p xs ≡ filter q xs
  filter-congr p q [] h = refl
  filter-congr p q (x ∷ xs) h =
      let rest = filter-congr p q xs (λ y m. h y (inr m)) in
      let head : p x ≡ q x = h x (inl refl) in ground (arith, rest, head)

  pub filter-filter :
      (p q : A → Bool) (xs : List A) → filter p (filter q xs) ≡ filter (λ x. p x && q x) xs
  filter-filter p q [] = refl
  filter-filter p q (x ∷ xs) = ground (arith, filter-filter p q xs)

  pub filter_all : (p : A → Bool) (xs : List A) → any (λ x. not (p x)) xs ≡ false → filter p xs ≡ xs
  filter_all p [] h = refl
  filter_all p (x ∷ xs) h = ground (arith, filter_all p xs)

  pub any-filter : (p q : A → Bool) (xs : List A) → any p xs ≡ false → any p (filter q xs) ≡ false
  any-filter p q [] h = refl
  any-filter p q (x ∷ xs) h = ground (arith, any-filter p q xs)

-- One of the instances is of that model.
abbrev pub names : List Instance → String → Bool
names cs id = any (λ c. c.model_id == id) cs

-- The instances of the models that the list does not name.
abbrev pub without : List Instance → List Instance → List Instance
without cs is = filter (λ i. not (names cs i.model_id)) is

get_instance-none :
    (id : String) (is : List Instance) → get_instance id is ≡ none → delete_instance id is ≡ is
unfolding get_instance delete_instance
get_instance-none id [] h = refl
get_instance-none id (i ∷ is) h = ground (arith, get_instance-none id is)

pub set_registry_status-instances :
    (database : Bool) (id : String) (status : RegistryStatus) (e : Engine)
    → (set_registry_status database id status e).instances ≡ e.instances
unfolding set_registry_status
set_registry_status-instances true id status e = refl
set_registry_status-instances false id status e = refl

pub unload_model-instances :
    (database : Bool) (id : String) (e : Engine)
    → (unload_model database id e).instances ≡ delete_instance id e.instances
unfolding unload_model
unload_model-instances database id e = elim (Option-cases (get_instance id e.instances)) [
  | inl missing ↦
      rw (unload_model, missing)
        (set_registry_status-instances database id RegistryStatus.inactive e
          ∙ sym (get_instance-none id e.instances missing))
  | inr (i, present) ↦
      rw (unload_model, present)
        (set_registry_status-instances database id RegistryStatus.inactive _)
]

-- Unloading one model more.
pub without-delete :
    (c : Instance) (cs is : List Instance)
    → without cs (delete_instance c.model_id is) ≡ without (c ∷ cs) is
unfolding delete_instance
without-delete c cs is =
    filter-filter (λ i. not (names cs i.model_id)) (λ i. not (has_id c.model_id i)) is
    ∙ filter-congr _ _ is (λ i m.
      ground (arith, text_eq.beq_iff i.model_id c.model_id, text_eq.beq_iff c.model_id i.model_id))

names-insert :
    (id : String) (i : Instance) (is : List Instance)
    → names (insert_by_use i is) id ≡ names (i ∷ is) id
unfolding insert_by_use
names-insert id i [] = refl
names-insert id i (j ∷ js) = ground (arith, names-insert id i js)

pub names-sort : (id : String) (is : List Instance) → names (sort_by_use is) id ≡ names is id
unfolding sort_by_use
names-sort id [] = refl
names-sort id (i ∷ is) =
    names-insert id i (sort_by_use is) ∙ ap (λ b. i.model_id == id || b) (names-sort id is)

-- Of the instances that pass a test, one is of an instance's model exactly if that instance passes it.
pub names-filter :
    (p : Instance → Bool) (is : List Instance) (i : Instance)
    → HasUniqueIds is
    → In i is
    → names (filter p is) i.model_id ≡ p i
names-filter p [] i u m = absurd m.1
names-filter p (j ∷ js) i (single, u) (inl e) =
    rw e (ground (arith, any-filter (has_id j.model_id) p js single, beq_refl j.model_id))
names-filter p (j ∷ js) i (single, u) (inr m) = elim (Bool-cases (j.model_id == i.model_id)) [
  | inl same ↦
      let twice : any (has_id j.model_id) js ≡ true =
        any_of_In (has_id j.model_id) js i m
          (rw (eq_of_beq j.model_id i.model_id same) (beq_refl i.model_id)) in
      cc
  | inr other ↦ ground (arith, other, names-filter p js i u m)
]
