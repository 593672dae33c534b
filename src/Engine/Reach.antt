-- ===== src/Engine/Reach.antt =====
-- The engine of apps/gateway/src/engine/llamaServer.ts as a state machine: what may happen to it, one
-- thing after the other, and what holds at every point that it can reach.
use Prim.Native.String.{String}
use modelforge_ai.Base.{
  ℕ, ◌+◌, ◌≤◌, ◌≡◌, refl, sym, subst, inl, inr, arith, false, Option, none, some, List, [], ◌∷◌,
  map, if◌then◌else◌, Bool-cases, Option-cases,
}
use modelforge_ai.Base.Text.{◌==◌, text_eq, nat_eq}
use modelforge_ai.Base.Preds.{any}
use modelforge_ai.Engine.Instances.{
  Instance, Engine, EngineCode, RegistryStatus, has_id, is_taken, get_instance, set_registry_status,
  used_ram_mb, free_port, unload_model, evict_for_budget,
}
use modelforge_ai.Engine.Removal.{HasUniqueIds, set_registry_status-instances}
use modelforge_ai.Engine.Keeping.{evict_for_budget-fits}
use modelforge_ai.Engine.Sound.{
  HasUniquePorts, IsSound, delete_instance-IsSound, unload_model-IsSound, evict_for_budget-IsSound,
  evict_for_budget-absent, free_port_sound, set_instance-IsSound,
}
use modelforge_ai.Engine.Loading.{
  Host, LoadRequest, ram_needed, Admission, already, admitted, refused, choose_port, admit, Start,
  new_instance, register, settle, Meanwhile, start_admitted, load_model, child_exit,
  update_instance, begin_request, count_generation, end_request,
}

-- Nothing happens while a load waits.
abbrev pub undisturbed : Meanwhile
undisturbed = record { before_start = λ e. e; before_ready = λ e. e }

pub data Step (h : Host) (e : Engine) : Engine → Type 0 where
  load :
      (req : LoadRequest) (s : Start) (health : Option EngineCode)
      → Step h e (load_model h undisturbed req s health e).1
  unload : (id : String) → Step h e (unload_model h.database id e)
  exit : (id : String) (pid : ℕ) → Step h e (child_exit h.database id pid e)
  begin : (pid now : ℕ) → Step h e (begin_request pid now e)
  count : (pid tokens ms : ℕ) → Step h e (count_generation pid tokens ms e)
  finish : (pid now : ℕ) → Step h e (end_request pid now e)

pub data Reach (h : Host) (e : Engine) : Engine → Type 0 where
  here : Reach h e e
  next : {e' e'' : Engine} → Reach h e e' → Step h e' e'' → Reach h e e''

-- A write that keeps the model, the port and the memory of an instance.
pub record KeepsPlace (f : Instance → Instance) : Type 0 where
  pub id : (i : Instance) → (f i).model_id ≡ i.model_id
  pub port : (i : Instance) → (f i).port ≡ i.port
  pub ram : (i : Instance) → (f i).ram_mb ≡ i.ram_mb

module _ (pid : ℕ) (f : Instance → Instance) (k : KeepsPlace f) where
  abbrev written : List Instance → List Instance
  written is = map (λ i. if i.pid == pid then f i else i) is

  any_id-written :
      (id : String) (is : List Instance) → any (has_id id) (written is) ≡ any (has_id id) is
  any_id-written id [] = refl
  any_id-written id (i ∷ is) = ground (arith, k.id i, any_id-written id is)

  is_taken-written : (port : ℕ) (is : List Instance) → is_taken port (written is) ≡ is_taken port is
  is_taken-written port [] = refl
  is_taken-written port (i ∷ is) = ground (arith, k.port i, is_taken-written port is)

  HasUniqueIds-written : (is : List Instance) → HasUniqueIds is → HasUniqueIds (written is)
  HasUniqueIds-written [] u = tt
  HasUniqueIds-written (i ∷ is) (single, u) = (
    ground (arith, k.id i, any_id-written i.model_id is, any_id-written (f i).model_id is, single),
    HasUniqueIds-written is u,
  )

  HasUniquePorts-written : (is : List Instance) → HasUniquePorts is → HasUniquePorts (written is)
  HasUniquePorts-written [] u = tt
  HasUniquePorts-written (i ∷ is) (single, u) = (
    ground (arith, k.port i, is_taken-written i.port is, is_taken-written (f i).port is, single),
    HasUniquePorts-written is u,
  )

  used_ram_mb-written : (is : List Instance) → used_ram_mb (written is) ≡ used_ram_mb is
  unfolding used_ram_mb
  used_ram_mb-written [] = refl
  used_ram_mb-written (i ∷ is) = ground (arith, k.ram i, used_ram_mb-written is)

  update_instance-IsSound :
      {budget : ℕ} (e : Engine)
      → IsSound budget e.instances
      → IsSound budget (update_instance pid f e).instances
  unfolding update_instance
  update_instance-IsSound e s = record {
    ids = HasUniqueIds-written e.instances s.ids;
    ports = HasUniquePorts-written e.instances s.ports;
    within = omega (arith, used_ram_mb-written e.instances, s.within);
  }

module _ (h : Host) where
  abbrev Good : Engine → Type 0
  Good e = IsSound h.budget e.instances

  set_registry_status-IsSound :
      (id : String) (status : RegistryStatus) (e : Engine)
      → Good e
      → Good (set_registry_status h.database id status e)
  set_registry_status-IsSound id status e s =
      subst (IsSound h.budget) (sym (set_registry_status-instances h.database id status e)) s

  settle-IsSound :
      (id : String) (ram : ℕ) (health : Option EngineCode) (e : Engine)
      → Good e
      → Good (settle h.database id ram health e).1
  unfolding settle
  settle-IsSound id ram none e s = set_registry_status-IsSound id RegistryStatus.loaded e s
  settle-IsSound id ram (some code) e s =
      set_registry_status-IsSound id RegistryStatus.error _
        (delete_instance-IsSound id e.instances s)

  -- What an admission leaves: room for the model, and a port for it.
  abbrev Admits : LoadRequest → Admission × Engine → Type 0
  Admits req (already ram, e) = Good e
  Admits req (refused code, e) = Good e
  Admits req (admitted ram port, e) =
      Good e
      × (get_instance req.model_id e.instances ≡ none)
      × (is_taken port e.instances ≡ false)
      × (used_ram_mb e.instances + ram ≤ h.budget)

  choose_port-Admits :
      (req : LoadRequest) (ram : ℕ) (e : Engine)
      → Good e
      → get_instance req.model_id e.instances ≡ none
      → used_ram_mb e.instances + ram ≤ h.budget
      → Admits req (choose_port h ram (none, e))
  unfolding choose_port
  choose_port-Admits req ram e s absent room =
      elim (Option-cases (free_port h.available 200 h.port_base e.instances)) [
        | inl full ↦
            let none_free : choose_port h ram (none, e) ≡ (refused EngineCode.internal, e) =
              rw (choose_port, full) refl in
            subst (Admits req) (sym none_free) s
        | inr (port, found) ↦
            let (_, _, _, free) =
              free_port_sound h.available 200 h.port_base e.instances port found in
            let chosen : choose_port h ram (none, e) ≡ (admitted ram port, e) =
              rw (choose_port, found) refl in
            subst (Admits req) (sym chosen) (s, absent, free, room)
      ]

  evicted-Admits :
      (req : LoadRequest) (ram : ℕ) (r : Option EngineCode × Engine)
      → Good r.1
      → get_instance req.model_id r.1.instances ≡ none
      → (r.0 ≡ none → used_ram_mb r.1.instances + ram ≤ h.budget)
      → Admits req (choose_port h ram r)
  unfolding choose_port
  evicted-Admits req ram (none, e) s absent room = choose_port-Admits req ram e s absent (room refl)
  evicted-Admits req ram (some code, e) s absent room = s

  make_room-Admits :
      (req : LoadRequest) (ram : ℕ) (e : Engine)
      → Good e
      → get_instance req.model_id e.instances ≡ none
      → Admits req (choose_port h ram (evict_for_budget h.database h.keep h.budget ram e))
  make_room-Admits req ram e s absent =
      evicted-Admits req ram (evict_for_budget h.database h.keep h.budget ram e)
        (evict_for_budget-IsSound h.database h.keep h.budget ram e s)
        (evict_for_budget-absent h.database h.keep h.budget ram e req.model_id absent)
        (evict_for_budget-fits h.database h.keep h.budget ram e)

  admit-Admits : (req : LoadRequest) (e : Engine) → Good e → Admits req (admit h req e)
  unfolding admit
  admit-Admits req e s = elim (Option-cases (get_instance req.model_id e.instances)) [
    | inr (i, there) ↦ rw (admit, there) s
    | inl absent ↦ elim (Bool-cases h.binary) [
      | inr missing ↦ rw (admit, absent, missing) s
      | inl binary ↦ elim (Option-cases req.size) [
        | inl lost ↦ rw (admit, absent, binary, lost) s
        | inr (size, weights) ↦
            rw (admit, absent, binary, weights)
              (make_room-Admits req (ram_needed size req.context_length) e s absent)
      ]
    ]
  ]

  start_admitted-IsSound :
      (req : LoadRequest) (s : Start) (health : Option EngineCode) (a : Admission × Engine)
      → Admits req a
      → Good (start_admitted h undisturbed req s health a).1
  unfolding start_admitted register new_instance
  start_admitted-IsSound req s health (already ram, e) good = good
  start_admitted-IsSound req s health (refused code, e) good = good
  start_admitted-IsSound req s health (admitted ram port, e) (good, absent, free, room) =
      settle-IsSound req.model_id ram health _
        (set_instance-IsSound (new_instance req ram port s) e.instances good absent free room)

  child_exit-IsSound :
      (id : String) (pid : ℕ) (e : Engine) → Good e → Good (child_exit h.database id pid e)
  unfolding child_exit
  child_exit-IsSound id pid e good = elim (Option-cases (get_instance id e.instances)) [
    | inl gone ↦ rw (child_exit, gone) good
    | inr (i, there) ↦ elim (Bool-cases (i.pid == pid)) [
      | inl same ↦
          rw (child_exit, there, same)
            (set_registry_status-IsSound id RegistryStatus.error _
              (delete_instance-IsSound id e.instances good))
      | inr other ↦ rw (child_exit, there, other) good
    ]
  ]

  pub Step-IsSound : {e e' : Engine} → Step h e e' → Good e → Good e'
  unfolding load_model child_exit begin_request count_generation end_request
  Step-IsSound {e} (load req s health) good =
      start_admitted-IsSound req s health (admit h req e) (admit-Admits req e good)
  Step-IsSound {e} (unload id) good = unload_model-IsSound h.database id e good
  Step-IsSound {e} (exit id pid) good = child_exit-IsSound id pid e good
  Step-IsSound {e} (begin pid now) good =
      update_instance-IsSound pid _ (record { id = λ i. refl; port = λ i. refl; ram = λ i. refl }) e
        good
  Step-IsSound {e} (count pid tokens ms) good =
      update_instance-IsSound pid _ (record { id = λ i. refl; port = λ i. refl; ram = λ i. refl }) e
        good
  Step-IsSound {e} (finish pid now) good =
      update_instance-IsSound pid _ (record { id = λ i. refl; port = λ i. refl; ram = λ i. refl }) e
        good

  -- From an engine where no model has two instances, no port is used twice and the memory is within the
  -- budget, whatever is loaded, unloaded, used or dies, one thing after the other, leads to such an engine.
  pub Reach-IsSound :
      {e e' : Engine} → IsSound h.budget e.instances → Reach h e e' → IsSound h.budget e'.instances
  Reach-IsSound good here = good
  Reach-IsSound good (next r step) = Step-IsSound step (Reach-IsSound good r)
