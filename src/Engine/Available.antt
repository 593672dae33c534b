-- ===== src/Engine/Available.antt =====
-- A model that is asked for becomes available (ensureLoaded of apps/gateway/src/engine/llamaServer.ts).
use Prim.Native.String.{String}
use modelforge_ai.Base.{
  ℕ, zero, suc, ◌+◌, ◌≤◌, ◌<◌, ◌≡◌, refl, sym, ap, subst, ◌∙◌, inl, inr, arith, Bool, true, false,
  not, ◌&&◌, Option, none, some, List, [], ◌∷◌, ◌++◌, Bool-cases, if◌then◌else◌,
}
use modelforge_ai.Base.Text.{◌==◌, text_eq, nat_eq, beq_refl}
use modelforge_ai.Base.Preds.{In}
use modelforge_ai.Base.Result.{Result, ok, err}
use modelforge_ai.Engine.Instances.{
  Instance, Engine, EngineCode, RegistryStatus, is_taken, get_instance, delete_instance,
  used_ram_mb, free_port, evict_for_budget,
}
use modelforge_ai.Engine.Removal.{any-filter, set_registry_status-instances}
use modelforge_ai.Engine.LeastRecent.{In-left}
use modelforge_ai.Engine.Eviction.{
  is_pinned, pinned, evict_for_budget_cases, evict_for_budget-pinned,
}
use modelforge_ai.Engine.Keeping.{evict_for_budget_keeps}
use modelforge_ai.Engine.Sound.{
  IsSound, evict_for_budget-absent, free_port_sound, set_instance-absent,
}
use modelforge_ai.Engine.Loading.{
  Host, LoadRequest, ram_needed, admitted, admit, choose_port, Start, new_instance, register,
  load_model, start_admitted, settle, loaded_instance, ensure_loaded,
}
use modelforge_ai.Engine.Reach.{undisturbed, Step, Step-IsSound}

-- A port of the range that can be bound and that no instance has is enough.
free_port_complete :
    (available : ℕ → Bool) (left from : ℕ) (is : List Instance) (port : ℕ)
    → from ≤ port
    → port < from + left
    → available port ≡ true
    → is_taken port is ≡ false
    → (p : ℕ) × (free_port available left from is ≡ some p)
unfolding free_port
free_port_complete available zero from is port low high can free = absurd (omega arith)
free_port_complete available (suc left) from is port low high can free =
    elim (Bool-cases (not (is_taken from is) && available from)) [
      | inl good ↦ (from, rw good refl)
      | inr bad ↦ elim (Bool-cases (from == port)) [
        | inl same ↦
            let e : from ≡ port = (nat_eq.beq_iff from port).0 same in
            absurd (ground (arith, ap available e, ap (λ p. is_taken p is) e, bad, can, free))
        | inr other ↦
            let (p, found) =
              free_port_complete available left (from + 1) is port (ground (arith, other))
                (omega arith) can free in
            (p, rw bad found)
      ]
    ]

choose_port-free :
    (h : Host) (ram port : ℕ) (r : Option EngineCode × Engine)
    → r.0 ≡ none
    → free_port h.available 200 h.port_base r.1.instances ≡ some port
    → choose_port h ram r ≡ (admitted ram port, r.1)
unfolding choose_port
choose_port-free h ram port (none, e) done found = rw (choose_port, found) refl
choose_port-free h ram port (some code, e) done found = cc

get_instance-appended :
    (i : Instance) (is : List Instance)
    → get_instance i.model_id is ≡ none
    → get_instance i.model_id (is ++ i ∷ []) ≡ some i
unfolding get_instance
get_instance-appended i [] absent = rw (beq_refl i.model_id) refl
get_instance-appended i (j ∷ js) absent = ground (arith, absent, get_instance-appended i js)

loaded_instance-ok :
    (id : String) (r : Result EngineCode ℕ × Engine) (ram : ℕ) (i : Instance)
    → r.0 ≡ ok ram
    → get_instance id r.1.instances ≡ some i
    → loaded_instance id r ≡ (ok i, r.1)
unfolding loaded_instance
loaded_instance-ok id (ok n, e') ram i h k = rw (loaded_instance, k) refl
loaded_instance-ok id (err code, e') ram i h k = cc

if_allowed {ℓ} : {A : Type ℓ} (b : Bool) → b ≡ true → (x y : A) → (if not b then x else y) ≡ y
if_allowed true h x y = refl
if_allowed false h x y = cc

still_free :
    (port : ℕ) (id : String) (is : List Instance)
    → is_taken port is ≡ false
    → is_taken port (delete_instance id is) ≡ false
unfolding delete_instance
still_free port id is free = any-filter (λ i. i.port == port) _ is free

-- A model that can be loaded: its binary and weights are there, its need fits beside the instances that have
-- to stay, and one port of the range can be bound and is not taken.
pub record CanLoad (h : Host) (e : Engine) (req : LoadRequest) (size port : ℕ) : Type 0 where
  pub on_demand : h.auto_load ≡ true
  pub binary : h.binary ≡ true
  pub weights : req.size ≡ some size
  pub room : used_ram_mb (pinned h.keep e.instances) + ram_needed size req.context_length ≤ h.budget
  pub from_base : h.port_base ≤ port
  pub in_range : port < h.port_base + 200
  pub bindable : h.available port ≡ true
  pub untaken : is_taken port e.instances ≡ false

-- The instance that was asked for, given and registered, on a port of its own and with its memory counted;
-- and those that had to stay have stayed.
pub record IsLoaded (h : Host) (e : Engine) (req : LoadRequest) (size : ℕ)
    (result : Result EngineCode Instance) (after : Engine) : Type 0 where
  pub instance_of : Instance
  pub given : result ≡ ok instance_of
  pub there : get_instance req.model_id after.instances ≡ some instance_of
  pub of_model : instance_of.model_id ≡ req.model_id
  pub memory : instance_of.ram_mb ≡ ram_needed size req.context_length
  pub from_base : h.port_base ≤ instance_of.port
  pub in_range : instance_of.port < h.port_base + 200
  pub bindable : h.available instance_of.port ≡ true
  pub sound : IsSound h.budget after.instances
  pub stayed : (i : Instance) → In i e.instances → is_pinned h.keep i ≡ true → In i after.instances

module _ (h : Host) (req : LoadRequest) (size : ℕ) (s : Start) (e : Engine) where
  abbrev need : ℕ
  need = ram_needed size req.context_length

  abbrev evicted : Option EngineCode × Engine
  evicted = evict_for_budget h.database h.keep h.budget need e

  abbrev load : Result EngineCode ℕ × Engine
  load = load_model h undisturbed req s none e

  makes_room :
      IsSound h.budget e.instances
      → used_ram_mb (pinned h.keep e.instances) + need ≤ h.budget
      → evicted.0 ≡ none
  makes_room sound room =
      let (_, _, end) = evict_for_budget_cases h.database h.budget need h.keep e sound.ids in
      elim end [ inl (done, _) ↦ done | inr (_, _, short) ↦ absurd (omega arith) ]

  finds_port :
      (port : ℕ)
      → CanLoad h e req size port
      → (p : ℕ) × (free_port h.available 200 h.port_base evicted.1.instances ≡ some p)
  finds_port port c =
      free_port_complete h.available 200 h.port_base evicted.1.instances port c.from_base c.in_range
        c.bindable
        (evict_for_budget_keeps (λ is. is_taken port is ≡ false) (still_free port) h.database h.keep
          h.budget need e c.untaken)

  -- A load that finds room and a port registers the instance behind those that are left.
  load_shape :
      (port : ℕ)
      → h.binary ≡ true
      → req.size ≡ some size
      → get_instance req.model_id e.instances ≡ none
      → evicted.0 ≡ none
      → free_port h.available 200 h.port_base evicted.1.instances ≡ some port
      → (load.0 ≡ ok need)
        × (load.1.instances ≡ evicted.1.instances ++ new_instance req need port s ∷ [])
  unfolding load_model start_admitted settle register new_instance admit
  load_shape port binary weights absent done found =
      let i = new_instance req need port s in
      let admits : admit h req e ≡ (admitted need port, evicted.1) =
        rw (admit, absent, binary, weights) (choose_port-free h need port evicted done found) in
      let gone = evict_for_budget-absent h.database h.keep h.budget need e req.model_id absent in
      (
        rw admits refl,
        rw admits (
            set_registry_status-instances h.database req.model_id RegistryStatus.loaded _
            ∙ set_instance-absent i evicted.1.instances gone),
      )

  -- Where no model has two instances, no port is used twice and the memory is within the budget: a model
  -- that has no instance, whose binary and weights are there, whose need fits the budget beside the
  -- instances that have to stay, and for which one port of the range can be bound and is not taken, is
  -- loaded when it is asked for, whatever has to be unloaded for it, if models are loaded on demand, nothing
  -- else happens meanwhile and its process becomes healthy. The one who asks gets its instance, which is
  -- registered, has the memory that the model needs and a port of the range that can be bound; no port is
  -- used twice, the memory is within the budget, and the instances that had to stay are still there.
  pub ensure_loaded-available :
      (port : ℕ)
      → IsSound h.budget e.instances
      → get_instance req.model_id e.instances ≡ none
      → CanLoad h e req size port
      → let r = ensure_loaded h undisturbed req.model_id (some req) s none e in
        IsLoaded h e req size r.0 r.1
  unfolding ensure_loaded new_instance
  ensure_loaded-available port sound absent c =
      let done = makes_room sound c.room in
      let (p, found) = finds_port port c in
      let i = new_instance req need p s in
      let (answer, shape) = load_shape p c.binary c.weights absent done found in
      let gone = evict_for_budget-absent h.database h.keep h.budget need e req.model_id absent in
      let there : get_instance req.model_id load.1.instances ≡ some i =
        ap (get_instance req.model_id) shape ∙ get_instance-appended i evicted.1.instances gone in
      let (low, high, can, _) =
        free_port_sound h.available 200 h.port_base evicted.1.instances p found in
      let whole : ensure_loaded h undisturbed req.model_id (some req) s none e ≡ (ok i, load.1) =
        rw (ensure_loaded, absent)
          (if_allowed h.auto_load c.on_demand _ _
            ∙ loaded_instance-ok req.model_id load need i answer there) in
      subst (λ (r : Result EngineCode Instance × Engine). IsLoaded h e req size r.0 r.1) (sym whole)
        (record {
          instance_of = i;
          given = refl;
          there = there;
          of_model = refl;
          memory = refl;
          from_base = low;
          in_range = high;
          bindable = can;
          sound = Step-IsSound h (Step.load req s none) sound;
          stayed = λ j m kept. subst (In j) (sym shape) (
              In-left j evicted.1.instances (i ∷ [])
                (evict_for_budget-pinned h.database h.budget need h.keep e sound.ids j m kept));
        })
