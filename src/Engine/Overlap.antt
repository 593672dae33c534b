-- ===== src/Engine/Overlap.antt =====
-- Two loads of apps/gateway/src/engine/llamaServer.ts that overlap: the lock is by model, and between
-- the check of the budget and the registration of the instance a load awaits.
use Prim.Native.String.{String}
use modelforge_ai.Base.{
  ℕ, ◌+◌, ◌≡◌, refl, ap, ◌∙◌, arith, true, false, none, some, List, [], ◌∷◌, ◌++◌,
}
use modelforge_ai.Base.Text.{◌==◌, text_eq}
use modelforge_ai.Engine.Instances.{
  Instance, Engine, RegistryStatus, has_id, get_instance, set_instance, used_ram_mb, fits,
  free_port, evict_for_budget,
}
use modelforge_ai.Engine.Removal.{set_registry_status-instances}
use modelforge_ai.Engine.Sound.{set_instance-absent, used_ram_mb-append}
use modelforge_ai.Engine.Loading.{
  Host, LoadRequest, ram_needed, admitted, choose_port, admit, Start, new_instance, register,
  settle, Meanwhile, start_admitted, load_model,
}
use modelforge_ai.Engine.Reach.{undisturbed}

-- A load that finds room and a port without an eviction.
pub record Fits (h : Host) (e : Engine) (port : ℕ) (req : LoadRequest) (size : ℕ) : Type 0 where
  pub binary : h.binary ≡ true
  pub weights : req.size ≡ some size
  pub absent : get_instance req.model_id e.instances ≡ none
  pub room : fits h.budget (ram_needed size req.context_length) e.instances ≡ true
  pub port_found : free_port h.available 200 h.port_base e.instances ≡ some port

abbrev pub instance_of : LoadRequest → ℕ → ℕ → Start → Instance
instance_of req size port s = new_instance req (ram_needed size req.context_length) port s

-- While a load waits for a port, another one runs.
abbrev pub meanwhile_loads : Host → LoadRequest → Start → Meanwhile
meanwhile_loads h req s = record {
  before_start = λ e. (load_model h undisturbed req s none e).1;
  before_ready = λ e. e;
}

module _ (h : Host) (e : Engine) (port : ℕ) where
  pub admit-Fits :
      (req : LoadRequest) (size : ℕ)
      → Fits h e port req size
      → admit h req e ≡ (admitted (ram_needed size req.context_length) port, e)
  unfolding admit choose_port evict_for_budget
  admit-Fits req size f =
      rw (admit, f.absent, f.binary, f.weights, evict_for_budget, f.room, choose_port, f.port_found)
        refl

  pub load_model-Fits :
      (req : LoadRequest) (size : ℕ) (s : Start)
      → Fits h e port req size
      → (load_model h undisturbed req s none e).1.instances
        ≡ e.instances ++ instance_of req size port s ∷ []
  unfolding load_model start_admitted settle register new_instance
  load_model-Fits req size s f = rw (admit-Fits req size f) (
      set_registry_status-instances h.database req.model_id RegistryStatus.loaded _
      ∙ set_instance-absent (instance_of req size port s) e.instances f.absent)

  get_instance-append :
      (id : String) (i : Instance) (is : List Instance)
      → get_instance id is ≡ none
      → has_id id i ≡ false
      → get_instance id (is ++ i ∷ []) ≡ none
  unfolding get_instance
  get_instance-append id i [] absent other = rw other refl
  get_instance-append id i (j ∷ js) absent other =
      ground (arith, absent, other, get_instance-append id i js)

-- Of two loads of different models that both fit, let the second run while the first awaits a port,
-- each with the answers of its own probes. Then both are registered, and the memory used is that of
-- both, whatever the budget is.
pub load_model-overlapping :
    (h k : Host) (e : Engine) (port_a port_b : ℕ) (a b : LoadRequest) (size_a size_b : ℕ)
    (s t : Start)
    → Fits h e port_a a size_a
    → Fits k e port_b b size_b
    → (b.model_id == a.model_id) ≡ false
    → let others : Meanwhile = meanwhile_loads k b t in
      ((load_model h others a s none e).1.instances
        ≡ (e.instances ++ instance_of b size_b port_b t ∷ []) ++ instance_of a size_a port_a s ∷ [])
      × (used_ram_mb (load_model h others a s none e).1.instances
          ≡ used_ram_mb e.instances
            + ram_needed size_b b.context_length
            + ram_needed size_a a.context_length)
unfolding load_model start_admitted settle register new_instance
load_model-overlapping h k e port_a port_b a b size_a size_b s t f g other =
    let i = instance_of a size_a port_a s in
    let j = instance_of b size_b port_b t in
    let second = load_model-Fits k e port_b b size_b t g in
    let absent = get_instance-append h e port_a a.model_id j e.instances f.absent other in
    let shape : (load_model h (meanwhile_loads k b t) a s none e).1.instances
        ≡ (e.instances ++ j ∷ []) ++ i ∷ [] =
      rw (admit-Fits h e port_a a size_a f) (
        set_registry_status-instances h.database a.model_id RegistryStatus.loaded _
        ∙ ap (set_instance i) second
        ∙ set_instance-absent i _ absent) in
    (
      shape,
      ap used_ram_mb shape
          ∙ used_ram_mb-append (e.instances ++ j ∷ []) i
          ∙ ap (λ n. n + i.ram_mb) (used_ram_mb-append e.instances j),
    )
