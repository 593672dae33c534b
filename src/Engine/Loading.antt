-- ===== src/Engine/Loading.antt =====
-- Loading a model, using it and losing it: loadModelUnlocked, ensureLoaded, the handler of a child's
-- exit, the counters of generateStream and shutdownAll of apps/gateway/src/engine/llamaServer.ts.
-- A load awaits at two places: before the instance is registered (the evictions and the search for a
-- port), and before its health is known. What happens meanwhile is a function of the engine, `others`.
use Prim.Native.String.{String}
use modelforge_ai.Base.{
  ℕ, ◌+◌, ◌-◌, ◌*◌, ◌/◌, Bool, not, Option, none, some, List, [], ◌∷◌, map, if◌then◌else◌,
}
use modelforge_ai.Base.Text.{◌==◌, text_eq, nat_eq}
use modelforge_ai.Base.Result.{Result, ok, err}
use modelforge_ai.Engine.Instances.{
  Instance, Engine, loaded, error, EngineCode, internal, model_unavailable, model_not_found,
  get_instance, delete_instance, set_instance, set_registry_status, free_port, unload_model, Keep,
  evict_for_budget,
}

-- The machine and the environment: DATABASE_URL, TOTAL_RAM_BUDGET_MB, LLAMA_SERVER_PORT_BASE and
-- LLAMA_AUTO_LOAD, the existence of the binary, the ports that can be bound.
pub record Host : Type 0 where
  pub database : Bool
  pub budget : ℕ
  pub port_base : ℕ
  pub auto_load : Bool
  pub binary : Bool
  pub available : ℕ → Bool
  pub keep : Keep

-- `size` is the size of the weights file in bytes, if it is there.
pub record LoadRequest : Type 0 where
  pub model_id : String
  pub context_length : ℕ
  pub size : Option ℕ

-- Math.round((size / 1024 ** 2) * 1.1 + context_length / 8), over the common denominator.
unfoldable pub ram_needed : ℕ → ℕ → ℕ
ram_needed size context = (2 * (size * 88 + context * 10_485_760) + 83_886_080) / 167_772_160

-- What a load finds before it starts a process.
pub data Admission : Type 0 where
  already : ℕ → Admission
  admitted : ℕ → ℕ → Admission
  refused : EngineCode → Admission

unfoldable pub choose_port : Host → ℕ → Option EngineCode × Engine → Admission × Engine
choose_port h ram (some code, e) = (refused code, e)
choose_port h ram (none, e) = elim (free_port h.available 200 h.port_base e.instances) [
  | none ↦ (refused internal, e)
  | some port ↦ (admitted ram port, e)
]

-- loadModelUnlocked up to the spawn.
unfoldable pub admit : Host → LoadRequest → Engine → Admission × Engine
admit h req e = elim (get_instance req.model_id e.instances) [
  | some i ↦ (already i.ram_mb, e)
  | none ↦ if not h.binary then (refused model_unavailable, e) else (elim req.size [
    | none ↦ (refused model_not_found, e)
    | some size ↦
        let ram = ram_needed size req.context_length in
        choose_port h ram (evict_for_budget h.database h.keep h.budget ram e)
  ])
]

-- A process that is started: its number, and the time in milliseconds.
pub record Start : Type 0 where
  pub pid : ℕ
  pub now : ℕ

unfoldable pub new_instance : LoadRequest → ℕ → ℕ → Start → Instance
new_instance req ram port s = record {
  model_id = req.model_id;
  port = port;
  pid = s.pid;
  ram_mb = ram;
  loaded_at = s.now / 1_000;
  last_used_at = s.now;
  active_requests = 0;
  generated_tokens = 0;
  generation_ms = 0;
}

-- instances.set
unfoldable pub register : Instance → Engine → Engine
register i e = record e { instances = set_instance i e.instances }

-- `await instance.ready`: it became healthy, or it is killed and forgotten.
unfoldable pub settle :
    Bool → String → ℕ → Option EngineCode → Engine → Result EngineCode ℕ × Engine
settle database id ram none e = (ok ram, set_registry_status database id loaded e)
settle database id ram (some code) e = (
  err code,
  set_registry_status database id error (record e { instances = delete_instance id e.instances }),
)

-- What others do while a load waits for a port, and while it waits for its process.
pub record Meanwhile : Type 0 where
  pub before_start : Engine → Engine
  pub before_ready : Engine → Engine

unfoldable pub start_admitted :
    Host
    → Meanwhile
    → LoadRequest
    → Start
    → Option EngineCode
    → Admission × Engine
    → Result EngineCode ℕ × Engine
start_admitted h others req s health (already ram, e) = (ok ram, e)
start_admitted h others req s health (refused code, e) = (err code, e)
start_admitted h others req s health (admitted ram port, e) =
    settle h.database req.model_id ram health
      (others.before_ready (register (new_instance req ram port s) (others.before_start e)))

-- `health` is the error of waitForHealth, if there is one.
unfoldable pub load_model :
    Host
    → Meanwhile
    → LoadRequest
    → Start
    → Option EngineCode
    → Engine
    → Result EngineCode ℕ × Engine
load_model h others req s health e = start_admitted h others req s health (admit h req e)

-- child.once("exit"): only if the instance that is registered is still that child.
unfoldable pub child_exit : Bool → String → ℕ → Engine → Engine
child_exit database id pid e = elim (get_instance id e.instances) [
  | none ↦ e
  | some i ↦
      if i.pid == pid
      then set_registry_status database id error
          (record e { instances = delete_instance id e.instances })
      else e
]

-- A write to an instance object, which may have left the map.
unfoldable pub update_instance : ℕ → (Instance → Instance) → Engine → Engine
update_instance pid f e = record e {
  instances = map (λ i. if i.pid == pid then f i else i) e.instances;
}

unfoldable pub begin_request : ℕ → ℕ → Engine → Engine
begin_request pid now =
    update_instance pid
      (λ i. record i { active_requests = i.active_requests + 1; last_used_at = now })

-- The counters of a generation that ends well.
unfoldable pub count_generation : ℕ → ℕ → ℕ → Engine → Engine
count_generation pid tokens ms = update_instance pid (λ i. record i {
  generated_tokens = i.generated_tokens + tokens;
  generation_ms = i.generation_ms + ms;
})

-- `finally`; `-` stops at 0, as Math.max(0, …) does.
unfoldable pub end_request : ℕ → ℕ → Engine → Engine
end_request pid now =
    update_instance pid
      (λ i. record i { active_requests = i.active_requests - 1; last_used_at = now })

unfoldable pub loaded_instance :
    String → Result EngineCode ℕ × Engine → Result EngineCode Instance × Engine
loaded_instance id (err code, e) = (err code, e)
loaded_instance id (ok _, e) = elim (get_instance id e.instances) [
  | none ↦ (err internal, e)
  | some i ↦ (ok i, e)
]

-- The instance of a model that is asked for; `health` is what becomes of an instance that is there.
unfoldable pub ensure_loaded :
    Host
    → Meanwhile
    → String
    → Option LoadRequest
    → Start
    → Option EngineCode
    → Engine
    → Result EngineCode Instance × Engine
ensure_loaded h others id hosted s health e = elim (get_instance id e.instances) [
  | some i ↦ elim health [ none ↦ (ok i, e) | some code ↦ (err code, e) ]
  | none ↦ if not h.auto_load then (err model_unavailable, e) else (elim hosted [
    | none ↦ (err model_not_found, e)
    | some req ↦ loaded_instance id (load_model h others req s health e)
  ])
]

unfoldable pub shutdown_all : Bool → List String → Engine → Engine
shutdown_all database [] e = e
shutdown_all database (id ∷ ids) e = shutdown_all database ids (unload_model database id e)
