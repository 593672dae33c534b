-- ===== src/Engine/Instances.antt =====
-- The instances of apps/gateway/src/engine/llamaServer.ts, and what makes room for another.
-- The engine's state is the Map `instances`, in its order of insertion, and the statuses that the
-- registry keeps (hostedModel.status). A child process is known by its number. `trim` is
-- String.prototype.trim, and the variables of the environment are arguments.
use Prim.Native.String.{String}
use modelforge_ai.Base.{
  ℕ, zero, suc, ◌+◌, Bool, not, ◌&&◌, Option, none, some, List, [], ◌∷◌, map, if◌then◌else◌, leb,
}
use modelforge_ai.Base.Text.{◌==◌, text_eq, nat_eq}
use modelforge_ai.Base.Preds.{find, filter, any}

pub record Instance : Type 0 where
  pub model_id : String
  pub port : ℕ
  pub pid : ℕ
  pub ram_mb : ℕ
  pub loaded_at : ℕ
  pub last_used_at : ℕ
  pub active_requests : ℕ
  pub generated_tokens : ℕ
  pub generation_ms : ℕ

pub data RegistryStatus : Type 0 where
  inactive loaded error : RegistryStatus

pub record Engine : Type 0 where
  pub instances : List Instance
  pub registry : List (String × RegistryStatus)

pub data EngineCode : Type 0 where
  internal model_unavailable model_not_found oom : EngineCode

abbrev pub has_id : String → Instance → Bool
has_id id i = i.model_id == id

-- instances.get
unfoldable pub get_instance : String → List Instance → Option Instance
get_instance id is = find (has_id id) is

-- instances.delete
unfoldable pub delete_instance : String → List Instance → List Instance
delete_instance id is = filter (λ i. not (has_id id i)) is

-- instances.set: a key that is there keeps its place.
unfoldable pub set_instance : Instance → List Instance → List Instance
set_instance i [] = i ∷ []
set_instance i (j ∷ js) =
    let rest = set_instance i js in if has_id i.model_id j then i ∷ js else j ∷ rest

-- updateMany; without a database nothing is written, and its errors are only logged.
unfoldable pub set_registry_status : Bool → String → RegistryStatus → Engine → Engine
set_registry_status database id status e =
    if database
    then record e { registry = map (λ r. if r.0 == id then (r.0, status) else r) e.registry }
    else e

-- The entries of MODELFORGE_PROTECTED_MODELS between its commas.
unfoldable pub is_protected_from_eviction : (String → String) → List String → String → Bool
is_protected_from_eviction trim entries id =
    any (λ v. v == id) (filter (λ v. not (v == "")) (map trim entries))

unfoldable pub used_ram_mb : List Instance → ℕ
used_ram_mb [] = 0
used_ram_mb (i ∷ is) = i.ram_mb + used_ram_mb is

abbrev pub is_taken : ℕ → List Instance → Bool
is_taken port is = any (λ i. i.port == port) is

-- The loop of `freePort`: the candidates left, and the next one. `available` is the probe's answer.
unfoldable pub free_port : (ℕ → Bool) → ℕ → ℕ → List Instance → Option ℕ
free_port available zero candidate is = none
free_port available (suc left) candidate is =
    let rest = free_port available left (candidate + 1) is in
    if not (is_taken candidate is) && available candidate then some candidate else rest

-- The process is killed; its exit is a later event.
unfoldable pub unload_model : Bool → String → Engine → Engine
unload_model database id e = elim (get_instance id e.instances) [
  | none ↦ set_registry_status database id inactive e
  | some _ ↦
      set_registry_status database id inactive
        (record e { instances = delete_instance id e.instances })
]

-- Who may be evicted: `reserved` are the models with an active reservation that is not preemptible,
-- none of them if the database does not answer.
pub record Keep : Type 0 where
  pub protected : String → Bool
  pub reserved : List String

unfoldable pub is_evictable : Keep → Instance → Bool
is_evictable k i =
    i.active_requests == 0
    && not (k.protected i.model_id)
    && not (any (λ id. id == i.model_id) k.reserved)

-- sort, by the time of the last use
unfoldable pub insert_by_use : Instance → List Instance → List Instance
insert_by_use i [] = i ∷ []
insert_by_use i (j ∷ js) =
    if leb i.last_used_at j.last_used_at then i ∷ j ∷ js else j ∷ insert_by_use i js

unfoldable pub sort_by_use : List Instance → List Instance
sort_by_use [] = []
sort_by_use (i ∷ is) = insert_by_use i (sort_by_use is)

abbrev pub fits : ℕ → ℕ → List Instance → Bool
fits budget need is = leb (used_ram_mb is + need) budget

-- The loop over the candidates, which are those of the beginning.
unfoldable pub evict_candidates : Bool → ℕ → ℕ → List Instance → Engine → Engine
evict_candidates database budget need [] e = e
evict_candidates database budget need (c ∷ cs) e =
    let rest = evict_candidates database budget need cs (unload_model database c.model_id e) in
    if fits budget need e.instances then e else rest

-- Whether it throws OOM, and the engine: what has been unloaded stays so.
unfoldable pub evict_for_budget : Bool → Keep → ℕ → ℕ → Engine → Option EngineCode × Engine
evict_for_budget database k budget need e =
    if fits budget need e.instances
    then (none, e)
    else (let candidates = sort_by_use (filter (is_evictable k) e.instances) in
        let e' = evict_candidates database budget need candidates e in
        if fits budget need e'.instances then (none, e') else (some oom, e'))
