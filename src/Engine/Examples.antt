-- ===== src/Engine/Examples.antt =====
-- Runs of apps/gateway/src/engine/llamaServer.ts on concrete instances and streams.
use Prim.Native.String.{String}
use modelforge_ai.Base.{
  ℕ, ◌+◌, ◌≤◌, ◌<◌, ◌≡◌, refl, ◌⊎◌, arith, true, false, Option, none, some, List, [], ◌∷◌, ◌++◌,
}
use modelforge_ai.Base.Text.{text_eq}
use modelforge_ai.Engine.Instances.{
  Instance, Engine, oom, RegistryStatus, Keep, used_ram_mb, evict_for_budget, evict_candidates,
  sort_by_use, insert_by_use, is_evictable, set_registry_status, get_instance, free_port,
  unload_model, delete_instance,
}
use modelforge_ai.Engine.Loading.{Host, LoadRequest, Start, Meanwhile, ram_needed, load_model}
use modelforge_ai.Engine.Eviction.{pinned, IsEviction, evict_for_budget_cases}
use modelforge_ai.Engine.Sound.{IsSound}
use modelforge_ai.Engine.Reach.{undisturbed, Step, Reach, Reach-IsSound}
use modelforge_ai.Engine.Loading.{ensure_loaded}
use modelforge_ai.Engine.Available.{CanLoad, IsLoaded, ensure_loaded-available}
use modelforge_ai.Engine.Overlap.{instance_of, meanwhile_loads, load_model-overlapping}
use modelforge_ai.Base.Units.{Units}
use modelforge_ai.Engine.Stream.{
  UpstreamResponse, stream_chunks, consume_pieces, consume_lines, split_lines,
}
use modelforge_ai.Engine.Boundaries.{concat, stream_chunks-concat}

-- An instance of a model: its process, its memory, its last use and its requests.
abbrev running : String → ℕ → ℕ → ℕ → ℕ → Instance
running id pid ram used active = record {
  model_id = id;
  port = 9_100 + pid;
  pid = pid;
  ram_mb = ram;
  loaded_at = 0;
  last_used_at = used;
  active_requests = active;
  generated_tokens = 0;
  generation_ms = 0;
}

abbrev busy : Instance
busy = running "llama" 0 6 5 1

abbrev idle : Instance
idle = running "qwen" 1 3 7 0

abbrev two_models : Engine
two_models = record {
  instances = busy ∷ idle ∷ [];
  registry = ("llama", RegistryStatus.loaded) ∷ ("qwen", RegistryStatus.loaded) ∷ [];
}

abbrev keep_none : Keep
keep_none = record { protected = λ id. false; reserved = [] }

evict_for_budget_cases_example :
    (gone : List Instance) × IsEviction keep_none 10 5 two_models.instances
      (evict_for_budget true keep_none 10 5 two_models).1.instances
      gone
    × (((evict_for_budget true keep_none 10 5 two_models).0 ≡ none)
          × (used_ram_mb (evict_for_budget true keep_none 10 5 two_models).1.instances + 5 ≤ 10)
        ⊎ ((evict_for_budget true keep_none 10 5 two_models).0 ≡ some oom)
          × ((evict_for_budget true keep_none 10 5 two_models).1.instances
              ≡ pinned keep_none two_models.instances)
          × (10 < used_ram_mb (pinned keep_none two_models.instances) + 5))
evict_for_budget_cases_example =
    evict_for_budget_cases true 10 5 keep_none two_models (refl, (refl, tt))

evict_for_budget_idle : (evict_for_budget true keep_none 10 4 two_models).1.instances ≡ busy ∷ []
unfolding evict_for_budget used_ram_mb evict_candidates sort_by_use is_evictable insert_by_use
    unload_model get_instance set_registry_status delete_instance
evict_for_budget_idle = refl

abbrev host : Host
host = record {
  database = true;
  budget = 10;
  port_base = 9_100;
  auto_load = true;
  binary = true;
  available = λ port. true;
  keep = keep_none;
}

-- The second server of the machine takes the ports from 9,300.
abbrev other_ports : Host
other_ports = record host { port_base = 9_300 }

-- Five megabytes of weights and a context of eight tokens.
abbrev asks_for : String → LoadRequest
asks_for id = record { model_id = id; context_length = 8; size = some 5_242_880 }

abbrev empty_engine : Engine
empty_engine = record { instances = []; registry = ("llama", RegistryStatus.inactive) ∷ [] }

abbrev start_at : ℕ → Start
start_at pid = record { pid = pid; now = 1_000 }

abbrev loaded_once : Engine
loaded_once = (load_model host undisturbed (asks_for "llama") (start_at 1) none empty_engine).1

abbrev loaded_twice : Engine
loaded_twice = (load_model host undisturbed (asks_for "qwen") (start_at 2) none loaded_once).1

Reach-IsSound_example : IsSound 10 loaded_twice.instances
unfolding used_ram_mb
Reach-IsSound_example =
    Reach-IsSound host {e = empty_engine} (record { ids = tt; ports = tt; within = omega arith })
      (Reach.next (Reach.next Reach.here (Step.load (asks_for "llama") (start_at 1) none))
        (Step.load (asks_for "qwen") (start_at 2) none))

load_model-overlapping_example :
    let others : Meanwhile = meanwhile_loads other_ports (asks_for "qwen") (start_at 2) in
    ((load_model host others (asks_for "llama") (start_at 1) none empty_engine).1.instances
      ≡ ([] ++ instance_of (asks_for "qwen") 5_242_880 9_300 (start_at 2) ∷ [])
        ++ instance_of (asks_for "llama") 5_242_880 9_100 (start_at 1) ∷ [])
    × (used_ram_mb
          (load_model host others (asks_for "llama") (start_at 1) none empty_engine).1.instances
        ≡ used_ram_mb [] + ram_needed 5_242_880 8 + ram_needed 5_242_880 8)
unfolding get_instance used_ram_mb ram_needed free_port
load_model-overlapping_example =
    load_model-overlapping host other_ports empty_engine 9_100 9_300 (asks_for "llama")
      (asks_for "qwen") 5_242_880 5_242_880 (start_at 1) (start_at 2)
      (record { binary = refl; weights = refl; absent = refl; room = refl; port_found = refl })
      (record { binary = refl; weights = refl; absent = refl; room = refl; port_found = refl }) refl

abbrev no_trim : Units → Units
no_trim text = text

-- Every line is a part with the text "x".
abbrev parses_all : Units → Option UpstreamResponse
parses_all text = some (record {
  choice = some (record {
    delta = some (record { content = some "x"; reasoning_content = none });
    message = none;
    finish_reason = none;
  });
  usage = none;
})

-- "data:1\ndata:2\n", cut in the middle of the first line.
abbrev cut_stream : List Units
cut_stream =
    (100 ∷ 97 ∷ [])
    ∷ (116 ∷ 97 ∷ 58 ∷ 49 ∷ 10 ∷ 100 ∷ 97 ∷ [])
    ∷ (116 ∷ 97 ∷ 58 ∷ 50 ∷ 10 ∷ [])
    ∷ []

stream_chunks-concat_example :
    stream_chunks no_trim parses_all false cut_stream
    ≡ stream_chunks no_trim parses_all false (concat cut_stream ∷ [])
stream_chunks-concat_example = stream_chunks-concat no_trim parses_all false cut_stream

stream_chunks_three :
    stream_chunks no_trim parses_all false cut_stream
    ≡ stream_chunks no_trim parses_all false
        ((100 ∷ 97 ∷ 116 ∷ 97 ∷ 58 ∷ 49 ∷ 10 ∷ []) ∷ (100 ∷ 97 ∷ 116 ∷ 97 ∷ 58 ∷ 50 ∷ 10 ∷ []) ∷ [])
unfolding stream_chunks consume_pieces split_lines consume_lines
stream_chunks_three = refl

abbrev larger_host : Host
larger_host = record host { budget = 13 }

-- The idle model has to make room.
asks_when_full : CanLoad larger_host two_models (asks_for "phi") 5_242_880 9_105
unfolding used_ram_mb ram_needed
asks_when_full = record {
  on_demand = refl;
  binary = refl;
  weights = refl;
  room = omega arith;
  from_base = omega arith;
  in_range = omega arith;
  bindable = refl;
  untaken = refl;
}

two_models-IsSound : IsSound 13 two_models.instances
unfolding used_ram_mb
two_models-IsSound = record {
  ids = (refl, (refl, tt));
  ports = (refl, (refl, tt));
  within = omega arith;
}

ensure_loaded-available_example :
    let r =
      ensure_loaded larger_host undisturbed "phi"
        (some (asks_for "phi"))
        (start_at 3)
        none
        two_models in
    IsLoaded larger_host two_models (asks_for "phi") 5_242_880 r.0 r.1
unfolding get_instance
ensure_loaded-available_example =
    ensure_loaded-available larger_host (asks_for "phi") 5_242_880 (start_at 3) two_models 9_105
      two_models-IsSound refl asks_when_full
