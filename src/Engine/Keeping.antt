-- ===== src/Engine/Keeping.antt =====
-- What evictForBudget of apps/gateway/src/engine/llamaServer.ts keeps, and the room that it has made.
use Prim.Native.String.{String}
use modelforge_ai.Base.{
  ℕ, ◌+◌, ◌≤◌, ◌≡◌, sym, subst, inl, inr, arith, Bool, none, List, [], ◌∷◌, Bool-cases,
}
use modelforge_ai.Base.Preds.{filter}
use modelforge_ai.Engine.Instances.{
  Instance, Engine, Keep, is_evictable, used_ram_mb, fits, unload_model, sort_by_use,
  evict_candidates, evict_for_budget, delete_instance,
}
use modelforge_ai.Engine.Removal.{unload_model-instances}

-- What unloading a model keeps, an eviction keeps.
module _ (P : List Instance → Type 0)
    (keeps : (id : String) (is : List Instance) → P is → P (delete_instance id is)) where
  pub unload_model_keeps :
      (database : Bool) (id : String) (e : Engine)
      → P e.instances
      → P (unload_model database id e).instances
  unload_model_keeps database id e p =
      subst P (sym (unload_model-instances database id e)) (keeps id e.instances p)

  evict_candidates_keeps :
      (database : Bool) (budget need : ℕ) (cs : List Instance) (e : Engine)
      → P e.instances
      → P (evict_candidates database budget need cs e).instances
  unfolding evict_candidates
  evict_candidates_keeps database budget need [] e p = p
  evict_candidates_keeps database budget need (c ∷ cs) e p =
      elim (Bool-cases (fits budget need e.instances)) [
        | inl enough ↦ rw enough p
        | inr more ↦ rw more (
            evict_candidates_keeps database budget need cs (unload_model database c.model_id e)
              (unload_model_keeps database c.model_id e p))
      ]

  pub evict_for_budget_keeps :
      (database : Bool) (k : Keep) (budget need : ℕ) (e : Engine)
      → P e.instances
      → P (evict_for_budget database k budget need e).1.instances
  unfolding evict_for_budget
  evict_for_budget_keeps database k budget need e p =
      let cs = sort_by_use (filter (is_evictable k) e.instances) in
      let kept = evict_candidates_keeps database budget need cs e p in
      elim (Bool-cases (fits budget need e.instances)) [
        | inl enough ↦ rw enough p
        | inr more ↦
            elim (Bool-cases
              (fits budget need (evict_candidates database budget need cs e).instances)) [
                | inl enough ↦ rw (more, enough) kept
                | inr short ↦ rw (more, short) kept
              ]
      ]

-- An eviction that does not throw has made room.
pub evict_for_budget-fits :
    (database : Bool) (k : Keep) (budget need : ℕ) (e : Engine)
    → (evict_for_budget database k budget need e).0 ≡ none
    → used_ram_mb (evict_for_budget database k budget need e).1.instances + need ≤ budget
unfolding evict_for_budget
evict_for_budget-fits database k budget need e h = ground (arith, h)
