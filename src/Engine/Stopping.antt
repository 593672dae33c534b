-- ===== src/Engine/Stopping.antt =====
-- Where the loop of evictForBudget (apps/gateway/src/engine/llamaServer.ts) stops.
use modelforge_ai.Base.{
  ℕ, Bool, ◌≡◌, refl, sym, ap, subst, ◌∙◌, ◌⊎◌, inl, inr, true, false, not, List, [], ◌∷◌, ◌++◌,
  Bool-cases,
}
use modelforge_ai.Base.Text.{text_eq}
use modelforge_ai.Base.Preds.{filter, any}
use modelforge_ai.Engine.Instances.{
  Instance, Engine, has_id, fits, unload_model, evict_candidates, delete_instance,
}
use modelforge_ai.Engine.Removal.{without, without-delete, unload_model-instances, filter_all}

-- Unloading these one after the other: before each of them the need does not fit.
abbrev pub NeedsEach : ℕ → ℕ → List Instance → List Instance → Type 0
NeedsEach budget need [] is = Unit
NeedsEach budget need (g ∷ gs) is =
    (fits budget need is ≡ false)
    × NeedsEach budget need gs (filter (λ i. not (has_id g.model_id i)) is)

pub without-nil : (is : List Instance) → without [] is ≡ is
without-nil is = filter_all (λ i. true) is (none_left is)
  where
    none_left : (is : List Instance) → any (λ i. false) is ≡ false
    none_left [] = refl
    none_left (i ∷ is) = none_left is

-- The loop unloads the first candidates, each of them where the need does not fit, and stops where it
-- fits or where no candidate is left.
pub record Stops (budget need : ℕ) (cs before after : List Instance) : Type 0 where
  pub gone : List Instance
  pub rest : List Instance
  pub parts : cs ≡ gone ++ rest
  pub left : after ≡ without gone before
  pub needed : NeedsEach budget need gone before
  pub ends : (fits budget need after ≡ true) ⊎ (rest ≡ [])

module _ (database : Bool) (budget need : ℕ) where
  pub evict_candidates-Stops :
      (cs : List Instance) (e : Engine)
      → Stops budget need cs e.instances (evict_candidates database budget need cs e).instances
  unfolding evict_candidates delete_instance
  evict_candidates-Stops [] e = record {
    gone = [];
    rest = [];
    parts = refl;
    left = sym (without-nil e.instances);
    needed = tt;
    ends = inr refl;
  }
  evict_candidates-Stops (c ∷ cs) e = elim (Bool-cases (fits budget need e.instances)) [
    | inl enough ↦ rw enough (record {
      gone = [];
      rest = c ∷ cs;
      parts = refl;
      left = sym (without-nil e.instances);
      needed = tt;
      ends = inl enough;
    })
    | inr more ↦
        let e' = unload_model database c.model_id e in
        let s = evict_candidates-Stops cs e' in
        let less = unload_model-instances database c.model_id e in
        rw more (record {
          gone = c ∷ s.gone;
          rest = s.rest;
          parts = ap (λ x. c ∷ x) s.parts;
          left = s.left ∙ ap (without s.gone) less ∙ without-delete c s.gone e.instances;
          needed = (more, subst (NeedsEach budget need s.gone) less s.needed);
          ends = s.ends;
        })
  ]
