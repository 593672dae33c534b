-- ===== src/Engine/Eviction.antt =====
-- evictForBudget of apps/gateway/src/engine/llamaServer.ts makes room exactly where there can be room.
use Prim.Native.String.{String}
use mathlib.Core.List.{append-nil}
use modelforge_ai.Base.{
  ℕ, ltb, ◌||◌, ◌+◌, ◌≤◌, ◌<◌, ◌≡◌, refl, sym, ap, ◌∙◌, subst, ◌⊎◌, inl, inr, arith, Bool, true,
  false, not, none, some, List, [], ◌∷◌, ◌++◌, leb, Bool-cases,
}
use modelforge_ai.Base.Text.{◌==◌, text_eq, beq-false_symm, beq_refl}
use modelforge_ai.Base.Preds.{filter, any, In, In-filter, any_of_In}
use modelforge_ai.Engine.Instances.{
  Instance, Engine, oom, Keep, is_evictable, used_ram_mb, fits, unload_model, sort_by_use,
  evict_candidates, evict_for_budget, delete_instance,
}
use modelforge_ai.Engine.Removal.{
  HasUniqueIds, names, without, unload_model-instances, names-sort, names-filter, filter-congr,
}
use modelforge_ai.Engine.LeastRecent.{
  IsOldestFirst, In-sort, sort_by_use-IsOldestFirst, In-left, In-either, IsOldestFirst-left,
  IsOldestFirst-across,
}
use modelforge_ai.Engine.Stopping.{NeedsEach, without-nil, Stops, evict_candidates-Stops}

-- An instance that has to stay: one with requests in flight, a protected one, and one whose model is
-- reserved.
abbrev pub is_pinned : Keep → Instance → Bool
is_pinned k i =
    ltb 0 i.active_requests || k.protected i.model_id || any (λ id. id == i.model_id) k.reserved

abbrev pub pinned : Keep → List Instance → List Instance
pinned k is = filter (is_pinned k) is

not-is_evictable : (k : Keep) (i : Instance) → not (is_evictable k i) ≡ is_pinned k i
unfolding is_evictable
not-is_evictable k i = ground arith

-- What an eviction that keeps these has done to the instances: it has unloaded models that do not have to
-- stay, the least recently used of them first and each before any that is left, and each of them where the
-- need did not fit.
pub record IsEviction (k : Keep) (budget need : ℕ) (before after gone : List Instance)
    : Type 0 where
  pub left : after ≡ without gone before
  pub unpinned : (g : Instance) → In g gone → In g before × (is_pinned k g ≡ false)
  pub oldest_first : IsOldestFirst gone
  pub least_recent :
      (g i : Instance)
      → In g gone
      → In i after
      → is_pinned k i ≡ false
      → g.last_used_at ≤ i.last_used_at
  pub needed : NeedsEach budget need gone before

module _ (database : Bool) (budget need : ℕ) where
  In-delete :
      (id : String) (i : Instance) (is : List Instance)
      → In i is
      → (id == i.model_id) ≡ false
      → In i (delete_instance id is)
  unfolding delete_instance
  In-delete id i is m other =
      (In-filter (λ j. not (j.model_id == id)) is i).1
        (m, ap not (beq-false_symm id i.model_id other))

  -- An instance whose model is no candidate stays.
  evict_candidates-In :
      (cs : List Instance) (e : Engine) (i : Instance)
      → In i e.instances
      → names cs i.model_id ≡ false
      → In i (evict_candidates database budget need cs e).instances
  unfolding evict_candidates
  evict_candidates-In [] e i m h = m
  evict_candidates-In (c ∷ cs) e i m h = elim (Bool-cases (fits budget need e.instances)) [
    | inl enough ↦ rw enough m
    | inr more ↦ rw more (
        evict_candidates-In cs (unload_model database c.model_id e) i
          (rw (unload_model-instances database c.model_id e)
            (In-delete c.model_id i e.instances m (ground (arith, h))))
          (ground (arith, h)))
  ]

  module _ (k : Keep) (e : Engine) (unique : HasUniqueIds e.instances) where
    abbrev candidates : List Instance
    candidates = sort_by_use (filter (is_evictable k) e.instances)

    abbrev left : Engine
    left = evict_candidates database budget need candidates e

    candidate_iff :
        (i : Instance) → In i e.instances → names candidates i.model_id ≡ is_evictable k i
    candidate_iff i m =
        names-sort i.model_id (filter (is_evictable k) e.instances)
        ∙ names-filter (is_evictable k) e.instances i unique m

    without-candidates : without candidates e.instances ≡ pinned k e.instances
    without-candidates =
        filter-congr _ _ e.instances (λ i m. ap not (candidate_iff i m) ∙ not-is_evictable k i)

    evictable_unpinned : (i : Instance) → is_evictable k i ≡ not (is_pinned k i)
    unfolding is_evictable
    evictable_unpinned i = ground arith

    candidate-unpinned :
        (i : Instance) → In i candidates → In i e.instances × (is_pinned k i ≡ false)
    candidate-unpinned i m =
        let (there, free) =
          (In-filter (is_evictable k) e.instances i).0
            ((In-sort i (filter (is_evictable k) e.instances)).0 m) in
        (there, ground (arith, free, evictable_unpinned i))

    unpinned-candidate : (i : Instance) → In i e.instances → is_pinned k i ≡ false → In i candidates
    unpinned-candidate i m free = (In-sort i (filter (is_evictable k) e.instances)).1 (
        (In-filter (is_evictable k) e.instances i).1
          (m, ground (arith, free, evictable_unpinned i)))

    stopped-IsEviction :
        (after : List Instance) (s : Stops budget need candidates e.instances after)
        → IsEviction k budget need e.instances after s.gone
    stopped-IsEviction after s = record {
      left = s.left;
      unpinned = λ g m. candidate-unpinned g (rw (s.parts) (In-left g s.gone s.rest m));
      oldest_first = IsOldestFirst-left s.gone s.rest sorted;
      least_recent = λ g i m n free.
          let (there, unnamed) =
            (In-filter (λ j. not (names s.gone j.model_id)) e.instances i).0
              (subst (In i) s.left n) in
          elim (In-either i s.gone s.rest
            (subst (In i) s.parts (unpinned-candidate i there free))) [
              | inl gone ↦
                  let named : names s.gone i.model_id ≡ true =
                    any_of_In (λ c. c.model_id == i.model_id) s.gone i gone (beq_refl i.model_id) in
                  absurd (ground (arith, unnamed, named))
              | inr kept ↦ IsOldestFirst-across s.gone s.rest g i sorted m kept
            ];
      needed = s.needed;
    }
      where
        sorted : IsOldestFirst (s.gone ++ s.rest)
        sorted =
            subst IsOldestFirst s.parts
              (sort_by_use-IsOldestFirst (filter (is_evictable k) e.instances))

    nothing-IsEviction : IsEviction k budget need e.instances e.instances []
    nothing-IsEviction = record {
      left = sym (without-nil e.instances);
      unpinned = λ g m. absurd m.1;
      oldest_first = tt;
      least_recent = λ g i m n free. absurd m.1;
      needed = tt;
    }

    all_gone :
        (s : Stops budget need candidates e.instances left.instances)
        → s.rest ≡ []
        → left.instances ≡ pinned k e.instances
    all_gone s none_left =
        let all : candidates ≡ s.gone =
          s.parts ∙ ap (λ r. s.gone ++ r) none_left ∙ append-nil s.gone in
        s.left ∙ ap (λ cs. without cs e.instances) (sym all) ∙ without-candidates

    -- Where no model has two instances, an eviction unloads, by the time of their last use and the least
    -- recently used first, models with no request in flight that are neither protected nor reserved, each
    -- of them only while the need does not fit, and leaves all others. It succeeds, and then the need fits
    -- the budget; or it fails, and then the need does not fit beside the instances that have to stay, and
    -- these alone are left.
    pub evict_for_budget_cases :
        (gone : List Instance) × IsEviction k budget need e.instances
          (evict_for_budget database k budget need e).1.instances
          gone
        × (((evict_for_budget database k budget need e).0 ≡ none)
              × (used_ram_mb (evict_for_budget database k budget need e).1.instances + need
                  ≤ budget)
            ⊎ ((evict_for_budget database k budget need e).0 ≡ some oom)
              × ((evict_for_budget database k budget need e).1.instances ≡ pinned k e.instances)
              × (budget < used_ram_mb (pinned k e.instances) + need))
    unfolding evict_for_budget
    evict_for_budget_cases = elim (Bool-cases (fits budget need e.instances)) [
      | inl enough ↦ rw enough ([], nothing-IsEviction, inl (refl, ground (arith, enough)))
      | inr more ↦
          let s = evict_candidates-Stops database budget need candidates e in
          elim (Bool-cases (fits budget need left.instances)) [
            | inl enough ↦
                rw (more, enough)
                  (s.gone, stopped-IsEviction left.instances s, inl (refl, ground (arith, enough)))
            | inr short ↦ elim s.ends [
              | inl done ↦ cc
              | inr none_left ↦
                  let rest = all_gone s none_left in
                  let over : (leb (used_ram_mb (pinned k e.instances) + need) budget) ≡ false =
                    subst (λ is. fits budget need is ≡ false) rest short in
                  rw (more, short)
                    (
                      s.gone,
                      stopped-IsEviction left.instances s,
                      inr (refl, rest, ground (arith, over)),
                    )
            ]
          ]
    ]

    -- Where no model has two instances, one with requests in flight, a protected one and one whose model
    -- is reserved survive an eviction.
    pub evict_for_budget-pinned :
        (i : Instance)
        → In i e.instances
        → is_pinned k i ≡ true
        → In i (evict_for_budget database k budget need e).1.instances
    unfolding evict_for_budget
    evict_for_budget-pinned i m kept =
        let stays =
          evict_candidates-In candidates e i m
            (candidate_iff i m ∙ ground (arith, kept, not-is_evictable k i)) in
        elim (Bool-cases (fits budget need e.instances)) [
          | inl enough ↦ rw enough m
          | inr more ↦ elim (Bool-cases (fits budget need left.instances)) [
            | inl enough ↦ rw (more, enough) stays
            | inr short ↦ rw (more, short) stays
          ]
        ]
