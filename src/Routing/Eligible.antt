-- ===== src/Routing/Eligible.antt =====
-- The model that evaluateRoutingPolicy (packages/platform/src/policy.ts) resolves to is eligible.
use Prim.Native.String.{String}
use modelforge_ai.Base.{
  ℕ, ◌≤◌, ◌≡◌, ◌⊎◌, inl, inr, ◌↔◌, true, Option, none, some, List, [], ◌∷◌, arith, subst,
  Option-cases,
}
use modelforge_ai.Base.Int.{ℤ, ◌≤ℤ◌}
use modelforge_ai.Base.Text.{◌==◌, text_eq, eq_of_beq}
use modelforge_ai.Base.Preds.{filter, In, find_sound, In-filter}
use modelforge_ai.Base.Result.{ok, throw_if, >>=-eq-ok}
use modelforge_ai.Routing.Policy.{
  at_most, at_least_class, at_most_class, Document, Candidate, Context, Decision, Selection,
  is_eligible, with_slug, first_listed_candidate, fall_back, head, is_nil, select_requested,
  select_default, insert_candidate, sort_candidates, best_eligible, fall_backs, select_model,
  parse_document, parse_context, evaluate_routing_policy, no_candidate,
}

-- A bound that a policy may leave out.
abbrev pub AtMost : ℕ → Option ℕ → Type 0
AtMost n none = Unit
AtMost n (some m) = n ≤ m

abbrev pub AtLeastClass : ℤ → Option ℤ → Type 0
AtLeastClass n none = Unit
AtLeastClass n (some m) = m ≤ℤ n

abbrev pub AtMostClass : ℤ → Option ℤ → Type 0
AtMostClass n none = Unit
AtMostClass n (some m) = n ≤ℤ m

-- A candidate meets every constraint that the policy states.
pub record Satisfies (d : Document) (c : Candidate) : Type 0 where
  pub is_available : c.available ≡ true
  pub cost_fits : AtMost c.cost_micros d.max_cost_micros
  pub quality_fits : AtLeastClass c.quality_class d.min_quality
  pub latency_fits : AtMostClass c.latency_class d.max_latency_class

at_most-AtMost : (n : ℕ) (m : Option ℕ) → at_most n m ≡ true → AtMost n m
at_most-AtMost n none h = tt
at_most-AtMost n (some m) h = ground arith

at_least-AtLeast : (n : ℤ) (m : Option ℤ) → at_least_class n m ≡ true → AtLeastClass n m
at_least-AtLeast n none h = tt
at_least-AtLeast n (some m) h = ground arith

at_most-AtMostClass : (n : ℤ) (m : Option ℤ) → at_most_class n m ≡ true → AtMostClass n m
at_most-AtMostClass n none h = tt
at_most-AtMostClass n (some m) h = ground arith

is_eligible-Satisfies : (d : Document) (c : Candidate) → is_eligible d c ≡ true → Satisfies d c
unfolding is_eligible
is_eligible-Satisfies d c h = record {
  is_available = ground arith;
  cost_fits = at_most-AtMost c.cost_micros d.max_cost_micros (ground arith);
  quality_fits = at_least-AtLeast c.quality_class d.min_quality (ground arith);
  latency_fits = at_most-AtMostClass c.latency_class d.max_latency_class (ground arith);
}

pub with_slug_sound :
    (slug : String) (cs : List Candidate) (c : Candidate)
    → with_slug slug cs ≡ some c
    → (c.model_slug ≡ slug) × In c cs
unfolding with_slug
with_slug_sound slug cs c h =
    let (e, m) = find_sound (λ c. c.model_slug == slug) cs c h in (eq_of_beq c.model_slug slug e, m)

first_listed-In :
    (slugs : List String) (cs : List Candidate) (c : Candidate)
    → first_listed_candidate slugs cs ≡ some c
    → In c cs
unfolding first_listed_candidate
first_listed-In [] cs c h = cc
first_listed-In (s ∷ ss) cs c h = elim (Option-cases (with_slug s cs)) [
  | inl missed ↦ first_listed-In ss cs c (rw (missed, first_listed_candidate) at h)
  | inr (k, found) ↦
      let same : k ≡ c = ground arith in rw (← same) ((with_slug_sound s cs k found).1)
]

-- What a selection has chosen is one of the eligible candidates.
abbrev Chosen : List Candidate → Selection → Type 0
Chosen cs s = (c : Candidate) → s.selected ≡ some c → In c cs

fall_back-Chosen :
    (cs : List Candidate) (next : Option Candidate) (suffix : String) (s : Selection)
    → ((c : Candidate) → next ≡ some c → In c cs)
    → Chosen cs s
    → Chosen cs (fall_back next suffix s)
fall_back-Chosen cs none suffix s n h c e = h c e
fall_back-Chosen cs (some k) suffix s n h c e = elim (Option-cases s.selected) [
  | inl empty ↦ n c (ground arith)
  | inr (x, full) ↦ h c (ground arith)
]

select_requested-Chosen :
    (requested : String) (cs : List Candidate) → Chosen cs (select_requested requested cs)
unfolding select_requested
select_requested-Chosen requested cs c h = ground (arith, with_slug_sound requested cs c)

select_default-Chosen :
    (ctx : Context) (cs : List Candidate) (s t : Selection)
    → Chosen cs s
    → select_default ctx cs s ≡ ok t
    → Chosen cs t
unfolding select_default
select_default-Chosen ctx cs s t h e c sel = elim (Option-cases ctx.platform_default_model) [
  | inl none_set ↦ h c (ground arith)
  | inr (p, set) ↦ ground (arith, h c, with_slug_sound p cs c)
]

head-In : (cs : List Candidate) (c : Candidate) → head cs ≡ some c → In c cs
head-In [] c h = cc
head-In (x ∷ xs) c h = ground arith

module _ (lc : String → String → ℤ) where
  In-insert :
      (c k : Candidate) (cs : List Candidate)
      → In k (insert_candidate lc c cs) ↔ ((k ≡ c) ⊎ In k cs)
  unfolding insert_candidate
  In-insert c k [] = ground arith
  In-insert c k (x ∷ xs) = ground (arith, In-insert c k xs)

  pub In-sort : (k : Candidate) (cs : List Candidate) → In k (sort_candidates lc cs) ↔ In k cs
  unfolding sort_candidates
  In-sort k [] = (λ h. h, λ h. h)
  In-sort k (x ∷ xs) = ground (arith, In-sort k xs, In-insert x k (sort_candidates lc xs))

  pub best_eligible-In :
      (cs : List Candidate) (c : Candidate) → best_eligible lc cs ≡ some c → In c cs
  unfolding best_eligible
  best_eligible-In cs c h = (In-sort c cs).0 (head-In (sort_candidates lc cs) c h)

  fall_backs-Chosen :
      (d : Document) (cs : List Candidate) (s : Selection)
      → Chosen cs s
      → Chosen cs (fall_backs lc d cs s)
  unfolding fall_backs
  fall_backs-Chosen d cs s h =
      let preferred =
        fall_back (first_listed_candidate d.preferred_models cs) ":preferred_model" s in
      let fallback =
        fall_back (first_listed_candidate d.fallback_models cs) ":fallback_model" preferred in
      fall_back-Chosen cs (best_eligible lc cs) ":best_eligible" fallback (best_eligible-In cs) (
        fall_back-Chosen cs (first_listed_candidate d.fallback_models cs) ":fallback_model"
          preferred (first_listed-In d.fallback_models cs)
          (fall_back-Chosen cs (first_listed_candidate d.preferred_models cs) ":preferred_model" s
            (first_listed-In d.preferred_models cs) h))

  select_model-Chosen :
      (d : Document) (ctx : Context) (cs : List Candidate) (s : Selection)
      → select_model lc d ctx cs ≡ ok s
      → Chosen cs s
  unfolding select_model
  select_model-Chosen d ctx cs s h =
      let (t, chosen, e) =
        >>=-eq-ok (select_default ctx cs (select_requested ctx.requested_model cs)) _ h in
      let same : fall_backs lc d cs t ≡ s = cc e in
      subst (Chosen cs) same (
        fall_backs-Chosen d cs t (
          select_default-Chosen ctx cs _ t (select_requested-Chosen ctx.requested_model cs) chosen))

  module _ (hash_payload : String → String → Document → Context → String) where
    -- What a decision has been made from.
    pub evaluate_cases :
        (d : Document) (ctx : Context) (r : Decision)
        → evaluate_routing_policy lc hash_payload d ctx ≡ ok r
        → (s : Selection) × (c : Candidate) × (select_model lc d ctx
              (filter (is_eligible d) ctx.candidates)
            ≡ ok s)
          × (s.selected ≡ some c)
          × (c.model_slug ≡ r.resolved_model_slug)
    unfolding evaluate_routing_policy
    evaluate_cases d ctx r h =
        let eligible = filter (is_eligible d) ctx.candidates in
        let (_, _, h1) = >>=-eq-ok (parse_document d) _ h in
        let (_, _, h2) = >>=-eq-ok (parse_context ctx) _ h1 in
        let (_, _, h3) = >>=-eq-ok (throw_if (is_nil eligible) no_candidate) _ h2 in
        let (s, chosen, h4) = >>=-eq-ok (select_model lc d ctx eligible) _ h3 in
        elim (Option-cases s.selected) [
          | inl empty ↦ absurd (let x = rw empty at h4 in cc)
          | inr (c, sel) ↦ (s, c, chosen, sel, ground arith)
        ]

    -- The model that a request resolves to is one of the candidates, and meets each constraint that
    -- the policy's document states: it is available, and within the cost, quality and latency bounds.
    pub evaluate-Satisfies :
        (d : Document) (ctx : Context) (r : Decision)
        → evaluate_routing_policy lc hash_payload d ctx ≡ ok r
        → (c : Candidate) × In c ctx.candidates
          × Satisfies d c
          × (c.model_slug ≡ r.resolved_model_slug)
    evaluate-Satisfies d ctx r h =
        let (s, c, chosen, sel, slug) = evaluate_cases d ctx r h in
        let (m, fits) =
          (In-filter (is_eligible d) ctx.candidates c).0
            (select_model-Chosen d ctx (filter (is_eligible d) ctx.candidates) s chosen c sel) in
        (c, m, is_eligible-Satisfies d c fits, slug)
