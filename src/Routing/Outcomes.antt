-- ===== src/Routing/Outcomes.antt =====
-- When evaluateRoutingPolicy (packages/platform/src/policy.ts) gives which model, and when it throws.
use Prim.Native.String.{String}
use modelforge_ai.Base.{
  ◌≡◌, ◌≢◌, refl, sym, ap, ◌∙◌, ◌⊎◌, inl, inr, true, false, Option, none, some, List, [], ◌∷◌,
  arith, subst, Option-cases, Bool-cases,
}
use modelforge_ai.Base.Int.{ℤ}
use modelforge_ai.Base.Text.{◌==◌, text_eq, eq_of_beq, beq_of_eq}
use modelforge_ai.Base.Preds.{filter, In, find_complete, filter-nil, In-filter}
use modelforge_ai.Base.Result.{ok, >>=-eq-ok}
use modelforge_ai.Routing.Policy.{
  Document, Candidate, Context, Decision, Selection, is_eligible, with_slug, first_listed_candidate,
  fall_back, fall_backs, select_requested, select_default, best_eligible, select_model,
  parse_document, parse_context, evaluate_routing_policy,
}
use modelforge_ai.Routing.Eligible.{evaluate_cases, with_slug_sound}
use modelforge_ai.Routing.Best.{best_eligible-some}

-- A model that is chosen stays chosen.
fall_back_keeps :
    (next : Option Candidate) (suffix : String) (s : Selection) (c : Candidate)
    → s.selected ≡ some c
    → (fall_back next suffix s).selected ≡ some c
fall_back_keeps none suffix s c h = h
fall_back_keeps (some k) suffix s c h = ground arith

fall_back_fills :
    (k : Candidate) (suffix : String) (s : Selection)
    → (c : Candidate) × ((fall_back (some k) suffix s).selected ≡ some c)
fall_back_fills k suffix s = elim (Option-cases s.selected) [
  | inl empty ↦ (k, ground arith)
  | inr (c, full) ↦ (c, ground arith)
]

module _ (lc : String → String → ℤ) where
  fall_backs_keeps :
      (d : Document) (cs : List Candidate) (s : Selection) (c : Candidate)
      → s.selected ≡ some c
      → (fall_backs lc d cs s).selected ≡ some c
  unfolding fall_backs
  fall_backs_keeps d cs s c h = fall_back_keeps (best_eligible lc cs) ":best_eligible" _ c (
      fall_back_keeps (first_listed_candidate d.fallback_models cs) ":fallback_model" _ c
        (fall_back_keeps (first_listed_candidate d.preferred_models cs) ":preferred_model" s c h))

  fall_backs_fills :
      (d : Document) (c : Candidate) (cs : List Candidate) (s : Selection)
      → (k : Candidate) × ((fall_backs lc d (c ∷ cs) s).selected ≡ some k)
  unfolding fall_backs
  fall_backs_fills d c cs s =
      let (m, best) = best_eligible-some lc c cs in
      rw best (
        fall_back_fills m ":best_eligible" (
          fall_back (first_listed_candidate d.fallback_models (c ∷ cs)) ":fallback_model"
            (fall_back (first_listed_candidate d.preferred_models (c ∷ cs)) ":preferred_model" s)))

  -- A selection made before the lists and the sort is the one that is given.
  select_model_keeps :
      (d : Document) (ctx : Context) (cs : List Candidate) (c : Candidate)
      → ((t : Selection)
          → select_default ctx cs (select_requested ctx.requested_model cs) ≡ ok t
          → t.selected ≡ some c)
      → (s : Selection) → select_model lc d ctx cs ≡ ok s
      → s.selected ≡ some c
  unfolding select_model
  select_model_keeps d ctx cs c base s h =
      let (t, e, f) =
        >>=-eq-ok (select_default ctx cs (select_requested ctx.requested_model cs)) _ h in
      let same : fall_backs lc d cs t ≡ s = cc f in
      subst (λ x. x.selected ≡ some c) same (fall_backs_keeps d cs t c (base t e))

select_requested-named :
    (ctx : Context) (cs : List Candidate) (c : Candidate) (t : Selection)
    → (ctx.requested_model == "auto") ≡ false
    → with_slug ctx.requested_model cs ≡ some c
    → select_default ctx cs (select_requested ctx.requested_model cs) ≡ ok t
    → t.selected ≡ some c
unfolding select_default select_requested
select_requested-named ctx cs c t named found h = ground arith

select_default-auto :
    (ctx : Context) (cs : List Candidate) (s : Selection) (default : String) (t : Selection)
    → (ctx.requested_model == "auto") ≡ true
    → ctx.platform_default_model ≡ some default
    → select_default ctx cs s ≡ ok t
    → (c : Candidate) × (t.selected ≡ some c) × (with_slug default cs ≡ some c)
unfolding select_default
select_default-auto ctx cs s default t auto set h = elim (Option-cases (with_slug default cs)) [
  | inl missing ↦ absurd (ground arith)
  | inr (c, found) ↦ (c, ground arith, found)
]

not-auto : (s : String) → s ≢ "auto" → (s == "auto") ≡ false
not-auto s h = elim (Bool-cases (s == "auto")) [
  | inl same ↦ absurd (h (eq_of_beq s "auto" same))
  | inr other ↦ other
]

module _ (lc : String → String → ℤ) (hash : String → String → Document → Context → String)
    (d : Document) (ctx : Context) (r : Decision)
    (h : evaluate_routing_policy lc hash d ctx ≡ ok r) where
  -- A request for a named model is resolved to it wherever a candidate of that name is eligible.
  pub evaluate-requested :
      (c : Candidate)
      → ctx.requested_model ≢ "auto"
      → In c ctx.candidates
      → is_eligible d c ≡ true
      → c.model_slug ≡ ctx.requested_model
      → r.resolved_model_slug ≡ ctx.requested_model
  unfolding with_slug
  evaluate-requested c named m fits slug =
      let eligible = filter (is_eligible d) ctx.candidates in
      let (s, k, chosen, sel, same) = evaluate_cases lc hash d ctx r h in
      let (c', found) =
        find_complete (λ x. x.model_slug == ctx.requested_model) eligible c
          ((In-filter (is_eligible d) ctx.candidates c).1 (m, fits))
          (beq_of_eq c.model_slug ctx.requested_model slug) in
      let kept =
        select_model_keeps lc d ctx eligible c'
          (λ t. select_requested-named ctx eligible c' t (not-auto ctx.requested_model named) found)
          s chosen in
      let e : k ≡ c' = cc (sel, kept) in
      sym same
      ∙ ap (λ (x : Candidate). x.model_slug) e
      ∙ (with_slug_sound ctx.requested_model eligible c' found).0

  -- An `auto` request is resolved to the platform's default model, if there is one.
  pub evaluate-auto_default :
      (default : String)
      → ctx.requested_model ≡ "auto"
      → ctx.platform_default_model ≡ some default
      → r.resolved_model_slug ≡ default
  unfolding select_model
  evaluate-auto_default default auto set =
      let eligible = filter (is_eligible d) ctx.candidates in
      let (s, k, chosen, sel, same) = evaluate_cases lc hash d ctx r h in
      let is_auto = beq_of_eq ctx.requested_model "auto" auto in
      let (t, base, _) =
        >>=-eq-ok (select_default ctx eligible (select_requested ctx.requested_model eligible)) _
          chosen in
      let (c, _, found) = select_default-auto ctx eligible _ default t is_auto set base in
      let kept =
        select_model_keeps lc d ctx eligible c
          (λ u e.
            let (c', sel', found') = select_default-auto ctx eligible _ default u is_auto set e in
            cc (sel', found', found))
          s chosen in
      let e : k ≡ c = cc (sel, kept) in
      sym same
      ∙ ap (λ (x : Candidate). x.model_slug) e
      ∙ (with_slug_sound default eligible c found).0

select_default_open :
    (ctx : Context) (cs : List Candidate) (s : Selection)
    → (ctx.requested_model ≢ "auto") ⊎ (ctx.platform_default_model ≡ none)
    → select_default ctx cs s ≡ ok s
unfolding select_default
select_default_open ctx cs s (inl named) = ground (arith, not-auto ctx.requested_model named)
select_default_open ctx cs s (inr unset) = rw (select_default, unset)

module _ (lc : String → String → ℤ) (hash : String → String → Document → Context → String)
    (d : Document) (ctx : Context) (parsed : parse_document d ≡ ok tt)
    (parsed_context : parse_context ctx ≡ ok tt) where
  select_model_total :
      (c : Candidate) (cs : List Candidate)
      → (ctx.requested_model ≢ "auto") ⊎ (ctx.platform_default_model ≡ none)
      → (s : Selection) × (k : Candidate) × (select_model lc d ctx (c ∷ cs) ≡ ok s)
        × (s.selected ≡ some k)
  unfolding select_model
  select_model_total c cs free =
      let base = select_requested ctx.requested_model (c ∷ cs) in
      let (k, filled) = fall_backs_fills lc d c cs base in
      (fall_backs lc d (c ∷ cs) base, k, rw (select_default_open ctx (c ∷ cs) base free), filled)

  evaluate_eligible :
      (l : List Candidate)
      → filter (is_eligible d) ctx.candidates ≡ l
      → (ctx.requested_model ≢ "auto") ⊎ (ctx.platform_default_model ≡ none)
      → l ≢ []
      → (r : Decision) × (evaluate_routing_policy lc hash d ctx ≡ ok r)
  unfolding evaluate_routing_policy select_model_total
  evaluate_eligible [] e free some' = absurd (some' refl)
  evaluate_eligible (c ∷ cs) e free some' =
      let (s, k, chosen, sel) = select_model_total c cs free in
      (
        record {
          resolved_model_slug = k.model_slug;
          reason = s.reason;
          decision_hash = hash k.model_slug s.reason d ctx;
        },
        rw (evaluate_routing_policy, parsed, parsed_context, e, chosen, sel),
      )

  -- With a document and a context that parse, the evaluation gives a decision wherever some candidate
  -- is eligible, unless an `auto` request is bound to a platform default.
  pub evaluate_total :
      (c : Candidate)
      → In c ctx.candidates
      → is_eligible d c ≡ true
      → (ctx.requested_model ≢ "auto") ⊎ (ctx.platform_default_model ≡ none)
      → (r : Decision) × (evaluate_routing_policy lc hash d ctx ≡ ok r)
  evaluate_total c m fits free =
      evaluate_eligible (filter (is_eligible d) ctx.candidates) refl free
        (λ e. let unfit = filter-nil (is_eligible d) ctx.candidates c e m in cc (fits, unfit))
