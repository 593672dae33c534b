-- ===== src/Routing/Policy.antt =====
-- evaluateRoutingPolicy of packages/platform/src/policy.ts. What zod checks of types is in the types
-- here (a cost is a natural number, a quality or latency class an integer, its default applied); the
-- checks of lengths are `parse_document` and `parse_context`. `localeCompare` and
-- `hashCanonicalPayload` are parameters.
use Prim.Native.String.{String, ◌++◌}
use modelforge_ai.Base.{
  ℕ, Bool, true, false, not, ◌&&◌, Option, none, some, List, [], ◌∷◌, if◌then◌else◌, leb,
}
use modelforge_ai.Base.Int.{ℤ, pos, ◌-ℤ◌, ltb_ℤ}
use modelforge_ai.Base.Text.{◌==◌, text_eq}
use modelforge_ai.Base.Preds.{find, filter, all}
use modelforge_ai.Base.Result.{Result, ok, err, ◌>>=◌, ◌>>◌, throw_if}

pub record Document : Type 0 where
  pub max_cost_micros : Option ℕ
  pub min_quality : Option ℤ
  pub max_latency_class : Option ℤ
  pub preferred_models : List String
  pub fallback_models : List String

pub record Candidate : Type 0 where
  pub model_slug : String
  pub cost_micros : ℕ
  pub quality_class : ℤ
  pub latency_class : ℤ
  pub available : Bool

pub record Context : Type 0 where
  pub requested_model : String
  pub candidates : List Candidate
  pub platform_default_model : Option String

pub data RoutingError : Type 0 where
  invalid_document invalid_context no_candidate none_selected : RoutingError
  default_not_entitled default_blocked : String → RoutingError

pub record Decision : Type 0 where
  pub resolved_model_slug : String
  pub reason : String
  pub decision_hash : String

abbrev pub is_empty : String → Bool
is_empty s = s == ""

abbrev pub is_nil {ℓ} : {A : Type ℓ} → List A → Bool
is_nil [] = true
is_nil (x ∷ xs) = false

abbrev pub is_empty_default : Option String → Bool
is_empty_default none = false
is_empty_default (some s) = is_empty s

-- routingPolicyDocumentSchema.parse
unfoldable pub parse_document : Document → Result RoutingError (Unit {0})
parse_document d =
    throw_if
      (not (
        all (λ s. not (is_empty s)) d.preferred_models
        && all (λ s. not (is_empty s)) d.fallback_models))
      invalid_document

-- routingContextSchema.parse
unfoldable pub parse_context : Context → Result RoutingError (Unit {0})
parse_context c = do
  throw_if (is_empty c.requested_model) invalid_context
  throw_if (is_nil c.candidates) invalid_context
  throw_if (not (all (λ k. not (is_empty k.model_slug)) c.candidates)) invalid_context
  throw_if (is_empty_default c.platform_default_model) invalid_context

abbrev pub at_most : ℕ → Option ℕ → Bool
at_most n none = true
at_most n (some m) = leb n m

abbrev pub at_least_class : ℤ → Option ℤ → Bool
at_least_class q none = true
at_least_class q (some m) = not (ltb_ℤ q m)

abbrev pub at_most_class : ℤ → Option ℤ → Bool
at_most_class q none = true
at_most_class q (some m) = not (ltb_ℤ m q)

-- The test of `input.candidates.filter`.
unfoldable pub is_eligible : Document → Candidate → Bool
is_eligible d c =
    c.available
    && at_most c.cost_micros d.max_cost_micros
    && at_least_class c.quality_class d.min_quality
    && at_most_class c.latency_class d.max_latency_class

unfoldable pub with_slug : String → List Candidate → Option Candidate
with_slug slug cs = find (λ c. c.model_slug == slug) cs

unfoldable pub first_listed_candidate : List String → List Candidate → Option Candidate
first_listed_candidate [] cs = none
first_listed_candidate (slug ∷ slugs) cs =
    let rest = first_listed_candidate slugs cs in
    elim (with_slug slug cs) [ some match ↦ some match | none ↦ rest ]

-- `a || b` on numbers.
abbrev pub or_else : ℤ → ℤ → ℤ
or_else (pos ℕ.zero) b = b
or_else a b = a

-- A candidate with the reason so far.
pub record Selection : Type 0 where
  pub selected : Option Candidate
  pub reason : String

-- `if (!selected) { selected = next; if (selected) reason = `${reason}${suffix}`; }`
abbrev pub fall_back : Option Candidate → String → Selection → Selection
fall_back none suffix s = s
fall_back (some c) suffix s = elim s.selected [
  | some _ ↦ s
  | none ↦ record { selected = some c; reason = s.reason ++ suffix }
]

-- The block `if (input.requestedModel !== "auto") … else …`.
unfoldable pub select_requested : String → List Candidate → Selection
select_requested requested eligible =
    if requested == "auto"
    then record { selected = none; reason = "auto_routing" }
    else (elim (with_slug requested eligible) [
      | some c ↦ record { selected = some c; reason = "requested_model_eligible" }
      | none ↦ record { selected = none; reason = "requested_model_ineligible" }
    ])

-- The block on the platform's default model, which `auto` alone takes.
unfoldable pub select_default : Context → List Candidate → Selection → Result RoutingError Selection
select_default ctx eligible s = elim ctx.platform_default_model [
  | none ↦ ok s
  | some default ↦
      if ctx.requested_model == "auto"
      then (elim (with_slug default ctx.candidates) [
        | none ↦ err (default_not_entitled default)
        | some _ ↦ elim (with_slug default eligible) [
          | none ↦ err (default_blocked default)
          | some c ↦ ok (record { selected = some c; reason = s.reason ++ ":platform_default" })
        ]
      ])
      else ok s
]

-- `[0]` of an array of candidates.
abbrev pub head : List Candidate → Option Candidate
head [] = none
head (c ∷ cs) = some c

module _ (locale_compare : String → String → ℤ) where
  -- The comparison that `sort` is given.
  unfoldable pub compare_candidates : Candidate → Candidate → ℤ
  compare_candidates left right = or_else (pos left.cost_micros -ℤ pos right.cost_micros) (
      or_else (right.quality_class -ℤ left.quality_class) (
        or_else (left.latency_class -ℤ right.latency_class)
          (locale_compare left.model_slug right.model_slug)))

  -- A stable sort by the comparison.
  unfoldable pub insert_candidate : Candidate → List Candidate → List Candidate
  insert_candidate c [] = c ∷ []
  insert_candidate c (k ∷ ks) =
      if ltb_ℤ (pos 0) (compare_candidates c k) then k ∷ insert_candidate c ks else c ∷ k ∷ ks

  unfoldable pub sort_candidates : List Candidate → List Candidate
  sort_candidates [] = []
  sort_candidates (c ∷ cs) = insert_candidate c (sort_candidates cs)

  unfoldable pub best_eligible : List Candidate → Option Candidate
  best_eligible eligible = head (sort_candidates eligible)

  -- The three blocks `if (!selected)`.
  unfoldable pub fall_backs : Document → List Candidate → Selection → Selection
  fall_backs d eligible s = fall_back (best_eligible eligible) ":best_eligible" (
      fall_back (first_listed_candidate d.fallback_models eligible) ":fallback_model"
        (fall_back (first_listed_candidate d.preferred_models eligible) ":preferred_model" s))

  -- The selection from the requested model to the best eligible one.
  unfoldable pub select_model : Document → Context → List Candidate → Result RoutingError Selection
  select_model d ctx eligible = do
    s ← select_default ctx eligible (select_requested ctx.requested_model eligible)
    ok (fall_backs d eligible s)

  module _ (hash_payload : String → String → Document → Context → String) where
    unfoldable pub evaluate_routing_policy : Document → Context → Result RoutingError Decision
    evaluate_routing_policy d ctx = do
      parse_document d
      parse_context ctx
      let eligible = filter (is_eligible d) ctx.candidates
      throw_if (is_nil eligible) no_candidate
      s ← select_model d ctx eligible
      elim s.selected [
        | none ↦ err none_selected
        | some c ↦ ok (record {
          resolved_model_slug = c.model_slug;
          reason = s.reason;
          decision_hash = hash_payload c.model_slug s.reason d ctx;
        })
      ]
