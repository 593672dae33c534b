-- ===== src/Billing/Pricing.antt =====
-- getActivePricingVersion of apps/gateway/src/lib/pricing.ts, on the tables PricingVersion and
-- HostedModel of packages/db/prisma/schema.prisma.
use Prim.Native.String.{String}
use modelforge_ai.Base.{
  ℕ, ◌≡◌, refl, subst, arith, inl, inr, Bool, true, ◌&&◌, Option, none, some, List, [], ◌∷◌,
  if◌then◌else◌, leb, ltb, Option-cases,
}
use modelforge_ai.Base.Text.{◌==◌, text_eq, beq_refl}
use modelforge_ai.Base.Preds.{find}
use modelforge_ai.Base.Result.{Result, ok, err}

pub record PricingVersion : Type 0 where
  pub hosted_model_id : String
  pub price_per_mtok_in : ℕ
  pub price_per_mtok_out : ℕ
  pub effective_from : ℕ
  pub effective_to : Option ℕ

pub record PricedModel : Type 0 where
  pub id : String
  pub price_per_mtok_in : ℕ
  pub price_per_mtok_out : ℕ

-- findUniqueOrThrow has found no model.
pub data PricingError : Type 0 where
  model_missing : PricingError

-- `effectiveTo: null` or `effectiveTo: { gt: now }`
abbrev pub is_open : ℕ → Option ℕ → Bool
is_open now none = true
is_open now (some end) = ltb now end

unfoldable pub is_active : String → ℕ → PricingVersion → Bool
is_active id now v =
    v.hosted_model_id == id && leb v.effective_from now && is_open now v.effective_to

-- The later of two versions, the first where they are of one time.
abbrev pub later_of : PricingVersion → Option PricingVersion → PricingVersion
later_of v none = v
later_of v (some w) = if ltb v.effective_from w.effective_from then w else v

-- findFirst with orderBy { effectiveFrom: "desc" }
unfoldable pub find_active : String → ℕ → List PricingVersion → Option PricingVersion
find_active id now [] = none
find_active id now (v ∷ vs) =
    let rest = find_active id now vs in if is_active id now v then some (later_of v rest) else rest

-- The row that is created.
unfoldable pub new_version : String → ℕ → PricedModel → PricingVersion
new_version id now m = record {
  hosted_model_id = id;
  price_per_mtok_in = m.price_per_mtok_in;
  price_per_mtok_out = m.price_per_mtok_out;
  effective_from = now;
  effective_to = none;
}

unfoldable pub get_active_pricing_version :
    String
    → ℕ
    → List PricedModel
    → List PricingVersion
    → Result PricingError (PricingVersion × List PricingVersion)
get_active_pricing_version id now models versions = elim (find_active id now versions) [
  | some v ↦ ok (v, versions)
  | none ↦ elim (find (λ m. m.id == id) models) [
    | none ↦ err model_missing
    | some m ↦ ok (new_version id now m, new_version id now m ∷ versions)
  ]
]

find_active_sound :
    (id : String) (now : ℕ) (vs : List PricingVersion) (v : PricingVersion)
    → find_active id now vs ≡ some v
    → is_active id now v ≡ true
unfolding find_active
find_active_sound id now [] v h = cc
find_active_sound id now (w ∷ ws) v h = elim (Option-cases (find_active id now ws)) [
  | inl none_left ↦ ground (arith, h, none_left)
  | inr (x, found) ↦ ground (arith, h, found, find_active_sound id now ws x found)
]

new_version-is_active :
    (id : String) (now : ℕ) (m : PricedModel) → is_active id now (new_version id now m) ≡ true
unfolding is_active new_version
new_version-is_active id now m = ground (arith, beq_refl id)

find_active-new :
    (id : String) (now : ℕ) (m : PricedModel) (vs : List PricingVersion)
    → find_active id now vs ≡ none
    → find_active id now (new_version id now m ∷ vs) ≡ some (new_version id now m)
unfolding find_active
find_active-new id now m vs missing = rw (new_version-is_active id now m, missing) refl

-- A version that is given is of the model and in force at the time of the call, and is the one that
-- a second call at that time is given: a version is created at most once.
pub get_active_pricing_version-again :
    (id : String) (now : ℕ) (models : List PricedModel) (before after : List PricingVersion)
    (v : PricingVersion)
    → get_active_pricing_version id now models before ≡ ok (v, after)
    → (is_active id now v ≡ true) × (get_active_pricing_version id now models after ≡ ok (v, after))
unfolding get_active_pricing_version
get_active_pricing_version-again id now models before after v h =
    elim (Option-cases (find_active id now before)) [
      | inr (w, found) ↦
          let e : (w, before) ≡ (v, after) = ground (arith, h, found) in
          subst
            (λ q.
              (is_active id now q.0 ≡ true) × (get_active_pricing_version id now models q.1 ≡ ok q))
            e (find_active_sound id now before w found, rw (get_active_pricing_version, found) refl)
      | inl missing ↦ elim (Option-cases (find (λ m. m.id == id) models)) [
        | inl unknown ↦ absurd (ground (arith, h, missing, unknown))
        | inr (m, known) ↦
            let e : (new_version id now m, new_version id now m ∷ before) ≡ (v, after) =
              ground (arith, h, missing, known) in
            subst
              (λ q.
                (is_active id now q.0 ≡ true)
                × (get_active_pricing_version id now models q.1 ≡ ok q))
              e
              (
                new_version-is_active id now m,
                rw (get_active_pricing_version, find_active-new id now m before missing) refl,
              )
      ]
    ]
