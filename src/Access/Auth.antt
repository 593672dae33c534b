-- ===== src/Access/Auth.antt =====
-- authMiddleware and internalAuth of apps/gateway/src/middleware/auth.ts.
-- The first group of the header's match with `/^Bearer\s+(.+)$/i`, the trimming of a text and the
-- hash of a key (SHA-256, of node:crypto) are parameters.
use Prim.Native.String.{String}
use modelforge_ai.Base.{
  ℕ, ◌≡◌, refl, inl, inr, Bool, true, false, not, ◌&&◌, Option, none, some, List, arith,
  if◌then◌else◌, Bool-cases, Option-cases,
}
use modelforge_ai.Base.Int.{ℤ}
use modelforge_ai.Base.Text.{◌==◌, text_eq, eq_of_beq}
use modelforge_ai.Base.Preds.{find, find_sound, In}
use modelforge_ai.Base.Result.{Result, ok, err}
use modelforge_ai.Billing.Meter.{effective_monthly_quota}

pub data SubscriptionStatus : Type 0 where
  active past_due canceled : SubscriptionStatus

abbrev pub is_active : SubscriptionStatus → Bool
is_active active = true
is_active past_due = false
is_active canceled = false

pub data BillingMode : Type 0 where
  subscription usage : BillingMode

pub record Plan : Type 0 where
  pub id : String
  pub name : String
  pub monthly_token_quota : ℤ
  pub requests_per_minute : ℕ
  pub max_concurrent : ℕ
  pub allowed_model_ids : List String
  pub billing_mode : BillingMode

pub record Subscription : Type 0 where
  pub plan : Plan
  pub status : SubscriptionStatus
  pub current_period_start : ℕ
  pub current_period_end : ℕ

pub record Customer : Type 0 where
  pub email : String
  pub quota_bonus_tokens : ℤ
  pub subscription : Option Subscription

-- A row of the API keys, with what `include` joins to it.
pub record ApiKey : Type 0 where
  pub id : String
  pub key_hash : String
  pub customer_id : String
  pub revoked_at : Option ℕ
  pub customer : Customer

pub record AuthContext : Type 0 where
  pub customer_id : String
  pub api_key_id : String
  pub email : String
  pub plan_id : String
  pub plan_name : String
  pub monthly_token_quota : ℤ
  pub requests_per_minute : ℕ
  pub max_concurrent : ℕ
  pub allowed_model_ids : List String
  pub billing_mode : BillingMode
  pub period_start : ℕ
  pub period_end : ℕ

-- An answer that ends the request: the HTTP status, and the error's type and message.
pub record Rejection : Type 0 where
  pub status : ℕ
  pub kind : String
  pub message : String

abbrev pub reject : ℕ → String → String → Rejection
reject status kind message = record { status = status; kind = kind; message = message }

-- `req.auth = …`
unfoldable pub context_of : ApiKey → Subscription → AuthContext
context_of key sub = record {
  customer_id = key.customer_id;
  api_key_id = key.id;
  email = key.customer.email;
  plan_id = sub.plan.id;
  plan_name = sub.plan.name;
  monthly_token_quota =
      effective_monthly_quota sub.plan.monthly_token_quota key.customer.quota_bonus_tokens;
  requests_per_minute = sub.plan.requests_per_minute;
  max_concurrent = sub.plan.max_concurrent;
  allowed_model_ids = sub.plan.allowed_model_ids;
  billing_mode = sub.plan.billing_mode;
  period_start = sub.current_period_start;
  period_end = sub.current_period_end;
}

-- `!sub || sub.status !== "ACTIVE"`
unfoldable pub check_subscription : ApiKey → Option Subscription → Result Rejection AuthContext
check_subscription key none = err (reject 403 "permission_error" "No active subscription")
check_subscription key (some sub) =
    if is_active sub.status
    then ok (context_of key sub)
    else err (reject 403 "permission_error" "No active subscription")

-- `!apiKey || apiKey.revokedAt`
unfoldable pub check_key : Option ApiKey → Result Rejection AuthContext
check_key none = err (reject 401 "authentication_error" "Invalid API key")
check_key (some key) = elim key.revoked_at [
  | some _ ↦ err (reject 401 "authentication_error" "Invalid API key")
  | none ↦ check_subscription key key.customer.subscription
]

module _ (bearer : String → Option String) (trim hash_api_key : String → String) where
  -- The header, and the table of keys if the database answers.
  unfoldable pub auth_middleware :
      Option String → Option (List ApiKey) → Result Rejection AuthContext
  auth_middleware header keys = elim (bearer (elim header [ some h ↦ h | none ↦ "" ])) [
    | none ↦ err (reject 401 "authentication_error" "Missing Bearer API key")
    | some token ↦ elim keys [
      | none ↦ err (reject 503 "server_error" "Auth backend unavailable")
      | some rows ↦ check_key (find (λ k. k.key_hash == hash_api_key (trim token)) rows)
    ]
  ]

-- `!token || token !== process.env.INTERNAL_SERVICE_TOKEN`; the empty text is falsy.
unfoldable pub internal_auth : Option String → Option String → Bool
internal_auth none expected = false
internal_auth (some token) none = false
internal_auth (some token) (some expected) = not (token == "") && token == expected

-- The row lets its holder in with that context.
pub record Grants (key : ApiKey) (auth : AuthContext) : Type 0 where
  pub not_revoked : key.revoked_at ≡ none
  pub sub : Subscription
  pub subscribed : key.customer.subscription ≡ some sub
  pub sub_active : is_active sub.status ≡ true
  pub context : auth ≡ context_of key sub

check_subscription-ok :
    (key : ApiKey) (sub : Option Subscription) (auth : AuthContext)
    → key.revoked_at ≡ none
    → key.customer.subscription ≡ sub
    → check_subscription key sub ≡ ok auth
    → Grants key auth
unfolding check_subscription
check_subscription-ok key none auth live same h = cc
check_subscription-ok key (some s) auth live same h = elim (Bool-cases (is_active s.status)) [
  | inl paid ↦ record {
    not_revoked = live;
    sub = s;
    subscribed = same;
    sub_active = paid;
    context = ground (arith, h, paid);
  }
  | inr unpaid ↦ absurd (ground (arith, h, unpaid))
]

check_key-ok :
    (found : Option ApiKey) (auth : AuthContext)
    → check_key found ≡ ok auth
    → (key : ApiKey) × (found ≡ some key) × Grants key auth
unfolding check_key
check_key-ok none auth h = cc
check_key-ok (some key) auth h = elim (Option-cases key.revoked_at) [
  | inr (t, revoked) ↦ absurd (ground (arith, h, revoked))
  | inl live ↦ (
    key,
    refl,
    check_subscription-ok key key.customer.subscription auth live refl (ground (arith, h, live)),
  )
]

module _ (bearer : String → Option String) (trim hash_api_key : String → String) where
  -- A request that the middleware lets in carries a key whose hash stands in the table, in a row
  -- that is not revoked and whose customer has an active subscription; its context is read off that
  -- row, the bonus added to the plan's quota.
  pub auth_middleware-Grants :
      (header : Option String) (rows : List ApiKey) (auth : AuthContext)
      → auth_middleware bearer trim hash_api_key header (some rows) ≡ ok auth
      → (token : String) × (key : ApiKey) × (bearer (elim header [ some h ↦ h | none ↦ "" ])
          ≡ some token)
        × In key rows
        × (key.key_hash ≡ hash_api_key (trim token))
        × Grants key auth
  unfolding auth_middleware
  auth_middleware-Grants header rows auth h =
      elim (Option-cases (bearer (elim header [ some h ↦ h | none ↦ "" ]))) [
        | inl missing ↦ absurd (ground (arith, h, missing))
        | inr (token, given) ↦
            let (key, found, grants) =
              check_key-ok (find (λ k. k.key_hash == hash_api_key (trim token)) rows) auth
                (ground (arith, h, given)) in
            let (same, member) =
              find_sound (λ k. k.key_hash == hash_api_key (trim token)) rows key found in
            (
              token,
              key,
              given,
              member,
              eq_of_beq key.key_hash (hash_api_key (trim token)) same,
              grants,
            )
      ]
