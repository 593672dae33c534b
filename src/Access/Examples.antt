-- ===== src/Access/Examples.antt =====
-- Access (apps/gateway/src/middleware/auth.ts, quotaCheck.ts) of a concrete key.
use Prim.Native.String.{String}
use modelforge_ai.Base.{ℕ, ◌≡◌, refl, none, some, [], ◌∷◌}
use modelforge_ai.Base.Int.{pos}
use modelforge_ai.Base.Preds.{In}
use modelforge_ai.Quota.Tables.{Db}
use modelforge_ai.Access.Auth.{
  Plan, Subscription, ApiKey, active, subscription, auth_middleware, check_key, check_subscription,
  context_of, Grants, auth_middleware-Grants,
}
use modelforge_ai.Access.QuotaCheck.{
  up, disabled, quota_middleware, IsFreshRedis, quota_middleware-fresh,
}

abbrev basic : Plan
basic = record {
  id = "p1";
  name = "basic";
  monthly_token_quota = pos 100;
  requests_per_minute = 10;
  max_concurrent = 2;
  allowed_model_ids = "small" ∷ [];
  billing_mode = subscription;
}

abbrev subscribed : Subscription
subscribed = record {
  plan = basic;
  status = active;
  current_period_start = 0;
  current_period_end = 9;
}

abbrev key : ApiKey
key = record {
  id = "k1";
  key_hash = "secret";
  customer_id = "ada";
  revoked_at = none;
  customer = record { email = "ada@x"; quota_bonus_tokens = pos 5; subscription = some subscribed };
}

-- The header is the key itself, and the hash the identity.
auth_middleware-Grants_example :
    (token : String) × (k : ApiKey) × (some "secret" ≡ some token)
    × In k (key ∷ [])
    × (k.key_hash ≡ token)
    × Grants k (context_of key subscribed)
unfolding auth_middleware check_key check_subscription
auth_middleware-Grants_example =
    auth_middleware-Grants (λ h. some h) (λ s. s) (λ s. s) (some "secret") (key ∷ [])
      (context_of key subscribed) refl

abbrev used : ℕ → Db
used n = record {
  ledgers =
      record {
        id = "l1";
        customer_id = "ada";
        period_start = 0;
        period_end = 9;
        tokens_used = pos n;
        tokens_reserved = pos 0;
      }
      ∷ [];
  entries = [];
  usage_events = [];
}

quota_middleware-fresh_example :
    ((quota_middleware (some (context_of key subscribed)) (some (used 7)) (up [])).0
      ≡ (quota_middleware (some (context_of key subscribed)) (some (used 7)) disabled).0)
    × IsFreshRedis
        (used 7)
        (quota_middleware (some (context_of key subscribed)) (some (used 7)) (up [])).1
quota_middleware-fresh_example =
    quota_middleware-fresh (context_of key subscribed) (used 7) [] (λ c u h. cc)
