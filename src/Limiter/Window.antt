-- ===== src/Limiter/Window.antt =====
-- The requests per minute of apps/gateway/src/middleware/quota.ts.
use Prim.Native.String.{String}
use modelforge_ai.Base.{
  ℕ, ◌+◌, ◌-◌, ◌≤◌, ◌<◌, ◌≡◌, ◌⊎◌, inl, inr, none, some, List, [], ◌∷◌, arith, if◌then◌else◌, ltb,
  min, max, length,
}
use modelforge_ai.Base.Text.{text_eq, beq_refl}
use modelforge_ai.Base.Assoc.{lookup}
use modelforge_ai.Base.Preds.{All}
use modelforge_ai.Limiter.Memory.{
  CounterBucket, rpm_key, memory_incr_rpm, Auth, Limiter, Verdict, next, rpm_exceeded,
  rate_limit_rpm, window_ms,
}

-- The requests of one caller at the given times that rateLimitRpmMiddleware lets through.
abbrev is_next : Verdict → ℕ
is_next next = 1
is_next _ = 0

abbrev pub passed : Auth → List ℕ → Limiter → ℕ
passed auth [] s = 0
passed auth (t ∷ ts) s =
    let (v, s') = rate_limit_rpm (some auth) t s in is_next v + passed auth ts s'

-- The bucket of the caller.
abbrev HasBucket : String → ℕ → ℕ → Limiter → Type 0
HasBucket id n reset s = lookup (rpm_key id) s.rpm ≡ some (record { count = n; reset_at = reset })

within_window :
    (auth : Auth) (n reset t : ℕ) (s : Limiter)
    → t < reset
    → HasBucket auth.api_key_id n reset s
    → HasBucket auth.api_key_id (n + 1) reset (rate_limit_rpm (some auth) t s).1
      × ((rate_limit_rpm (some auth) t s).0
          ≡ (if ltb (max 1 auth.requests_per_minute) (n + 1) then rpm_exceeded else next))
unfolding rate_limit_rpm memory_incr_rpm
within_window auth n reset t s before h = ground (arith, beq_refl (rpm_key auth.api_key_id))

passed-bucket :
    (auth : Auth) (ts : List ℕ) (n reset : ℕ) (s : Limiter)
    → All (λ t. t < reset) ts
    → HasBucket auth.api_key_id n reset s
    → passed auth ts s ≡ min (length ts) (max 1 auth.requests_per_minute - n)
passed-bucket auth [] n reset s before h = omega arith
passed-bucket auth (t ∷ ts) n reset s (now, later) h =
    let (h', v) = within_window auth n reset t s now h in
    ground
      (arith, v, passed-bucket auth ts (n + 1) reset (rate_limit_rpm (some auth) t s).1 later h')

-- The caller has no bucket, or one whose time is over.
abbrev pub IsIdle : String → ℕ → Limiter → Type 0
IsIdle id now s =
    (lookup (rpm_key id) s.rpm ≡ none)
    ⊎ ((b : CounterBucket) × (lookup (rpm_key id) s.rpm ≡ some b) × (b.reset_at ≤ now))

opens_window :
    (auth : Auth) (now : ℕ) (s : Limiter)
    → IsIdle auth.api_key_id now s
    → HasBucket auth.api_key_id 1 (now + window_ms) (rate_limit_rpm (some auth) now s).1
      × ((rate_limit_rpm (some auth) now s).0 ≡ next)
unfolding rate_limit_rpm memory_incr_rpm
opens_window auth now s (inl absent) = ground (arith, beq_refl (rpm_key auth.api_key_id))
opens_window auth now s (inr (b, present, over)) =
    ground (arith, beq_refl (rpm_key auth.api_key_id))

-- Of the requests that a caller makes within a minute of the first of a window, the limiter lets
-- through the first `requestsPerMinute` (one, if that is 0), however many come, and no others.
pub passed_in_window :
    (auth : Auth) (first : ℕ) (ts : List ℕ) (s : Limiter)
    → IsIdle auth.api_key_id first s
    → All (λ t. t < first + window_ms) ts
    → passed auth (first ∷ ts) s ≡ min (length (first ∷ ts)) (max 1 auth.requests_per_minute)
passed_in_window auth first ts s idle before =
    let (h, v) = opens_window auth first s idle in
    ground (
      arith,
      v,
      passed-bucket auth ts 1 (first + window_ms) (rate_limit_rpm (some auth) first s).1 before h,
    )
