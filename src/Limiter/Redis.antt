-- ===== src/Limiter/Redis.antt =====
-- rateLimitMiddleware and rateLimitRpmMiddleware of apps/gateway/src/middleware/quota.ts with Redis. A key of
-- Redis has an integer and may have a time of expiry, as INCR, DECR, EXPIRE and PEXPIRE are documented: INCR
-- and DECR take a key that is not there for 0, and keep the expiry of one that is. No command fails, and
-- printing the number of a window is a parameter.
use Prim.Native.String.{String, ◌++◌}
use modelforge_ai.Base.{
  ℕ, ◌+◌, ◌/◌, Bool, true, false, Option, none, some, List, [], ◌∷◌, ◌++◌ as append, if◌then◌else◌,
  ltb, max, get_elem?, set,
}
use modelforge_ai.Base.Int.{ℤ, pos, negsuc, ◌+ℤ◌, ltb_ℤ}
use modelforge_ai.Base.Text.{text_eq}
use modelforge_ai.Base.Assoc.{lookup, insert}
use modelforge_ai.Limiter.Memory.{
  Auth, Slot, Verdict, next, unauthenticated, rpm_exceeded, concurrency_exceeded, rpm_key, conc_key,
  window_ms,
}

pub record RedisValue : Type 0 where
  pub value : ℤ
  pub expires_at : Option ℕ

abbrev pub Redis : Type 0
Redis = List (String × RedisValue)

abbrev pub is_live : ℕ → Option ℕ → Bool
is_live now none = true
is_live now (some t) = ltb now t

abbrev pub if_live : ℕ → Option RedisValue → Option RedisValue
if_live now none = none
if_live now (some v) = if is_live now v.expires_at then some v else none

unfoldable pub get : ℕ → String → Redis → Option RedisValue
get now key m = if_live now (lookup key m)

abbrev pub zero_value : RedisValue
zero_value = record { value = pos 0; expires_at = none }

abbrev pub or_zero : Option RedisValue → RedisValue
or_zero none = zero_value
or_zero (some v) = v

-- The value of the key with the amount added, and the database.
unfoldable pub incr_by : ℤ → ℕ → String → Redis → ℤ × Redis
incr_by amount now key m =
    let old = or_zero (get now key m) in
    let new = old.value +ℤ amount in (new, insert key (record old { value = new }) m)

abbrev pub incr : ℕ → String → Redis → ℤ × Redis
incr now key m = incr_by (pos 1) now key m

abbrev pub decr : ℕ → String → Redis → Redis
decr now key m = (incr_by (negsuc 0) now key m).1

abbrev pub set_expiry : Option RedisValue → ℕ → String → Redis → Redis
set_expiry none time key m = m
set_expiry (some v) time key m = insert key (record v { expires_at = some time }) m

unfoldable pub pexpire : ℕ → ℕ → String → Redis → Redis
pexpire duration now key m = set_expiry (get now key m) (now + duration) key m

abbrev pub is_one : ℤ → Bool
is_one (pos n) = if ltb 0 n then ltb n 2 else false
is_one (negsuc n) = false

-- INCR, and the expiry where the count is 1.
unfoldable pub incr_with_expiry : ℕ → ℕ → String → Redis → ℤ × Redis
incr_with_expiry duration now key m =
    let (count, after) = incr now key m in
    if is_one count then (count, pexpire duration now key after) else (count, after)

-- redis.expire(ckey, 120)
abbrev pub conc_ms : ℕ
conc_ms = 120_000

unfoldable pub redis_acquire_conc : String → ℕ → ℕ → Redis → Bool × Redis
redis_acquire_conc id max_concurrent now m =
    let (current, after) = incr_with_expiry conc_ms now (conc_key id) m in
    if ltb_ℤ (pos max_concurrent) current
    then (false, decr now (conc_key id) after)
    else (true, after)

pub record RedisLimiter : Type 0 where
  pub redis : Redis
  pub slots : List Slot

-- The closure `release` of the i-th slot.
unfoldable pub redis_release : ℕ → ℕ → RedisLimiter → RedisLimiter
redis_release i now s = elim (get_elem? s.slots i) [
  | none ↦ s
  | some slot ↦ if slot.released then s else record s {
    redis = decr now (conc_key slot.api_key_id) s.redis;
    slots = set s.slots i (record slot { released = true });
  }
]

module _ (print : ℕ → String) where
  abbrev pub bucket_key : String → ℕ → String
  bucket_key id now = rpm_key id ++ ":" ++ print (now / window_ms)

  abbrev pub redis_incr_rpm : Auth → ℕ → Redis → ℤ × Redis
  redis_incr_rpm auth now m = incr_with_expiry window_ms now (bucket_key auth.api_key_id now) m

  abbrev pub exceeds_rpm : Auth → ℤ → Bool
  exceeds_rpm auth count = ltb_ℤ (pos (max 1 auth.requests_per_minute)) count

  abbrev pub take_slot : Auth → ℕ → Redis → RedisLimiter → Verdict × RedisLimiter
  take_slot auth now m s =
      let (acquired, after) = redis_acquire_conc auth.api_key_id auth.max_concurrent now m in
      if acquired
      then (
        next,
        record s {
          redis = after;
          slots = append s.slots (record { api_key_id = auth.api_key_id; released = false } ∷ []);
        },
      )
      else (concurrency_exceeded, record s { redis = after })

  unfoldable pub redis_rate_limit : Option Auth → Bool → ℕ → RedisLimiter → Verdict × RedisLimiter
  redis_rate_limit none child now s = (unauthenticated, s)
  redis_rate_limit (some auth) true now s = (next, s)
  redis_rate_limit (some auth) false now s =
      let (count, m) = redis_incr_rpm auth now s.redis in
      if exceeds_rpm auth count
      then (rpm_exceeded, record s { redis = m })
      else take_slot auth now m s

  unfoldable pub redis_rate_limit_rpm : Option Auth → ℕ → RedisLimiter → Verdict × RedisLimiter
  redis_rate_limit_rpm none now s = (unauthenticated, s)
  redis_rate_limit_rpm (some auth) now s =
      let (count, m) = redis_incr_rpm auth now s.redis in
      if exceeds_rpm auth count
      then (rpm_exceeded, record s { redis = m })
      else (next, record s { redis = m })
