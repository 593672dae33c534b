-- ===== src/Limiter/Memory.antt =====
-- The in-memory buckets of apps/gateway/src/middleware/quota.ts, and rateLimitMiddleware and
-- rateLimitRpmMiddleware over them (REDIS_ENABLED=false). A time is a number of milliseconds.
use Prim.Native.String.{String, ◌++◌}
use modelforge_ai.Base.{
  ℕ, ◌+◌, ◌-◌, Bool, true, false, Option, none, some, List, [], ◌∷◌, ◌++◌ as append, if◌then◌else◌,
  leb, ltb, max, get_elem?, set,
}
use modelforge_ai.Base.Text.{◌==◌, text_eq, nat_eq}
use modelforge_ai.Base.Assoc.{lookup, insert, delete}

pub record CounterBucket : Type 0 where
  pub count : ℕ
  pub reset_at : ℕ

-- `memoryRpm` and `memoryConc`.
abbrev pub RpmMap : Type 0
RpmMap = List (String × CounterBucket)

abbrev pub ConcMap : Type 0
ConcMap = List (String × ℕ)

abbrev pub rpm_key : String → String
rpm_key id = "rl:" ++ id

abbrev pub conc_key : String → String
conc_key id = "conc:" ++ id

-- The new count, and the map; `now` is `Date.now()`.
unfoldable pub memory_incr_rpm : String → ℕ → ℕ → RpmMap → ℕ × RpmMap
memory_incr_rpm id window_ms now m =
    let fresh : ℕ × RpmMap =
      (1, insert (rpm_key id) (record { count = 1; reset_at = now + window_ms }) m) in
    elim (lookup (rpm_key id) m) [
      | none ↦ fresh
      | some current ↦ if leb current.reset_at now then fresh else (
        current.count + 1,
        insert (rpm_key id) (record current { count = current.count + 1 }) m,
      )
    ]

-- `memoryConc.get(key) ?? { count: 0 }`
abbrev pub count_or_zero : Option ℕ → ℕ
count_or_zero none = 0
count_or_zero (some n) = n

unfoldable pub conc_of : String → ConcMap → ℕ
conc_of id m = count_or_zero (lookup (conc_key id) m)

unfoldable pub memory_acquire_conc : String → ℕ → ConcMap → Bool × ConcMap
memory_acquire_conc id max_concurrent m =
    let current = conc_of id m in
    if leb max_concurrent current then (false, m) else (true, insert (conc_key id) (current + 1) m)

unfoldable pub memory_release_conc : String → ConcMap → ConcMap
memory_release_conc id m = elim (lookup (conc_key id) m) [
  | none ↦ m
  | some current ↦
      let count = current - 1 in
      if count == 0 then delete (conc_key id) m else insert (conc_key id) count m
]

pub record Auth : Type 0 where
  pub api_key_id : String
  pub requests_per_minute : ℕ
  pub max_concurrent : ℕ

-- A request that holds a slot: its key, and the `released` of its closure.
pub record Slot : Type 0 where
  pub api_key_id : String
  pub released : Bool

-- The limiter: its maps, and the requests that were let through with a slot, oldest first.
pub record Limiter : Type 0 where
  pub rpm : RpmMap
  pub conc : ConcMap
  pub slots : List Slot

pub data Verdict : Type 0 where
  next unauthenticated rpm_exceeded concurrency_exceeded : Verdict

abbrev pub window_ms : ℕ
window_ms = 60_000

-- `auth` is none where the request is not authenticated; `child` is `isOrchestrationChild`.
unfoldable pub rate_limit : Option Auth → Bool → ℕ → Limiter → Verdict × Limiter
rate_limit none child now s = (unauthenticated, s)
rate_limit (some auth) true now s = (next, s)
rate_limit (some auth) false now s =
    let rpm = max 1 auth.requests_per_minute in
    let (count, rpm_map) = memory_incr_rpm auth.api_key_id window_ms now s.rpm in
    let s' = record s { rpm = rpm_map } in
    if ltb rpm count
    then (rpm_exceeded, s')
    else (let (acquired, conc_map) =
          memory_acquire_conc auth.api_key_id auth.max_concurrent s.conc in
        if acquired
        then (
          next,
          record s' {
            conc = conc_map;
            slots = append s.slots (record { api_key_id = auth.api_key_id; released = false } ∷ []);
          },
        )
        else (concurrency_exceeded, s'))

unfoldable pub rate_limit_rpm : Option Auth → ℕ → Limiter → Verdict × Limiter
rate_limit_rpm none now s = (unauthenticated, s)
rate_limit_rpm (some auth) now s =
    let rpm = max 1 auth.requests_per_minute in
    let (count, rpm_map) = memory_incr_rpm auth.api_key_id window_ms now s.rpm in
    let s' = record s { rpm = rpm_map } in if ltb rpm count then (rpm_exceeded, s') else (next, s')

-- The closure `release` of the i-th slot, which "finish" and "close" both call.
unfoldable pub release : ℕ → Limiter → Limiter
release i s = elim (get_elem? s.slots i) [
  | none ↦ s
  | some slot ↦ if slot.released then s else record s {
    conc = memory_release_conc slot.api_key_id s.conc;
    slots = set s.slots i (record slot { released = true });
  }
]
