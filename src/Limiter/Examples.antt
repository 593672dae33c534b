-- ===== src/Limiter/Examples.antt =====
-- The limiter (apps/gateway/src/middleware/quota.ts) on concrete requests.
use modelforge_ai.Base.{◌≡◌, ◌≤◌, refl, inl, arith, some, none, List, [], ◌∷◌, true, false}
use modelforge_ai.Limiter.Redis.{get, decr, redis_acquire_conc}
use modelforge_ai.Limiter.Expiry.{acquire_times, redis_acquire_conc_exceeds}
use modelforge_ai.Limiter.Memory.{
  Auth, conc_key, conc_of, rate_limit, release, memory_incr_rpm, memory_acquire_conc,
  memory_release_conc,
}
use modelforge_ai.Limiter.Counts.{in_flight}
use modelforge_ai.Limiter.Slots.{
  Event, arrive, ended, run, step, observe, observed, start, run-IsWithin,
}
use modelforge_ai.Limiter.Window.{passed, passed_in_window}

abbrev caller : Auth
caller = record { api_key_id = "k1"; requests_per_minute = 2; max_concurrent = 1 }

-- Two requests, of which the second finds no slot, then the end of the first, signalled twice, and
-- a third request.
abbrev events : List Event
events =
    arrive (some caller) false 0
    ∷ arrive (some caller) false 1
    ∷ ended 0
    ∷ ended 0
    ∷ arrive (some caller) false 70_000
    ∷ []

run-IsWithin_example :
    (conc_of "k1" (run events start).conc ≡ in_flight "k1" (observed events start []))
    × (in_flight "k1" (observed events start []) ≤ 1)
run-IsWithin_example = run-IsWithin (λ _. 1) events (refl, (refl, (tt, (tt, (refl, tt))))) "k1"

-- The last of the three requests is in flight.
events_one : in_flight "k1" (observed events start []) ≡ 1
unfolding observed observe step rate_limit release memory_incr_rpm memory_acquire_conc
    memory_release_conc conc_of
events_one = refl

passed_in_window_example : passed caller (5 ∷ 10 ∷ 20 ∷ []) start ≡ 2
passed_in_window_example =
    passed_in_window caller 5 (10 ∷ 20 ∷ []) start (inl refl) (omega arith, (omega arith, tt))

nothing_stored : get 0 (conc_key "k") [] ≡ none
unfolding get
nothing_stored = refl

redis_acquire_conc_exceeds_example :
    ((redis_acquire_conc "k" 1 0 []).0 ≡ true)
    × ((acquire_times 2 "k" 1 150_000
          (decr 150_000 (conc_key "k") (redis_acquire_conc "k" 1 0 []).1)).0
        ≡ true)
redis_acquire_conc_exceeds_example =
    redis_acquire_conc_exceeds "k" 1 0 150_000 [] nothing_stored (omega arith) (omega arith)
