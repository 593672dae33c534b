-- ===== src/Limiter/Slots.antt =====
-- Concurrency slots of apps/gateway/src/middleware/quota.ts: the count of a key is the number of its
-- requests in flight, over any sequence of arrivals and of "finish" and "close" events.
use Prim.Native.String.{String}
use modelforge_ai.Base.{
  ℕ, zero, suc, ◌≤◌, ◌≡◌, refl, ap, ◌∙◌, inl, inr, Bool, true, false, Option, none, some, List, [],
  ◌∷◌, ◌++◌ as append, arith, if◌then◌else◌, get_elem?, set, Bool-cases, Option-cases,
}
use modelforge_ai.Base.Text.{text_eq, nat_eq, eq_of_beq}
use modelforge_ai.Base.Preds.{All}
use modelforge_ai.Limiter.Counts.{
  in_flight, conc_of-acquire, conc_of-release, in_flight-append, in_flight-set,
}
use modelforge_ai.Limiter.Memory.{
  conc_of, memory_acquire_conc, Auth, Slot, Limiter, Verdict, next, unauthenticated, rpm_exceeded,
  concurrency_exceeded, rate_limit, rate_limit_rpm, release,
}

-- The limiter's count of every key is the number of the key's requests in flight.
abbrev pub IsCounted : Limiter → Type 0
IsCounted s = (k : String) → conc_of k s.conc ≡ in_flight k s.slots

pub rate_limit-IsCounted :
    (auth : Option Auth) (child : Bool) (now : ℕ) (s : Limiter)
    → IsCounted s
    → IsCounted (rate_limit auth child now s).1
unfolding rate_limit
rate_limit-IsCounted none child now s c k = c k
rate_limit-IsCounted (some auth) true now s c k = c k
rate_limit-IsCounted (some auth) false now s c k = ground (
  arith,
  c k,
  conc_of-acquire auth.api_key_id k auth.max_concurrent s.conc,
  in_flight-append k auth.api_key_id s.slots,
)

pub release-IsCounted : (i : ℕ) (s : Limiter) → IsCounted s → IsCounted (release i s)
unfolding release
release-IsCounted i s c k = elim (Option-cases (get_elem? s.slots i)) [
  | inl absent ↦ rw (release, absent) (c k)
  | inr (slot, at') ↦ elim (Bool-cases slot.released) [
    | inl done ↦ rw (release, at', done) (c k)
    | inr held ↦
        rw (release, at', held)
          (ground (
            arith,
            c k,
            conc_of-release slot.api_key_id k s.conc,
            in_flight-set k s.slots i slot at' held,
          ))
  ]
]

-- What the limiter is called with: a request, by either middleware, or the end of a response.
pub data Event : Type 0 where
  arrive : Option Auth → Bool → ℕ → Event
  arrive_rpm : Option Auth → ℕ → Event
  ended : ℕ → Event

unfoldable pub step : Event → Limiter → Limiter
step (arrive auth child now) s = (rate_limit auth child now s).1
step (arrive_rpm auth now) s = (rate_limit_rpm auth now s).1
step (ended i) s = release i s

unfoldable pub run : List Event → Limiter → Limiter
run [] s = s
run (e ∷ es) s = run es (step e s)

abbrev pub start : Limiter
start = record { rpm = []; conc = []; slots = [] }

-- Requests of one key come with one limit.
abbrev pub Limits : (String → ℕ) → Event → Type 0
Limits cap (arrive (some auth) _ _) = auth.max_concurrent ≡ cap auth.api_key_id
Limits cap _ = Unit

abbrev pub IsWithin : (String → ℕ) → Limiter → Type 0
IsWithin cap s = (k : String) → in_flight k s.slots ≤ cap k

rate_limit-IsWithin :
    (cap : String → ℕ) (auth : Option Auth) (child : Bool) (now : ℕ) (s : Limiter)
    → Limits cap (arrive auth child now)
    → IsCounted s
    → IsWithin cap s
    → IsWithin cap (rate_limit auth child now s).1
unfolding rate_limit memory_acquire_conc
rate_limit-IsWithin cap none child now s l c w k = w k
rate_limit-IsWithin cap (some auth) true now s l c w k = w k
rate_limit-IsWithin cap (some auth) false now s l c w k = ground (
  arith,
  w k,
  c auth.api_key_id,
  l,
  eq_of_beq auth.api_key_id k,
  in_flight-append k auth.api_key_id s.slots,
)

release-IsWithin :
    (cap : String → ℕ) (i : ℕ) (s : Limiter) → IsWithin cap s → IsWithin cap (release i s)
unfolding release
release-IsWithin cap i s w k = elim (Option-cases (get_elem? s.slots i)) [
  | inl absent ↦ rw (release, absent) (w k)
  | inr (slot, at') ↦ elim (Bool-cases slot.released) [
    | inl done ↦ rw (release, at', done) (w k)
    | inr held ↦
        rw (release, at', held) (ground (arith, w k, in_flight-set k s.slots i slot at' held))
  ]
]

step-keeps :
    (cap : String → ℕ) (e : Event) (s : Limiter)
    → Limits cap e
    → IsCounted s × IsWithin cap s
    → IsCounted (step e s) × IsWithin cap (step e s)
unfolding step rate_limit_rpm
step-keeps cap (arrive auth child now) s l (c, w) =
    (rate_limit-IsCounted auth child now s c, rate_limit-IsWithin cap auth child now s l c w)
step-keeps cap (arrive_rpm none now) s l (c, w) = (c, w)
step-keeps cap (arrive_rpm (some auth) now) s l (c, w) =
    (λ k. ground (arith, c k), λ k. ground (arith, w k))
step-keeps cap (ended i) s l (c, w) = (release-IsCounted i s c, release-IsWithin cap i s w)

run-keeps :
    (cap : String → ℕ) (es : List Event) (s : Limiter)
    → All (Limits cap) es
    → IsCounted s × IsWithin cap s
    → IsCounted (run es s) × IsWithin cap (run es s)
unfolding run
run-keeps cap [] s l h = h
run-keeps cap (e ∷ es) s (l, ls) h = run-keeps cap es (step e s) ls (step-keeps cap e s l h)

abbrev lets_through : Verdict → Bool
lets_through next = true
lets_through unauthenticated = false
lets_through rpm_exceeded = false
lets_through concurrency_exceeded = false

abbrev finish : ℕ → List Slot → List Slot
finish i [] = []
finish zero (r ∷ rs) = record r { released = true } ∷ rs
finish (suc i) (r ∷ rs) = r ∷ finish i rs

-- The requests of rateLimitMiddleware as a client sees them, by the verdicts alone: one that is no child of
-- an orchestration and is let through runs until its end.
unfoldable pub observe : Event → Limiter → List Slot → List Slot
observe (arrive none child now) s running = running
observe (arrive (some auth) true now) s running = running
observe (arrive (some auth) false now) s running =
    if lets_through (rate_limit (some auth) false now s).0
    then append running (record { api_key_id = auth.api_key_id; released = false } ∷ [])
    else running
observe (arrive_rpm auth now) s running = running
observe (ended i) s running = finish i running

-- Those of a sequence of calls, oldest first.
unfoldable pub observed : List Event → Limiter → List Slot → List Slot
observed [] s running = running
observed (e ∷ es) s running = observed es (step e s) (observe e s running)

finish-set :
    (i : ℕ) (rs : List Slot) (r : Slot)
    → get_elem? rs i ≡ some r
    → finish i rs ≡ set rs i (record r { released = true })
finish-set i [] r h = cc
finish-set zero (x ∷ xs) r h = ground (arith, h)
finish-set (suc i) (x ∷ xs) r h = ap (λ ys. x ∷ ys) (finish-set i xs r h)

finish_absent : (i : ℕ) (rs : List Slot) → get_elem? rs i ≡ none → finish i rs ≡ rs
finish_absent i [] h = refl
finish_absent zero (x ∷ xs) h = cc
finish_absent (suc i) (x ∷ xs) h = ap (λ ys. x ∷ ys) (finish_absent i xs h)

finish_again :
    (i : ℕ) (rs : List Slot) (r : Slot)
    → get_elem? rs i ≡ some r
    → r.released ≡ true
    → finish i rs ≡ rs
finish_again i [] r h k = cc
finish_again zero (x ∷ xs) r h k = ground (arith, h, k)
finish_again (suc i) (x ∷ xs) r h k = ap (λ ys. x ∷ ys) (finish_again i xs r h k)

-- The limiter's slots are the requests that it has let through.
observe-step : (e : Event) (s : Limiter) → observe e s s.slots ≡ (step e s).slots
unfolding observe step rate_limit rate_limit_rpm release
observe-step (arrive none child now) s = refl
observe-step (arrive (some auth) true now) s = refl
observe-step (arrive (some auth) false now) s = ground arith
observe-step (arrive_rpm none now) s = refl
observe-step (arrive_rpm (some auth) now) s = ground arith
observe-step (ended i) s = elim (Option-cases (get_elem? s.slots i)) [
  | inl absent ↦ rw (release, absent) (finish_absent i s.slots absent)
  | inr (slot, at') ↦ elim (Bool-cases slot.released) [
    | inl done ↦ rw (release, at', done) (finish_again i s.slots slot at' done)
    | inr held ↦ rw (release, at', held) (finish-set i s.slots slot at')
  ]
]

observed-run : (es : List Event) (s : Limiter) → observed es s s.slots ≡ (run es s).slots
unfolding observed run
observed-run [] s = refl
observed-run (e ∷ es) s =
    ap (observed es (step e s)) (observe-step e s) ∙ observed-run es (step e s)

-- Without Redis, where requests of one key come with one limit: over any sequence of requests and of ends of
-- responses, also where an end is signalled twice, the limiter counts for every key the requests that
-- rateLimitMiddleware has let through, children of an orchestration aside, and that have not ended; and
-- these are never more than the key's limit.
pub run-IsWithin :
    (cap : String → ℕ) (es : List Event)
    → All (Limits cap) es
    → (k : String)
    → (conc_of k (run es start).conc ≡ in_flight k (observed es start []))
      × (in_flight k (observed es start []) ≤ cap k)
unfolding conc_of
run-IsWithin cap es l k =
    let (counted, within) = run-keeps cap es start l (λ k. refl, λ k. omega arith) in
    rw (observed-run es start) (counted k, within k)
