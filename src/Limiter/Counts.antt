-- ===== src/Limiter/Counts.antt =====
-- The counts of concurrency slots (apps/gateway/src/middleware/quota.ts), and the requests in flight.
use Prim.Native.String.{String}
use modelforge_ai.Base.{
  ℕ, zero, suc, ◌+◌, ◌-◌, ◌≡◌, ap, inl, inr, true, false, not, ◌&&◌, some, List, [], ◌∷◌,
  ◌++◌ as append, arith, if◌then◌else◌, get_elem?, set, Bool-cases,
}
use modelforge_ai.Base.Text.{◌==◌, text_eq, nat_eq, eq_of_beq, beq_of_eq}
use text.Mathlib.TextLemmas.{append_cancel_left}
use modelforge_ai.Base.Assoc.{lookup-delete}
use modelforge_ai.Limiter.Memory.{
  ConcMap, conc_key, conc_of, memory_acquire_conc, memory_release_conc, Slot,
}

-- The requests of a key that are in flight.
abbrev pub in_flight : String → List Slot → ℕ
in_flight id [] = 0
in_flight id (s ∷ ss) =
    if s.api_key_id == id && not s.released then in_flight id ss + 1 else in_flight id ss

conc_key-injective : (a b : String) → (conc_key a == conc_key b) ≡ (a == b)
conc_key-injective a b = elim (Bool-cases (a == b)) [
  | inl same ↦
      let e = eq_of_beq a b same in rw same (beq_of_eq (conc_key a) (conc_key b) (ap conc_key e))
  | inr other ↦ elim (Bool-cases (conc_key a == conc_key b)) [
    | inl same ↦ let e = beq_of_eq a b (append_cancel_left "conc:" a b (eq_of_beq _ _ same)) in cc
    | inr apart ↦ rw other apart
  ]
]

pub conc_of-acquire :
    (id k : String) (cap : ℕ) (m : ConcMap)
    → conc_of k (memory_acquire_conc id cap m).1
      ≡ (if id == k && (memory_acquire_conc id cap m).0 then conc_of k m + 1 else conc_of k m)
unfolding conc_of memory_acquire_conc
conc_of-acquire id k cap m = ground (arith, conc_key-injective id k, eq_of_beq id k)

pub conc_of-release :
    (id k : String) (m : ConcMap)
    → conc_of k (memory_release_conc id m) ≡ (if id == k then conc_of k m - 1 else conc_of k m)
unfolding conc_of memory_release_conc
conc_of-release id k m =
    ground
      (arith, conc_key-injective id k, eq_of_beq id k, lookup-delete (conc_key id) (conc_key k) m)

pub in_flight-append :
    (k id : String) (ss : List Slot)
    → in_flight k (append ss (record { api_key_id = id; released = false } ∷ []))
      ≡ (if id == k then in_flight k ss + 1 else in_flight k ss)
in_flight-append k id [] = ground arith
in_flight-append k id (s ∷ ss) = ground (arith, in_flight-append k id ss)

pub in_flight-set :
    (k : String) (ss : List Slot) (i : ℕ) (s : Slot)
    → get_elem? ss i ≡ some s
    → s.released ≡ false
    → in_flight k ss
      ≡ in_flight k (set ss i (record s { released = true })) + (if s.api_key_id == k then 1 else 0)
in_flight-set k [] i s h f = cc
in_flight-set k (x ∷ xs) zero s h f = ground arith
in_flight-set k (x ∷ xs) (suc i) s h f = ground (arith, in_flight-set k xs i s h f)
