-- ===== src/Slo/Status.antt =====
-- The status of a window and its credit: packages/platform/src/slo.ts. A percentage or a latency is an
-- integer number of units, of which there are `unit` to a percent or a millisecond, or it is not
-- finite; the thresholds (100 - t) / 2 and 0.9 * t are compared without their denominators.
use modelforge_ai.Base.{
  ℕ, ◌+◌, ◌*◌, ◌≤◌, ◌≡◌, refl, ◌⊎◌, inl, inr, Bool, true, false, ◌||◌, Option, none, some, arith,
  if◌then◌else◌, ltb, min, max,
}
use modelforge_ai.Base.Int.{ℤ, pos, negsuc}
use modelforge_ai.Base.Result.{Result, ok, err, ◌>>◌, throw_if}

pub data SloWindowStatus : Type 0 where
  healthy at_risk breached : SloWindowStatus

pub data Measure : Type 0 where
  finite : ℤ → Measure
  not_finite : Measure

pub data SloError : Type 0 where
  bad_measurement bad_target credit_required negative_credit : SloError

pub record SloTargets : Type 0 where
  pub availability_pct : ℤ
  pub latency_p95_ms : ℤ
  pub at_risk_availability_pct : Option ℕ
  pub at_risk_latency_p95_ms : Option ℕ

abbrev pub is_bad : Measure → Bool
is_bad (finite (pos n)) = false
is_bad _ = true

abbrev pub amount : Measure → ℕ
amount (finite (pos n)) = n
amount _ = 0

abbrev pub target : ℤ → ℕ
target (pos n) = n
target (negsuc n) = 0

abbrev pub is_neg : ℤ → Bool
is_neg (pos n) = false
is_neg (negsuc n) = true

-- `availabilityPct < atRiskAvailability`, where the default is the middle between target and 100 %.
abbrev pub below_at_risk : ℕ → ℕ → Option ℕ → ℕ → Bool
below_at_risk full t none a = ltb (2 * a) (t + full)
below_at_risk full t (some r) a = ltb a r

-- `p95 > atRiskLatency`, where the default is nine tenths of the target.
abbrev pub above_at_risk : ℕ → Option ℕ → ℕ → Bool
above_at_risk t none p = ltb (9 * t) (10 * p)
above_at_risk t (some r) p = ltb r p

-- The status for measurements and targets in their ranges.
unfoldable pub status_of : ℕ → ℕ → ℕ → SloTargets → SloWindowStatus
status_of full a p t =
    if ltb a (target t.availability_pct) || ltb (target t.latency_p95_ms) p
    then breached
    else (if below_at_risk full (target t.availability_pct) t.at_risk_availability_pct a
          || above_at_risk (target t.latency_p95_ms) t.at_risk_latency_p95_ms p
        then at_risk
        else healthy)

unfoldable pub compute_window_status :
    ℕ → Measure → Measure → SloTargets → Result SloError SloWindowStatus
compute_window_status unit availability p95 t = do
  let full = 100 * unit
  throw_if (is_bad availability || ltb full (amount availability) || is_bad p95) bad_measurement
  throw_if
      (is_neg t.availability_pct || ltb full (target t.availability_pct) || is_neg t.latency_p95_ms)
      bad_target
  ok (status_of full (amount availability) (amount p95) t)

-- The two forms of the argument of computeCreditMicros; a severity is `Math.trunc` of one.
pub data CreditInput : Type 0 where
  by_status : SloWindowStatus → Option ℤ → CreditInput
  by_input : Bool → ℤ → Option ℤ → CreditInput

abbrev pub is_breached : SloWindowStatus → Bool
is_breached breached = true
is_breached _ = false

-- Math.max(1, Math.min(3, severity ?? 1))
abbrev pub clamp_severity : Option ℤ → ℕ
clamp_severity none = 1
clamp_severity (some (pos n)) = max 1 (min 3 n)
clamp_severity (some (negsuc n)) = 1

abbrev pub credit_of : Bool → ℤ → ℕ → Result SloError ℕ
credit_of is_breach (negsuc n) severity = err negative_credit
credit_of is_breach (pos n) severity = ok (if is_breach then n * severity else 0)

unfoldable pub compute_credit_micros : CreditInput → Result SloError ℕ
compute_credit_micros (by_status s none) = err credit_required
compute_credit_micros (by_status s (some credit)) = credit_of (is_breached s) credit 1
compute_credit_micros (by_input is_breach credit severity) =
    credit_of is_breach credit (clamp_severity severity)

abbrev pub rank : SloWindowStatus → ℕ
rank healthy = 0
rank at_risk = 1
rank breached = 2

status_of_mono :
    (full a p a' p' : ℕ) (t : SloTargets)
    → a ≤ a'
    → p' ≤ p
    → rank (status_of full a' p' t) ≤ rank (status_of full a p t)
unfolding status_of
status_of_mono full a p a' p' t h k = ground arith

status_ok :
    (unit : ℕ) (a p : Measure) (t : SloTargets) (r : SloWindowStatus)
    → compute_window_status unit a p t ≡ ok r
    → status_of (100 * unit) (amount a) (amount p) t ≡ r
unfolding compute_window_status
status_ok unit a p t r h = ground arith

-- Of two windows that are measured against one target, the one with no less availability and no more
-- latency has no worse a status.
pub compute_window_status_mono :
    (unit : ℕ) (a p a' p' : Measure) (t : SloTargets) (r r' : SloWindowStatus)
    → compute_window_status unit a p t ≡ ok r
    → compute_window_status unit a' p' t ≡ ok r'
    → amount a ≤ amount a'
    → amount p' ≤ amount p
    → rank r' ≤ rank r
unfolding compute_window_status
compute_window_status_mono unit a p a' p' t r r' h h' k k' =
    let mono = status_of_mono (100 * unit) (amount a) (amount p) (amount a') (amount p') t k k' in
    let e : status_of (100 * unit) (amount a) (amount p) t ≡ r = status_ok unit a p t r h in
    let e' : status_of (100 * unit) (amount a') (amount p') t ≡ r' = status_ok unit a' p' t r' h' in
    rw (← e, ← e') mono

credit_of_bounds :
    (is_breach : Bool) (credit severity n : ℕ)
    → 1 ≤ severity
    → severity ≤ 3
    → credit_of is_breach (pos credit) severity ≡ ok n
    → ((is_breach ≡ false) × (n ≡ 0)) ⊎ ((is_breach ≡ true) × (credit ≤ n) × (n ≤ 3 * credit))
credit_of_bounds false credit severity n h k e = inl (refl, ground arith)
credit_of_bounds true credit severity n h k e =
    let v : credit * severity ≡ n = ground arith in
    let low : credit * 1 ≤ credit * severity = grind arith in
    let high : credit * severity ≤ credit * 3 = grind arith in inr (refl, omega arith, omega arith)

clamp_severity_bounds : (s : Option ℤ) → (1 ≤ clamp_severity s) × (clamp_severity s ≤ 3)
clamp_severity_bounds s = ground arith

-- A credit is granted for a breach alone, and is then from one to three times the configured amount.
pub compute_credit_micros_bounds :
    (is_breach : Bool) (credit : ℕ) (severity : Option ℤ) (n : ℕ)
    → compute_credit_micros (by_input is_breach (pos credit) severity) ≡ ok n
    → ((is_breach ≡ false) × (n ≡ 0)) ⊎ ((is_breach ≡ true) × (credit ≤ n) × (n ≤ 3 * credit))
unfolding compute_credit_micros
compute_credit_micros_bounds is_breach credit severity n h =
    let (low, high) = clamp_severity_bounds severity in
    credit_of_bounds is_breach credit (clamp_severity severity) n low high h
