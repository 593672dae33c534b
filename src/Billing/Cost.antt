-- ===== src/Billing/Cost.antt =====
-- The cost of tokens: packages/platform/src/ledger.ts, calculateUsageCents of
-- packages/billing/src/invoice.ts and computeCostMicros of apps/gateway/src/lib/pricing.ts. Prices of
-- the last two are fractional cents in the source, here hundredths of a cent; arithmetic is exact,
-- where the source's doubles are exact up to 2 ^ 53.
use modelforge_ai.Base.{
  ℕ, ◌+◌, ◌*◌, ◌/◌, ◌≤◌, ◌<◌, ◌≡◌, Bool, false, List, [], ◌∷◌, ◌++◌, arith, if◌then◌else◌, leb,
}
use modelforge_ai.Base.Int.{ℤ, pos, negsuc, ◌-ℤ◌, ltb_ℤ}
use modelforge_ai.Base.Result.{Result, ok, err, ◌>>=◌, ◌>>◌, throw_if}

pub data RangeError : Type 0 where
  not_a_safe_integer negative_tokens : RangeError

-- Number.MAX_SAFE_INTEGER
abbrev pub max_safe_integer : ℕ
max_safe_integer = 9_007_199_254_740_991

abbrev pub is_safe : ℤ → Bool
is_safe (pos n) = leb n max_safe_integer
is_safe (negsuc n) = false

abbrev pub to_ℕ : ℤ → ℕ
to_ℕ (pos n) = n
to_ℕ (negsuc n) = 0

unfoldable pub assert_non_negative_integer : ℤ → Result RangeError ℕ
assert_non_negative_integer v = if is_safe v then ok (to_ℕ v) else err not_a_safe_integer

-- Math.ceil(… / 1_000_000)
abbrev pub ceil_cost : ℕ → ℕ → ℕ → ℕ → ℕ
ceil_cost p c pin pout = (p * pin + c * pout + 999_999) / 1_000_000

unfoldable pub estimate_cost_micros : ℤ → ℤ → ℤ → ℤ → Result RangeError ℕ
unfolding assert_non_negative_integer
estimate_cost_micros prompt completion price_in price_out = do
  p ← assert_non_negative_integer prompt
  c ← assert_non_negative_integer completion
  pin ← assert_non_negative_integer price_in
  pout ← assert_non_negative_integer price_out
  ok (ceil_cost p c pin pout)

pub record QuotaFinalizeDelta : Type 0 where
  pub delta_tokens : ℤ
  pub reserved_delta : ℤ

unfoldable pub finalize_quota_delta : ℤ → ℤ → Result RangeError QuotaFinalizeDelta
finalize_quota_delta reserved actual = do
  throw_if (ltb_ℤ reserved (pos 0)) negative_tokens
  throw_if (ltb_ℤ actual (pos 0)) negative_tokens
  ok (record { delta_tokens = actual; reserved_delta = pos 0 -ℤ reserved })

unfoldable pub release_quota_reservation : ℤ → Result RangeError QuotaFinalizeDelta
unfolding finalize_quota_delta
release_quota_reservation reserved = finalize_quota_delta reserved (pos 0)

-- BigInt(Math.max(0, Math.round((prompt * in + completion * out) / 100)))
unfoldable pub compute_cost_micros : ℕ → ℕ → ℕ → ℕ → ℕ
compute_cost_micros prompt completion price_in price_out =
    (prompt * price_in + completion * price_out + 5_000) / 10_000

pub record UsageLine : Type 0 where
  pub prompt_tokens : ℕ
  pub completion_tokens : ℕ
  pub price_per_mtok_in : ℕ
  pub price_per_mtok_out : ℕ

-- The sum of the lines, in units of a hundred-millionth of a cent.
unfoldable pub usage_amount : List UsageLine → ℕ
usage_amount [] = 0
usage_amount (e ∷ es) =
    e.prompt_tokens * e.price_per_mtok_in
    + e.completion_tokens * e.price_per_mtok_out
    + usage_amount es

unfoldable pub calculate_usage_cents : List UsageLine → ℕ
calculate_usage_cents lines = (usage_amount lines + 50_000_000) / 100_000_000

-- The estimate, where it is given, is the least number of micros that covers the price of the
-- tokens.
pub estimate_cost_micros-covers :
    (prompt completion price_in price_out : ℤ) (cost : ℕ)
    → estimate_cost_micros prompt completion price_in price_out ≡ ok cost
    → (to_ℕ prompt * to_ℕ price_in + to_ℕ completion * to_ℕ price_out ≤ cost * 1_000_000)
      × (cost * 1_000_000
          < to_ℕ prompt * to_ℕ price_in + to_ℕ completion * to_ℕ price_out + 1_000_000)
unfolding estimate_cost_micros
estimate_cost_micros-covers prompt completion price_in price_out cost h = ground arith

pub usage_amount-append :
    (xs ys : List UsageLine) → usage_amount (xs ++ ys) ≡ usage_amount xs + usage_amount ys
unfolding usage_amount
usage_amount-append [] ys = omega arith
usage_amount-append (x ∷ xs) ys = omega (arith, usage_amount-append xs ys)

-- Rounding once for all lines and rounding each part apart differ by at most one cent.
pub calculate_usage_cents-append :
    (xs ys : List UsageLine)
    → (calculate_usage_cents (xs ++ ys) ≤ calculate_usage_cents xs + calculate_usage_cents ys + 1)
      × (calculate_usage_cents xs + calculate_usage_cents ys ≤ calculate_usage_cents (xs ++ ys) + 1)
unfolding calculate_usage_cents
calculate_usage_cents-append xs ys = omega (arith, usage_amount-append xs ys)

-- What computeCostMicros records for a request, in micros of which a cent has 10,000, is within half
-- a micro of what calculateUsageCents adds up for the same tokens.
pub compute_cost_micros-usage_amount :
    (e : UsageLine)
    → let micros =
        compute_cost_micros e.prompt_tokens e.completion_tokens e.price_per_mtok_in
          e.price_per_mtok_out in
      (micros * 10_000 ≤ usage_amount (e ∷ []) + 5_000)
      × (usage_amount (e ∷ []) < micros * 10_000 + 5_000)
unfolding compute_cost_micros usage_amount
compute_cost_micros-usage_amount e = omega arith
