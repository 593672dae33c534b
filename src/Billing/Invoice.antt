-- ===== src/Billing/Invoice.antt =====
-- generateInvoice and createPaymentAdapter of packages/billing/src/index.ts, and the adapters of
-- packages/billing/src/adapters.ts and bd-payments.ts. The table of invoices is a list of rows, unique
-- by customer and period; the events of the period are an argument.
use Prim.Native.String.{String, ◌++◌}
use modelforge_ai.Base.{
  ℕ, ◌+◌, ◌/◌, Bool, true, ◌&&◌, Option, none, some, List, [], ◌∷◌, if◌then◌else◌, ltb,
}
use modelforge_ai.Base.Text.{◌==◌, text_eq, nat_eq}
use modelforge_ai.Billing.Cost.{UsageLine, calculate_usage_cents}

pub record Prices : Type 0 where
  pub price_per_mtok_in : ℕ
  pub price_per_mtok_out : ℕ

-- A usage event with its request's cost and pricing version, and its model.
pub record BilledEvent : Type 0 where
  pub prompt_tokens : ℕ
  pub completion_tokens : ℕ
  pub cost_micros : Option ℕ
  pub pricing_version : Option Prices
  pub model : Option Prices

pub data InvoiceStatus : Type 0 where
  draft issued paid : InvoiceStatus

pub record Invoice : Type 0 where
  pub customer_id : String
  pub period_start : ℕ
  pub period_end : ℕ
  pub amount_cents : ℕ
  pub status : InvoiceStatus

-- `micros ? sum + Number(micros / 10_000n) : sum`, from the right.
unfoldable pub amount_from_requests : List BilledEvent → ℕ
amount_from_requests [] = 0
amount_from_requests (e ∷ es) =
    let rest = amount_from_requests es in
    elim e.cost_micros [ none ↦ rest | some micros ↦ micros / 10_000 + rest ]

abbrev pub priced : BilledEvent → Option Prices
priced e = elim e.pricing_version [ some p ↦ some p | none ↦ e.model ]

abbrev pub usage_line : BilledEvent → Prices → UsageLine
usage_line e p = record {
  prompt_tokens = e.prompt_tokens;
  completion_tokens = e.completion_tokens;
  price_per_mtok_in = p.price_per_mtok_in;
  price_per_mtok_out = p.price_per_mtok_out;
}

-- The lines of the events that have prices.
unfoldable pub priced_lines : List BilledEvent → List UsageLine
priced_lines [] = []
priced_lines (e ∷ es) =
    let rest = priced_lines es in elim (priced e) [ none ↦ rest | some p ↦ usage_line e p ∷ rest ]

unfoldable pub invoice_amount : List BilledEvent → ℕ
invoice_amount events =
    let from_requests = amount_from_requests events in
    if ltb 0 from_requests then from_requests else calculate_usage_cents (priced_lines events)

abbrev pub is_invoice_of : String → ℕ → ℕ → Invoice → Bool
is_invoice_of customer start end i =
    i.customer_id == customer && i.period_start == start && i.period_end == end

-- prisma.invoice.upsert
unfoldable pub upsert_invoice : String → ℕ → ℕ → ℕ → List Invoice → List Invoice
upsert_invoice customer start end amount [] =
    record {
      customer_id = customer;
      period_start = start;
      period_end = end;
      amount_cents = amount;
      status = draft;
    }
    ∷ []
upsert_invoice customer start end amount (i ∷ is) =
    let rest = upsert_invoice customer start end amount is in
    if is_invoice_of customer start end i then record i { amount_cents = amount } ∷ is else i ∷ rest

unfoldable pub generate_invoice : String → ℕ → ℕ → List BilledEvent → List Invoice → List Invoice
generate_invoice customer start end events table =
    upsert_invoice customer start end (invoice_amount events) table

pub data Provider : Type 0 where
  stripe bkash nagad mock : Provider

-- `(process.env.BILLING_MODE ?? "mock") === "mock"`
abbrev pub is_mock : Option String → Bool
is_mock none = true
is_mock (some m) = m == "mock"

-- The adapter where payments are not mocked; `has_key` is whether STRIPE_SECRET_KEY is set.
abbrev pub live_adapter : Provider → Bool → Provider
live_adapter mock has_key = mock
live_adapter stripe has_key = if has_key then stripe else mock
live_adapter bkash has_key = bkash
live_adapter nagad has_key = nagad

unfoldable pub create_payment_adapter : Provider → Option String → Bool → Provider
create_payment_adapter preferred mode has_key =
    if is_mock mode then mock else live_adapter preferred has_key

pub record PaymentCheckoutResult : Type 0 where
  pub provider : Provider
  pub checkout_url : String
  pub external_id : String

-- createCheckout of the adapters that make no request; `show` writes an integer and `to_fixed` an
-- amount of cents with two decimals.
module _ (show : ℕ → String) (to_fixed : ℕ → String) where
  unfoldable pub create_checkout : Provider → String → ℕ → Option PaymentCheckoutResult
  create_checkout stripe invoice cents = none
  create_checkout mock invoice cents = some (record {
    provider = mock;
    checkout_url = "https://pay.modelforge.local/mock/" ++ invoice ++ "?amount=" ++ show cents;
    external_id = "mock_" ++ invoice;
  })
  create_checkout bkash invoice cents = some (record {
    provider = bkash;
    checkout_url = "https://pay.modelforge.local/bkash/" ++ invoice ++ "?amount=" ++ to_fixed cents;
    external_id = "bkash_" ++ invoice;
  })
  create_checkout nagad invoice cents = some (record {
    provider = nagad;
    checkout_url = "https://pay.modelforge.local/nagad/" ++ invoice ++ "?amount=" ++ to_fixed cents;
    external_id = "nagad_" ++ invoice;
  })
