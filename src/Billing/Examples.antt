-- ===== src/Billing/Examples.antt =====
-- Costs and invoices of concrete usage.
use modelforge_ai.Base.{ℕ, ◌≡◌, refl, arith, none, some, [], ◌∷◌}
use modelforge_ai.Billing.Cost.{UsageLine, calculate_usage_cents}
use modelforge_ai.Billing.Meter.{UsageEvent}
use modelforge_ai.Billing.Invoice.{BilledEvent, invoice_amount, priced_lines}
use modelforge_ai.Billing.Totals.{invoice_amount-sub_cent}
use modelforge_ai.Billing.Pricing.{PricedModel}

abbrev line : UsageLine
line = record {
  prompt_tokens = 900;
  completion_tokens = 100;
  price_per_mtok_in = 250;
  price_per_mtok_out = 1_000;
}

abbrev chat : UsageEvent
chat = record { model_slug = "llama"; prompt_tokens = 30; completion_tokens = 12 }

abbrev speech : UsageEvent
speech = record { model_slug = "stt:whisper"; prompt_tokens = 250; completion_tokens = 0 }

abbrev billed : ℕ → BilledEvent
billed m = record {
  prompt_tokens = 10;
  completion_tokens = 5;
  cost_micros = some m;
  pricing_version = none;
  model = none;
}

-- The second request costs nine tenths of a cent, and is not charged.
invoice_amount-sub_cent_example :
    (invoice_amount (billed 25_000 ∷ billed 9_000 ∷ []) ≡ 2)
    × (invoice_amount (billed 9_000 ∷ [])
        ≡ calculate_usage_cents (priced_lines (billed 9_000 ∷ [])))
invoice_amount-sub_cent_example =
    invoice_amount-sub_cent (billed 25_000) (billed 9_000 ∷ []) 25_000 (omega arith, tt) refl
      (omega arith)

abbrev small_model : PricedModel
small_model = record { id = "small"; price_per_mtok_in = 10; price_per_mtok_out = 20 }
