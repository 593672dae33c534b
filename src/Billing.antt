-- ===== src/Billing.antt =====
-- Prices, usage and invoices: packages/platform/src/{ledger,metering}.ts, packages/billing/src and
-- apps/gateway/src/lib/pricing.ts.
pub mod Cost
pub mod Meter
pub mod Invoice
pub mod Totals
pub mod Pricing
mod Examples
