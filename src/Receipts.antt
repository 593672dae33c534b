-- ===== src/Receipts.antt =====
-- Signed receipts of usage (apps/gateway/src/lib/receipts.ts).
pub mod Issue
pub mod Chain
pub mod Issued
pub mod Ledger
mod Examples
