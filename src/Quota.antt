-- ===== src/Quota.antt =====
-- The quota ledger of apps/gateway/src/lib/quotaLedger.ts: its tables, its operations and its laws.
pub mod Tables
pub mod Operations
pub mod Post
pub mod Balance
pub mod Runs
pub mod Keys
pub mod Amounts
pub mod Usage
pub mod Cycle
mod Examples
