-- ===== src/Limiter.antt =====
-- The rate limiter of apps/gateway/src/middleware/quota.ts.
pub mod Memory
pub mod Counts
pub mod Slots
pub mod Window
pub mod Redis
pub mod Expiry
mod Examples
