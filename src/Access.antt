-- ===== src/Access.antt =====
-- Who may send a request: apps/gateway/src/middleware/auth.ts and quotaCheck.ts.
pub mod Auth
pub mod QuotaCheck
mod Examples
