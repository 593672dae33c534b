-- ===== src/Requests.antt =====
-- The records of inference requests: apps/gateway/src/lib/execution.ts.
pub mod Execution
pub mod Final
pub mod Lifecycle
mod Examples
