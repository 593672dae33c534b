-- ===== src/Trace.antt =====
-- Captures of single requests (apps/gateway/src/lib/coreTrace.ts).
pub mod Sessions
pub mod Recorder
pub mod Claims
pub mod Armed
pub mod Once
pub mod Log
mod Examples
