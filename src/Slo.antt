-- ===== src/Slo.antt =====
-- Service levels: packages/platform/src/slo.ts and rollupSloWindows of
-- apps/gateway/src/lib/modernJobs.ts.
pub mod Status
pub mod Percentile
pub mod Rollup
pub mod Credits
pub mod Once
mod Examples
