-- ===== src/Signing.antt =====
-- Canonical JSON and signatures: packages/platform/src/canonical.ts and signing.ts.
pub mod Canonical
pub mod Reorder
pub mod Provider
pub mod Replay
mod Examples
