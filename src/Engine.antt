-- ===== src/Engine.antt =====
-- The engine of apps/gateway/src/engine/llamaServer.ts: one server process for each loaded model.
pub mod Instances
pub mod Removal
mod LeastRecent
mod Stopping
pub mod Eviction
pub mod Keeping
pub mod Loading
pub mod Sound
pub mod Reach
pub mod Overlap
pub mod Stream
pub mod Boundaries
pub mod Available
mod Examples
