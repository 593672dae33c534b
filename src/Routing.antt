-- ===== src/Routing.antt =====
-- Model routing: packages/platform/src/policy.ts and apps/gateway/src/lib/policyRouter.ts.
pub mod Policy
pub mod Eligible
pub mod Best
pub mod Outcomes
pub mod Router
pub mod Entitled
mod Examples
