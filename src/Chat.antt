-- ===== src/Chat.antt =====
-- A chat request of the gateway: its messages, its limits and its errors.
pub mod Messages
pub mod Coalesce
pub mod Errors
pub mod Replies
pub mod Limits
pub mod Settlement
pub mod Charged
pub mod Answer
pub mod Metered
pub mod Twice
mod Examples
mod Cases
