-- ===== src/Voice.antt =====
-- Transcripts of speech with speakers (apps/gateway/src/lib/voice).
pub mod Turns
pub mod Sorted
pub mod Coalesced
pub mod Segments
pub mod Speakers
pub mod Nearest
pub mod Words
pub mod Slices
pub mod Covering
pub mod Normalize
pub mod Timestamps
pub mod Workers
pub mod Slots
pub mod Schedules
pub mod Ending
pub mod Diarize
pub mod Collapsed
pub mod Transcribe
pub mod Labels
pub mod Outcome
pub mod Public
pub mod Install
pub mod Installing
mod Jobs
mod Examples
