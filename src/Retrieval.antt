-- ===== src/Retrieval.antt =====
-- Retrieval of a customer's knowledge: the chunks of documents, their search, and what a search may give.
pub mod Knowledge
pub mod Search
pub mod Kept
pub mod Isolation
pub mod Chunking
pub mod Pieces
mod Examples
