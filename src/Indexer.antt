-- ===== src/Indexer.antt =====
-- The indexer: crates/hallouminate-domain/src/indexer.
pub mod Types
pub mod Plan
pub mod ContentKey
pub mod Format
pub mod Writer
pub mod Stats
pub mod Run
pub mod Requests
pub mod Steps
pub mod Triples
pub mod Apply
mod Tests
mod PassTests
