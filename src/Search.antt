-- ===== src/Search.antt =====
-- The ranking of crates/hallouminate-domain/src/search.rs and the modules under it.
pub mod Types
pub mod Fuse
pub mod Resolve
pub mod Phrase
pub mod Terms
pub mod Structure
pub mod Roots
pub mod Whole
mod Tests
