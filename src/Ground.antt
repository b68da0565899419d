-- ===== src/Ground.antt =====
-- The answer to a query: crates/hallouminate-domain/src/ground/bucket.rs, orchestrate.rs and types.rs.
pub mod Types
pub mod Cut
pub mod Pages
pub mod Bucket
mod Tests
