-- ===== src/Corpus.antt =====
-- Markdown text handling: crates/hallouminate-domain/src/corpus and footnotes.rs.
pub mod ClaimMarks
pub mod Section
pub mod Breadcrumbs
pub mod Footnotes
pub mod Snippet
mod Tests
