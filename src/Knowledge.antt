-- ===== src/Knowledge.antt =====
-- The knowledge that answers are grounded on: documents and their chunks.
pub mod Visible
pub mod Paragraphs
pub mod Cuts
pub mod Gaps
pub mod Sections
pub mod Headings
pub mod Chunking
pub mod Outline
pub mod Identities
pub mod Chunks
mod Tests
