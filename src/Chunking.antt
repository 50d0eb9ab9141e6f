-- ===== src/Chunking.antt =====
-- How texts are cut into chunks: backend/src/atlasflow/rag/hybrid.py by a sliding window, and
-- backend/src/atlasflow/knowledge/ingestion/chunker.py along the structure of a document.
pub mod Windows
pub mod Tokens
pub mod Structure
pub mod Chunks
pub mod Packing
pub mod Sections
pub mod Linking
mod Tests
