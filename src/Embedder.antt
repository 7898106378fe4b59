-- ===== src/Embedder.antt =====
-- The embedder service of nodes/embedder_4070.
pub mod Scopes
pub mod Chunker
pub mod Memory
mod Tests
