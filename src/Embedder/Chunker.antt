-- ===== src/Embedder/Chunker.antt =====
-- The chunker of nodes/embedder_4070/chunker.py.
pub mod Split
pub mod Pack
pub mod Lossless
pub mod Bound
pub mod Cover
