-- ===== src/Embedder/Scopes.antt =====
-- nodes/embedder_4070/scopes.py: the memory scopes and the provenance of a row.
pub mod Defs
pub mod Names
pub mod Access
pub mod Provenance
