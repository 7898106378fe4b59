-- ===== src/Embedder/Memory.antt =====
-- nodes/embedder_4070/server.py and chroma_store.py: the memory store and its endpoints.
pub mod Chroma
pub mod Requests
pub mod Endpoints
pub mod Log
pub mod Provenanced
pub mod Steps
pub mod Refine
pub mod Visible
pub mod Stored
pub mod Timeline
pub mod Promote
mod Shelf
mod Tests
