-- ===== src/Manager.antt =====
-- The model manager of nodes/model_manager_4090.
pub mod Tiering
pub mod Evict
pub mod Stage
mod Tests
pub mod Lifecycle
