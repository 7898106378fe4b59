-- ===== src/Manager/Lifecycle.antt =====
-- nodes/model_manager_4090/manager.py and server.py: loading and unloading members.
pub mod Command
pub mod Wait
pub mod Load
pub mod Endpoints
mod Presence
mod Sound
mod Tests
