-- ===== src/Registry.antt =====
-- core/family.py: the family registry.
pub mod Types
pub mod Load
mod Ids
mod Laws
mod Tests
