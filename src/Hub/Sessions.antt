-- ===== src/Hub/Sessions.antt =====
-- nodes/brainstem_4070/sessions.py: one persistent session for each (person, member) pair.
pub mod Store
pub mod Keys
pub mod Laws
pub mod Reuse
