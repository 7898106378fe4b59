-- ===== src/Hub/Family.antt =====
-- nodes/brainstem_4070/family_state.py: presence and the durable inbox.
pub mod State
pub mod Box
pub mod Valid
pub mod Queue
pub mod Presence
pub mod Durable
pub mod Boot
