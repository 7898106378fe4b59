-- ===== src/Hub/Turn.antt =====
-- The turn pipeline of nodes/brainstem_4070/server.py.
pub mod Types
pub mod Context
pub mod Down
pub mod Pipeline
pub mod Counter
pub mod Effects
