-- ===== src/Hub/Inbox.antt =====
-- The inbox drain, the briefing and the member endpoints of nodes/brainstem_4070/server.py.
pub mod Briefing
pub mod Drain
pub mod Endpoints
pub mod Relay
pub mod Order
pub mod Numbering
pub mod Chat
pub mod Reach
pub mod Privacy
pub mod Complete
mod Tests
