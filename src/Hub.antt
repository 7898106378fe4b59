-- ===== src/Hub.antt =====
-- The hub of nodes/brainstem_4070: presence, inbox, sessions, tokens and the turn pipeline.
pub mod Auth
pub mod Family
pub mod Sessions
pub mod Turn
pub mod Inbox
mod Samples
mod Tests
pub mod Stm
