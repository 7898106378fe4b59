-- ===== src/Client.antt =====
-- clients/cli/nexus_cli.py: the command line client of the hub.
pub mod Settings
pub mod Errors
pub mod Requests
pub mod Calls
pub mod Retry
pub mod Poll
pub mod Run
pub mod Main
pub mod Repl
mod Bounded
mod Exits
mod Legacy
mod Tests
