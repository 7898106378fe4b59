-- ===== src/Hub/Auth.antt =====
-- nodes/brainstem_4070/auth.py: the bearer tokens.
pub mod Token
pub mod Store
pub mod Laws
pub mod Visits
pub mod Lifecycle
pub mod Minted
pub mod Creation
mod Tests
