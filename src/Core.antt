-- ===== src/Core.antt =====
-- The core service of v2.
pub mod State
pub mod Status
pub mod Starting
pub mod Profiles
pub mod Handlers
pub mod Responding
pub mod Invariant
pub mod Requests
pub mod Sticking
pub mod Tunnel
mod Examples
