-- ===== src/Config.antt =====
-- The configuration builder.
pub mod Text
pub mod Rules
pub mod Options
pub mod Tags
pub mod Sing
pub mod Warp
pub mod Inbounds
pub mod Patch
pub mod Collect
pub mod Build
pub mod Commander
pub mod Parser
pub mod Outbounds
pub mod Routing
pub mod Dns
mod Examples
pub mod Runs
pub mod Trials
