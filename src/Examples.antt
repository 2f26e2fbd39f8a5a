-- ===== src/Examples.antt =====
-- Runs at concrete inputs.
pub mod Stores
pub mod Logs
pub mod Messages
pub mod Nodes
pub mod Connections
pub mod Histories
pub mod Commands
pub mod Followers
