-- ===== src/Protocol.antt =====
-- The wire protocol (protocol/).
pub mod Errors
pub mod Opcodes
pub mod Kv
pub mod Client
pub mod Cluster
pub mod Message
pub mod Frame
