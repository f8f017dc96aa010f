-- ===== src/Connection/Invariant.antt =====
-- protocol/connection.rs: every call keeps a connection valid, where the caller does what it owes.
pub mod Routing
pub mod Early
pub mod Prune
pub mod Lifecycle
pub mod Requests
pub mod Headers
pub mod Steps
