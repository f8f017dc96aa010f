-- ===== src/Connection.antt =====
-- crates/src/protocol/connection.rs: the connection state machine, over its sessions.
pub mod Defs
pub mod Routing
pub mod Early
pub mod Lifecycle
pub mod Requests
pub mod Calls
pub mod IsValid
pub mod Invariant
pub mod Order
mod Tests
