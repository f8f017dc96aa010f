-- ===== src/Utils.antt =====
-- crates/src/protocol/utils.rs.
pub mod ErrorCodes
pub mod StreamIds
pub mod Varint
pub mod Headers
pub mod Protocols
pub mod Fields
mod Tests
