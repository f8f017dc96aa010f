-- ===== src/Session/Invariant.antt =====
-- protocol/session.rs: what holds of a session between two calls: neither side exceeds the credit
-- that the other gave, and every queue of a session that is not ready stays within its limit.
pub mod Helpers
pub mod Flow
pub mod Ends
pub mod Peer
pub mod Capsules
pub mod Open
pub mod Steps
