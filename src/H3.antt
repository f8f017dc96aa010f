-- ===== src/H3.antt =====
-- crates/src/protocol/h3.rs: the parts of HTTP/3 framing that keep no state.
pub mod Outcome
pub mod Frames
pub mod Capsules
pub mod Settings
pub mod Headers
mod Tests
