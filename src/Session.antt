-- ===== src/Session.antt =====
-- crates/src/protocol/session.rs: the session state machine. A method returns the new session and
-- its effects; a map of streams is an association list, a set a list.
pub mod Defs
pub mod Credit
pub mod Streams
pub mod Close
pub mod Datagrams
pub mod Flow
pub mod Peer
pub mod Capsules
pub mod Open
pub mod Calls
pub mod IsValid
pub mod Invariant
pub mod Emptied
pub mod Ended
pub mod Answers
pub mod Over
pub mod Replay
pub mod Lifecycle
mod Tests
