-- ===== src/Stream.antt =====
-- crates/src/protocol/stream.rs: the stream state machine. A method returns the new stream and its
-- effects, `complete_write`, `flush_writes` and `write` also the number of bytes sent.
-- The methods that write stand in Write, those that read in Read, those that end a half in Reset.
pub mod Defs
pub mod Write
pub mod Read
pub mod Reset
pub mod Calls
pub mod Invariant
pub mod Order
pub mod Lifecycle
pub mod History
pub mod Requests
pub mod Delivery
pub mod Answers
mod Tests
