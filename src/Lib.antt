-- ===== src/Lib.antt =====
-- The protocol core of pywebtransport, the sans-IO state machines of WebTransport over HTTP/3.
--
-- The core is a tower of state machines in crates/src/protocol. The engine (engine.rs) turns the
-- events of the transport and the calls of the user into method calls of a connection
-- (connection.rs), which reads and writes HTTP/3 (h3.rs) and keeps sessions (session.rs), which keep
-- streams (stream.rs). A method changes the state of its object and returns a list of effects
-- (events.rs): what to send, what to tell the user, and which request to answer. Nothing waits: a
-- request that cannot be served now is queued in the state, and a later call answers it.
--
-- The files, with the code that they model:
--   Base       lists, 64-bit words, bits, maps, UTF-8 boundaries: what Rust's library does for the
--              code.
--   Common     crates/src/common/types.rs and constants.rs: identifiers, enumerations, codes.
--   Events     crates/src/protocol/events.rs: `Effect` and `RequestResult`, the records of diagnostics
--              (Events.Diagnostics) that stream.rs, session.rs and connection.rs declare, and
--              `ProtocolEvent` (Events.Protocol) with the settings of h3.rs.
--   Utils      crates/src/protocol/utils.rs: ErrorCodes (`webtransport_code_to_http_code` and back),
--              StreamIds, Varint, Headers (`is_valid_header`, `combine_header`), Protocols
--              (`encode_wt_protocol_list`), Fields (`parse_wt_protocol_list` and what it reads).
--   Stream     crates/src/protocol/stream.rs: Defs has the struct `Stream`, `new` and the queries;
--              Write, Read and Reset the methods; Calls all methods as one step function. Invariant,
--              Order, Requests and Delivery are about single calls, History, Answers and Lifecycle about
--              histories of calls as well.
--   Session    crates/src/protocol/session.rs: Defs has the struct `Session`; Credit, Streams, Close,
--              Datagrams, Flow, Peer, Capsules and Open the methods; Calls all methods that
--              connection.rs calls as one step function. IsValid and Invariant are about the flow
--              control, Emptied, Ended, Answers and Over about the end of a session, Replay about its
--              start, Lifecycle about its states.
--   Connection crates/src/protocol/connection.rs: Defs has the struct `Connection`; Routing the methods
--              that hand a call to one session, Early the buffer of early events, Lifecycle the
--              settings, the handshake and the end, Requests the requests for sessions and
--              `recv_headers`; Calls all methods that engine.rs calls as one step function. IsValid and
--              Invariant are about the early events, the limit on sessions and the sessions in it,
--              Order about its states.
--   H3         crates/src/protocol/h3.rs: Frames has the encoders and `recv_datagram`, Capsules
--              `parse_capsules`, Settings `encode_settings`, `parse_settings` and `validate_settings`,
--              Headers the validation of requests and responses. `Outcome` is the `Result` of h3.rs,
--              with the errors of crates/src/common/error.rs (Common.Errors).
--
-- How the code is read:
--   * A method `&mut self -> Vec<Effect>` is a function from a state to a state and a list of effects;
--     where it also returns the number of bytes sent, the result is a triple. A definition has the
--     name of its Rust function; a part of a long function is a definition of its own, and the
--     comment above it says which part.
--   * `u64` and `usize` are natural numbers with the arithmetic of a release build: `+=` is `add64`,
--     which wraps at 2 ^ 64, `-=` is `sub64`, and the saturating operations are those of Base.Word. A
--     length fits a word.
--   * An `f64` is a time stamp that the code stores; it is the number of its bit pattern. The one
--     comparison, `now - timestamp < ttl` in `prune_early_events`, is the parameter `is_fresh`.
--   * `String` and `Bytes` are lists of bytes. A text is its UTF-8 encoding; `is_utf8` is the test of
--     `str::from_utf8`.
--   * `FxHashMap` is an association list that holds a key once, `FxHashSet` a list. The order of a
--     map's keys is never seen: `abort_streams` sorts them, as the code does.
--   * Log output has no definition.
--
-- Loops. `while let Some(..) = queue.pop_front()` is recursion on the queue where the body leaves the
-- queue alone. `flush_rounds` runs as many rounds as the queue was long at first, as the source's
-- `for _ in 0..count` does. `replay_capsules` has the length of the queue as fuel; each round takes
-- a capsule from the queue, and a capsule received in a connected session is not put back, so that
-- the rounds suffice. `discard_rounds` and `parse_items` have as many rounds as bytes are left: each
-- round takes a byte at least. So does `parse_capsules`. `parse_settings` has one round for each of the
-- 64 entries that it takes.
--
-- What a caller owes: connection.rs calls `defer_stream` only for a stream that the session has
-- counted as opened, and a count of zero would wrap there; `Owes` states it. The length of a write is
-- below 2 ^ 64, as the length of any Rust buffer is. h3.rs hands the settings of the peer to a connection
-- once, and they are 64-bit numbers.
--
-- Not modelled: the state of `H3` in h3.rs and its methods on streams; engine.rs; qpack.rs and the
-- vendored ls-qpack that it binds; the transport, runtime, tls and ffi folders, which drive
-- quinn-proto, tokio and Python; the Python package in src.
pub mod Base
pub mod Common
pub mod Events
pub mod Utils
pub mod Stream
pub mod Session
pub mod Connection
pub mod H3
