-- ===== src/Stream/Calls.antt =====
-- protocol/stream.rs: the calls that `Session` makes of a stream, as one step function, and what
-- the proofs observe of a stream and of its effects.
use pywebtransport.Base.{
  ℕ, ◌+◌, ◌<◌, ◌^◌, Bool, not, ◌&&◌, Option, none, some, List, [], ◌∷◌, ◌++◌, leb, if◌then◌else◌,
  length,
}
use pywebtransport.Common.{Bytes, ErrorCode, RequestId}
use pywebtransport.Events.{Effect, send_quic_data}
use pywebtransport.Stream.Defs.{Stream, PendingRead, PendingWrite, is_ready, diagnose}
use pywebtransport.Stream.Write.{
  flush_writes, complete_write, write, handle_data_acknowledged, is_finish_pending,
  is_front_request,
}
use pywebtransport.Stream.Read.{read, recv_data}
use pywebtransport.Stream.Reset.{abort, reset, stop, recv_reset, recv_stop_sending}

pub data Call : Type 0 where
  aborts : ErrorCode → Call
  completes_write : ℕ → Call
  diagnoses : RequestId → Call
  flushes_writes : ℕ → Call
  acknowledges : Call
  reads : RequestId → ℕ → Call
  receives : Bytes → Bool → Call
  receives_reset : ErrorCode → Call
  receives_stop : ErrorCode → Call
  resets : RequestId → ErrorCode → Call
  stops : RequestId → ErrorCode → Call
  writes : RequestId → Bytes → Bool → ℕ → Call

unfoldable pub step : Stream → Call → Stream × List Effect
step s (aborts error_code) = abort s error_code
step s (completes_write credit) = let (s', effects, sent) = complete_write s credit in (s', effects)
step s (diagnoses request_id) = (s, diagnose s request_id)
step s (flushes_writes credit) = let (s', effects, sent) = flush_writes s credit in (s', effects)
step s acknowledges = (handle_data_acknowledged s, [])
step s (reads request_id max_size) = read s request_id max_size
step s (receives bytes end_stream) = recv_data s bytes end_stream
step s (receives_reset error_code) = recv_reset s error_code
step s (receives_stop error_code) = recv_stop_sending s error_code
step s (resets request_id error_code) = reset s request_id error_code
step s (stops request_id error_code) = stop s request_id error_code
step s (writes request_id bytes end_stream credit) =
    let (s', effects, sent) = write s request_id bytes end_stream credit in (s', effects)

unfoldable pub run : Stream → List Call → Stream × List Effect
run s [] = (s, [])
run s (c ∷ cs) =
    let (s', effects) = step s c in let (s'', later) = run s' cs in (s'', effects ++ later)

-- The bytes that wait in the buffer, and their number.
abbrev pub pending_bytes : List PendingWrite → Bytes
pending_bytes [] = []
pending_bytes (w ∷ rest) = w.bytes ++ pending_bytes rest

abbrev pub buffered : List PendingWrite → ℕ
buffered [] = 0
buffered (w ∷ rest) = length w.bytes + buffered rest

-- The stream bytes that the effects hand to the transport.
abbrev pub sent_bytes : List Effect → Bytes
sent_bytes [] = []
sent_bytes (send_quic_data id bytes end_stream ∷ es) = bytes ++ sent_bytes es
sent_bytes (_ ∷ es) = sent_bytes es

abbrev pub read_ids : List PendingRead → List RequestId
read_ids [] = []
read_ids (r ∷ rest) = r.request_id ∷ read_ids rest

abbrev pub write_ids : List PendingWrite → List RequestId
write_ids [] = []
write_ids (w ∷ rest) = w.request_id ∷ write_ids rest

-- The write request in flight, unless the rest of its bytes still stands at the front.
abbrev pub in_flight : Option RequestId → List PendingWrite → List RequestId
in_flight none buffer = []
in_flight (some id) buffer = if is_front_request buffer id then [] else id ∷ []

-- The write requests that have no answer yet.
abbrev pub open_writes : Stream → List RequestId
open_writes s = in_flight s.pending_write_request s.write_buffer ++ write_ids s.write_buffer

-- The data of a write that the stream takes.
abbrev pub accepts : Stream → Bytes → Bool
accepts s bytes =
    is_ready s.send_state
    && not (is_finish_pending s.write_buffer)
    && leb (buffered s.write_buffer + length bytes) s.max_write_buffer_size

abbrev pub accepted_bytes : Stream → Call → Bytes
accepted_bytes s (writes id bytes end_stream credit) = if accepts s bytes then bytes else []
accepted_bytes s _ = []

-- A write has room for its length in the 64-bit counter.
abbrev pub Fits : Stream → Call → Type 0
Fits s (writes id bytes end_stream credit) = s.max_write_buffer_size + length bytes < 2 ^ 64
Fits s _ = Unit {0}
