-- ===== src/Stream/Delivery.antt =====
-- protocol/stream.rs: which waiting read gets which bytes when data arrives.
use pywebtransport.Base.{
  ℕ, ◌≡◌, refl, ap, Bool, true, false, some, List, [], ◌∷◌, arith, if◌then◌else◌, drop,
}
use pywebtransport.Common.{Bytes, RequestId, StreamReceiveState}
use pywebtransport.Events.{Effect, notify_request_done, receive_quic_data, read_data}
use pywebtransport.Stream.Defs.{Stream, PendingRead}
use pywebtransport.Stream.Read.{recv_data, recv_pending, recv_rest, finish_reads}

-- The reads that effects answer, with the bytes that they get.
abbrev pub delivered : List Effect → List (RequestId × Bytes)
delivered [] = []
delivered (notify_request_done id (read_data bytes) ∷ es) = (id, bytes) ∷ delivered es
delivered (_ ∷ es) = delivered es

-- The data that effects ask the transport for.
abbrev pub asked : List Effect → List ℕ
asked [] = []
asked (receive_quic_data id size ∷ es) = size ∷ asked es
asked (_ ∷ es) = asked es

-- Reads that get no bytes: they see the end of the stream.
abbrev pub at_end : List PendingRead → List (RequestId × Bytes)
at_end [] = []
at_end (r ∷ rest) = (r.request_id, []) ∷ at_end rest

-- What the waiting reads are due: the longest waiting one gets all the data, and at the end of the
-- stream the others see the end.
abbrev pub due : List PendingRead → Bytes → Bool → List (RequestId × Bytes)
due [] bytes end_stream = []
due (r ∷ rest) bytes end_stream = (r.request_id, bytes) ∷ (if end_stream then at_end rest else [])

-- Whether a read got no bytes.
abbrev pub sees_end : List (RequestId × Bytes) → Bool
sees_end [] = false
sees_end ((id, []) ∷ rest) = true
sees_end ((id, b ∷ bytes) ∷ rest) = sees_end rest

-- The largest size of the first of the reads.
abbrev pub first_size : List PendingRead → List ℕ
first_size [] = []
first_size (r ∷ rest) = r.max_size ∷ []

-- The state once the stream has ended: that of a stream that is read to its end if a read saw it.
abbrev pub state_after : Bool → Bool → StreamReceiveState
state_after false seen = StreamReceiveState.receive
state_after true true = StreamReceiveState.data_read
state_after true false = StreamReceiveState.data_received

delivered-finish_reads : (rs : List PendingRead) → delivered (finish_reads rs) ≡ at_end rs
delivered-finish_reads [] = refl
delivered-finish_reads (r ∷ rs) = ap (◌∷◌ (r.request_id, [])) (delivered-finish_reads rs)

asked-finish_reads : (rs : List PendingRead) → asked (finish_reads rs) ≡ []
asked-finish_reads [] = refl
asked-finish_reads (r ∷ rs) = asked-finish_reads rs

-- Data that arrives in a stream that receives.
pub record Delivers (s : Stream) (bytes : Bytes) (end_stream : Bool) (r : Stream × List Effect)
    : Type 0 where
  pub reads_served : delivered r.1 ≡ due s.pending_read_requests bytes end_stream
  pub reads_left :
      r.0.pending_read_requests ≡ (if end_stream then [] else drop 1 s.pending_read_requests)
  pub next_asked : asked r.1 ≡ first_size r.0.pending_read_requests
  pub state : r.0.receive_state ≡ some (state_after end_stream (sees_end (delivered r.1)))
  pub same_request : r.0.pending_write_request ≡ s.pending_write_request
  pub same_buffer : r.0.write_buffer ≡ s.write_buffer
  pub same_size : r.0.write_buffer_size ≡ s.write_buffer_size
  pub same_send_state : r.0.send_state ≡ s.send_state

pending-Delivers :
    (s : Stream) (rs : List PendingRead) (bytes : Bytes) (end_stream : Bool)
    → s.pending_read_requests ≡ rs
    → s.receive_state ≡ some StreamReceiveState.receive
    → Delivers s bytes end_stream (recv_pending s rs bytes end_stream)
unfolding recv_pending recv_rest
pending-Delivers s [] bytes true p e = ground arith
pending-Delivers s [] bytes false p e = ground arith
pending-Delivers s (r ∷ []) bytes false p e = ground arith
pending-Delivers s (r ∷ q ∷ rest) bytes false p e = ground arith
pending-Delivers s (r ∷ []) [] true p e = ground arith
pending-Delivers s (r ∷ []) (b ∷ bytes) true p e = ground arith
pending-Delivers s (r ∷ q ∷ rest) [] true p e =
    ground (arith, delivered-finish_reads rest, asked-finish_reads rest)
pending-Delivers s (r ∷ q ∷ rest) (b ∷ bytes) true p e =
    ground (arith, delivered-finish_reads rest, asked-finish_reads rest)

-- Data that arrives in a stream that receives goes, all of it, to the longest waiting read, and to none
-- where none waits. Only at the end of the stream are the other reads answered, without data; else they
-- wait on, and the next of them asks the transport for as much as it may take. The stream goes on
-- receiving until its end; then it is read to the end if a read got no data, and otherwise received.
-- The write side stays as it was.
pub recv_data-Delivers :
    (s : Stream) (bytes : Bytes) (end_stream : Bool)
    → s.receive_state ≡ some StreamReceiveState.receive
    → Delivers s bytes end_stream (recv_data s bytes end_stream)
unfolding recv_data
recv_data-Delivers s bytes end_stream e =
    simp (e) (pending-Delivers s s.pending_read_requests bytes end_stream refl e)
