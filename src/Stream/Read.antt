-- ===== src/Stream/Read.antt =====
-- protocol/stream.rs: `read` and `recv_data`.
use pywebtransport.Base.{
  ℕ, Bool, true, false, not, Option, none, some, List, [], ◌∷◌, ◌++◌, ltb, if◌then◌else◌, is_empty,
}
use pywebtransport.Common.{Bytes, text, RequestId, StreamReceiveState}
use pywebtransport.Events.{Effect, notify_request_done, receive_quic_data, read_data}
use pywebtransport.Stream.Defs.{Stream, PendingRead, stream_failure, validate_invalid}

-- Queue the request; the first in the queue asks the transport for data.
unfoldable pub queue_read : Stream → RequestId → ℕ → Stream × List Effect
queue_read s request_id max_size = (
  record s {
    pending_read_requests =
        s.pending_read_requests ++ record { request_id = request_id; max_size = max_size } ∷ [];
  },
  if is_empty s.pending_read_requests then receive_quic_data s.id max_size ∷ [] else [],
)

abbrev read_nothing : RequestId → List Effect
read_nothing request_id = notify_request_done request_id (read_data []) ∷ []

-- The `match` on the receive state.
unfoldable pub read_state :
    Stream → Option StreamReceiveState → RequestId → ℕ → Stream × List Effect
unfolding queue_read
read_state s none request_id max_size = (s, validate_invalid request_id ∷ [])
read_state s (some StreamReceiveState.receive) request_id max_size =
    if ltb 0 max_size then queue_read s request_id max_size else (s, read_nothing request_id)
read_state s (some StreamReceiveState.data_read) request_id max_size = (s, read_nothing request_id)
read_state s (some StreamReceiveState.data_received) request_id max_size = (
  record s {
    receive_state = if ltb 0 max_size then some StreamReceiveState.data_read else s.receive_state;
  },
  read_nothing request_id,
)
read_state s (some StreamReceiveState.reset_read) request_id max_size =
    (s, stream_failure request_id s.receive_error_code (text "wt_stream validate failed") ∷ [])

unfoldable pub read : Stream → RequestId → ℕ → Stream × List Effect
unfolding read_state
read s request_id max_size = read_state s s.receive_state request_id max_size

-- The answer of no data to each waiting request: the `while let` loops over the queue.
abbrev pub finish_reads : List PendingRead → List Effect
finish_reads [] = []
finish_reads (r ∷ rest) = notify_request_done r.request_id (read_data []) ∷ finish_reads rest

-- The next waiting request asks the transport for data.
abbrev pub next_read : Stream → List PendingRead → List Effect
next_read s [] = []
next_read s (r ∷ rest) = receive_quic_data s.id r.max_size ∷ []

-- The state after the end of the stream. `is_end_delivered`: the first request got no data, so it
-- has seen the end; `is_waiting`: further requests wait, and they see it.
abbrev pub ended_state : Bool → Bool → StreamReceiveState
ended_state true is_waiting = StreamReceiveState.data_read
ended_state false true = StreamReceiveState.data_read
ended_state false false = StreamReceiveState.data_received

-- The rest of `recv_data` once the first request has been served.
unfoldable pub recv_rest : Stream → List PendingRead → Bool → Bool → Stream × List Effect
recv_rest s rest true is_end_delivered = (
  record s {
    pending_read_requests = [];
    receive_state = some (ended_state is_end_delivered (not (is_empty rest)));
  },
  finish_reads rest,
)
recv_rest s rest false is_end_delivered =
    (record s { pending_read_requests = rest }, next_read s rest)

unfoldable pub recv_pending : Stream → List PendingRead → Bytes → Bool → Stream × List Effect
unfolding recv_rest
recv_pending s [] data' end_stream = recv_rest s [] end_stream false
recv_pending s (r ∷ rest) data' end_stream =
    let (s', effects) = recv_rest s rest end_stream (is_empty data') in
    (s', notify_request_done r.request_id (read_data data') ∷ effects)

-- `receive_state == Some(StreamReceiveState::Receive)`.
abbrev pub is_receiving : Option StreamReceiveState → Bool
is_receiving (some StreamReceiveState.receive) = true
is_receiving _ = false

unfoldable pub recv_data : Stream → Bytes → Bool → Stream × List Effect
unfolding recv_pending
recv_data s data' end_stream =
    if is_receiving s.receive_state
    then recv_pending s s.pending_read_requests data' end_stream
    else (s, [])
