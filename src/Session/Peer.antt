-- ===== src/Session/Peer.antt =====
-- protocol/session.rs: what the transport and the user do to single streams: `bind_stream`,
-- `handle_stream_opened`, `handle_stream_data_acknowledged`, `diagnose_stream`, `read_stream`,
-- `reset_stream`, `stop_stream`, `recv_stream_data`, `recv_stream_reset`, `recv_stop_sending`.
use pywebtransport.Base.{
  ℕ, Bool, true, false, not, ◌&&◌, Option, none, some, List, [], ◌∷◌, ◌++◌, ltb, leb, if◌then◌else◌,
  length, option_list,
}
use pywebtransport.Base.Maps.{lookup, insert}
use pywebtransport.Base.Word.{add64}
use pywebtransport.Common.{
  Bytes, F64, text, ErrorCode, EventType, RequestId, StreamId, StreamDirection,
}
use pywebtransport.Common.Constants.{
  err_wt_buffered_stream_rejected, err_wt_flow_control_error, err_wt_session_gone,
}
use pywebtransport.Events.{
  Effect, emit_stream_event, notify_request_done, reset_quic_stream, stop_quic_stream, nothing,
  stream_id,
}
use pywebtransport.Session.Close.{abort}
use pywebtransport.Session.Credit.{replenish_data_credit, replenish_streams_credit}
use pywebtransport.Session.Defs.{Session, is_open, is_connecting, state_failure, resolve_failure}
use pywebtransport.Session.Streams.{handle_closed, suppress_pending_stream_events}
use pywebtransport.Stream.Defs.{Stream}
use pywebtransport.Stream.Defs
use pywebtransport.Stream.Read
use pywebtransport.Stream.Reset
use pywebtransport.Stream.Write.{handle_data_acknowledged}
use pywebtransport.Utils.StreamIds.{stream_direction_from_id}

abbrev pub is_bidirectional : StreamDirection → Bool
is_bidirectional StreamDirection.bidirectional = true
is_bidirectional _ = false

abbrev pub opened_event : Session → StreamId → StreamDirection → Bool → Effect
opened_event s id direction is_peer_initiated = emit_stream_event (record {
  stream_id = id;
  event_type = EventType.stream_opened;
  session_id = some s.id;
  direction = some direction;
  is_peer_initiated = some is_peer_initiated;
  error_code = none;
})

abbrev pub add_stream : Session → StreamId → StreamDirection → Bool → F64 → Session
add_stream s id direction is_peer_initiated now = record s {
  streams =
      insert id
        (Defs.new id s.id direction is_peer_initiated
          (record { max_write_buffer_size = s.max_write_buffer_size }) now)
        s.streams;
}

-- The effects that refuse a stream of the peer, with a code.
abbrev pub refuse_peer : StreamId → StreamDirection → ErrorCode → List Effect
refuse_peer id direction error_code =
    (if is_bidirectional direction then reset_quic_stream id error_code ∷ [] else [])
    ++ stop_quic_stream id error_code ∷ []

unfoldable pub bind_stream : Session → StreamId → RequestId → Bool → F64 → Session × List Effect
bind_stream s id request_id is_unidirectional now =
    let direction =
      if is_unidirectional then StreamDirection.send_only else StreamDirection.bidirectional in
    if not (is_open s.state)
    then (
      s,
      reset_quic_stream id err_wt_session_gone
          ∷ ((if is_unidirectional then [] else stop_quic_stream id err_wt_session_gone ∷ [])
              ++ state_failure request_id ∷ []),
    )
    else (
      add_stream s id direction false now,
      opened_event s id direction false ∷ notify_request_done request_id (stream_id id) ∷ [],
    )

-- A stream of the peer beyond its limit ends the session.
unfoldable pub exceed_limit : Session → StreamId → StreamDirection → F64 → Session × List Effect
exceed_limit s id direction now =
    let (s', effects) =
      abort s err_wt_flow_control_error (text "wt_session validate exceeded") now in
    (s', refuse_peer id direction err_wt_session_gone ++ effects)

-- A rejected stream counts as closed.
unfoldable pub reject_buffered : Session → StreamId → StreamDirection → Session × List Effect
reject_buffered s id direction =
    let (s', effect) =
      if is_bidirectional direction
      then replenish_streams_credit
          (record s { peer_streams_bidi_closed = add64 s.peer_streams_bidi_closed 1 }) false false
      else replenish_streams_credit
          (record s { peer_streams_uni_closed = add64 s.peer_streams_uni_closed 1 }) true false in
    (s', refuse_peer id direction err_wt_buffered_stream_rejected ++ option_list effect)

-- `handle_stream_opened` once the stream has been counted: a session that is not ready yet keeps
-- the stream for later, within a limit.
unfoldable pub accept_peer : Session → StreamId → StreamDirection → F64 → Session × List Effect
unfolding reject_buffered
accept_peer s id direction now =
    if is_connecting s.state
    then if leb s.max_pending_streams (length s.pending_streams)
      then reject_buffered s id direction
      else (
        add_stream (record s { pending_streams = s.pending_streams ++ id ∷ [] }) id direction true
            now,
        [],
      )
    else (add_stream s id direction true now, opened_event s id direction true ∷ [])

-- The `match` on the direction.
unfoldable pub count_peer : Session → StreamId → StreamDirection → F64 → Session × List Effect
unfolding exceed_limit accept_peer
count_peer s id StreamDirection.bidirectional now =
    if s.flow_control_negotiated && leb s.local_max_streams_bidi s.peer_streams_bidi_opened
    then exceed_limit s id StreamDirection.bidirectional now
    else accept_peer (record s { peer_streams_bidi_opened = add64 s.peer_streams_bidi_opened 1 }) id
        StreamDirection.bidirectional now
count_peer s id StreamDirection.receive_only now =
    if s.flow_control_negotiated && leb s.local_max_streams_uni s.peer_streams_uni_opened
    then exceed_limit s id StreamDirection.receive_only now
    else accept_peer (record s { peer_streams_uni_opened = add64 s.peer_streams_uni_opened 1 }) id
        StreamDirection.receive_only now
count_peer s id StreamDirection.send_only now = (s, [])

unfoldable pub handle_stream_opened : Session → StreamId → F64 → Session × List Effect
unfolding count_peer
handle_stream_opened s id now =
    if not (is_open s.state)
    then (s, refuse_peer id (stream_direction_from_id id s.is_client) err_wt_session_gone)
    else count_peer s id (stream_direction_from_id id s.is_client) now

-- Store a stream that a method has changed, and drop it if it is closed now.
unfoldable pub settle : Session → StreamId → Stream × List Effect → Session × List Effect
settle s id (stream, effects) =
    let (s', closed) = handle_closed (record s { streams = insert id stream s.streams }) id in
    (s', effects ++ closed)

-- The same, for a method whose events wait with the stream.
unfoldable pub settle_quietly : Session → StreamId → Stream × List Effect → Session × List Effect
unfolding settle
settle_quietly s id (stream, effects) =
    settle s id (stream, suppress_pending_stream_events s id effects)

unfoldable pub acknowledge_found : Session → StreamId → Option Stream → Session × List Effect
acknowledge_found s id none = (s, [])
acknowledge_found s id (some stream) = settle s id (handle_data_acknowledged stream, [])

unfoldable pub handle_stream_data_acknowledged : Session → StreamId → Session × List Effect
unfolding acknowledge_found
handle_stream_data_acknowledged s id = acknowledge_found s id (lookup id s.streams)

diagnose_found : RequestId → Option Stream → List Effect
diagnose_found request_id none = resolve_failure request_id ∷ []
diagnose_found request_id (some stream) = Defs.diagnose stream request_id

unfoldable pub diagnose_stream : Session → StreamId → RequestId → List Effect
unfolding diagnose_found
diagnose_stream s id request_id = diagnose_found request_id (lookup id s.streams)

unfoldable pub read_found :
    Session → StreamId → RequestId → ℕ → Option Stream → Session × List Effect
read_found s id request_id max_bytes none = (s, resolve_failure request_id ∷ [])
read_found s id request_id max_bytes (some stream) =
    settle s id (Read.read stream request_id max_bytes)

unfoldable pub read_stream : Session → StreamId → RequestId → ℕ → Session × List Effect
unfolding read_found
read_stream s id request_id max_bytes = read_found s id request_id max_bytes (lookup id s.streams)

unfoldable pub reset_found :
    Session → StreamId → RequestId → ErrorCode → Option Stream → Session × List Effect
reset_found s id request_id error_code none = (s, notify_request_done request_id nothing ∷ [])
reset_found s id request_id error_code (some stream) =
    settle s id (Reset.reset stream request_id error_code)

unfoldable pub reset_stream : Session → StreamId → RequestId → ErrorCode → Session × List Effect
unfolding reset_found
reset_stream s id request_id error_code =
    reset_found s id request_id error_code (lookup id s.streams)

unfoldable pub stop_found :
    Session → StreamId → RequestId → ErrorCode → Option Stream → Session × List Effect
stop_found s id request_id error_code none = (s, notify_request_done request_id nothing ∷ [])
stop_found s id request_id error_code (some stream) =
    settle s id (Reset.stop stream request_id error_code)

unfoldable pub stop_stream : Session → StreamId → RequestId → ErrorCode → Session × List Effect
unfolding stop_found
stop_stream s id request_id error_code = stop_found s id request_id error_code (lookup id s.streams)

unfoldable pub reset_received :
    Session → StreamId → ErrorCode → Option Stream → Session × List Effect
reset_received s id error_code none = (s, [])
reset_received s id error_code (some stream) =
    settle_quietly s id (Reset.recv_reset stream error_code)

unfoldable pub recv_stream_reset : Session → StreamId → ErrorCode → Session × List Effect
unfolding reset_received
recv_stream_reset s id error_code = reset_received s id error_code (lookup id s.streams)

unfoldable pub stop_received :
    Session → StreamId → ErrorCode → Option Stream → Session × List Effect
stop_received s id error_code none = (s, [])
stop_received s id error_code (some stream) =
    settle_quietly s id (Reset.recv_stop_sending stream error_code)

unfoldable pub recv_stop_sending : Session → StreamId → ErrorCode → Session × List Effect
unfolding stop_received
recv_stop_sending s id error_code = stop_received s id error_code (lookup id s.streams)

-- Data within the limit: the stream takes it, the peer may get new credit, and a stream at its end
-- is dropped.
unfoldable pub deliver : Session → StreamId → Stream → Bytes → Bool → Session × List Effect
deliver s id stream bytes end_stream =
    let (stream', effects) = Read.recv_data stream bytes end_stream in
    let (s', credit) =
      replenish_data_credit
        (record s {
          streams = insert id stream' s.streams;
          data_consumed = add64 s.data_consumed (length bytes);
        })
        false in
    let (s'', closed) = handle_closed s' id in (s'', (effects ++ option_list credit) ++ closed)

unfoldable pub data_found :
    Session → StreamId → Bytes → Bool → F64 → Option Stream → Session × List Effect
unfolding deliver
data_found s id bytes end_stream now none = (s, [])
data_found s id bytes end_stream now (some stream) =
    let received = record s { data_received = add64 s.data_received (length bytes) } in
    if s.flow_control_negotiated && ltb s.local_max_data received.data_received
    then abort received err_wt_flow_control_error (text "wt_session validate exceeded") now
    else deliver received id stream bytes end_stream

unfoldable pub recv_stream_data : Session → StreamId → Bytes → Bool → F64 → Session × List Effect
unfolding data_found
recv_stream_data s id bytes end_stream now =
    data_found s id bytes end_stream now (lookup id s.streams)
