-- ===== src/Session/Capsules.antt =====
-- protocol/session.rs: `recv_capsule`.
use pywebtransport.Base.{
  ℕ, Bool, true, false, not, ◌&&◌, ◌||◌, Option, none, some, List, [], ◌∷◌, ◌++◌, ltb, leb, ◌==◌,
  if◌then◌else◌, length, take, drop,
}
use pywebtransport.Base.Utf8.{is_utf8}
use pywebtransport.Common.{Bytes, F64, text, EventType, SessionState}
use pywebtransport.Common.Constants.{
  err_h3_excessive_load, err_h3_frame_unexpected, err_h3_general_protocol_error,
  err_h3_message_error, err_wt_flow_control_error, wt_capsule_type_close_session,
  wt_capsule_type_data_blocked, wt_capsule_type_drain_session, wt_capsule_type_max_data,
  wt_capsule_type_max_stream_data, wt_capsule_type_max_streams_bidi,
  wt_capsule_type_max_streams_uni, wt_capsule_type_stream_data_blocked,
  wt_capsule_type_streams_blocked_bidi, wt_capsule_type_streams_blocked_uni,
  wt_close_reason_size_limit, wt_streams_limit,
}
use pywebtransport.Events.{
  Effect, session_event, emit_session_event, reset_quic_stream, send_quic_data,
}
use pywebtransport.Session.Close.{abort, finish, closed_event}
use pywebtransport.Session.Credit.{replenish_data_credit, replenish_streams_credit}
use pywebtransport.Session.Defs.{
  Session, is_connecting, is_connected, is_closed_state, is_closing_state,
}
use pywebtransport.Session.Flow.{flush_blocked_writes, flush_blocked_stream_requests}
use pywebtransport.Utils.Varint.{Result, ok, err, read_varint, be_value}

-- The capsules that count only under flow control.
abbrev pub is_flow_control_capsule : ℕ → Bool
is_flow_control_capsule capsule_type =
    capsule_type == wt_capsule_type_data_blocked
    || capsule_type == wt_capsule_type_max_data
    || capsule_type == wt_capsule_type_max_streams_bidi
    || capsule_type == wt_capsule_type_max_streams_uni
    || capsule_type == wt_capsule_type_streams_blocked_bidi
    || capsule_type == wt_capsule_type_streams_blocked_uni

unfoldable pub recv_close : Session → Bytes → F64 → Session × List Effect
recv_close s value now =
    let error_code = be_value 0 (take 4 value) in
    let reason = drop 4 value in
    let (s', effects) = finish s (some error_code) (some reason) now SessionState.closed in
    if ltb (length value) 4
    then abort s err_h3_message_error (text "wt_capsule validate invalid") now
    else if ltb wt_close_reason_size_limit (length reason)
    then abort s err_h3_message_error (text "wt_capsule validate exceeded") now
    else if not (is_utf8 reason)
    then abort s err_h3_message_error (text "wt_capsule validate invalid") now
    else (
      s',
      effects ++ send_quic_data s.id [] true ∷ closed_event s (some error_code) (some reason) ∷ [],
    )

-- The credit if there is any to send, and otherwise an event for the user.
abbrev pub or_event : Effect → Session × Option Effect → Session × List Effect
or_event event (s, none) = (s, event ∷ [])
or_event event (s, some effect) = (s, effect ∷ [])

unfoldable pub recv_data_blocked : Session → Session × List Effect
recv_data_blocked s =
    or_event (emit_session_event (session_event s.id EventType.session_data_blocked))
      (replenish_data_credit s true)

unfoldable pub recv_drain : Session → Session × List Effect
recv_drain s =
    if is_connected s.state
    then (
      record s { state = SessionState.draining },
      emit_session_event (session_event s.id EventType.session_draining) ∷ [],
    )
    else (s, [])

abbrev pub invalid_varint : Session → F64 → Session × List Effect
invalid_varint s now = abort s err_h3_general_protocol_error (text "varint decode invalid") now

unfoldable pub recv_max_data : Session → Result (ℕ × Bytes) → F64 → Session × List Effect
recv_max_data s (err code) now = invalid_varint s now
recv_max_data s (ok (peer_max_data, rest)) now =
    let (s', effects) = flush_blocked_writes (record s { peer_max_data = peer_max_data }) in
    if ltb s.peer_max_data peer_max_data
    then (
      s',
      emit_session_event (record (session_event s.id EventType.session_max_data_updated) {
        max_data = some peer_max_data;
      })
          ∷ effects,
    )
    else abort s err_wt_flow_control_error (text "wt_session validate failed") now

unfoldable pub recv_max_streams_bidi : Session → Result (ℕ × Bytes) → F64 → Session × List Effect
recv_max_streams_bidi s (err code) now = invalid_varint s now
recv_max_streams_bidi s (ok (limit, rest)) now =
    let (s', effects) =
      flush_blocked_stream_requests (record s { peer_max_streams_bidi = limit }) false in
    if ltb wt_streams_limit limit
    then abort s err_wt_flow_control_error (text "wt_session validate exceeded") now
    else if ltb s.peer_max_streams_bidi limit
    then (
      s',
      emit_session_event (record (session_event s.id EventType.session_max_streams_bidi_updated) {
        max_streams = some limit;
      })
          ∷ effects,
    )
    else abort s err_wt_flow_control_error (text "wt_session validate failed") now

unfoldable pub recv_max_streams_uni : Session → Result (ℕ × Bytes) → F64 → Session × List Effect
recv_max_streams_uni s (err code) now = invalid_varint s now
recv_max_streams_uni s (ok (limit, rest)) now =
    let (s', effects) =
      flush_blocked_stream_requests (record s { peer_max_streams_uni = limit }) true in
    if ltb wt_streams_limit limit
    then abort s err_wt_flow_control_error (text "wt_session validate exceeded") now
    else if ltb s.peer_max_streams_uni limit
    then (
      s',
      emit_session_event (record (session_event s.id EventType.session_max_streams_uni_updated) {
        max_streams = some limit;
      })
          ∷ effects,
    )
    else abort s err_wt_flow_control_error (text "wt_session validate failed") now

unfoldable pub recv_streams_blocked :
    Session → Bool → Result (ℕ × Bytes) → F64 → Session × List Effect
recv_streams_blocked s is_unidirectional (err code) now = invalid_varint s now
recv_streams_blocked s is_unidirectional (ok (limit, rest)) now =
    if ltb wt_streams_limit limit
    then abort s err_wt_flow_control_error (text "wt_session validate exceeded") now
    else or_event
        (emit_session_event (record (session_event s.id EventType.session_streams_blocked) {
          is_unidirectional = some is_unidirectional;
        }))
        (replenish_streams_credit s is_unidirectional true)

-- The `match` on the capsule type, in a session that is connected or draining.
unfoldable pub dispatch_capsule : Session → ℕ → Bytes → F64 → Session × List Effect
dispatch_capsule s capsule_type value now =
    if capsule_type == wt_capsule_type_close_session
    then recv_close s value now
    else if capsule_type == wt_capsule_type_data_blocked
    then recv_data_blocked s
    else if capsule_type == wt_capsule_type_drain_session
    then recv_drain s
    else if capsule_type == wt_capsule_type_max_data
    then recv_max_data s (read_varint value) now
    else if capsule_type == wt_capsule_type_max_stream_data
        || capsule_type == wt_capsule_type_stream_data_blocked
    then abort s err_h3_frame_unexpected (text "wt_session validate failed") now
    else if capsule_type == wt_capsule_type_max_streams_bidi
    then recv_max_streams_bidi s (read_varint value) now
    else if capsule_type == wt_capsule_type_max_streams_uni
    then recv_max_streams_uni s (read_varint value) now
    else if capsule_type == wt_capsule_type_streams_blocked_bidi
    then recv_streams_blocked s false (read_varint value) now
    else if capsule_type == wt_capsule_type_streams_blocked_uni
    then recv_streams_blocked s true (read_varint value) now
    else (s, [])

-- A session that is not ready yet keeps its capsules, within a limit.
unfoldable pub buffer_capsule : Session → ℕ → Bytes → F64 → Session × List Effect
buffer_capsule s capsule_type value now =
    if leb s.max_pending_capsules (length s.pending_capsules)
    then abort s err_h3_excessive_load (text "wt_session validate exceeded") now
    else (record s { pending_capsules = s.pending_capsules ++ (capsule_type, value) ∷ [] }, [])

unfoldable pub recv_capsule : Session → ℕ → Bytes → F64 → Session × List Effect
recv_capsule s capsule_type value now =
    if is_connecting s.state
    then buffer_capsule s capsule_type value now
    else if is_closing_state s.state
    then (s, [])
    else if is_closed_state s.state
    then (s, reset_quic_stream s.id err_h3_message_error ∷ [])
    else if not s.flow_control_negotiated && is_flow_control_capsule capsule_type
    then (s, [])
    else dispatch_capsule s capsule_type value now
