-- ===== src/Session/Close.antt =====
-- protocol/session.rs: the ways in which a session ends: `abort`, `close`, `recv_connect_close`,
-- `reject`.
use pywebtransport.Base.{
  ℕ, ◌+◌, ◌/◌, ◌%◌, ◌^◌, true, false, not, ◌&&◌, ◌||◌, Option, none, some, List, [], ◌∷◌, ◌++◌, ltb,
  leb, ◌==◌, if◌then◌else◌, is_empty, take,
}
use pywebtransport.Base.Utf8.{floor_char_boundary}
use pywebtransport.Common.{
  Bytes, F64, Text, text, Headers, ErrorCode, EventType, RequestId, SessionState,
}
use pywebtransport.Common.Constants.{
  err_app_no_error, wt_capsule_type_close_session, wt_close_reason_size_limit,
}
use pywebtransport.Events.{
  Effect, session_event, emit_session_event, notify_request_done, reset_quic_stream,
  send_h3_capsule, send_h3_headers, send_quic_data, nothing,
}
use pywebtransport.Session.Defs.{
  Session, is_closed_state, is_closing_state, is_connecting, session_failure, state_failure,
  fail_requests,
}
use pywebtransport.Session.Streams.{abort_streams}
use pywebtransport.Utils.Headers.{is_valid_user_headers}
use pywebtransport.Utils.Varint.{put_u32}

-- What every end does: the new state and its account, no more pending data, every stream aborted
-- and every waiting request failed.
unfoldable pub finish :
    Session → Option ErrorCode → Option Text → F64 → SessionState → Session × List Effect
finish s close_code close_reason now state =
    let (s', effects) = abort_streams (record s {
      close_code = close_code;
      close_reason = close_reason;
      closed_at = some now;
      state = state;
      pending_capsules = [];
      pending_datagrams = [];
    }) in
    (
      record s' { pending_datagram_requests = [] },
      effects ++ fail_requests s'.pending_datagram_requests,
    )

abbrev pub closed_event : Session → Option ErrorCode → Option Text → Effect
closed_event s error_code reason =
    emit_session_event (record (session_event s.id EventType.session_closed) {
      error_code = error_code;
      reason = reason;
    })

unfoldable pub abort : Session → ErrorCode → Text → F64 → Session × List Effect
abort s error_code reason now =
    let (s', effects) = finish s (some error_code) (some reason) now SessionState.closed in
    if is_closed_state s.state || is_closing_state s.state then (s, []) else (
      s',
      effects
          ++ reset_quic_stream s.id error_code
            ∷ closed_event s (some error_code) (some reason)
            ∷ [],
    )

-- `as_deref().unwrap_or("")`.
abbrev pub reason_or_empty : Option Text → Text
reason_or_empty none = []
reason_or_empty (some reason) = reason

-- A code that does not fit is sent as `u32::MAX`; the reason is cut at a character boundary.
unfoldable pub close_capsule : ErrorCode → Text → Bytes
close_capsule error_code reason =
    put_u32 (if ltb error_code (2 ^ 32) then error_code else 0xffff_ffff)
    ++ take (floor_char_boundary reason wt_close_reason_size_limit) reason

unfoldable pub close : Session → RequestId → ErrorCode → Option Text → F64 → Session × List Effect
close s request_id error_code reason now =
    let (s', effects) = finish s (some error_code) reason now SessionState.closing in
    let farewell =
      if error_code == err_app_no_error && is_empty (reason_or_empty reason)
      then send_quic_data s.id [] true
      else send_h3_capsule s.id wt_capsule_type_close_session
          (close_capsule error_code (reason_or_empty reason)) true in
    if is_closed_state s.state || is_closing_state s.state
    then (s, notify_request_done request_id nothing ∷ [])
    else (
      s',
      effects
          ++ farewell
            ∷ closed_event s (some error_code) reason
            ∷ notify_request_done request_id nothing
            ∷ [],
    )

unfoldable pub recv_connect_close : Session → ErrorCode → Text → F64 → Session × List Effect
recv_connect_close s error_code reason now =
    let (s', effects) = finish s (some error_code) (some reason) now SessionState.closed in
    if is_closed_state s.state
    then (s, [])
    else if is_closing_state s.state
    then (record s { state = SessionState.closed }, [])
    else (s', effects ++ closed_event s (some error_code) (some reason) ∷ [])

-- The decimal digits of a status code, which has three: `status_code.to_string()`.
abbrev pub status_digits : ℕ → Bytes
status_digits n = (48 + n / 100) ∷ (48 + n / 10 % 10) ∷ (48 + n % 10) ∷ []

unfoldable pub reject : Session → RequestId → Headers → ℕ → F64 → Session × List Effect
reject s request_id headers status_code now =
    let (s', effects) =
      finish s s.close_code (some (text "wt_session reject")) now SessionState.closed in
    if s.is_client
    then (s, session_failure request_id none (text "wt_session validate failed") ∷ [])
    else if not (is_connecting s.state)
    then (s, state_failure request_id ∷ [])
    else if not (leb 300 status_code && leb status_code 599)
    then (s, session_failure request_id none (text "wt_session validate invalid") ∷ [])
    else if not (is_valid_user_headers headers false)
    then (s, session_failure request_id none (text "h3_headers validate invalid") ∷ [])
    else (
      s',
      effects
          ++ send_h3_headers s.id ((text ":status", status_digits status_code) ∷ headers) true
            ∷ emit_session_event (record (session_event s.id EventType.session_closed) {
              status_code = some status_code;
              reason = some (text "wt_session reject");
            })
            ∷ notify_request_done request_id nothing
            ∷ [],
    )
