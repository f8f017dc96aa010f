-- ===== src/Connection/Requests.antt =====
-- protocol/connection.rs: the requests for sessions: `create_session`, `bind_session`, `defer_session`,
-- `fail_session`, and `recv_headers`, in which a session begins.
pub mod Response
pub mod Incoming
use pywebtransport.Base.{
  ℕ, ◌+◌, Bool, true, false, not, ◌&&◌, ◌||◌, Option, none, some, List, [], ◌∷◌, ◌++◌, ltb, leb,
  if◌then◌else◌, length,
}
use pywebtransport.Base.Maps.{lookup, insert, remove}
use pywebtransport.Common.{
  Bytes, F64, Text, text, Headers, ErrorCode, ErrorSource, EventType, RequestId, SessionId,
  StreamId,
}
use pywebtransport.Common.Constants.{err_lib_connection_state_error}
use pywebtransport.Connection.Defs.{
  Connection, SessionRequest, has_flow_control, session_parameters, is_connected_state,
  connection_failure, connection_state_failure,
}
use pywebtransport.Events.{
  Effect, create_h3_connect_stream, session_event, emit_session_event, notify_request_done,
  notify_request_failed, session_id,
}
use pywebtransport.Session.Defs.{Session, new}
use pywebtransport.Utils.Headers.{is_valid_user_headers}
use pywebtransport.Utils.Protocols.{encode_wt_protocol_list}

-- The number of sessions that may exist at a time; 0 is no limit.
unfoldable pub active_limit : Connection → ℕ
active_limit c = if has_flow_control c then c.max_sessions else 1

unfoldable pub is_full : Connection → ℕ → Bool
is_full c total = ltb 0 (active_limit c) && leb (active_limit c) total

-- The offered protocols go into the headers; `none` is a list that cannot be encoded.
abbrev pub offer : SessionRequest → Option (List Text) → Option SessionRequest
offer r none = some r
offer r (some protocols) = elim (encode_wt_protocol_list protocols) [
  | none ↦ none
  | some encoded ↦
      some (record r { headers = r.headers ++ (text "wt-available-protocols", encoded) ∷ [] })
]

unfoldable pub request_session :
    Connection → RequestId → Option SessionRequest → Connection × List Effect
request_session c request_id none =
    (c, connection_failure request_id none (text "wt_available_protocols encode failed") ∷ [])
request_session c request_id (some r) = (
  record c { session_requests = insert request_id r c.session_requests },
  create_h3_connect_stream request_id r.authority r.path r.headers ∷ [],
)

unfoldable pub create_session : Connection → RequestId → SessionRequest → Connection × List Effect
unfolding request_session
create_session c request_id r =
    if not c.is_client
    then (c, connection_failure request_id none (text "wt_connection validate failed") ∷ [])
    else if not (is_connected_state c.state)
    then (c, connection_state_failure request_id ∷ [])
    else if c.peer_goaway_received
    then (c, connection_state_failure request_id ∷ [])
    else if is_full c (length c.sessions + length c.session_requests)
    then (
      c,
      connection_failure request_id (some err_lib_connection_state_error)
            (text "wt_session validate exceeded")
          ∷ [],
    )
    else if not (is_valid_user_headers r.headers true)
    then (c, connection_failure request_id none (text "h3_headers validate invalid") ∷ [])
    else request_session c request_id (offer r r.wt_available_protocols)

-- The session of a request, on the stream that it got.
abbrev pub session_of : Connection → StreamId → SessionRequest → Session
session_of c stream_id r =
    new stream_id r.path r.headers r.wt_available_protocols c.is_client (session_parameters c)
      r.created_at

-- An optimistic request gives its session at once.
unfoldable pub bind_found :
    Connection → StreamId → RequestId → Option SessionRequest → Connection × List Effect
bind_found c stream_id request_id none = (c, [])
bind_found c stream_id request_id (some r) =
    if r.optimistic
    then (
      record c {
        session_requests = remove request_id c.session_requests;
        sessions = insert stream_id (session_of c stream_id r) c.sessions;
      },
      emit_session_event (record (session_event stream_id EventType.session_pending) {
        path = some r.path;
        headers = some r.headers;
      })
          ∷ notify_request_done request_id (session_id stream_id)
          ∷ [],
    )
    else (c, [])

unfoldable pub bind_session : Connection → StreamId → RequestId → Connection × List Effect
unfolding bind_found
bind_session c stream_id request_id =
    bind_found
      (record c {
        pending_session_requests = insert stream_id request_id c.pending_session_requests;
      })
      stream_id request_id (lookup request_id c.session_requests)

unfoldable pub defer_session : Connection → RequestId → Connection × List Effect
defer_session c request_id =
    (record c { blocked_session_requests = c.blocked_session_requests ++ request_id ∷ [] }, [])

unfoldable pub fail_session :
    Connection → RequestId → Option ErrorCode → Text → Connection × List Effect
fail_session c request_id error_code reason = (
  record c { session_requests = remove request_id c.session_requests },
  notify_request_failed request_id ErrorSource.session error_code reason ∷ [],
)
