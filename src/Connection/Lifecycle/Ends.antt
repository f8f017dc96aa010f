-- ===== src/Connection/Lifecycle/Ends.antt =====
-- protocol/connection.rs: `close`, `close_gracefully`, `handle_terminated`, `prune_resources`.
use pywebtransport.Base.{
  ℕ, Bool, true, false, not, ◌||◌, Option, none, some, List, [], ◌∷◌, ◌++◌, leb, if◌then◌else◌,
  option_list,
}
use pywebtransport.Base.Maps.{remove_all, keys, sort, contains}
use pywebtransport.Base.Word.{saturating_add}
use pywebtransport.Common.{
  F64, Text, text, ErrorCode, EventType, RequestId, SessionId, StreamId, ConnectionState,
}
use pywebtransport.Common.Constants.{
  err_lib_connection_state_error, quic_stream_type_count, quic_varint_limit,
}
use pywebtransport.Connection.Defs.{
  Connection, is_connected_state, is_closed_state, is_closing_state, connection_failure,
}
use pywebtransport.Events.{
  Effect, close_quic_connection, emit_connection_event, notify_request_done, send_h3_goaway,
  nothing,
}
use pywebtransport.Session.Close
use pywebtransport.Session.Defs.{Session, is_closed}
use pywebtransport.Session.Open
use pywebtransport.Connection.Lifecycle.{each_session}

abbrev pub answer_closed : Option RequestId → List Effect
answer_closed none = []
answer_closed (some request_id) = notify_request_done request_id nothing ∷ []

unfoldable pub close :
    Connection → Option RequestId → ErrorCode → Option Text → F64 → Connection × List Effect
close c request_id error_code reason now =
    if is_closed_state c.state || is_closing_state c.state then (c, answer_closed request_id) else (
      record c {
        close_code = some error_code;
        close_reason = reason;
        closed_at = some now;
        state = ConnectionState.closing;
      },
      close_quic_connection error_code reason ∷ answer_closed request_id,
    )

-- `keys().copied().max()`.
abbrev pub largest : List ℕ → Option ℕ
largest [] = none
largest (n ∷ ns) = some (larger n (largest ns))
  where
    larger : ℕ → Option ℕ → ℕ
    larger n none = n
    larger n (some m) = if leb n m then m else n

-- The first identifier that the server does not accept any more.
abbrev pub goaway_identifier : Bool → Option SessionId → ℕ
goaway_identifier true last = 0
goaway_identifier false none = 0
goaway_identifier false (some session_id) =
    let next = saturating_add session_id quic_stream_type_count in
    if leb next quic_varint_limit then next else quic_varint_limit

unfoldable pub close_gracefully : Connection → RequestId → Connection × List Effect
close_gracefully c request_id =
    let goaway =
      if c.local_goaway_sent
      then []
      else send_h3_goaway (goaway_identifier c.is_client (largest (keys c.sessions))) ∷ [] in
    let (c', effects) =
      each_session (record c { local_goaway_sent = true }) Open.drain (sort (keys c.sessions)) in
    if not (is_connected_state c.state)
    then (c, notify_request_done request_id nothing ∷ [])
    else (c', goaway ++ (effects ++ notify_request_done request_id nothing ∷ []))

abbrev pub fail_requests : Text → List RequestId → List Effect
fail_requests reason [] = []
fail_requests reason (request_id ∷ rest) =
    connection_failure request_id (some err_lib_connection_state_error) reason
    ∷ fail_requests reason rest

-- The account of the end, which a connection that is closing has given already.
abbrev pub terminated : Connection → ErrorCode → Text → F64 → Connection
terminated c error_code reason now =
    let is_closing = is_closing_state c.state in
    record c {
      close_code = if is_closing then c.close_code else some error_code;
      close_reason = if is_closing then c.close_reason else some reason;
      closed_at = if is_closing then c.closed_at else some now;
      state = ConnectionState.closed;
      session_requests = [];
      request_id = none;
      blocked_session_requests = [];
      pending_session_requests = [];
    }

unfoldable pub handle_terminated : Connection → ErrorCode → Text → F64 → Connection × List Effect
handle_terminated c error_code reason now =
    let failure_reason =
      if is_closing_state c.state then text "wt_connection close" else text "wt_connection abort" in
    let request_ids = sort (keys c.session_requests ++ option_list c.request_id) in
    let (c', effects) =
      each_session (terminated c error_code reason now)
        (λ s. Close.recv_connect_close s error_code reason now) (sort (keys c.sessions)) in
    if is_closed_state c.state then (c, []) else (
      c',
      effects
          ++ emit_connection_event c.handle EventType.connection_closed (some error_code)
              (some reason)
            ∷ fail_requests failure_reason request_ids,
    )

-- The sessions that are closed.
unfoldable pub closed_sessions : List (SessionId × Session) → List SessionId
closed_sessions [] = []
closed_sessions ((session_id, session) ∷ rest) =
    let closed = closed_sessions rest in if is_closed session then session_id ∷ closed else closed

-- `retain`: the streams of other sessions.
unfoldable pub retain_streams :
    List SessionId → List (StreamId × SessionId) → List (StreamId × SessionId)
retain_streams closed [] = []
retain_streams closed ((stream_id, session_id) ∷ rest) =
    let others = retain_streams closed rest in
    if contains session_id closed then others else (stream_id, session_id) ∷ others

unfoldable pub prune_resources : Connection → Connection
prune_resources c =
    let closed = sort (closed_sessions c.sessions) in
    record c {
      sessions = remove_all closed c.sessions;
      stream_map = retain_streams closed c.stream_map;
    }
