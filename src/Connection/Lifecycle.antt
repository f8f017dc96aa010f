-- ===== src/Connection/Lifecycle.antt =====
-- protocol/connection.rs: the state of the connection as a whole: `open`, `handle_handshake_completed`,
-- `recv_settings`, `recv_transport_parameters`, and the loops over all sessions.
pub mod Requests
pub mod Ends
use pywebtransport.Base.{
  ℕ, ◌+◌, Bool, true, false, not, ◌&&◌, ◌||◌, Option, none, some, List, [], ◌∷◌, ◌++◌, ltb, leb,
  if◌then◌else◌, is_empty, is_some, option_list,
}
use pywebtransport.Base.Maps.{lookup, insert, remove, remove_all, keys, sort, contains}
use pywebtransport.Base.Word.{saturating_add}
use pywebtransport.Common.{
  Bytes, F64, Text, text, ErrorCode, EventType, RequestId, SessionId, StreamId, ConnectionState,
}
use pywebtransport.Common.Constants.{
  err_lib_connection_state_error, quic_stream_type_count, quic_varint_limit,
}
use pywebtransport.Connection.Defs.{
  Connection, SessionRequest, is_connected_state, is_connecting_state, is_idle_state,
  is_closed_state, is_closing_state, is_closed_session, connection_failure,
  connection_state_failure,
}
use pywebtransport.Connection.Routing.{with_session}
use pywebtransport.Events.{
  Effect, close_quic_connection, create_h3_connect_stream, create_h3_local_streams,
  emit_connection_event, notify_request_done, send_h3_goaway, connection_handle, nothing,
}
use pywebtransport.Events.Protocol.{H3Settings}
use pywebtransport.Session.Close
use pywebtransport.Session.Defs.{Session, is_closed}
use pywebtransport.Session.Flow
use pywebtransport.Session.Open

-- The answer to the request that opened the connection, if it waits.
abbrev pub answer_opened : Connection → Option RequestId → List Effect
answer_opened c none = []
answer_opened c (some request_id) = notify_request_done request_id (connection_handle c.handle) ∷ []

unfoldable pub open_connection : Connection → F64 → Connection × List Effect
open_connection c now = (
  record c { connected_at = some now; state = ConnectionState.connected; request_id = none },
  emit_connection_event c.handle EventType.connection_established none none
      ∷ answer_opened c c.request_id,
)

-- An idle connection starts to connect.
abbrev pub started : Connection → Connection
started c = record c {
  state = if is_idle_state c.state then ConnectionState.connecting else c.state;
}

unfoldable pub handle_handshake_completed : Connection → F64 → Connection × List Effect
handle_handshake_completed c now =
    let completed : Connection = record (started c) { handshake_completed = true } in
    let (c', effects) = open_connection completed now in
    if not (is_connecting_state (started c).state)
    then (started c, [])
    else if not c.is_client || c.peer_settings_received
    then (c', create_h3_local_streams ∷ effects)
    else (completed, create_h3_local_streams ∷ [])

-- `if let Some(value) = setting { field = value }`.
abbrev pub or_else : Option ℕ → ℕ → ℕ
or_else none old = old
or_else (some value) old = value

abbrev pub with_settings : Connection → H3Settings → Connection
with_settings c settings = record c {
  peer_settings_received = true;
  peer_initial_max_data = or_else settings.wt_initial_max_data c.peer_initial_max_data;
  peer_initial_max_streams_bidi =
      or_else settings.wt_initial_max_streams_bidi c.peer_initial_max_streams_bidi;
  peer_initial_max_streams_uni =
      or_else settings.wt_initial_max_streams_uni c.peer_initial_max_streams_uni;
}

unfoldable pub recv_settings : Connection → H3Settings → F64 → Connection × List Effect
recv_settings c settings now =
    if is_connecting_state c.state && c.handshake_completed
    then open_connection (with_settings c settings) now
    else (with_settings c settings, [])

unfoldable pub recv_transport_parameters : Connection → ℕ → Connection × List Effect
recv_transport_parameters c peer_max_datagram_frame_size =
    (record c { peer_max_datagram_frame_size = some peer_max_datagram_frame_size }, [])

-- The loops over all sessions, in the order of their identifiers.
unfoldable pub each_session :
    Connection → (Session → Session × List Effect) → List SessionId → Connection × List Effect
each_session c call [] = (c, [])
each_session c call (session_id ∷ rest) =
    let (c', effects) = with_session c session_id call (c, []) in
    let (c'', later) = each_session c' call rest in (c'', effects ++ later)
