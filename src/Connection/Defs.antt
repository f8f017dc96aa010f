-- ===== src/Connection/Defs.antt =====
-- protocol/connection.rs: the state of a connection, its constructor and its queries.
use pywebtransport.Base.{
  ℕ, Bool, true, false, ◌&&◌, ◌||◌, Option, none, some, List, [], ◌∷◌, ltb, is_some,
}
use pywebtransport.Base.Maps.{lookup}
use pywebtransport.Common.{
  F64, Text, text, Headers, ErrorCode, ErrorSource, RequestId, SessionId, StreamId,
  ConnectionHandle, ConnectionState,
}
use pywebtransport.Common.Constants.{
  err_lib_session_state_error, err_lib_stream_state_error, err_lib_connection_state_error,
}
use pywebtransport.Events.{
  Effect, notify_request_done, notify_request_failed, connection_diagnostics,
}
use pywebtransport.Events.Diagnostics.{ConnectionDiagnostics}
use pywebtransport.Events.Protocol.{ProtocolEvent}
use pywebtransport.Session.Defs.{Session, SessionParameters, is_closed}

pub record ConnectionParameters : Type 0 where
  pub early_event_ttl : F64
  pub initial_max_data : ℕ
  pub initial_max_streams_bidi : ℕ
  pub initial_max_streams_uni : ℕ
  pub max_connection_pending_events : ℕ
  pub max_pending_capsules : ℕ
  pub max_pending_datagrams : ℕ
  pub max_pending_streams : ℕ
  pub max_session_pending_events : ℕ
  pub max_sessions : ℕ
  pub max_write_buffer_size : ℕ
  pub session_receive_window : ℕ

pub record SessionRequest : Type 0 where
  pub authority : Text
  pub created_at : F64
  pub headers : Headers
  pub optimistic : Bool
  pub path : Text
  pub wt_available_protocols : Option (List Text)

pub record Connection : Type 0 where
  pub blocked_session_requests : List RequestId
  pub close_code : Option ErrorCode
  pub close_reason : Option Text
  pub closed_at : Option F64
  pub connected_at : Option F64
  pub early_event_buffer : List (SessionId × List (F64 × ProtocolEvent))
  pub early_event_count : ℕ
  pub early_event_ttl : F64
  pub handle : ConnectionHandle
  pub handshake_completed : Bool
  pub initial_max_data : ℕ
  pub initial_max_streams_bidi : ℕ
  pub initial_max_streams_uni : ℕ
  pub is_client : Bool
  pub local_goaway_sent : Bool
  pub max_connection_pending_events : ℕ
  pub max_pending_capsules : ℕ
  pub max_pending_datagrams : ℕ
  pub max_pending_streams : ℕ
  pub max_session_pending_events : ℕ
  pub max_sessions : ℕ
  pub max_write_buffer_size : ℕ
  pub peer_goaway_received : Bool
  pub peer_initial_max_data : ℕ
  pub peer_initial_max_streams_bidi : ℕ
  pub peer_initial_max_streams_uni : ℕ
  pub peer_max_datagram_frame_size : Option ℕ
  pub peer_settings_received : Bool
  pub pending_session_requests : List (StreamId × RequestId)
  pub request_id : Option RequestId
  pub session_receive_window : ℕ
  pub session_requests : List (RequestId × SessionRequest)
  pub sessions : List (SessionId × Session)
  pub state : ConnectionState
  pub stream_map : List (StreamId × SessionId)

unfoldable pub new : ConnectionHandle → Option RequestId → Bool → ConnectionParameters → Connection
new handle request_id is_client parameters = record {
  blocked_session_requests = [];
  close_code = none;
  close_reason = none;
  closed_at = none;
  connected_at = none;
  early_event_buffer = [];
  early_event_count = 0;
  early_event_ttl = parameters.early_event_ttl;
  handle = handle;
  handshake_completed = false;
  initial_max_data = parameters.initial_max_data;
  initial_max_streams_bidi = parameters.initial_max_streams_bidi;
  initial_max_streams_uni = parameters.initial_max_streams_uni;
  is_client = is_client;
  local_goaway_sent = false;
  max_connection_pending_events = parameters.max_connection_pending_events;
  max_pending_capsules = parameters.max_pending_capsules;
  max_pending_datagrams = parameters.max_pending_datagrams;
  max_pending_streams = parameters.max_pending_streams;
  max_session_pending_events = parameters.max_session_pending_events;
  max_sessions = parameters.max_sessions;
  max_write_buffer_size = parameters.max_write_buffer_size;
  peer_goaway_received = false;
  peer_initial_max_data = 0;
  peer_initial_max_streams_bidi = 0;
  peer_initial_max_streams_uni = 0;
  peer_max_datagram_frame_size = none;
  peer_settings_received = false;
  pending_session_requests = [];
  request_id = request_id;
  session_receive_window = parameters.session_receive_window;
  session_requests = [];
  sessions = [];
  state = ConnectionState.idle;
  stream_map = [];
}

unfoldable pub diagnostics_snapshot : Connection → ConnectionDiagnostics
diagnostics_snapshot c = record {
  close_code = c.close_code;
  close_reason = c.close_reason;
  closed_at = c.closed_at;
  connected_at = c.connected_at;
  connection_handle = c.handle;
  handshake_completed = c.handshake_completed;
  is_client = c.is_client;
  local_goaway_sent = c.local_goaway_sent;
  peer_goaway_received = c.peer_goaway_received;
  peer_initial_max_data = c.peer_initial_max_data;
  peer_initial_max_streams_bidi = c.peer_initial_max_streams_bidi;
  peer_initial_max_streams_uni = c.peer_initial_max_streams_uni;
  peer_max_datagram_frame_size = c.peer_max_datagram_frame_size;
  peer_settings_received = c.peer_settings_received;
  state = c.state;
}

unfoldable pub diagnose : Connection → RequestId → List Effect
unfolding diagnostics_snapshot
diagnose c request_id =
    notify_request_done request_id (connection_diagnostics (diagnostics_snapshot c)) ∷ []

-- Both sides ask for flow control.
unfoldable pub has_flow_control : Connection → Bool
has_flow_control c =
    (ltb 0 c.initial_max_data
      || ltb 0 c.initial_max_streams_bidi
      || ltb 0 c.initial_max_streams_uni)
    && (ltb 0 c.peer_initial_max_data
        || ltb 0 c.peer_initial_max_streams_bidi
        || ltb 0 c.peer_initial_max_streams_uni)

-- The parameters of a session that this connection opens.
unfoldable pub session_parameters : Connection → SessionParameters
session_parameters c = record {
  flow_control_negotiated = has_flow_control c;
  initial_max_data = c.initial_max_data;
  initial_max_streams_bidi = c.initial_max_streams_bidi;
  initial_max_streams_uni = c.initial_max_streams_uni;
  max_pending_capsules = c.max_pending_capsules;
  max_pending_datagrams = c.max_pending_datagrams;
  max_pending_streams = c.max_pending_streams;
  max_write_buffer_size = c.max_write_buffer_size;
  peer_max_data = c.peer_initial_max_data;
  peer_max_streams_bidi = c.peer_initial_max_streams_bidi;
  peer_max_streams_uni = c.peer_initial_max_streams_uni;
  receive_window = c.session_receive_window;
}

unfoldable pub has_stream : Connection → StreamId → Bool
has_stream c stream_id = is_some (lookup stream_id c.stream_map)

abbrev pub is_connected_state : ConnectionState → Bool
is_connected_state ConnectionState.connected = true
is_connected_state _ = false

abbrev pub is_connecting_state : ConnectionState → Bool
is_connecting_state ConnectionState.connecting = true
is_connecting_state _ = false

abbrev pub is_idle_state : ConnectionState → Bool
is_idle_state ConnectionState.idle = true
is_idle_state _ = false

abbrev pub is_closed_state : ConnectionState → Bool
is_closed_state ConnectionState.closed = true
is_closed_state _ = false

abbrev pub is_closing_state : ConnectionState → Bool
is_closing_state ConnectionState.closing = true
is_closing_state _ = false

unfoldable pub is_connected : Connection → Bool
is_connected c = is_connected_state c.state

unfoldable pub is_pre_connected : Connection → Bool
is_pre_connected c = is_connecting_state c.state || is_idle_state c.state

-- `sessions.get(&session_id).is_some_and(Session::is_closed)`.
abbrev pub is_closed_session : Option Session → Bool
is_closed_session none = false
is_closed_session (some session) = is_closed session

unfoldable pub is_session_closed : Connection → SessionId → Bool
is_session_closed c session_id = is_closed_session (lookup session_id c.sessions)

unfoldable pub is_session_stream : Connection → StreamId → Bool
is_session_stream c stream_id = is_some (lookup stream_id c.sessions)

-- The refusals of the connection's methods.
abbrev pub unresolved_session : RequestId → Effect
unresolved_session request_id =
    notify_request_failed request_id ErrorSource.session (some err_lib_session_state_error)
      (text "wt_session resolve failed")

abbrev pub unresolved_stream : RequestId → Effect
unresolved_stream request_id =
    notify_request_failed request_id ErrorSource.stream (some err_lib_stream_state_error)
      (text "wt_stream resolve failed")

abbrev pub connection_failure : RequestId → Option ErrorCode → Text → Effect
connection_failure request_id error_code reason =
    notify_request_failed request_id ErrorSource.connection error_code reason

abbrev pub connection_state_failure : RequestId → Effect
connection_state_failure request_id =
    connection_failure request_id (some err_lib_connection_state_error)
      (text "wt_connection validate failed")
