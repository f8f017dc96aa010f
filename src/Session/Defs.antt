-- ===== src/Session/Defs.antt =====
-- protocol/session.rs: the state of a session, its constructor and its queries.
use pywebtransport.Base.{
  ℕ, Bool, true, false, Option, none, some, List, [], ◌∷◌, if◌then◌else◌, is_some,
}
use pywebtransport.Base.Maps.{lookup}
use pywebtransport.Base.Word.{u64_max, saturating_sub}
use pywebtransport.Common.{
  Bytes, F64, Text, text, Headers, ErrorCode, ErrorSource, RequestId, SessionId, StreamId,
  SessionState,
}
use pywebtransport.Common.Constants.{err_lib_session_state_error, err_lib_stream_state_error}
use pywebtransport.Events.{Effect, notify_request_done, notify_request_failed, session_diagnostics}
use pywebtransport.Events.Diagnostics.{SessionDiagnostics}
use pywebtransport.Stream.Defs.{Stream}

pub record SessionParameters : Type 0 where
  pub flow_control_negotiated : Bool
  pub initial_max_data : ℕ
  pub initial_max_streams_bidi : ℕ
  pub initial_max_streams_uni : ℕ
  pub max_pending_capsules : ℕ
  pub max_pending_datagrams : ℕ
  pub max_pending_streams : ℕ
  pub max_write_buffer_size : ℕ
  pub peer_max_data : ℕ
  pub peer_max_streams_bidi : ℕ
  pub peer_max_streams_uni : ℕ
  pub receive_window : ℕ

pub record Session : Type 0 where
  pub blocked_stream_requests_bidi : List RequestId
  pub blocked_stream_requests_uni : List RequestId
  pub blocked_streams : List StreamId
  pub blocked_streams_queue : List StreamId
  pub close_code : Option ErrorCode
  pub close_reason : Option Text
  pub closed_at : Option F64
  pub created_at : F64
  pub data_consumed : ℕ
  pub data_received : ℕ
  pub data_sent : ℕ
  pub flow_control_negotiated : Bool
  pub headers : Headers
  pub id : SessionId
  pub initial_max_streams_bidi : ℕ
  pub initial_max_streams_uni : ℕ
  pub is_client : Bool
  pub last_data_blocked_sent : Option ℕ
  pub last_streams_blocked_bidi_sent : Option ℕ
  pub last_streams_blocked_uni_sent : Option ℕ
  pub local_max_data : ℕ
  pub local_max_streams_bidi : ℕ
  pub local_max_streams_uni : ℕ
  pub local_streams_bidi_opened : ℕ
  pub local_streams_uni_opened : ℕ
  pub max_pending_capsules : ℕ
  pub max_pending_datagrams : ℕ
  pub max_pending_streams : ℕ
  pub max_write_buffer_size : ℕ
  pub path : Text
  pub peer_max_data : ℕ
  pub peer_max_streams_bidi : ℕ
  pub peer_max_streams_uni : ℕ
  pub peer_streams_bidi_closed : ℕ
  pub peer_streams_bidi_opened : ℕ
  pub peer_streams_uni_closed : ℕ
  pub peer_streams_uni_opened : ℕ
  pub pending_capsules : List (ℕ × Bytes)
  pub pending_datagram_requests : List RequestId
  pub pending_datagrams : List Bytes
  pub pending_streams : List StreamId
  pub ready_at : Option F64
  pub receive_window : ℕ
  pub state : SessionState
  pub streams : List (StreamId × Stream)
  pub wt_available_protocols : Option (List Text)
  pub wt_protocol : Option Text

unfoldable pub new :
    SessionId → Text → Headers → Option (List Text) → Bool → SessionParameters → F64 → Session
new id path headers wt_available_protocols is_client parameters created_at = record {
  blocked_stream_requests_bidi = [];
  blocked_stream_requests_uni = [];
  blocked_streams = [];
  blocked_streams_queue = [];
  close_code = none;
  close_reason = none;
  closed_at = none;
  created_at = created_at;
  data_consumed = 0;
  data_received = 0;
  data_sent = 0;
  flow_control_negotiated = parameters.flow_control_negotiated;
  headers = headers;
  id = id;
  initial_max_streams_bidi = parameters.initial_max_streams_bidi;
  initial_max_streams_uni = parameters.initial_max_streams_uni;
  is_client = is_client;
  last_data_blocked_sent = none;
  last_streams_blocked_bidi_sent = none;
  last_streams_blocked_uni_sent = none;
  local_max_data = parameters.initial_max_data;
  local_max_streams_bidi = parameters.initial_max_streams_bidi;
  local_max_streams_uni = parameters.initial_max_streams_uni;
  local_streams_bidi_opened = 0;
  local_streams_uni_opened = 0;
  max_pending_capsules = parameters.max_pending_capsules;
  max_pending_datagrams = parameters.max_pending_datagrams;
  max_pending_streams = parameters.max_pending_streams;
  max_write_buffer_size = parameters.max_write_buffer_size;
  path = path;
  peer_max_data = parameters.peer_max_data;
  peer_max_streams_bidi = parameters.peer_max_streams_bidi;
  peer_max_streams_uni = parameters.peer_max_streams_uni;
  peer_streams_bidi_closed = 0;
  peer_streams_bidi_opened = 0;
  peer_streams_uni_closed = 0;
  peer_streams_uni_opened = 0;
  pending_capsules = [];
  pending_datagram_requests = [];
  pending_datagrams = [];
  pending_streams = [];
  ready_at = none;
  receive_window = parameters.receive_window;
  state = SessionState.connecting;
  streams = [];
  wt_available_protocols = wt_available_protocols;
  wt_protocol = none;
}

unfoldable pub diagnostics_snapshot : Session → SessionDiagnostics
diagnostics_snapshot s = record {
  close_code = s.close_code;
  close_reason = s.close_reason;
  closed_at = s.closed_at;
  created_at = s.created_at;
  data_consumed = s.data_consumed;
  data_received = s.data_received;
  data_sent = s.data_sent;
  flow_control_negotiated = s.flow_control_negotiated;
  headers = s.headers;
  is_client = s.is_client;
  local_max_data = s.local_max_data;
  local_max_streams_bidi = s.local_max_streams_bidi;
  local_max_streams_uni = s.local_max_streams_uni;
  local_streams_bidi_opened = s.local_streams_bidi_opened;
  local_streams_uni_opened = s.local_streams_uni_opened;
  path = s.path;
  peer_max_data = s.peer_max_data;
  peer_max_streams_bidi = s.peer_max_streams_bidi;
  peer_max_streams_uni = s.peer_max_streams_uni;
  peer_streams_bidi_closed = s.peer_streams_bidi_closed;
  peer_streams_bidi_opened = s.peer_streams_bidi_opened;
  peer_streams_uni_closed = s.peer_streams_uni_closed;
  peer_streams_uni_opened = s.peer_streams_uni_opened;
  ready_at = s.ready_at;
  session_id = s.id;
  state = s.state;
  wt_available_protocols = s.wt_available_protocols;
  wt_protocol = s.wt_protocol;
}

unfoldable pub diagnose : Session → RequestId → List Effect
unfolding diagnostics_snapshot
diagnose s request_id =
    notify_request_done request_id (session_diagnostics (diagnostics_snapshot s)) ∷ []

unfoldable pub has_stream : Session → StreamId → Bool
has_stream s stream_id = is_some (lookup stream_id s.streams)

-- `matches!(state, Connected | Connecting | Draining)`.
abbrev pub is_open : SessionState → Bool
is_open SessionState.connected = true
is_open SessionState.connecting = true
is_open SessionState.draining = true
is_open SessionState.closed = false
is_open SessionState.closing = false

abbrev pub is_connecting : SessionState → Bool
is_connecting SessionState.connecting = true
is_connecting _ = false

abbrev pub is_connected : SessionState → Bool
is_connected SessionState.connected = true
is_connected _ = false

abbrev pub is_closed_state : SessionState → Bool
is_closed_state SessionState.closed = true
is_closed_state _ = false

abbrev pub is_closing_state : SessionState → Bool
is_closing_state SessionState.closing = true
is_closing_state _ = false

unfoldable pub is_closed : Session → Bool
is_closed s = is_closed_state s.state

-- The credit that the peer leaves for stream data.
abbrev pub session_credit : Session → ℕ
session_credit s =
    if s.flow_control_negotiated then saturating_sub s.peer_max_data s.data_sent else u64_max

-- The refusal of a session method, with its code and reason.
abbrev pub session_failure : RequestId → Option ErrorCode → Text → Effect
session_failure request_id error_code reason =
    notify_request_failed request_id ErrorSource.session error_code reason

abbrev pub state_failure : RequestId → Effect
state_failure request_id =
    session_failure request_id (some err_lib_session_state_error)
      (text "wt_session validate failed")

abbrev pub resolve_failure : RequestId → Effect
resolve_failure request_id =
    notify_request_failed request_id ErrorSource.stream (some err_lib_stream_state_error)
      (text "wt_stream resolve failed")

-- The loops that fail every waiting request when the session ends.
abbrev pub fail_requests : List RequestId → List Effect
fail_requests [] = []
fail_requests (id ∷ rest) = session_failure id none (text "wt_session abort") ∷ fail_requests rest
