-- ===== src/Stream/Defs.antt =====
-- protocol/stream.rs: the state of a stream, its constructor and its queries.
use pywebtransport.Base.{
  ℕ, Bool, true, false, not, ◌&&◌, Option, none, some, List, [], ◌∷◌, is_some, is_empty,
}
use pywebtransport.Common.{
  Bytes, F64, Text, text, ErrorCode, ErrorSource, RequestId, SessionId, StreamId, StreamDirection,
  StreamReceiveState, StreamSendState,
}
use pywebtransport.Common.Constants.{err_lib_stream_state_error}
use pywebtransport.Events.{Effect, notify_request_done, notify_request_failed, stream_diagnostics}
use pywebtransport.Events.Diagnostics.{StreamDiagnostics}

-- An entry of `write_buffer`.
pub record PendingWrite : Type 0 where
  pub bytes : Bytes
  pub request_id : RequestId
  pub end_stream : Bool

-- An entry of `pending_read_requests`.
pub record PendingRead : Type 0 where
  pub request_id : RequestId
  pub max_size : ℕ

pub record StreamParameters : Type 0 where
  pub max_write_buffer_size : ℕ

pub record Stream : Type 0 where
  pub created_at : F64
  pub direction : StreamDirection
  pub id : StreamId
  pub is_peer_initiated : Bool
  pub max_write_buffer_size : ℕ
  pub pending_read_requests : List PendingRead
  pub pending_write_request : Option RequestId
  pub receive_error_code : Option ErrorCode
  pub receive_state : Option StreamReceiveState
  pub send_error_code : Option ErrorCode
  pub send_state : Option StreamSendState
  pub session_id : SessionId
  pub write_buffer : List PendingWrite
  pub write_buffer_size : ℕ

abbrev initial_receive_state : StreamDirection → Option StreamReceiveState
initial_receive_state StreamDirection.send_only = none
initial_receive_state StreamDirection.bidirectional = some StreamReceiveState.receive
initial_receive_state StreamDirection.receive_only = some StreamReceiveState.receive

abbrev initial_send_state : StreamDirection → Option StreamSendState
initial_send_state StreamDirection.receive_only = none
initial_send_state StreamDirection.bidirectional = some StreamSendState.ready
initial_send_state StreamDirection.send_only = some StreamSendState.ready

unfoldable pub new : StreamId → SessionId → StreamDirection → Bool → StreamParameters → F64 → Stream
new id session_id direction is_peer_initiated parameters created_at = record {
  created_at = created_at;
  direction = direction;
  id = id;
  is_peer_initiated = is_peer_initiated;
  max_write_buffer_size = parameters.max_write_buffer_size;
  pending_read_requests = [];
  pending_write_request = none;
  receive_error_code = none;
  receive_state = initial_receive_state direction;
  send_error_code = none;
  send_state = initial_send_state direction;
  session_id = session_id;
  write_buffer = [];
  write_buffer_size = 0;
}

unfoldable pub diagnostics_snapshot : Stream → StreamDiagnostics
diagnostics_snapshot s = record {
  created_at = s.created_at;
  direction = s.direction;
  is_peer_initiated = s.is_peer_initiated;
  receive_error_code = s.receive_error_code;
  receive_state = s.receive_state;
  send_error_code = s.send_error_code;
  send_state = s.send_state;
  session_id = s.session_id;
  stream_id = s.id;
}

unfoldable pub diagnose : Stream → RequestId → List Effect
unfolding diagnostics_snapshot
diagnose s request_id =
    notify_request_done request_id (stream_diagnostics (diagnostics_snapshot s)) ∷ []

unfoldable pub is_blocked : Stream → Bool
is_blocked s = not (is_some s.pending_write_request) && not (is_empty s.write_buffer)

-- `receive_state.is_none_or(matches!(.., DataRead | ResetRead))`.
abbrev pub is_receive_terminated : Option StreamReceiveState → Bool
is_receive_terminated none = true
is_receive_terminated (some StreamReceiveState.data_read) = true
is_receive_terminated (some StreamReceiveState.reset_read) = true
is_receive_terminated (some StreamReceiveState.data_received) = false
is_receive_terminated (some StreamReceiveState.receive) = false

-- `send_state.is_none_or(matches!(.., DataReceived | ResetSent))`.
abbrev pub is_send_terminated : Option StreamSendState → Bool
is_send_terminated none = true
is_send_terminated (some StreamSendState.data_received) = true
is_send_terminated (some StreamSendState.reset_sent) = true
is_send_terminated (some StreamSendState.data_sent) = false
is_send_terminated (some StreamSendState.ready) = false

unfoldable pub is_closed : Stream → Bool
is_closed s = is_receive_terminated s.receive_state && is_send_terminated s.send_state

-- `send_state == Some(StreamSendState::Ready)`.
abbrev pub is_ready : Option StreamSendState → Bool
is_ready (some StreamSendState.ready) = true
is_ready _ = false

-- The refusal of a stream method, with the reason that the method gives.
abbrev pub stream_failure : RequestId → Option ErrorCode → Text → Effect
stream_failure request_id error_code reason =
    notify_request_failed request_id ErrorSource.stream error_code reason

abbrev pub validate_invalid : RequestId → Effect
validate_invalid request_id =
    stream_failure request_id (some err_lib_stream_state_error) (text "wt_stream validate invalid")

abbrev pub validate_failed : RequestId → Effect
validate_failed request_id =
    stream_failure request_id (some err_lib_stream_state_error) (text "wt_stream validate failed")
