-- ===== src/Events.antt =====
-- crates/src/protocol/events.rs: the effects that the protocol state machines hand to the runtime,
-- and the results of the requests. The larger variants carry their fields as a record.
pub mod Diagnostics
pub mod Protocol
use pywebtransport.Base.{ℕ, Bool, Option, none, some, List, [], ◌∷◌}
use pywebtransport.Common.{
  Bytes, F64, Text, Headers, ErrorCode, ErrorSource, EventType, RequestId, SessionId, StreamId,
  ConnectionHandle, StreamDirection,
}
use Diagnostics.{StreamDiagnostics, SessionDiagnostics, ConnectionDiagnostics}

pub data RequestResult : Type 0 where
  connection_diagnostics : ConnectionDiagnostics → RequestResult
  connection_handle : ConnectionHandle → RequestResult
  datagram : Bytes → RequestResult
  keying_material : Bytes → RequestResult
  nothing : RequestResult
  read_data : Bytes → RequestResult
  session_diagnostics : SessionDiagnostics → RequestResult
  session_id : SessionId → RequestResult
  stream_diagnostics : StreamDiagnostics → RequestResult
  stream_id : StreamId → RequestResult

pub record SessionEvent : Type 0 where
  pub session_id : SessionId
  pub event_type : EventType
  pub path : Option Text
  pub headers : Option Headers
  pub wt_available_protocols : Option (List Text)
  pub wt_protocol : Option Text
  pub payload : Option Bytes  -- `data` in the source
  pub is_unidirectional : Option Bool
  pub max_data : Option ℕ
  pub max_streams : Option ℕ
  pub ready_at : Option F64
  pub status_code : Option ℕ
  pub error_code : Option ErrorCode
  pub reason : Option Text

-- An event with every optional field `None`.
abbrev pub session_event : SessionId → EventType → SessionEvent
session_event id event_type = record {
  session_id = id;
  event_type = event_type;
  path = none;
  headers = none;
  wt_available_protocols = none;
  wt_protocol = none;
  payload = none;
  is_unidirectional = none;
  max_data = none;
  max_streams = none;
  ready_at = none;
  status_code = none;
  error_code = none;
  reason = none;
}

pub record StreamEvent : Type 0 where
  pub stream_id : StreamId
  pub event_type : EventType
  pub session_id : Option SessionId
  pub direction : Option StreamDirection
  pub is_peer_initiated : Option Bool
  pub error_code : Option ErrorCode

pub data Effect : Type 0 where
  -- error code, reason
  close_quic_connection : ErrorCode → Option Text → Effect
  -- request, authority, path, headers
  create_h3_connect_stream : RequestId → Text → Text → Headers → Effect
  create_h3_local_streams : Effect
  -- request, session, is unidirectional
  create_quic_stream : RequestId → SessionId → Bool → Effect
  -- handle, event, error code, reason
  emit_connection_event : ConnectionHandle → EventType → Option ErrorCode → Option Text → Effect
  emit_session_event : SessionEvent → Effect
  emit_stream_event : StreamEvent → Effect
  -- request, label, context, length
  export_tls_keying_material : RequestId → Text → Bytes → ℕ → Effect
  notify_request_done : RequestId → RequestResult → Effect
  -- request, source, error code, reason
  notify_request_failed : RequestId → ErrorSource → Option ErrorCode → Text → Effect
  -- stream, maximal size
  receive_quic_data : StreamId → ℕ → Effect
  reset_quic_stream : StreamId → ErrorCode → Effect
  -- stream, capsule type, capsule value, end of stream
  send_h3_capsule : StreamId → ℕ → Bytes → Bool → Effect
  send_h3_datagram : SessionId → Bytes → Effect
  send_h3_goaway : ℕ → Effect
  -- stream, headers, end of stream
  send_h3_headers : StreamId → Headers → Bool → Effect
  -- stream, data, end of stream
  send_quic_data : StreamId → Bytes → Bool → Effect
  -- header, payload
  send_quic_datagram : Bytes → Bytes → Effect
  stop_quic_stream : StreamId → ErrorCode → Effect

-- The requests that a list of effects answers, in order.
abbrev pub answered : List Effect → List RequestId
answered [] = []
answered (notify_request_done id result ∷ es) = id ∷ answered es
answered (notify_request_failed id source code reason ∷ es) = id ∷ answered es
answered (_ ∷ es) = answered es
