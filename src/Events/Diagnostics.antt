-- ===== src/Events/Diagnostics.antt =====
-- The snapshots that diagnostic requests return: `StreamDiagnostics` of protocol/stream.rs,
-- `SessionDiagnostics` of protocol/session.rs, `ConnectionDiagnostics` of protocol/connection.rs.
use pywebtransport.Base.{ℕ, Bool, Option, List}
use pywebtransport.Common.{
  F64, Text, Headers, ErrorCode, SessionId, StreamId, ConnectionHandle, ConnectionState,
  SessionState, StreamDirection, StreamReceiveState, StreamSendState,
}

pub record StreamDiagnostics : Type 0 where
  pub created_at : F64
  pub direction : StreamDirection
  pub is_peer_initiated : Bool
  pub receive_error_code : Option ErrorCode
  pub receive_state : Option StreamReceiveState
  pub send_error_code : Option ErrorCode
  pub send_state : Option StreamSendState
  pub session_id : SessionId
  pub stream_id : StreamId

pub record SessionDiagnostics : Type 0 where
  pub close_code : Option ErrorCode
  pub close_reason : Option Text
  pub closed_at : Option F64
  pub created_at : F64
  pub data_consumed : ℕ
  pub data_received : ℕ
  pub data_sent : ℕ
  pub flow_control_negotiated : Bool
  pub headers : Headers
  pub is_client : Bool
  pub local_max_data : ℕ
  pub local_max_streams_bidi : ℕ
  pub local_max_streams_uni : ℕ
  pub local_streams_bidi_opened : ℕ
  pub local_streams_uni_opened : ℕ
  pub path : Text
  pub peer_max_data : ℕ
  pub peer_max_streams_bidi : ℕ
  pub peer_max_streams_uni : ℕ
  pub peer_streams_bidi_closed : ℕ
  pub peer_streams_bidi_opened : ℕ
  pub peer_streams_uni_closed : ℕ
  pub peer_streams_uni_opened : ℕ
  pub ready_at : Option F64
  pub session_id : SessionId
  pub state : SessionState
  pub wt_available_protocols : Option (List Text)
  pub wt_protocol : Option Text

pub record ConnectionDiagnostics : Type 0 where
  pub close_code : Option ErrorCode
  pub close_reason : Option Text
  pub closed_at : Option F64
  pub connected_at : Option F64
  pub connection_handle : ConnectionHandle
  pub handshake_completed : Bool
  pub is_client : Bool
  pub local_goaway_sent : Bool
  pub peer_goaway_received : Bool
  pub peer_initial_max_data : ℕ
  pub peer_initial_max_streams_bidi : ℕ
  pub peer_initial_max_streams_uni : ℕ
  pub peer_max_datagram_frame_size : Option ℕ
  pub peer_settings_received : Bool
  pub state : ConnectionState
