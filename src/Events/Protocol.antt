-- ===== src/Events/Protocol.antt =====
-- crates/src/protocol/events.rs: `ProtocolEvent`, what the engine is told, by the transport, the user
-- and itself; and `H3Settings` of protocol/h3.rs, which an event carries.
use pywebtransport.Base.{ℕ, Bool, Option, List}
use pywebtransport.Common.{Bytes, Text, Headers, ErrorCode, RequestId, SessionId, StreamId}

pub record H3Settings : Type 0 where
  pub enable_connect_protocol : Option ℕ
  pub h3_datagram : Option ℕ
  pub max_field_section_size : Option ℕ
  pub qpack_blocked_streams : Option ℕ
  pub qpack_max_table_capacity : Option ℕ
  pub unknown : List (ℕ × ℕ)
  pub wt_enabled : Option ℕ
  pub wt_initial_max_data : Option ℕ
  pub wt_initial_max_streams_bidi : Option ℕ
  pub wt_initial_max_streams_uni : Option ℕ

pub data ProtocolEvent : Type 0 where
  -- stream id, capsule type, capsule value
  h3_capsule_received : StreamId → ℕ → Bytes → ProtocolEvent
  h3_connect_stream_closed : StreamId → ProtocolEvent
  -- session id, data
  h3_datagram_received : SessionId → Bytes → ProtocolEvent
  h3_goaway_received : ProtocolEvent
  -- stream id, headers
  h3_headers_received : StreamId → Headers → ProtocolEvent
  h3_settings_received : H3Settings → ProtocolEvent
  -- session id, stream id
  h3_web_transport_stream_opened : SessionId → StreamId → ProtocolEvent
  -- request id, stream id
  internal_bind_h3_connect_stream : RequestId → StreamId → ProtocolEvent
  -- control stream id, encoder stream id, decoder stream id
  internal_bind_h3_local_streams : StreamId → StreamId → StreamId → ProtocolEvent
  -- request id, stream id, session id, is unidirectional
  internal_bind_quic_stream : RequestId → StreamId → SessionId → Bool → ProtocolEvent
  internal_cleanup_early_events : ProtocolEvent
  internal_cleanup_resources : ProtocolEvent
  internal_close_connection : ProtocolEvent
  internal_complete_quic_data : StreamId → ProtocolEvent
  internal_defer_h3_connect_stream : RequestId → ProtocolEvent
  -- request id, session id, is unidirectional
  internal_defer_quic_stream : RequestId → SessionId → Bool → ProtocolEvent
  -- request id, error code, reason
  internal_fail_h3_connect_stream : RequestId → Option ErrorCode → Text → ProtocolEvent
  internal_fail_h3_local_streams : ProtocolEvent
  -- error code, reason
  transport_connection_terminated : ErrorCode → Text → ProtocolEvent
  transport_datagram_received : Bytes → ProtocolEvent
  transport_handshake_completed : ProtocolEvent
  transport_max_streams_received : Bool → ProtocolEvent
  transport_quic_parameters_received : ℕ → ProtocolEvent
  -- stream id, error code
  transport_reset_stream_received : StreamId → ErrorCode → ProtocolEvent
  -- stream id, error code
  transport_stop_sending_received : StreamId → ErrorCode → ProtocolEvent
  transport_stream_data_acknowledged : StreamId → ProtocolEvent
  -- stream id, data, end stream
  transport_stream_data_received : StreamId → Bytes → Bool → ProtocolEvent
  transport_stream_opened : StreamId → ProtocolEvent
  -- request id, session id, headers, wt protocol
  user_accept_session : RequestId → SessionId → Headers → Option Text → ProtocolEvent
  -- request id, error code, reason
  user_close_connection : RequestId → ErrorCode → Option Text → ProtocolEvent
  user_close_connection_gracefully : RequestId → ProtocolEvent
  -- request id, session id, error code, reason
  user_close_session : RequestId → SessionId → ErrorCode → Option Text → ProtocolEvent
  -- request id, authority, path, headers, wt available protocols
  user_create_session : RequestId → Text → Text → Headers → Option (List Text) → ProtocolEvent
  -- request id, authority, path, headers, wt available protocols
  user_create_session_optimistic :
      RequestId → Text → Text → Headers → Option (List Text) → ProtocolEvent
  -- request id, session id, is unidirectional
  user_create_stream : RequestId → SessionId → Bool → ProtocolEvent
  user_diagnose_connection : RequestId → ProtocolEvent
  -- request id, session id
  user_diagnose_session : RequestId → SessionId → ProtocolEvent
  -- request id, stream id
  user_diagnose_stream : RequestId → StreamId → ProtocolEvent
  -- request id, session id, label, context, length
  user_export_keying_material : RequestId → SessionId → Text → Bytes → ℕ → ProtocolEvent
  -- request id, session id
  user_read_datagram : RequestId → SessionId → ProtocolEvent
  -- request id, stream id, max size
  user_read_stream : RequestId → StreamId → ℕ → ProtocolEvent
  -- request id, session id, headers, status code
  user_reject_session : RequestId → SessionId → Headers → ℕ → ProtocolEvent
  -- request id, stream id, error code
  user_reset_stream : RequestId → StreamId → ErrorCode → ProtocolEvent
  -- request id, session id, data
  user_send_datagram : RequestId → SessionId → Bytes → ProtocolEvent
  -- request id, stream id, error code
  user_stop_sending : RequestId → StreamId → ErrorCode → ProtocolEvent
  -- request id, stream id, data, end stream
  user_write_stream : RequestId → StreamId → Bytes → Bool → ProtocolEvent
