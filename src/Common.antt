-- ===== src/Common.antt =====
-- crates/src/common/types.rs: the scalar types and the enumerations that every layer shares.
pub mod Constants
pub mod Errors
use pywebtransport.Base.{ℕ, List, ◌∷◌, [], String, Bool, true, false}
use Prim.Native.String
use Prim.Native.Char.{code}

-- A byte is a number below 256.
abbrev pub Bytes : Type 0
Bytes = List ℕ

-- A `String` of the source is its UTF-8 bytes.
abbrev pub Text : Type 0
Text = List ℕ

-- The bytes of an ASCII literal.
unfoldable pub text : String → Text
text String.[] = []
text (String.◌∷◌ c s) = code c ∷ text s

-- The bit pattern of an `f64`, a time stamp. The code copies it, and compares time stamps in one
-- place, where the comparison is a parameter.
abbrev pub F64 : Type 0
F64 = ℕ

abbrev pub ErrorCode : Type 0
ErrorCode = ℕ

abbrev pub RequestId : Type 0
RequestId = ℕ

abbrev pub SessionId : Type 0
SessionId = ℕ

abbrev pub StreamId : Type 0
StreamId = ℕ

abbrev pub ConnectionHandle : Type 0
ConnectionHandle = ℕ

abbrev pub Headers : Type 0
Headers = List (Bytes × Bytes)

pub data ConnectionState : Type 0 where
  closed closing connected connecting idle : ConnectionState

pub data ErrorSource : Type 0 where
  connection datagram session stream unspecified : ErrorSource

pub data EventType : Type 0 where
  connection_closed connection_established : EventType
  session_closed session_data_blocked session_draining session_max_data_updated : EventType
  session_max_streams_bidi_updated session_max_streams_uni_updated session_pending : EventType
  session_ready session_request_received session_streams_blocked : EventType
  stream_closed stream_opened stream_reset_received stream_stop_sending_received : EventType

pub data SessionState : Type 0 where
  closed closing connected connecting draining : SessionState

pub data StreamDirection : Type 0 where
  bidirectional receive_only send_only : StreamDirection

pub data StreamReceiveState : Type 0 where
  data_read data_received receive reset_read : StreamReceiveState

pub data StreamSendState : Type 0 where
  data_received data_sent ready reset_sent : StreamSendState
