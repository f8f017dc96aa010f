-- ===== src/Connection/Calls.antt =====
-- protocol/connection.rs: the calls that the engine makes of a connection, as one step function.
use pywebtransport.Base.{ℕ, Bool, Option, List, [], ◌∷◌, ◌++◌}
use pywebtransport.Common.{Bytes, F64, Text, Headers, ErrorCode, RequestId, SessionId, StreamId}
use pywebtransport.Connection.Defs.{Connection, SessionRequest, diagnose}
use pywebtransport.Connection.Early.{handle_stream_opened, recv_datagram, prune_early_events}
use pywebtransport.Connection.Lifecycle.{
  handle_handshake_completed, recv_settings, recv_transport_parameters,
}
use pywebtransport.Connection.Lifecycle.Ends.{
  close, close_gracefully, handle_terminated, prune_resources,
}
use pywebtransport.Connection.Lifecycle.Requests.{recv_max_streams, recv_goaway}
use pywebtransport.Connection.Requests.{create_session, bind_session, defer_session, fail_session}
use pywebtransport.Connection.Requests.Incoming.{recv_headers}
use pywebtransport.Connection.Routing.Sessions
use pywebtransport.Connection.Routing.Streams
use pywebtransport.Events.{Effect}
use pywebtransport.Events.Protocol.{H3Settings}

pub data Call : Type 0 where
  accepts_session : SessionId → RequestId → Headers → Option Text → F64 → Call
  acknowledges : StreamId → Call
  binds_session : StreamId → RequestId → Call
  binds_stream : SessionId → StreamId → RequestId → Bool → F64 → Call
  closes : Option RequestId → ErrorCode → Option Text → F64 → Call
  closes_gracefully : RequestId → Call
  closes_session : SessionId → RequestId → ErrorCode → Option Text → F64 → Call
  completes_handshake : F64 → Call
  completes_write : StreamId → Call
  creates_session : RequestId → SessionRequest → Call
  creates_stream : SessionId → RequestId → Bool → Call
  defers_session : RequestId → Call
  defers_stream : SessionId → RequestId → Bool → Call
  diagnoses : RequestId → Call
  diagnoses_session : SessionId → RequestId → Call
  diagnoses_stream : StreamId → RequestId → Call
  exports_keys : SessionId → RequestId → Text → Bytes → ℕ → Call
  fails_session : RequestId → Option ErrorCode → Text → Call
  opens_stream : SessionId → StreamId → F64 → Call
  prunes_events : F64 → Call
  prunes_resources : Call
  reads : StreamId → RequestId → ℕ → Call
  reads_datagram : SessionId → RequestId → Call
  receives : StreamId → Bytes → Bool → F64 → Call
  receives_capsule : SessionId → ℕ → Bytes → F64 → Call
  receives_connect_close : SessionId → F64 → Call
  receives_datagram : SessionId → Bytes → F64 → Call
  receives_goaway : Call
  receives_headers : StreamId → Headers → F64 → Call
  receives_max_streams : Bool → Call
  receives_parameters : ℕ → Call
  receives_reset : StreamId → ErrorCode → F64 → Call
  receives_settings : H3Settings → F64 → Call
  receives_stop : StreamId → ErrorCode → F64 → Call
  rejects_session : SessionId → RequestId → Headers → ℕ → F64 → Call
  resets : StreamId → RequestId → ErrorCode → Call
  sends_datagram : SessionId → RequestId → Bytes → Call
  stops : StreamId → RequestId → ErrorCode → Call
  terminates : ErrorCode → Text → F64 → Call
  writes : StreamId → RequestId → Bytes → Bool → Call

-- `is_fresh` is the comparison of time stamps of `prune_early_events`.
module _ (is_fresh : F64 → F64 → F64 → Bool) where
  unfoldable pub step : Connection → Call → Connection × List Effect
  step c (accepts_session id request headers protocol now) =
      Sessions.accept_session c id request headers protocol now
  step c (acknowledges stream) = Streams.handle_stream_data_acknowledged c stream
  step c (binds_session stream request) = bind_session c stream request
  step c (binds_stream id stream request uni now) = Sessions.bind_stream c id stream request uni now
  step c (closes request code reason now) = close c request code reason now
  step c (closes_gracefully request) = close_gracefully c request
  step c (closes_session id request code reason now) =
      Sessions.close_session c id request code reason now
  step c (completes_handshake now) = handle_handshake_completed c now
  step c (completes_write stream) = Streams.complete_stream_write c stream
  step c (creates_session request r) = create_session c request r
  step c (creates_stream id request uni) = Sessions.create_stream c id request uni
  step c (defers_session request) = defer_session c request
  step c (defers_stream id request uni) = Sessions.defer_stream c id request uni
  step c (diagnoses request) = (c, diagnose c request)
  step c (diagnoses_session id request) = Sessions.diagnose_session c id request
  step c (diagnoses_stream stream request) = Streams.diagnose_stream c stream request
  step c (exports_keys id request label context size) =
      Sessions.export_keying_material c id request label context size
  step c (fails_session request code reason) = fail_session c request code reason
  step c (opens_stream id stream now) = handle_stream_opened c id stream now
  step c (prunes_events now) = prune_early_events is_fresh c now
  step c prunes_resources = (prune_resources c, [])
  step c (reads stream request size) = Streams.read_stream c stream request size
  step c (reads_datagram id request) = Sessions.read_datagram c id request
  step c (receives stream bytes fin now) = Streams.recv_stream_data c stream bytes fin now
  step c (receives_capsule id kind value now) = Sessions.recv_capsule c id kind value now
  step c (receives_connect_close id now) = Sessions.recv_connect_close c id now
  step c (receives_datagram id bytes now) = recv_datagram c id bytes now
  step c receives_goaway = recv_goaway c
  step c (receives_headers stream headers now) = recv_headers c stream headers now
  step c (receives_max_streams uni) = recv_max_streams c uni
  step c (receives_parameters size) = recv_transport_parameters c size
  step c (receives_reset stream code now) = Streams.recv_stream_reset c stream code now
  step c (receives_settings settings now) = recv_settings c settings now
  step c (receives_stop stream code now) = Streams.recv_stop_sending c stream code now
  step c (rejects_session id request headers status now) =
      Sessions.reject_session c id request headers status now
  step c (resets stream request code) = Streams.reset_stream c stream request code
  step c (sends_datagram id request bytes) = Sessions.send_datagram c id request bytes
  step c (stops stream request code) = Streams.stop_stream c stream request code
  step c (terminates code reason now) = handle_terminated c code reason now
  step c (writes stream request bytes fin) = Streams.write_stream c stream request bytes fin

  unfoldable pub run : Connection → List Call → Connection × List Effect
  run c [] = (c, [])
  run c (call ∷ calls) =
      let (c', effects) = step c call in let (c'', later) = run c' calls in (c'', effects ++ later)
