-- ===== src/Connection/Order/Steps.antt =====
-- protocol/connection.rs: a call moves the state of a connection forward only.
use pywebtransport.Base.{◌≤◌, Bool, true, Option, none, some, List, [], ◌∷◌, arith}
use pywebtransport.Base.Maps.{lookup, sort, keys}
use pywebtransport.Common.{F64, Text, RequestId, StreamId, SessionId, ErrorCode, ConnectionState}
use pywebtransport.Connection.Defs.{Connection}
use pywebtransport.Connection.Lifecycle.{
  open_connection, handle_handshake_completed, recv_settings, recv_transport_parameters,
}
use pywebtransport.Connection.Lifecycle.Ends.{
  close, close_gracefully, handle_terminated, terminated, prune_resources,
}
use pywebtransport.Connection.Lifecycle.Requests.{recv_max_streams, recv_goaway}
use pywebtransport.Connection.Order.{
  rank, Advances, with_session-Advances, with_stream-Advances, bound_stream-Advances,
  each_session-Advances,
}
use pywebtransport.Connection.Order.Early.{
  handle_stream_opened-Advances, recv_datagram-Advances, prune_early_events-Advances,
}
use pywebtransport.Connection.Order.Requests.{
  create_session-Advances, bind_session-Advances, recv_headers-Advances,
}
use pywebtransport.Connection.Requests.{defer_session, fail_session}
use pywebtransport.Connection.Routing.Sessions
use pywebtransport.Connection.Routing.Streams
use pywebtransport.Events.Protocol.{H3Settings}
use pywebtransport.Session.Close
use pywebtransport.Session.Open
use pywebtransport.Connection.Calls.{
  Call, step, run, accepts_session, acknowledges, binds_session, binds_stream, closes,
  closes_gracefully, closes_session, completes_handshake, completes_write, creates_session,
  creates_stream, defers_session, defers_stream, diagnoses, diagnoses_session, diagnoses_stream,
  exports_keys, fails_session, opens_stream, prunes_events, prunes_resources, reads, reads_datagram,
  receives, receives_capsule, receives_connect_close, receives_datagram, receives_goaway,
  receives_headers, receives_max_streams, receives_parameters, receives_reset, receives_settings,
  receives_stop, rejects_session, resets, sends_datagram, stops, terminates, writes,
}

rank-le : (state : ConnectionState) → rank state ≤ 4
rank-le ConnectionState.idle = omega arith
rank-le ConnectionState.connecting = omega arith
rank-le ConnectionState.connected = omega arith
rank-le ConnectionState.closing = omega arith
rank-le ConnectionState.closed = omega arith

abort_session-Advances :
    (c : Connection) (stream : StreamId) (code : ErrorCode) (now : F64)
    → Advances c (Streams.abort_session c stream code now).0
unfolding Streams.abort_session
abort_session-Advances c stream code now = with_session-Advances c stream _ _ (omega arith)

diagnose_found-Advances :
    (c : Connection) (stream : StreamId) (id : RequestId) (found : Option SessionId)
    → Advances c (Streams.diagnose_found c stream id found).0
unfolding Streams.diagnose_found
diagnose_found-Advances c stream id none = omega arith
diagnose_found-Advances c stream id (some session) =
    with_session-Advances c session _ _ (omega arith)

close_gracefully-Advances : (c : Connection) (id : RequestId) → Advances c (close_gracefully c id).0
unfolding close_gracefully
close_gracefully-Advances c id = ground (
  arith,
  each_session-Advances (record c { local_goaway_sent = true }) Open.drain (sort (keys c.sessions)),
)

handle_terminated-Advances :
    (c : Connection) (code : ErrorCode) (reason : Text) (now : F64)
    → Advances c (handle_terminated c code reason now).0
unfolding handle_terminated
handle_terminated-Advances c code reason now = ground (
  arith,
  rank-le c.state,
  each_session-Advances (terminated c code reason now)
      (λ s. Close.recv_connect_close s code reason now) (sort (keys c.sessions)),
)

recv_max_streams-Advances : (c : Connection) (uni : Bool) → Advances c (recv_max_streams c uni).0
unfolding recv_max_streams
recv_max_streams-Advances c uni = each_session-Advances _ _ (sort (keys c.sessions))

recv_goaway-Advances : (c : Connection) → Advances c (recv_goaway c).0
unfolding recv_goaway
recv_goaway-Advances c = each_session-Advances _ _ (sort (keys c.sessions))

-- The handshake, the settings and the end.
handshake-Advances : (c : Connection) (now : F64) → Advances c (handle_handshake_completed c now).0
unfolding handle_handshake_completed open_connection
handshake-Advances c now = ground arith

settings-Advances :
    (c : Connection) (settings : H3Settings) (now : F64)
    → Advances c (recv_settings c settings now).0
unfolding recv_settings open_connection
settings-Advances c settings now = ground arith

close-Advances :
    (c : Connection) (id : Option RequestId) (code : ErrorCode) (reason : Option Text) (now : F64)
    → Advances c (close c id code reason now).0
unfolding close
close-Advances c id code reason now = ground arith

module _ (is_fresh : F64 → F64 → F64 → Bool) where
  call-Advances : (c : Connection) (call : Call) → Advances c (step is_fresh c call).0
  unfolding step Sessions.defer_stream Sessions.accept_session Sessions.close_session
      Sessions.create_stream Sessions.diagnose_session Sessions.export_keying_material
      Sessions.read_datagram Sessions.recv_capsule Sessions.recv_connect_close
      Sessions.reject_session Sessions.send_datagram Streams.handle_stream_data_acknowledged
      Streams.complete_stream_write Streams.read_stream Streams.recv_stream_data
      Streams.recv_stream_reset Streams.recv_stop_sending Streams.reset_stream Streams.stop_stream
      Streams.write_stream Sessions.bind_stream Streams.diagnose_stream fail_session defer_session
      recv_transport_parameters prune_resources
  call-Advances c (accepts_session id request headers protocol now) =
      with_session-Advances c id _ _ (omega arith)
  call-Advances c (acknowledges stream) = with_stream-Advances c stream _ _ (omega arith)
  call-Advances c (binds_session stream request) = bind_session-Advances c stream request
  call-Advances c (binds_stream id stream request uni now) =
      bound_stream-Advances c id _ _ (omega arith) stream (lookup id c.sessions)
  call-Advances c (closes request code reason now) = close-Advances c request code reason now
  call-Advances c (closes_gracefully request) = close_gracefully-Advances c request
  call-Advances c (closes_session id request code reason now) =
      with_session-Advances c id _ _ (omega arith)
  call-Advances c (completes_handshake now) = handshake-Advances c now
  call-Advances c (completes_write stream) = with_stream-Advances c stream _ _ (omega arith)
  call-Advances c (creates_session request r) = create_session-Advances c request r
  call-Advances c (creates_stream id request uni) = with_session-Advances c id _ _ (omega arith)
  call-Advances c (defers_session request) = omega arith
  call-Advances c (defers_stream id request uni) = with_session-Advances c id _ _ (omega arith)
  call-Advances c (diagnoses request) = omega arith
  call-Advances c (diagnoses_session id request) = with_session-Advances c id _ _ (omega arith)
  call-Advances c (diagnoses_stream stream request) =
      diagnose_found-Advances c stream request (lookup stream c.stream_map)
  call-Advances c (exports_keys id request label context size) =
      with_session-Advances c id _ _ (omega arith)
  call-Advances c (fails_session request code reason) = omega arith
  call-Advances c (opens_stream id stream now) = handle_stream_opened-Advances c id stream now
  call-Advances c (prunes_events now) = prune_early_events-Advances is_fresh c now
  call-Advances c prunes_resources = omega arith
  call-Advances c (reads stream request size) = with_stream-Advances c stream _ _ (omega arith)
  call-Advances c (reads_datagram id request) = with_session-Advances c id _ _ (omega arith)
  call-Advances c (receives stream bytes fin now) = with_stream-Advances c stream _ _ (omega arith)
  call-Advances c (receives_capsule id kind value now) =
      with_session-Advances c id _ _ (omega arith)
  call-Advances c (receives_connect_close id now) = with_session-Advances c id _ _ (omega arith)
  call-Advances c (receives_datagram id bytes now) = recv_datagram-Advances c id bytes now
  call-Advances c receives_goaway = recv_goaway-Advances c
  call-Advances c (receives_headers stream headers now) = recv_headers-Advances c stream headers now
  call-Advances c (receives_max_streams uni) = recv_max_streams-Advances c uni
  call-Advances c (receives_parameters size) = omega arith
  call-Advances c (receives_reset stream code now) =
      with_stream-Advances c stream _ _ (abort_session-Advances c stream code now)
  call-Advances c (receives_settings settings now) = settings-Advances c settings now
  call-Advances c (receives_stop stream code now) =
      with_stream-Advances c stream _ _ (abort_session-Advances c stream code now)
  call-Advances c (rejects_session id request headers status now) =
      with_session-Advances c id _ _ (omega arith)
  call-Advances c (resets stream request code) = with_stream-Advances c stream _ _ (omega arith)
  call-Advances c (sends_datagram id request bytes) = with_session-Advances c id _ _ (omega arith)
  call-Advances c (stops stream request code) = with_stream-Advances c stream _ _ (omega arith)
  call-Advances c (terminates code reason now) = handle_terminated-Advances c code reason now
  call-Advances c (writes stream request bytes fin) =
      with_stream-Advances c stream _ _ (omega arith)

  -- No list of calls moves a connection back in the order idle, connecting, connected, closing, closed:
  -- the state afterwards is the same or a later one.
  pub calls-Advances : (c : Connection) (calls : List Call) → Advances c (run is_fresh c calls).0
  unfolding run
  calls-Advances c [] = omega arith
  calls-Advances c (call ∷ calls) =
      let one = call-Advances c call in
      let rest = calls-Advances (step is_fresh c call).0 calls in omega (arith, one, rest)
