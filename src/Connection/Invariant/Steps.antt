-- ===== src/Connection/Invariant/Steps.antt =====
-- protocol/connection.rs: every call of the engine keeps a connection valid, where the caller
-- does what it owes.
use pywebtransport.Base.{
  ℕ, ◌<◌, ◌^◌, ◌≡◌, refl, Bool, false, Option, none, some, List, [], ◌∷◌, arith,
}
use pywebtransport.Base.Maps.{lookup}
use pywebtransport.Base.Maps.Sizes.{Every-lookup}
use pywebtransport.Common.{ConnectionHandle, F64, text, ErrorCode, RequestId, SessionId, StreamId}
use pywebtransport.Connection.Calls.{
  Call, step, run, accepts_session, acknowledges, binds_session, binds_stream, closes,
  closes_gracefully, closes_session, completes_handshake, completes_write, creates_session,
  creates_stream, defers_session, defers_stream, diagnoses, diagnoses_session, diagnoses_stream,
  exports_keys, fails_session, opens_stream, prunes_events, prunes_resources, reads, reads_datagram,
  receives, receives_capsule, receives_connect_close, receives_datagram, receives_goaway,
  receives_headers, receives_max_streams, receives_parameters, receives_reset, receives_settings,
  receives_stop, rejects_session, resets, sends_datagram, stops, terminates, writes,
}
use pywebtransport.Connection.Defs.{Connection, ConnectionParameters, new, has_flow_control}
use pywebtransport.Connection.Invariant.Early.{handle_stream_opened-IsValid, recv_datagram-IsValid}
use pywebtransport.Connection.Invariant.Headers.{recv_headers-IsValid}
use pywebtransport.Connection.Invariant.Lifecycle.{
  handle_handshake_completed-IsValid, Fits, recv_settings-IsValid, recv_max_streams-IsValid,
  recv_goaway-IsValid, close-IsValid, close_gracefully-IsValid, handle_terminated-IsValid,
  prune_resources-IsValid,
}
use pywebtransport.Connection.Invariant.Prune.{prune_early_events-IsValid}
use pywebtransport.Connection.Invariant.Requests.{
  create_session-IsValid, bind_session-IsValid, defer_session-IsValid, fail_session-IsValid,
}
use pywebtransport.Connection.Invariant.Routing.{
  updated-IsValid, with_session-IsValid, with_stream-IsValid, bound_stream-IsValid,
}
use pywebtransport.Connection.IsValid.{IsValid}
use pywebtransport.Connection.Lifecycle.{recv_transport_parameters}
use pywebtransport.Connection.Requests.{active_limit}
use pywebtransport.Connection.Routing.{with_session, found_session}
use pywebtransport.Connection.Routing.Sessions
use pywebtransport.Connection.Routing.Streams
use pywebtransport.Events.{Effect}
use pywebtransport.Session.Calls.{Call as SessionCall, Owes as OwesSession}
use pywebtransport.Session.Calls as SessionCalls
use pywebtransport.Session.Defs.{Session}
use pywebtransport.Session.Flow
use pywebtransport.Session.Invariant.Capsules.{recv_capsule-IsValid}
use pywebtransport.Session.Invariant.Ends.{
  abort-IsValid, close-IsValid as closed-IsValid, recv_connect_close-IsValid, reject-IsValid,
  read_datagram-IsValid,
}
use pywebtransport.Session.Invariant.Flow.{
  write_stream-IsValid, complete_stream_write-IsValid, create_stream-IsValid, defer_stream-IsValid,
}
use pywebtransport.Session.Invariant.Open.{accept-IsValid}
use pywebtransport.Session.Invariant.Peer.{
  bind_stream-IsValid, acknowledged-IsValid, read_stream-IsValid, reset_stream-IsValid,
  stop_stream-IsValid, recv_stream_reset-IsValid, recv_stop_sending-IsValid,
  recv_stream_data-IsValid,
}
use pywebtransport.Session.IsValid.{IsValid as IsValidSession}

-- What the caller owes: the settings of the peer arrive once and hold 64-bit numbers, and a stream
-- that is put off was counted as opened by its session.
unfoldable pub Owes : Connection → Call → Type 0
Owes c (receives_settings settings now) = (c.peer_settings_received ≡ false) × Fits settings
Owes c (defers_stream id request uni) =
    (s : Session)
    → lookup id c.sessions ≡ some s
    → OwesSession s (SessionCalls.defers_stream request uni)
Owes c call = Unit {0}

transport-IsValid :
    (c : Connection) (size : ℕ) → IsValid c → IsValid (recv_transport_parameters c size).0
unfolding recv_transport_parameters active_limit has_flow_control
transport-IsValid c size v = ground arith

abort_session-IsValid :
    (c : Connection) (stream : StreamId) (code : ErrorCode) (now : F64)
    → IsValid c
    → IsValid (Streams.abort_session c stream code now).0
unfolding Streams.abort_session
abort_session-IsValid c stream code now v =
    with_session-IsValid c stream _ _ (λ s. abort-IsValid s code (text "wt_session abort") now) v v

-- The limits that a connection starts with are 64-bit numbers.
pub record FitsParameters (p : ConnectionParameters) : Type 0 where
  pub early : p.max_connection_pending_events < 2 ^ 64
  pub max_data : p.initial_max_data < 2 ^ 64
  pub bidi : p.initial_max_streams_bidi < 2 ^ 64
  pub uni : p.initial_max_streams_uni < 2 ^ 64

fresh-IsValid :
    (handle : ConnectionHandle) (request : Option RequestId) (is_client : Bool)
    (p : ConnectionParameters)
    → FitsParameters p
    → IsValid (new handle request is_client p)
unfolding new active_limit has_flow_control
fresh-IsValid handle request is_client p f = ground arith

defer_stream-IsValid_found :
    (c : Connection) (id : SessionId) (request : RequestId) (uni : Bool) (found : Option Session)
    → lookup id c.sessions ≡ found
    → Owes c (defers_stream id request uni)
    → IsValid c
    → (effects : List Effect)
    → IsValid (found_session c id (λ s. Flow.defer_stream s request uni) (c, effects) found).0
unfolding found_session Owes
defer_stream-IsValid_found c id request uni none e h v effects = v
defer_stream-IsValid_found c id request uni (some s) e h v effects =
    let k = Every-lookup IsValidSession id s c.sessions e v.sessions_valid in
    updated-IsValid c id s (Flow.defer_stream s request uni).0 c.stream_map e
      (defer_stream-IsValid s request uni (h s e) k) v

deferred-IsValid :
    (c : Connection) (id : SessionId) (request : RequestId) (uni : Bool)
    → Owes c (defers_stream id request uni)
    → IsValid c
    → IsValid (Sessions.defer_stream c id request uni).0
unfolding Sessions.defer_stream with_session
deferred-IsValid c id request uni h v =
    defer_stream-IsValid_found c id request uni (lookup id c.sessions) refl h v _

diagnose_found-IsValid :
    (c : Connection) (stream : StreamId) (request : RequestId) (found : Option SessionId)
    → IsValid c
    → IsValid (Streams.diagnose_found c stream request found).0
unfolding Streams.diagnose_found
diagnose_found-IsValid c stream request none v = v
diagnose_found-IsValid c stream request (some id) v = with_session-IsValid c id _ _ (λ s k. k) v v

module _ (is_fresh : F64 → F64 → F64 → Bool) where
  -- Every call of the engine keeps a connection valid, where the caller does what it owes.
  pub call-IsValid :
      (c : Connection) (call : Call) → Owes c call → IsValid c → IsValid (step is_fresh c call).0
  unfolding step Owes Sessions.accept_session Sessions.close_session Sessions.create_stream
      Sessions.diagnose_session Sessions.export_keying_material Sessions.read_datagram
      Sessions.recv_capsule Sessions.recv_connect_close Sessions.reject_session
      Sessions.send_datagram Streams.handle_stream_data_acknowledged Streams.complete_stream_write
      Streams.read_stream Streams.recv_stream_data Streams.recv_stream_reset
      Streams.recv_stop_sending Streams.reset_stream Streams.stop_stream Streams.write_stream
      Sessions.bind_stream Streams.diagnose_stream
  call-IsValid c (accepts_session id request headers protocol now) h v =
      with_session-IsValid c id _ _ (λ s. accept-IsValid s request headers protocol now) v v
  call-IsValid c (acknowledges stream) h v =
      with_stream-IsValid c stream _ _ (λ s. acknowledged-IsValid s stream) v v
  call-IsValid c (binds_session stream request) h v = bind_session-IsValid c stream request v
  call-IsValid c (binds_stream id stream request uni now) h v =
      bound_stream-IsValid c id _ _ (λ s. bind_stream-IsValid s stream request uni now) v v stream
        (lookup id c.sessions) refl
  call-IsValid c (closes request code reason now) h v = close-IsValid c request code reason now v
  call-IsValid c (closes_gracefully request) h v = close_gracefully-IsValid c request v
  call-IsValid c (closes_session id request code reason now) h v =
      with_session-IsValid c id _ _ (λ s. closed-IsValid s request code reason now) v v
  call-IsValid c (completes_handshake now) h v = handle_handshake_completed-IsValid c now v
  call-IsValid c (completes_write stream) h v =
      with_stream-IsValid c stream _ _ (λ s. complete_stream_write-IsValid s stream) v v
  call-IsValid c (creates_session request r) h v = create_session-IsValid c request r v
  call-IsValid c (creates_stream id request uni) h v =
      with_session-IsValid c id _ _ (λ s. create_stream-IsValid s request uni) v v
  call-IsValid c (defers_session request) h v = defer_session-IsValid c request v
  call-IsValid c (defers_stream id request uni) h v = deferred-IsValid c id request uni h v
  call-IsValid c (diagnoses request) h v = v
  call-IsValid c (diagnoses_session id request) h v = with_session-IsValid c id _ _ (λ s k. k) v v
  call-IsValid c (diagnoses_stream stream request) h v =
      diagnose_found-IsValid c stream request (lookup stream c.stream_map) v
  call-IsValid c (exports_keys id request label context size) h v =
      with_session-IsValid c id _ _ (λ s k. k) v v
  call-IsValid c (fails_session request code reason) h v =
      fail_session-IsValid c request code reason v
  call-IsValid c (opens_stream id stream now) h v = handle_stream_opened-IsValid c id stream now v
  call-IsValid c (prunes_events now) h v = prune_early_events-IsValid is_fresh now c v
  call-IsValid c prunes_resources h v = prune_resources-IsValid c v
  call-IsValid c (reads stream request size) h v =
      with_stream-IsValid c stream _ _ (λ s k. read_stream-IsValid s stream k request size) v v
  call-IsValid c (reads_datagram id request) h v =
      with_session-IsValid c id _ _ (λ s. read_datagram-IsValid s request) v v
  call-IsValid c (receives stream bytes fin now) h v =
      with_stream-IsValid c stream _ _ (λ s. recv_stream_data-IsValid s stream bytes fin now) v v
  call-IsValid c (receives_capsule id kind value now) h v =
      with_session-IsValid c id _ _ (λ s. recv_capsule-IsValid s kind value now) v v
  call-IsValid c (receives_connect_close id now) h v =
      with_session-IsValid c id _ _ (λ s. recv_connect_close-IsValid s _ _ now) v v
  call-IsValid c (receives_datagram id bytes now) h v = recv_datagram-IsValid c id bytes now v
  call-IsValid c receives_goaway h v = recv_goaway-IsValid c v
  call-IsValid c (receives_headers stream headers now) h v =
      recv_headers-IsValid c stream headers now v
  call-IsValid c (receives_max_streams uni) h v = recv_max_streams-IsValid c uni v
  call-IsValid c (receives_parameters size) h v = transport-IsValid c size v
  call-IsValid c (receives_reset stream code now) h v =
      with_stream-IsValid c stream _ _ (λ s k. recv_stream_reset-IsValid s stream k code)
        (abort_session-IsValid c stream code now v) v
  call-IsValid c (receives_settings settings now) h v =
      recv_settings-IsValid c settings now h.0 h.1 v
  call-IsValid c (receives_stop stream code now) h v =
      with_stream-IsValid c stream _ _ (λ s k. recv_stop_sending-IsValid s stream k code)
        (abort_session-IsValid c stream code now v) v
  call-IsValid c (rejects_session id request headers status now) h v =
      with_session-IsValid c id _ _ (λ s. reject-IsValid s request headers status now) v v
  call-IsValid c (resets stream request code) h v =
      with_stream-IsValid c stream _ _ (λ s k. reset_stream-IsValid s stream k request code) v v
  call-IsValid c (sends_datagram id request bytes) h v =
      with_session-IsValid c id _ _ (λ s k. k) v v
  call-IsValid c (stops stream request code) h v =
      with_stream-IsValid c stream _ _ (λ s k. stop_stream-IsValid s stream k request code) v v
  call-IsValid c (terminates code reason now) h v = handle_terminated-IsValid c code reason now v
  call-IsValid c (writes stream request bytes fin) h v =
      with_stream-IsValid c stream _ _ (λ s. write_stream-IsValid s stream request bytes fin) v v

  -- What the caller owes along a list of calls.
  abbrev pub OwesAll : Connection → List Call → Type 0
  OwesAll c [] = Unit {0}
  OwesAll c (call ∷ calls) = Owes c call × OwesAll (step is_fresh c call).0 calls

  calls-IsValid :
      (c : Connection) (calls : List Call)
      → OwesAll c calls
      → IsValid c
      → IsValid (run is_fresh c calls).0
  unfolding run
  calls-IsValid c [] h v = v
  calls-IsValid c (call ∷ calls) (h, hs) v =
      calls-IsValid (step is_fresh c call).0 calls hs (call-IsValid c call h v)

  pub calls_from_new-IsValid :
      (handle : ConnectionHandle) (request : Option RequestId) (is_client : Bool)
      (p : ConnectionParameters) (calls : List Call)
      → FitsParameters p
      → OwesAll (new handle request is_client p) calls
      → IsValid (run is_fresh (new handle request is_client p) calls).0
  calls_from_new-IsValid handle request is_client p calls f h =
      calls-IsValid (new handle request is_client p) calls h
        (fresh-IsValid handle request is_client p f)
