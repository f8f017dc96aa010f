-- ===== src/Session/Invariant/Steps.antt =====
-- protocol/session.rs: every call keeps a session valid, where the caller does what it owes.
use pywebtransport.Base.{ℕ, ◌<◌, ◌^◌, Bool, Option, List, [], ◌∷◌, arith}
use pywebtransport.Common.{F64, Text, Headers}
use pywebtransport.Session.Calls.{
  Call, step, run, Owes, aborts, accepts, binds_stream, closes, completes_write, confirms,
  creates_stream, defers_stream, diagnoses, diagnoses_stream, drains, exports_keys,
  flushes_requests, acknowledges, opens, reads_datagram, reads, receives_capsule, receives_close,
  receives_datagram, receives_stop, receives, receives_reset, rejects, resets, sends_datagram,
  stops, writes,
}
use pywebtransport.Session.Defs.{Session, SessionParameters, new}
use pywebtransport.Session.Invariant.Capsules.{recv_capsule-IsValid}
use pywebtransport.Session.Invariant.Ends.{
  abort-IsValid, close-IsValid, recv_connect_close-IsValid, reject-IsValid, read_datagram-IsValid,
  recv_datagram-IsValid,
}
use pywebtransport.Session.Invariant.Flow.{
  write_stream-IsValid, complete_stream_write-IsValid, create_stream-IsValid, defer_stream-IsValid,
  flush_blocked_stream_requests-IsValid,
}
use pywebtransport.Session.Invariant.Open.{accept-IsValid, confirm-IsValid, drain-IsValid}
use pywebtransport.Session.Invariant.Peer.{
  bind_stream-IsValid, acknowledged-IsValid, read_stream-IsValid, reset_stream-IsValid,
  stop_stream-IsValid, recv_stream_reset-IsValid, recv_stop_sending-IsValid,
  recv_stream_data-IsValid, handle_stream_opened-IsValid,
}
use pywebtransport.Session.IsValid.{IsValid}

-- The limits that a session starts with are 64-bit numbers.
pub record Fits (p : SessionParameters) : Type 0 where
  pub peer_data : p.peer_max_data < 2 ^ 64
  pub local_data : p.initial_max_data < 2 ^ 64
  pub local_bidi : p.initial_max_streams_bidi < 2 ^ 64
  pub local_uni : p.initial_max_streams_uni < 2 ^ 64
  pub peer_bidi : p.peer_max_streams_bidi < 2 ^ 64
  pub peer_uni : p.peer_max_streams_uni < 2 ^ 64

-- A session starts valid if its limits are 64-bit numbers.
pub new-IsValid :
    (id : ℕ) (path : Text) (headers : Headers) (protocols : Option (List Text)) (is_client : Bool)
    (p : SessionParameters) (now : F64)
    → Fits p
    → IsValid (new id path headers protocols is_client p now)
unfolding new
new-IsValid id path headers protocols is_client p now fits = ground arith

-- Every call keeps a session valid, where a stream that is put off was counted as opened.
pub step_owed-IsValid : (s : Session) (c : Call) → Owes s c → IsValid s → IsValid (step s c).0
unfolding step
step_owed-IsValid s (aborts code reason now) h v = abort-IsValid s code reason now v
step_owed-IsValid s (accepts id headers protocol now) h v =
    accept-IsValid s id headers protocol now v
step_owed-IsValid s (binds_stream stream id uni now) h v = bind_stream-IsValid s stream id uni now v
step_owed-IsValid s (closes id code reason now) h v = close-IsValid s id code reason now v
step_owed-IsValid s (completes_write stream) h v = complete_stream_write-IsValid s stream v
step_owed-IsValid s (confirms protocol now) h v = confirm-IsValid s protocol now v
step_owed-IsValid s (creates_stream id uni) h v = create_stream-IsValid s id uni v
step_owed-IsValid s (defers_stream id uni) h v = defer_stream-IsValid s id uni h v
step_owed-IsValid s (diagnoses id) h v = v
step_owed-IsValid s (diagnoses_stream stream id) h v = v
step_owed-IsValid s drains h v = drain-IsValid s v
step_owed-IsValid s (exports_keys id label context size) h v = v
step_owed-IsValid s (flushes_requests uni) h v = flush_blocked_stream_requests-IsValid s uni v
step_owed-IsValid s (acknowledges stream) h v = acknowledged-IsValid s stream v
step_owed-IsValid s (opens stream now) h v = handle_stream_opened-IsValid s stream now v
step_owed-IsValid s (reads_datagram id) h v = read_datagram-IsValid s id v
step_owed-IsValid s (reads stream id size) h v = read_stream-IsValid s stream v id size
step_owed-IsValid s (receives_capsule kind value now) h v = recv_capsule-IsValid s kind value now v
step_owed-IsValid s (receives_close code reason now) h v =
    recv_connect_close-IsValid s code reason now v
step_owed-IsValid s (receives_datagram bytes) h v = recv_datagram-IsValid s bytes v
step_owed-IsValid s (receives_stop stream code) h v = recv_stop_sending-IsValid s stream v code
step_owed-IsValid s (receives stream bytes fin now) h v =
    recv_stream_data-IsValid s stream bytes fin now v
step_owed-IsValid s (receives_reset stream code) h v = recv_stream_reset-IsValid s stream v code
step_owed-IsValid s (rejects id headers status now) h v = reject-IsValid s id headers status now v
step_owed-IsValid s (resets stream id code) h v = reset_stream-IsValid s stream v id code
step_owed-IsValid s (sends_datagram id bytes size) h v = v
step_owed-IsValid s (stops stream id code) h v = stop_stream-IsValid s stream v id code
step_owed-IsValid s (writes stream id bytes fin) h v = write_stream-IsValid s stream id bytes fin v

-- What the caller owes along a list of calls.
abbrev pub OwesAll : Session → List Call → Type 0
OwesAll s [] = Unit {0}
OwesAll s (c ∷ cs) = Owes s c × OwesAll (step s c).0 cs

run-IsValid :
    (s : Session) (calls : List Call) → OwesAll s calls → IsValid s → IsValid (run s calls).0
unfolding run
run-IsValid s [] h v = v
run-IsValid s (c ∷ cs) (h, hs) v = run-IsValid (step s c).0 cs hs (step_owed-IsValid s c h v)

-- A session that starts with 64-bit limits is valid after any list of calls, where a stream that is
-- put off was counted as opened: it has neither sent nor received more than the credit, nor opened
-- or accepted more streams, and its queues are within their limits.
pub run-new-IsValid :
    (id : ℕ) (path : Text) (headers : Headers) (protocols : Option (List Text)) (is_client : Bool)
    (p : SessionParameters) (now : F64) (calls : List Call)
    → Fits p
    → OwesAll (new id path headers protocols is_client p now) calls
    → IsValid (run (new id path headers protocols is_client p now) calls).0
run-new-IsValid id path headers protocols is_client p now calls fits owes =
    run-IsValid (new id path headers protocols is_client p now) calls owes
      (new-IsValid id path headers protocols is_client p now fits)
