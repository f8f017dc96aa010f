-- ===== src/Session/Over.antt =====
-- protocol/session.rs: a closed session under any call.
use pywebtransport.Base.{ℕ, ◌≡◌, refl, Bool, true, false, none, List, [], ◌∷◌, arith}
use pywebtransport.Common.{Bytes, ErrorCode, F64, SessionState, StreamId, Text}
use pywebtransport.Session.Calls.{
  Call, step, run, aborts, accepts, binds_stream, closes, completes_write, confirms, creates_stream,
  defers_stream, diagnoses, diagnoses_stream, drains, exports_keys, flushes_requests, acknowledges,
  opens, reads_datagram, reads, receives_capsule, receives_close, receives_datagram, receives_stop,
  receives, receives_reset, rejects, resets, sends_datagram, stops, writes,
}
use pywebtransport.Session.Capsules.{recv_capsule}
use pywebtransport.Session.Close.{abort, close, recv_connect_close, reject}
use pywebtransport.Session.Datagrams.{read_datagram, recv_datagram}
use pywebtransport.Session.Credit.{emit_streams_blocked, emit_blocked_uni, emit_blocked_bidi}
use pywebtransport.Session.Defs.{Session, is_open}
use pywebtransport.Session.Emptied.{IsEmptied}
use pywebtransport.Session.Ended.{abort-IsEmptied}
use pywebtransport.Session.Flow.{
  write_stream, complete_stream_write, create_stream, defer_stream, flush_blocked_stream_requests,
  open_blocked, open_uni, open_bidi,
}
use pywebtransport.Session.Open.{accept, confirm, drain}
use pywebtransport.Session.Peer.{
  bind_stream, handle_stream_opened, handle_stream_data_acknowledged, read_stream, reset_stream,
  stop_stream, recv_stream_data, recv_stream_reset, recv_stop_sending,
}
use pywebtransport.Base.Maps.{lookup, lookup_empty}

flushes_nothing :
    (s : Session) (uni : Bool) → IsEmptied s → (flush_blocked_stream_requests s uni).0 ≡ s
unfolding flush_blocked_stream_requests open_uni open_bidi open_blocked emit_streams_blocked
    emit_blocked_uni emit_blocked_bidi
flushes_nothing s true h = rw (h.no_uni_request) (ground arith)
flushes_nothing s false h = rw (h.no_bidi_request) (ground arith)

module _ (s : Session) (stream : StreamId) (h : IsEmptied s) where
  gone : lookup stream s.streams ≡ none
  gone = lookup_empty stream s.streams h.no_stream

  completes_nothing : (complete_stream_write s stream).0 ≡ s
  unfolding complete_stream_write
  completes_nothing = rw gone refl

  acknowledges_nothing : (handle_stream_data_acknowledged s stream).0 ≡ s
  unfolding handle_stream_data_acknowledged
  acknowledges_nothing = rw gone refl

  reads_nothing : (id size : ℕ) → (read_stream s stream id size).0 ≡ s
  unfolding read_stream
  reads_nothing id size = rw gone refl

  resets_nothing : (id code : ℕ) → (reset_stream s stream id code).0 ≡ s
  unfolding reset_stream
  resets_nothing id code = rw gone refl

  stops_nothing : (id code : ℕ) → (stop_stream s stream id code).0 ≡ s
  unfolding stop_stream
  stops_nothing id code = rw gone refl

  gets_no_reset : (code : ℕ) → (recv_stream_reset s stream code).0 ≡ s
  unfolding recv_stream_reset
  gets_no_reset code = rw gone refl

  gets_no_stop : (code : ℕ) → (recv_stop_sending s stream code).0 ≡ s
  unfolding recv_stop_sending
  gets_no_stop code = rw gone refl

  gets_no_data :
      (bytes : Bytes) (fin : Bool) (now : F64) → (recv_stream_data s stream bytes fin now).0 ≡ s
  unfolding recv_stream_data
  gets_no_data bytes fin now = rw gone refl

  writes_nothing :
      (id : ℕ) (bytes : Bytes) (fin : Bool) → (write_stream s stream id bytes fin).0 ≡ s
  unfolding write_stream
  writes_nothing id bytes fin = rw gone refl

-- A closed session that holds nothing that waits is not changed by any call.
pub closed_step :
    (s : Session) (c : Call) → s.state ≡ SessionState.closed → IsEmptied s → (step s c).0 ≡ s
unfolding step abort accept bind_stream close confirm create_stream defer_stream drain
    handle_stream_opened read_datagram recv_capsule recv_connect_close recv_datagram reject
closed_step s (aborts code reason now) e h = ground arith
closed_step s (accepts id headers protocol now) e h = ground arith
closed_step s (binds_stream stream id uni now) e h = ground arith
closed_step s (closes id code reason now) e h = ground arith
closed_step s (completes_write stream) e h = completes_nothing s stream h
closed_step s (confirms protocol now) e h = ground arith
closed_step s (creates_stream id uni) e h = ground arith
closed_step s (defers_stream id uni) e h = ground arith
closed_step s (diagnoses id) e h = refl
closed_step s (diagnoses_stream stream id) e h = refl
closed_step s drains e h = ground arith
closed_step s (exports_keys id label context size) e h = refl
closed_step s (flushes_requests uni) e h = flushes_nothing s uni h
closed_step s (acknowledges stream) e h = acknowledges_nothing s stream h
closed_step s (opens stream now) e h = ground arith
closed_step s (reads_datagram id) e h = ground arith
closed_step s (reads stream id size) e h = reads_nothing s stream h id size
closed_step s (receives_capsule kind value now) e h = ground arith
closed_step s (receives_close code reason now) e h = ground arith
closed_step s (receives_datagram bytes) e h = ground arith
closed_step s (receives_stop stream code) e h = gets_no_stop s stream h code
closed_step s (receives stream bytes fin now) e h = gets_no_data s stream h bytes fin now
closed_step s (receives_reset stream code) e h = gets_no_reset s stream h code
closed_step s (rejects id headers status now) e h = ground arith
closed_step s (resets stream id code) e h = resets_nothing s stream h id code
closed_step s (sends_datagram id bytes size) e h = refl
closed_step s (stops stream id code) e h = stops_nothing s stream h id code
closed_step s (writes stream id bytes fin) e h = writes_nothing s stream h id bytes fin

-- A closed session that holds nothing that waits stays as it is through any list of calls.
pub closed_run :
    (s : Session) (calls : List Call)
    → s.state ≡ SessionState.closed
    → IsEmptied s
    → (run s calls).0 ≡ s
unfolding run
closed_run s [] e h = refl
closed_run s (c ∷ cs) e h = let same = closed_step s c e h in rw same (closed_run s cs e h)

-- Once `abort` ends an open session, nothing waits in it, and no later call changes it.
pub aborted_run :
    (s : Session) (code : ErrorCode) (reason : Text) (now : F64) (calls : List Call)
    → is_open s.state ≡ true
    → IsEmptied (abort s code reason now).0
      × ((run (abort s code reason now).0 calls).0 ≡ (abort s code reason now).0)
aborted_run s code reason now calls e =
    let a = abort-IsEmptied s code reason now e in
    (a.0, closed_run (abort s code reason now).0 calls a.1 a.0)
