-- ===== src/Session/Calls.antt =====
-- protocol/session.rs: the calls that `Connection` makes of a session, as one step function.
use pywebtransport.Base.{ℕ, ◌<◌, Bool, true, false, Option, List, [], ◌∷◌, ◌++◌}
use pywebtransport.Common.{Bytes, F64, Text, Headers, ErrorCode, RequestId, StreamId}
use pywebtransport.Events.{Effect}
use pywebtransport.Session.Capsules.{recv_capsule}
use pywebtransport.Session.Close.{abort, close, recv_connect_close, reject}
use pywebtransport.Session.Datagrams.{
  read_datagram, recv_datagram, send_datagram, export_keying_material,
}
use pywebtransport.Session.Defs.{Session, diagnose}
use pywebtransport.Session.Flow.{
  write_stream, complete_stream_write, create_stream, defer_stream, flush_blocked_stream_requests,
}
use pywebtransport.Session.Open.{accept, confirm, drain}
use pywebtransport.Session.Peer.{
  bind_stream, handle_stream_opened, handle_stream_data_acknowledged, diagnose_stream, read_stream,
  reset_stream, stop_stream, recv_stream_data, recv_stream_reset, recv_stop_sending,
}

pub data Call : Type 0 where
  aborts : ErrorCode → Text → F64 → Call
  accepts : RequestId → Headers → Option Text → F64 → Call
  binds_stream : StreamId → RequestId → Bool → F64 → Call
  closes : RequestId → ErrorCode → Option Text → F64 → Call
  completes_write : StreamId → Call
  confirms : Option Text → F64 → Call
  creates_stream : RequestId → Bool → Call
  defers_stream : RequestId → Bool → Call
  diagnoses : RequestId → Call
  diagnoses_stream : StreamId → RequestId → Call
  drains : Call
  exports_keys : RequestId → Text → Bytes → ℕ → Call
  flushes_requests : Bool → Call
  acknowledges : StreamId → Call
  opens : StreamId → F64 → Call
  reads_datagram : RequestId → Call
  reads : StreamId → RequestId → ℕ → Call
  receives_capsule : ℕ → Bytes → F64 → Call
  receives_close : ErrorCode → Text → F64 → Call
  receives_datagram : Bytes → Call
  receives_stop : StreamId → ErrorCode → Call
  receives : StreamId → Bytes → Bool → F64 → Call
  receives_reset : StreamId → ErrorCode → Call
  rejects : RequestId → Headers → ℕ → F64 → Call
  resets : StreamId → RequestId → ErrorCode → Call
  sends_datagram : RequestId → Bytes → ℕ → Call
  stops : StreamId → RequestId → ErrorCode → Call
  writes : StreamId → RequestId → Bytes → Bool → Call

unfoldable pub step : Session → Call → Session × List Effect
step s (aborts code reason now) = abort s code reason now
step s (accepts id headers protocol now) = accept s id headers protocol now
step s (binds_stream stream id uni now) = bind_stream s stream id uni now
step s (closes id code reason now) = close s id code reason now
step s (completes_write stream) = complete_stream_write s stream
step s (confirms protocol now) = confirm s protocol now
step s (creates_stream id uni) = create_stream s id uni
step s (defers_stream id uni) = defer_stream s id uni
step s (diagnoses id) = (s, diagnose s id)
step s (diagnoses_stream stream id) = (s, diagnose_stream s stream id)
step s drains = drain s
step s (exports_keys id label context size) = (s, export_keying_material s id label context size)
step s (flushes_requests uni) = flush_blocked_stream_requests s uni
step s (acknowledges stream) = handle_stream_data_acknowledged s stream
step s (opens stream now) = handle_stream_opened s stream now
step s (reads_datagram id) = read_datagram s id
step s (reads stream id size) = read_stream s stream id size
step s (receives_capsule kind value now) = recv_capsule s kind value now
step s (receives_close code reason now) = recv_connect_close s code reason now
step s (receives_datagram bytes) = recv_datagram s bytes
step s (receives_stop stream code) = recv_stop_sending s stream code
step s (receives stream bytes fin now) = recv_stream_data s stream bytes fin now
step s (receives_reset stream code) = recv_stream_reset s stream code
step s (rejects id headers status now) = reject s id headers status now
step s (resets stream id code) = reset_stream s stream id code
step s (sends_datagram id bytes size) = (s, send_datagram s id bytes size)
step s (stops stream id code) = stop_stream s stream id code
step s (writes stream id bytes fin) = write_stream s stream id bytes fin

unfoldable pub run : Session → List Call → Session × List Effect
run s [] = (s, [])
run s (c ∷ cs) =
    let (s', effects) = step s c in let (s'', later) = run s' cs in (s'', effects ++ later)

-- What the caller owes: a stream that is put off was counted as opened before.
abbrev pub Owes : Session → Call → Type 0
Owes s (defers_stream id true) = 0 < s.local_streams_uni_opened
Owes s (defers_stream id false) = 0 < s.local_streams_bidi_opened
Owes s _ = Unit {0}
