-- ===== src/Session/Lifecycle/Steps.antt =====
-- protocol/session.rs: a call moves the state of a session forward only.
use pywebtransport.Base.{ℕ, ◌≤◌, Bool, true, false, Option, none, some, List, [], ◌∷◌, arith}
use pywebtransport.Base.Maps.{lookup}
use pywebtransport.Base.Word.{add64}
use pywebtransport.Common.{Bytes, F64, text, StreamId, StreamDirection}
use pywebtransport.Common.Constants.{err_wt_flow_control_error}
use pywebtransport.Events.{Effect}
use pywebtransport.Session.Calls.{
  Call, step, run, aborts, accepts, binds_stream, closes, completes_write, confirms, creates_stream,
  defers_stream, diagnoses, diagnoses_stream, drains, exports_keys, flushes_requests, acknowledges,
  opens, reads_datagram, reads, receives_capsule, receives_close, receives_datagram, receives_stop,
  receives, receives_reset, rejects, resets, sends_datagram, stops, writes,
}
use pywebtransport.Session.Credit.{
  emit_data_blocked, emit_streams_blocked, emit_blocked_uni, emit_blocked_bidi,
  replenish_streams_credit, replenish_uni, replenish_bidi,
}
use pywebtransport.Session.Datagrams.{read_datagram}
use pywebtransport.Session.Defs.{Session}
use pywebtransport.Session.Flow.{
  after_send, write_found, write_stream, complete_found, complete_stream_write, create_stream,
  defer_stream,
}
use pywebtransport.Session.Lifecycle.{
  Advances, rank, abort-Advances, close-Advances, recv_connect_close-Advances, reject-Advances,
  settle-Advances, recv_stream_data-Advances,
}
use pywebtransport.Session.Lifecycle.Capsules.{recv_capsule-Advances}
use pywebtransport.Session.Lifecycle.Open.{
  confirm-Advances, accept-Advances, drain-Advances, recv_datagram-state,
}
use pywebtransport.Session.Peer.{
  bind_stream, exceed_limit, reject_buffered, accept_peer, count_peer, handle_stream_opened,
  handle_stream_data_acknowledged, read_stream, reset_stream, stop_stream, recv_stream_reset,
  recv_stop_sending, acknowledge_found, read_found, reset_found, stop_found, reset_received,
  stop_received, settle_quietly,
}
use pywebtransport.Session.Replay.{flush_requests-Keeps}
use pywebtransport.Session.Streams.{suppress_pending_stream_events}
use pywebtransport.Stream.Defs.{Stream}
use pywebtransport.Stream.Read
use pywebtransport.Stream.Reset
use pywebtransport.Utils.StreamIds.{stream_direction_from_id}

after_send-Advances :
    (s : Session) (id : StreamId) (r : Stream × List Effect × ℕ) → Advances s (after_send s id r).0
unfolding after_send emit_data_blocked
after_send-Advances s id r = ground arith

accept_peer-Advances :
    (s : Session) (id : StreamId) (d : StreamDirection) (now : F64)
    → Advances s (accept_peer s id d now).0
unfolding accept_peer reject_buffered replenish_streams_credit replenish_uni replenish_bidi
accept_peer-Advances s id d now = ground arith

count_peer-Advances :
    (s : Session) (id : StreamId) (d : StreamDirection) (now : F64)
    → Advances s (count_peer s id d now).0
unfolding count_peer exceed_limit
count_peer-Advances s id StreamDirection.bidirectional now =
    let counted : Session = record s {
      peer_streams_bidi_opened = add64 s.peer_streams_bidi_opened 1;
    } in
    ground (
      arith,
      abort-Advances s err_wt_flow_control_error (text "wt_session validate exceeded") now,
      accept_peer-Advances counted id StreamDirection.bidirectional now,
    )
count_peer-Advances s id StreamDirection.receive_only now =
    let counted : Session = record s {
      peer_streams_uni_opened = add64 s.peer_streams_uni_opened 1;
    } in
    ground (
      arith,
      abort-Advances s err_wt_flow_control_error (text "wt_session validate exceeded") now,
      accept_peer-Advances counted id StreamDirection.receive_only now,
    )
count_peer-Advances s id StreamDirection.send_only now = omega arith

opened-Advances :
    (s : Session) (id : StreamId) (now : F64) → Advances s (handle_stream_opened s id now).0
unfolding handle_stream_opened
opened-Advances s id now =
    ground (arith, count_peer-Advances s id (stream_direction_from_id id s.is_client) now)

settle_quietly-Advances :
    (s : Session) (id : StreamId) (r : Stream × List Effect) → Advances s (settle_quietly s id r).0
unfolding settle_quietly
settle_quietly-Advances s id r = settle-Advances s id (r.0, suppress_pending_stream_events s id r.1)

module _ (s : Session) (stream : StreamId) where
  written-Advances :
      (id : ℕ) (bytes : Bytes) (fin : Bool) → Advances s (write_stream s stream id bytes fin).0
  unfolding write_stream
  written-Advances id bytes fin = go (lookup stream s.streams)
    where
      go : (found : Option Stream) → Advances s (write_found s stream id bytes fin found).0
      go none = omega arith
      go (some found) = after_send-Advances s stream _

  completed-Advances : Advances s (complete_stream_write s stream).0
  unfolding complete_stream_write
  completed-Advances = go (lookup stream s.streams)
    where
      go : (found : Option Stream) → Advances s (complete_found s stream found).0
      go none = omega arith
      go (some found) = after_send-Advances s stream _

  acknowledged-Advances : Advances s (handle_stream_data_acknowledged s stream).0
  unfolding handle_stream_data_acknowledged
  acknowledged-Advances = go (lookup stream s.streams)
    where
      go : (found : Option Stream) → Advances s (acknowledge_found s stream found).0
      go none = omega arith
      go (some found) = settle-Advances s stream _

  read-Advances : (id size : ℕ) → Advances s (read_stream s stream id size).0
  unfolding read_stream
  read-Advances id size = go (lookup stream s.streams)
    where
      go : (found : Option Stream) → Advances s (read_found s stream id size found).0
      go none = omega arith
      go (some found) = settle-Advances s stream (Read.read found id size)

  reset-Advances : (id code : ℕ) → Advances s (reset_stream s stream id code).0
  unfolding reset_stream
  reset-Advances id code = go (lookup stream s.streams)
    where
      go : (found : Option Stream) → Advances s (reset_found s stream id code found).0
      go none = omega arith
      go (some found) = settle-Advances s stream (Reset.reset found id code)

  stop-Advances : (id code : ℕ) → Advances s (stop_stream s stream id code).0
  unfolding stop_stream
  stop-Advances id code = go (lookup stream s.streams)
    where
      go : (found : Option Stream) → Advances s (stop_found s stream id code found).0
      go none = omega arith
      go (some found) = settle-Advances s stream (Reset.stop found id code)

  gets_reset-Advances : (code : ℕ) → Advances s (recv_stream_reset s stream code).0
  unfolding recv_stream_reset
  gets_reset-Advances code = go (lookup stream s.streams)
    where
      go : (found : Option Stream) → Advances s (reset_received s stream code found).0
      go none = omega arith
      go (some found) = settle_quietly-Advances s stream (Reset.recv_reset found code)

  gets_stop-Advances : (code : ℕ) → Advances s (recv_stop_sending s stream code).0
  unfolding recv_stop_sending
  gets_stop-Advances code = go (lookup stream s.streams)
    where
      go : (found : Option Stream) → Advances s (stop_received s stream code found).0
      go none = omega arith
      go (some found) = settle_quietly-Advances s stream (Reset.recv_stop_sending found code)

create-Advances : (s : Session) (id : ℕ) (uni : Bool) → Advances s (create_stream s id uni).0
unfolding create_stream emit_streams_blocked emit_blocked_uni emit_blocked_bidi
create-Advances s id true = ground arith
create-Advances s id false = ground arith

defer-Advances : (s : Session) (id : ℕ) (uni : Bool) → Advances s (defer_stream s id uni).0
unfolding defer_stream
defer-Advances s id true = ground arith
defer-Advances s id false = ground arith

bind-Advances :
    (s : Session) (stream id : ℕ) (uni : Bool) (now : F64)
    → Advances s (bind_stream s stream id uni now).0
unfolding bind_stream
bind-Advances s stream id uni now = ground arith

read_datagram-Advances : (s : Session) (id : ℕ) → Advances s (read_datagram s id).0
unfolding read_datagram
read_datagram-Advances s id = ground arith

-- No call moves a session back in the order connecting, connected, draining, closing, closed.
pub step-Advances : (s : Session) (c : Call) → rank s.state ≤ rank (step s c).0.state
unfolding step
step-Advances s (aborts code reason now) = abort-Advances s code reason now
step-Advances s (accepts id headers protocol now) = accept-Advances s id headers protocol now
step-Advances s (binds_stream stream id uni now) = bind-Advances s stream id uni now
step-Advances s (closes id code reason now) = close-Advances s id code reason now
step-Advances s (completes_write stream) = completed-Advances s stream
step-Advances s (confirms protocol now) = confirm-Advances s protocol now
step-Advances s (creates_stream id uni) = create-Advances s id uni
step-Advances s (defers_stream id uni) = defer-Advances s id uni
step-Advances s (diagnoses id) = omega arith
step-Advances s (diagnoses_stream stream id) = omega arith
step-Advances s drains = drain-Advances s
step-Advances s (exports_keys id label context size) = omega arith
step-Advances s (flushes_requests uni) = ground (arith, flush_requests-Keeps s uni)
step-Advances s (acknowledges stream) = acknowledged-Advances s stream
step-Advances s (opens stream now) = opened-Advances s stream now
step-Advances s (reads_datagram id) = read_datagram-Advances s id
step-Advances s (reads stream id size) = read-Advances s stream id size
step-Advances s (receives_capsule kind value now) = recv_capsule-Advances s now kind value
step-Advances s (receives_close code reason now) = recv_connect_close-Advances s code reason now
step-Advances s (receives_datagram bytes) = ground (arith, recv_datagram-state s bytes)
step-Advances s (receives_stop stream code) = gets_stop-Advances s stream code
step-Advances s (receives stream bytes fin now) = recv_stream_data-Advances s stream bytes fin now
step-Advances s (receives_reset stream code) = gets_reset-Advances s stream code
step-Advances s (rejects id headers status now) = reject-Advances s id headers status now
step-Advances s (resets stream id code) = reset-Advances s stream id code
step-Advances s (sends_datagram id bytes size) = omega arith
step-Advances s (stops stream id code) = stop-Advances s stream id code
step-Advances s (writes stream id bytes fin) = written-Advances s stream id bytes fin

-- The same for any list of calls.
pub run-Advances : (s : Session) (calls : List Call) → rank s.state ≤ rank (run s calls).0.state
unfolding run
run-Advances s [] = omega arith
run-Advances s (c ∷ cs) = omega (arith, step-Advances s c, run-Advances (step s c).0 cs)
