-- ===== src/Session/Lifecycle.antt =====
-- protocol/session.rs: the states of a session, which a call moves forward only.
pub mod Capsules
pub mod Open
pub mod Steps
use pywebtransport.Base.{
  ℕ, zero, suc, ◌≤◌, ◌≡◌, refl, ◌⊎◌, Bool, true, false, Option, none, some, List, [], ◌∷◌, length,
  take, drop, arith, Bool-cases, ◌==◌, is_empty,
}
use pywebtransport.Base.Maps.{lookup, remove, discard, insert}
use pywebtransport.Base.Word.{add64}
use pywebtransport.Common.{
  Bytes, ErrorCode, F64, Text, text, Headers, SessionState, StreamId, StreamDirection,
}
use pywebtransport.Events.{Effect}
use pywebtransport.Session.Close.{finish, abort, close, recv_connect_close, reject}
use pywebtransport.Session.Credit.{replenish_data_credit}
use pywebtransport.Session.Defs.{Session}
use pywebtransport.Session.Ended.{finish-IsEmptied, handle_closed-Keeps}
use pywebtransport.Session.Peer.{
  bind_stream, exceed_limit, reject_buffered, accept_peer, count_peer, handle_stream_opened, settle,
  settle_quietly, deliver, data_found, recv_stream_data,
}
use pywebtransport.Session.Replay.{
  credit-Keeps, streams_credit-Keeps, flush_blocked_writes-Keeps, flush_requests-Keeps,
}
use pywebtransport.Stream.Defs.{Stream}
use pywebtransport.Stream.Read
use pywebtransport.Common.Constants.{err_wt_flow_control_error}

-- The order of the states.
abbrev pub rank : SessionState → ℕ
rank SessionState.connecting = 0
rank SessionState.connected = 1
rank SessionState.draining = 2
rank SessionState.closing = 3
rank SessionState.closed = 4

abbrev pub Advances : Session → Session → Type 0
Advances s t = rank s.state ≤ rank t.state

pub rank-le : (state : SessionState) → rank state ≤ 4
rank-le SessionState.connecting = omega arith
rank-le SessionState.connected = omega arith
rank-le SessionState.draining = omega arith
rank-le SessionState.closing = omega arith
rank-le SessionState.closed = omega arith

pub abort-Advances :
    (s : Session) (code : ErrorCode) (reason : Text) (now : F64)
    → Advances s (abort s code reason now).0
unfolding abort
abort-Advances s code reason now =
    let f = (finish-IsEmptied s (some code) (some reason) now SessionState.closed).1 in
    ground (arith, f, rank-le s.state)

pub close-Advances :
    (s : Session) (id : ℕ) (code : ErrorCode) (reason : Option Text) (now : F64)
    → Advances s (close s id code reason now).0
unfolding close
close-Advances s id code reason now =
    let f = (finish-IsEmptied s (some code) reason now SessionState.closing).1 in ground (arith, f)

pub recv_connect_close-Advances :
    (s : Session) (code : ErrorCode) (reason : Text) (now : F64)
    → Advances s (recv_connect_close s code reason now).0
unfolding recv_connect_close
recv_connect_close-Advances s code reason now =
    let f = (finish-IsEmptied s (some code) (some reason) now SessionState.closed).1 in
    ground (arith, f, rank-le s.state)

pub reject-Advances :
    (s : Session) (id : ℕ) (headers : Headers) (status : ℕ) (now : F64)
    → Advances s (reject s id headers status now).0
unfolding reject
reject-Advances s id headers status now =
    let f =
      (finish-IsEmptied s s.close_code (some (text "wt_session reject")) now
        SessionState.closed).1 in
    ground (arith, f, rank-le s.state)

pub settle-Advances :
    (s : Session) (id : StreamId) (r : Stream × List Effect) → Advances s (settle s id r).0
unfolding settle
settle-Advances s id r =
    ground (arith, handle_closed-Keeps (record s { streams = insert id r.0 s.streams }) id)

deliver-Advances :
    (s : Session) (id : StreamId) (stream : Stream) (bytes : Bytes) (fin : Bool)
    → Advances s (deliver s id stream bytes fin).0
unfolding deliver
deliver-Advances s id stream bytes fin =
    let taken : Session = record s {
      streams = insert id (Read.recv_data stream bytes fin).0 s.streams;
      data_consumed = add64 s.data_consumed (length bytes);
    } in
    let credit = credit-Keeps taken false in
    let closed = handle_closed-Keeps (replenish_data_credit taken false).0 id in
    ground (arith, credit, closed)

pub recv_stream_data-Advances :
    (s : Session) (id : StreamId) (bytes : Bytes) (fin : Bool) (now : F64)
    → Advances s (recv_stream_data s id bytes fin now).0
unfolding recv_stream_data data_found
recv_stream_data-Advances s id bytes fin now = go (lookup id s.streams)
  where
    go : (found : Option Stream) → Advances s (data_found s id bytes fin now found).0
    go none = omega arith
    go (some stream) =
        let received : Session = record s {
          data_received = add64 s.data_received (length bytes);
        } in
        let over =
          abort-Advances received err_wt_flow_control_error (text "wt_session validate exceeded")
            now in
        let within = deliver-Advances received id stream bytes fin in ground (arith, over, within)
