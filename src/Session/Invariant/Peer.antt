-- ===== src/Session/Invariant/Peer.antt =====
-- protocol/session.rs: the methods on single streams keep a session valid.
use pywebtransport.Base.{
  ℕ, inl, inr, Bool, true, false, ◌&&◌, Option, none, some, List, [], ◌∷◌, length, length-append,
  arith, Bool-cases, ltb, leb,
}
use pywebtransport.Base.Maps.{lookup, insert}
use pywebtransport.Base.Word.{add64}
use pywebtransport.Common.{Bytes, F64, text, StreamId, StreamDirection}
use pywebtransport.Common.Constants.{err_wt_flow_control_error}
use pywebtransport.Events.{Effect}
use pywebtransport.Session.Defs.{Session}
use pywebtransport.Session.Invariant.Ends.{abort-IsValid, abort_over-IsValid}
use pywebtransport.Session.Invariant.Helpers.{
  handle_closed-IsValid, replenish_data_credit-IsValid, replenish_streams_credit-IsValid,
}
use pywebtransport.Session.IsValid.{IsValid}
use pywebtransport.Session.Peer.{
  bind_stream, exceed_limit, reject_buffered, accept_peer, count_peer, handle_stream_opened, settle,
  settle_quietly, acknowledge_found, handle_stream_data_acknowledged, read_found, read_stream,
  reset_found, reset_stream, stop_found, stop_stream, reset_received, recv_stream_reset,
  stop_received, recv_stop_sending, deliver, data_found, recv_stream_data, is_bidirectional,
}
use pywebtransport.Stream.Defs.{Stream}
use pywebtransport.Stream.Read
use pywebtransport.Stream.Reset
use pywebtransport.Utils.StreamIds.{stream_direction_from_id}

pub bind_stream-IsValid :
    (s : Session) (stream id : ℕ) (uni : Bool) (now : F64)
    → IsValid s
    → IsValid (bind_stream s stream id uni now).0
unfolding bind_stream
bind_stream-IsValid s stream id uni now v = ground arith

pub settle-IsValid :
    (s : Session) (id : StreamId) (r : Stream × List Effect) → IsValid s → IsValid (settle s id r).0
unfolding settle
settle-IsValid s id r v = handle_closed-IsValid _ id (ground arith)

pub settle_quietly-IsValid :
    (s : Session) (id : StreamId) (r : Stream × List Effect)
    → IsValid s
    → IsValid (settle_quietly s id r).0
unfolding settle_quietly
settle_quietly-IsValid s id r v = handle_closed-IsValid _ id (ground arith)

module _ (s : Session) (stream : StreamId) (v : IsValid s) where
  pub acknowledged-IsValid : IsValid (handle_stream_data_acknowledged s stream).0
  unfolding handle_stream_data_acknowledged
  acknowledged-IsValid = go (lookup stream s.streams)
    where
      go : (found : Option Stream) → IsValid (acknowledge_found s stream found).0
      go none = v
      go (some found) = settle-IsValid s stream _ v

  pub read_stream-IsValid : (id size : ℕ) → IsValid (read_stream s stream id size).0
  unfolding read_stream
  read_stream-IsValid id size = go (lookup stream s.streams)
    where
      go : (found : Option Stream) → IsValid (read_found s stream id size found).0
      go none = v
      go (some found) = settle-IsValid s stream (Read.read found id size) v

  pub reset_stream-IsValid : (id code : ℕ) → IsValid (reset_stream s stream id code).0
  unfolding reset_stream
  reset_stream-IsValid id code = go (lookup stream s.streams)
    where
      go : (found : Option Stream) → IsValid (reset_found s stream id code found).0
      go none = v
      go (some found) = settle-IsValid s stream (Reset.reset found id code) v

  pub stop_stream-IsValid : (id code : ℕ) → IsValid (stop_stream s stream id code).0
  unfolding stop_stream
  stop_stream-IsValid id code = go (lookup stream s.streams)
    where
      go : (found : Option Stream) → IsValid (stop_found s stream id code found).0
      go none = v
      go (some found) = settle-IsValid s stream (Reset.stop found id code) v

  pub recv_stream_reset-IsValid : (code : ℕ) → IsValid (recv_stream_reset s stream code).0
  unfolding recv_stream_reset
  recv_stream_reset-IsValid code = go (lookup stream s.streams)
    where
      go : (found : Option Stream) → IsValid (reset_received s stream code found).0
      go none = v
      go (some found) = settle_quietly-IsValid s stream (Reset.recv_reset found code) v

  pub recv_stop_sending-IsValid : (code : ℕ) → IsValid (recv_stop_sending s stream code).0
  unfolding recv_stop_sending
  recv_stop_sending-IsValid code = go (lookup stream s.streams)
    where
      go : (found : Option Stream) → IsValid (stop_received s stream code found).0
      go none = v
      go (some found) = settle_quietly-IsValid s stream (Reset.recv_stop_sending found code) v

pub deliver-IsValid :
    (s : Session) (id : StreamId) (stream : Stream) (bytes : Bytes) (fin : Bool)
    → IsValid s
    → IsValid (deliver s id stream bytes fin).0
unfolding deliver
deliver-IsValid s id stream bytes fin v = handle_closed-IsValid _ id (
    replenish_data_credit-IsValid
      (record s {
        streams = insert id (Read.recv_data stream bytes fin).0 s.streams;
        data_consumed = add64 s.data_consumed (length bytes);
      })
      (ground arith) false)

-- The count of received bytes may pass the limit only in a session that is then aborted.
pub data_found-IsValid :
    (s : Session) (id : StreamId) (bytes : Bytes) (fin : Bool) (now : F64) (found : Option Stream)
    → IsValid s
    → IsValid (data_found s id bytes fin now found).0
unfolding data_found
data_found-IsValid s id bytes fin now none v = v
data_found-IsValid s id bytes fin now (some stream) v =
    let n : ℕ = add64 s.data_received (length bytes) in
    let received : Session = record s { data_received = n } in
    let over =
      abort_over-IsValid s n err_wt_flow_control_error (text "wt_session validate exceeded") now
        v in
    elim (Bool-cases (s.flow_control_negotiated && ltb s.local_max_data n)) [
      | inl e ↦ rw e over
      | inr e ↦ rw e (deliver-IsValid received id stream bytes fin (ground arith))
    ]

pub recv_stream_data-IsValid :
    (s : Session) (id : StreamId) (bytes : Bytes) (fin : Bool) (now : F64)
    → IsValid s
    → IsValid (recv_stream_data s id bytes fin now).0
unfolding recv_stream_data
recv_stream_data-IsValid s id bytes fin now v =
    data_found-IsValid s id bytes fin now (lookup id s.streams) v

pub exceed_limit-IsValid :
    (s : Session) (id : StreamId) (direction : StreamDirection) (now : F64)
    → IsValid s
    → IsValid (exceed_limit s id direction now).0
unfolding exceed_limit
exceed_limit-IsValid s id direction now v =
    abort-IsValid s err_wt_flow_control_error (text "wt_session validate exceeded") now v

pub reject_buffered-IsValid :
    (s : Session) (id : StreamId) (direction : StreamDirection)
    → IsValid s
    → IsValid (reject_buffered s id direction).0
unfolding reject_buffered
reject_buffered-IsValid s id direction v =
    let bidi : Session = record s {
      peer_streams_bidi_closed = add64 s.peer_streams_bidi_closed 1;
    } in
    let uni : Session = record s { peer_streams_uni_closed = add64 s.peer_streams_uni_closed 1 } in
    let bidi-IsValid : IsValid bidi = ground arith in
    let uni-IsValid : IsValid uni = ground arith in
    elim (Bool-cases (is_bidirectional direction)) [
      | inl two ↦ rw two (replenish_streams_credit-IsValid bidi bidi-IsValid false false)
      | inr one ↦ rw one (replenish_streams_credit-IsValid uni uni-IsValid true false)
    ]

pub accept_peer-IsValid :
    (s : Session) (id : StreamId) (direction : StreamDirection) (now : F64)
    → IsValid s
    → IsValid (accept_peer s id direction now).0
unfolding accept_peer
accept_peer-IsValid s id direction now v =
    ground
      (arith, length-append s.pending_streams (id ∷ []), reject_buffered-IsValid s id direction v)

pub count_peer-IsValid :
    (s : Session) (id : StreamId) (direction : StreamDirection) (now : F64)
    → IsValid s
    → IsValid (count_peer s id direction now).0
unfolding count_peer
count_peer-IsValid s id StreamDirection.bidirectional now v =
    let counted : Session = record s {
      peer_streams_bidi_opened = add64 s.peer_streams_bidi_opened 1;
    } in
    let over = exceed_limit-IsValid s id StreamDirection.bidirectional now v in
    elim (Bool-cases
      (s.flow_control_negotiated && leb s.local_max_streams_bidi s.peer_streams_bidi_opened)) [
        | inl e ↦ rw e over
        | inr e ↦
            rw e (accept_peer-IsValid counted id StreamDirection.bidirectional now (ground arith))
      ]
count_peer-IsValid s id StreamDirection.receive_only now v =
    let counted : Session = record s {
      peer_streams_uni_opened = add64 s.peer_streams_uni_opened 1;
    } in
    let over = exceed_limit-IsValid s id StreamDirection.receive_only now v in
    elim (Bool-cases
      (s.flow_control_negotiated && leb s.local_max_streams_uni s.peer_streams_uni_opened)) [
        | inl e ↦ rw e over
        | inr e ↦
            rw e (accept_peer-IsValid counted id StreamDirection.receive_only now (ground arith))
      ]
count_peer-IsValid s id StreamDirection.send_only now v = v

pub handle_stream_opened-IsValid :
    (s : Session) (id : StreamId) (now : F64)
    → IsValid s
    → IsValid (handle_stream_opened s id now).0
unfolding handle_stream_opened
handle_stream_opened-IsValid s id now v =
    ground (arith, count_peer-IsValid s id (stream_direction_from_id id s.is_client) now v)
