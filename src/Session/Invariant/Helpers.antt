-- ===== src/Session/Invariant/Helpers.antt =====
-- protocol/session.rs: the helpers of the session methods keep a session valid.
use pywebtransport.Base.{
  ℕ, ◌≡◌, inl, inr, Bool, true, false, Option, none, some, List, [], ◌∷◌, arith, Bool-cases,
}
use pywebtransport.Base.Maps.{sort, keys, lookup, remove, discard}
use pywebtransport.Base.Word.{add64}
use pywebtransport.Utils.StreamIds.{is_peer_initiated_stream, is_unidirectional_stream}
use pywebtransport.Common.{F64, Text, ErrorCode, SessionState, StreamId}
use pywebtransport.Session.Close.{finish}
use pywebtransport.Session.Credit.{
  replenish_data_credit, replenish_uni, replenish_bidi, replenish_streams_credit, emit_data_blocked,
  emit_blocked_uni, emit_blocked_bidi, emit_streams_blocked,
}
use pywebtransport.Session.Defs.{Session, is_open}
use pywebtransport.Session.IsValid.{IsValid}
use pywebtransport.Session.Streams.{
  count_closed, handle_closed, is_closed_stream, abort_found, abort_one, abort_all, abort_streams,
}
use pywebtransport.Stream.Defs.{Stream}

module _ (s : Session) (v : IsValid s) where
  pub replenish_data_credit-IsValid : (force : Bool) → IsValid (replenish_data_credit s force).0
  unfolding replenish_data_credit
  replenish_data_credit-IsValid force = ground arith

  replenish_uni-IsValid : (force : Bool) → IsValid (replenish_uni s force).0
  unfolding replenish_uni
  replenish_uni-IsValid force = ground arith

  replenish_bidi-IsValid : (force : Bool) → IsValid (replenish_bidi s force).0
  unfolding replenish_bidi
  replenish_bidi-IsValid force = ground arith

  pub replenish_streams_credit-IsValid :
      (is_unidirectional force : Bool)
      → IsValid (replenish_streams_credit s is_unidirectional force).0
  unfolding replenish_streams_credit
  replenish_streams_credit-IsValid is_unidirectional force =
      ground (arith, replenish_uni-IsValid force, replenish_bidi-IsValid force)

  pub emit_data_blocked-IsValid : IsValid (emit_data_blocked s).0
  unfolding emit_data_blocked
  emit_data_blocked-IsValid = ground arith

  emit_blocked_uni-IsValid : IsValid (emit_blocked_uni s).0
  unfolding emit_blocked_uni
  emit_blocked_uni-IsValid = ground arith

  emit_blocked_bidi-IsValid : IsValid (emit_blocked_bidi s).0
  unfolding emit_blocked_bidi
  emit_blocked_bidi-IsValid = ground arith

  pub emit_streams_blocked-IsValid :
      (is_unidirectional : Bool) → IsValid (emit_streams_blocked s is_unidirectional).0
  unfolding emit_streams_blocked
  emit_streams_blocked-IsValid is_unidirectional =
      ground (arith, emit_blocked_uni-IsValid, emit_blocked_bidi-IsValid)

pub count_closed-IsValid : (s : Session) (id : StreamId) → IsValid s → IsValid (count_closed s id).0
unfolding count_closed
count_closed-IsValid s id v =
    let uni : Session = record s { peer_streams_uni_closed = add64 s.peer_streams_uni_closed 1 } in
    let bidi : Session = record s {
      peer_streams_bidi_closed = add64 s.peer_streams_bidi_closed 1;
    } in
    let uni-IsValid : IsValid uni = ground arith in
    let bidi-IsValid : IsValid bidi = ground arith in
    elim (Bool-cases (is_peer_initiated_stream id s.is_client)) [
      | inr ours ↦ rw ours v
      | inl theirs ↦ elim (Bool-cases (is_unidirectional_stream id)) [
        | inl one ↦ rw (theirs, one) (replenish_streams_credit-IsValid uni uni-IsValid true false)
        | inr two ↦
            rw (theirs, two) (replenish_streams_credit-IsValid bidi bidi-IsValid false false)
      ]
    ]

pub handle_closed-IsValid :
    (s : Session) (id : StreamId) → IsValid s → IsValid (handle_closed s id).0
unfolding handle_closed
handle_closed-IsValid s id v =
    let rest : Session = record s {
      streams = remove id s.streams;
      blocked_streams = discard id s.blocked_streams;
    } in
    let rest-IsValid : IsValid rest = ground arith in
    elim (Bool-cases (is_closed_stream (lookup id s.streams))) [
      | inl gone ↦ rw gone (count_closed-IsValid rest id rest-IsValid)
      | inr kept ↦ rw kept v
    ]

abort_found-IsValid :
    (s : Session) (id : StreamId) (found : Option Stream)
    → IsValid s
    → IsValid (abort_found s id found).0
unfolding abort_found
abort_found-IsValid s id none v = v
abort_found-IsValid s id (some stream) v = ground arith

abort_one-IsValid : (s : Session) (id : StreamId) → IsValid s → IsValid (abort_one s id).0
unfolding abort_one
abort_one-IsValid s id v =
    handle_closed-IsValid _ id (abort_found-IsValid s id (lookup id s.streams) v)

abort_all-IsValid : (s : Session) (ids : List StreamId) → IsValid s → IsValid (abort_all s ids).0
unfolding abort_all
abort_all-IsValid s [] v = v
abort_all-IsValid s (id ∷ ids) v =
    abort_all-IsValid (abort_one s id).0 ids (abort_one-IsValid s id v)

pub abort_streams-IsValid : (s : Session) → IsValid s → IsValid (abort_streams s).0
unfolding abort_streams
abort_streams-IsValid s v = ground (arith, abort_all-IsValid s (sort (keys s.streams)) v)

-- A session may be finished as closed, or as closing, whatever data it has received.
pub finish_over-IsValid :
    (s : Session) (n : ℕ) (code : Option ErrorCode) (reason : Option Text) (now : F64)
    (state : SessionState)
    → is_open state ≡ false
    → IsValid s
    → IsValid (finish (record s { data_received = n }) code reason now state).0
unfolding finish
finish_over-IsValid s n code reason now state e v =
    let ended : Session = record s {
      data_received = n;
      close_code = code;
      close_reason = reason;
      closed_at = some now;
      state = state;
      pending_capsules = [];
      pending_datagrams = [];
    } in
    let ended-IsValid : IsValid ended = ground arith in
    let left = abort_streams-IsValid ended ended-IsValid in ground arith

pub finish-IsValid :
    (s : Session) (code : Option ErrorCode) (reason : Option Text) (now : F64)
    (state : SessionState)
    → is_open state ≡ false
    → IsValid s
    → IsValid (finish s code reason now state).0
finish-IsValid s code reason now state e v =
    finish_over-IsValid s s.data_received code reason now state e v
