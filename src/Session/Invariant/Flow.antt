-- ===== src/Session/Invariant/Flow.antt =====
-- protocol/session.rs: the methods that spend credit keep a session valid.
use pywebtransport.Base.{
  ℕ, zero, suc, ◌≤◌, ◌<◌, ◌^◌, ◌≡◌, ◌⊎◌, inl, inr, Bool, true, false, Option, none, some, List, [],
  ◌∷◌, length, arith, Bool-cases, ◌==◌,
}
use pywebtransport.Base.Maps.{lookup}
use pywebtransport.Base.Word.{add64}
use pywebtransport.Common.{Bytes, RequestId, SessionId, StreamId}
use pywebtransport.Events.{Effect}
use pywebtransport.Session.Calls.{Owes, defers_stream}
use pywebtransport.Session.Defs.{Session, session_credit}
use pywebtransport.Session.Flow.{
  after_send, write_found, write_stream, complete_found, complete_stream_write, flush_found,
  unblock, flush_rounds, flush_blocked_writes, create_stream, defer_stream, open_blocked, open_uni,
  open_bidi, flush_blocked_stream_requests, block_request,
}
use pywebtransport.Session.Invariant.Helpers.{
  emit_data_blocked-IsValid, emit_streams_blocked-IsValid,
}
use pywebtransport.Session.IsValid.{IsValid}
use pywebtransport.Stream.Defs.{Stream}
use pywebtransport.Stream.Order.{flush_writes-Flushed, write-sent_le, complete_write-sent_le}

pub after_send-IsValid :
    (s : Session) (id : StreamId) (stream : Stream) (effects : List Effect) (sent : ℕ)
    → sent ≤ session_credit s
    → IsValid s
    → IsValid (after_send s id (stream, effects, sent)).0
unfolding after_send
after_send-IsValid s id stream effects sent h v = emit_data_blocked-IsValid _ (ground arith)

pub write_stream-IsValid :
    (s : Session) (stream id : ℕ) (bytes : Bytes) (fin : Bool)
    → IsValid s
    → IsValid (write_stream s stream id bytes fin).0
unfolding write_stream
write_stream-IsValid s stream id bytes fin v = go (lookup stream s.streams)
  where
    go : (found : Option Stream) → IsValid (write_found s stream id bytes fin found).0
    go none = v
    go (some found) =
        after_send-IsValid s stream _ _ _ (write-sent_le found id bytes fin (session_credit s)) v

pub complete_stream_write-IsValid :
    (s : Session) (stream : ℕ) → IsValid s → IsValid (complete_stream_write s stream).0
unfolding complete_stream_write
complete_stream_write-IsValid s stream v = go (lookup stream s.streams)
  where
    go : (found : Option Stream) → IsValid (complete_found s stream found).0
    go none = v
    go (some found) =
        after_send-IsValid s stream _ _ _ (complete_write-sent_le found (session_credit s)) v

pub flush_found-IsValid :
    (s : Session) (id : StreamId) (found : Option Stream)
    → IsValid s
    → IsValid (flush_found s id found).0
unfolding flush_found
flush_found-IsValid s id none v = v
flush_found-IsValid s id (some stream) v =
    ground (arith, flush_writes-Flushed stream (session_credit s))

pub flush_rounds-IsValid :
    (rounds : ℕ) (s : Session) (queue : List StreamId)
    → IsValid s
    → IsValid (flush_rounds rounds s queue).0
unfolding flush_rounds
flush_rounds-IsValid zero s queue v = v
flush_rounds-IsValid (suc rounds) s [] v = v
flush_rounds-IsValid (suc rounds) s (id ∷ rest) v =
    let popped : Session = unblock s id rest in
    let popped-IsValid : IsValid popped = ground arith in
    let found = flush_found-IsValid popped id (lookup id s.streams) popped-IsValid in
    let t : Session = (flush_found popped id (lookup id s.streams)).0 in
    elim (Bool-cases (session_credit popped == 0)) [
      | inl spent ↦ rw (spent, flush_rounds) (ground arith)
      | inr left ↦
          rw (left, flush_rounds) (flush_rounds-IsValid rounds t t.blocked_streams_queue found)
    ]

pub flush_blocked_writes-IsValid : (s : Session) → IsValid s → IsValid (flush_blocked_writes s).0
unfolding flush_blocked_writes
flush_blocked_writes-IsValid s v = ground (
  arith,
  emit_data_blocked-IsValid
      (flush_rounds (length s.blocked_streams_queue) s s.blocked_streams_queue).0
      (flush_rounds-IsValid (length s.blocked_streams_queue) s s.blocked_streams_queue v),
)

pub block_request-IsValid :
    (s : Session) (id : ℕ) (uni : Bool) → IsValid s → IsValid (block_request s id uni)
block_request-IsValid s id true v = ground arith
block_request-IsValid s id false v = ground arith

pub create_stream-IsValid :
    (s : Session) (id : ℕ) (uni : Bool) → IsValid s → IsValid (create_stream s id uni).0
unfolding create_stream
create_stream-IsValid s id uni v = ground (
  arith,
  emit_streams_blocked-IsValid (block_request s id uni) (block_request-IsValid s id uni v) uni,
)

-- The loop opens no stream beyond the limit.
open_blocked-le :
    (id : SessionId) (negotiated uni : Bool) (limit opened : ℕ) (requests : List RequestId)
    → limit < 2 ^ 64
    → (negotiated ≡ false) ⊎ (opened ≤ limit)
    → (negotiated ≡ false) ⊎ ((open_blocked id negotiated uni limit opened requests).0 ≤ limit)
unfolding open_blocked
open_blocked-le id negotiated uni limit opened [] b h = h
open_blocked-le id negotiated uni limit opened (request ∷ rest) b h =
    ground (arith, open_blocked-le id negotiated uni limit (add64 opened 1) rest b)

pub open_uni-IsValid : (s : Session) → IsValid s → IsValid (open_uni s).0
unfolding open_uni
open_uni-IsValid s v =
    let le =
      open_blocked-le s.id s.flow_control_negotiated true s.peer_max_streams_uni
        s.local_streams_uni_opened s.blocked_stream_requests_uni v.peer_max_uni_u64 v.local_uni in
    ground arith

pub open_bidi-IsValid : (s : Session) → IsValid s → IsValid (open_bidi s).0
unfolding open_bidi
open_bidi-IsValid s v =
    let le =
      open_blocked-le s.id s.flow_control_negotiated false s.peer_max_streams_bidi
        s.local_streams_bidi_opened s.blocked_stream_requests_bidi v.peer_max_bidi_u64
        v.local_bidi in
    ground arith

pub flush_blocked_stream_requests-IsValid :
    (s : Session) (uni : Bool) → IsValid s → IsValid (flush_blocked_stream_requests s uni).0
unfolding flush_blocked_stream_requests
flush_blocked_stream_requests-IsValid s true v =
    emit_streams_blocked-IsValid (open_uni s).0 (open_uni-IsValid s v) true
flush_blocked_stream_requests-IsValid s false v =
    emit_streams_blocked-IsValid (open_bidi s).0 (open_bidi-IsValid s v) false

pub defer_stream-IsValid :
    (s : Session) (id : ℕ) (uni : Bool)
    → Owes s (defers_stream id uni)
    → IsValid s
    → IsValid (defer_stream s id uni).0
unfolding defer_stream
defer_stream-IsValid s id true h v = ground arith
defer_stream-IsValid s id false h v = ground arith
