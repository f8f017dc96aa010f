-- ===== src/Session/Replay.antt =====
-- protocol/session.rs: the start of a session, `replay_pending_queues`: what is left of the early
-- capsules, datagrams and streams.
pub mod Capsules
pub mod Queues
use pywebtransport.Base.{
  ℕ, zero, suc, ◌≤◌, ◌≡◌, refl, ◌∙◌, sym, ◌⊎◌, inl, inr, Bool, true, false, not, ◌&&◌, ◌||◌, Option,
  none, some, List, [], ◌∷◌, length, arith, Bool-cases, ltb, leb, ◌==◌, is_empty,
}
use pywebtransport.Base.Maps.{lookup}
use pywebtransport.Common.{Bytes, F64, Text, SessionState, StreamId}
use pywebtransport.Session.Credit.{
  replenish_data_credit, replenish_streams_credit, replenish_uni, replenish_bidi, emit_data_blocked,
  emit_streams_blocked, emit_blocked_uni, emit_blocked_bidi,
}
use pywebtransport.Session.Defs.{Session, session_credit}
use pywebtransport.Session.Flow.{
  flush_found, unblock, flush_rounds, flush_blocked_writes, open_uni, open_bidi,
  flush_blocked_stream_requests,
}
use pywebtransport.Stream.Defs.{Stream}

-- What the flow control of a session leaves alone.
pub record Keeps (s t : Session) : Type 0 where
  pub same_state : t.state ≡ s.state
  pub same_capsules : t.pending_capsules ≡ s.pending_capsules

pub credit-Keeps : (s : Session) (force : Bool) → Keeps s (replenish_data_credit s force).0
unfolding replenish_data_credit
credit-Keeps s force = ground arith

pub streams_credit-Keeps :
    (s : Session) (uni force : Bool) → Keeps s (replenish_streams_credit s uni force).0
unfolding replenish_streams_credit replenish_uni replenish_bidi
streams_credit-Keeps s uni force = ground arith

data_blocked-Keeps : (s : Session) → Keeps s (emit_data_blocked s).0
unfolding emit_data_blocked
data_blocked-Keeps s = ground arith

streams_blocked-Keeps : (s : Session) (uni : Bool) → Keeps s (emit_streams_blocked s uni).0
unfolding emit_streams_blocked emit_blocked_uni emit_blocked_bidi
streams_blocked-Keeps s uni = ground arith

flush_found-Keeps :
    (s : Session) (id : StreamId) (found : Option Stream) → Keeps s (flush_found s id found).0
unfolding flush_found
flush_found-Keeps s id none = ground arith
flush_found-Keeps s id (some stream) = ground arith

flush_rounds-Keeps :
    (rounds : ℕ) (s : Session) (queue : List StreamId) → Keeps s (flush_rounds rounds s queue).0
unfolding flush_rounds
flush_rounds-Keeps zero s queue = ground arith
flush_rounds-Keeps (suc rounds) s [] = ground arith
flush_rounds-Keeps (suc rounds) s (id ∷ rest) =
    let popped : Session = unblock s id rest in
    let found = flush_found-Keeps popped id (lookup id s.streams) in
    let t : Session = (flush_found popped id (lookup id s.streams)).0 in
    let later = flush_rounds-Keeps rounds t t.blocked_streams_queue in
    let both : Keeps s (flush_rounds rounds t t.blocked_streams_queue).0 =
      ground (arith, found, later) in
    elim (Bool-cases (session_credit popped == 0)) [
      | inl spent ↦ rw (spent, flush_rounds) (ground arith)
      | inr left ↦ rw (left, flush_rounds) both
    ]

pub flush_blocked_writes-Keeps : (s : Session) → Keeps s (flush_blocked_writes s).0
unfolding flush_blocked_writes
flush_blocked_writes-Keeps s =
    let rounds = flush_rounds-Keeps (length s.blocked_streams_queue) s s.blocked_streams_queue in
    let t : Session = (flush_rounds (length s.blocked_streams_queue) s s.blocked_streams_queue).0 in
    ground (arith, rounds, data_blocked-Keeps t)

pub flush_requests-Keeps :
    (s : Session) (uni : Bool) → Keeps s (flush_blocked_stream_requests s uni).0
unfolding flush_blocked_stream_requests open_uni open_bidi
flush_requests-Keeps s true = ground (arith, streams_blocked-Keeps (open_uni s).0 true)
flush_requests-Keeps s false = ground (arith, streams_blocked-Keeps (open_bidi s).0 false)
