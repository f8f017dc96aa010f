-- ===== src/Session/Lifecycle/Open.antt =====
-- protocol/session.rs: `accept`, `confirm` and `drain` move the state of a session forward only.
use pywebtransport.Base.{
  ℕ, zero, suc, ◌≤◌, ◌≡◌, refl, inl, inr, true, Option, List, [], ◌∷◌, length, arith, Bool-cases,
}
use pywebtransport.Common.{Bytes, F64, Text, Headers, SessionState}
use pywebtransport.Session.Capsules.{recv_capsule}
use pywebtransport.Session.Datagrams.{recv_datagram}
use pywebtransport.Session.Defs.{Session, is_connecting, is_connected}
use pywebtransport.Session.Lifecycle.{Advances, rank}
use pywebtransport.Session.Lifecycle.Capsules.{recv_capsule-Advances}
use pywebtransport.Session.Open.{
  replay_capsules, replay_datagrams, replay_pending_queues, accept, confirm, drain,
}

replay_capsules-Advances :
    (rounds : ℕ) (s : Session) (queue : List (ℕ × Bytes)) (now : F64)
    → Advances s (replay_capsules rounds s queue now).0
unfolding replay_capsules
replay_capsules-Advances zero s queue now = omega arith
replay_capsules-Advances (suc rounds) s [] now = omega arith
replay_capsules-Advances (suc rounds) s ((kind, value) ∷ rest) now =
    let popped : Session = record s { pending_capsules = rest } in
    let t : Session = (recv_capsule popped kind value now).0 in
    let one : rank s.state ≤ rank t.state = recv_capsule-Advances popped now kind value in
    let later = replay_capsules-Advances rounds t t.pending_capsules now in
    let both : Advances s (replay_capsules rounds t t.pending_capsules now).0 =
      omega (arith, one, later) in
    elim (Bool-cases (is_connected t.state)) [
      | inl live ↦ rw (live, replay_capsules) both
      | inr left ↦ rw (left, replay_capsules) one
    ]

pub recv_datagram-state : (s : Session) (d : Bytes) → (recv_datagram s d).0.state ≡ s.state
unfolding recv_datagram
recv_datagram-state s d = ground arith

replay_datagrams-state :
    (s : Session) (queue : List Bytes) → (replay_datagrams s queue).0.state ≡ s.state
unfolding replay_datagrams
replay_datagrams-state s [] = refl
replay_datagrams-state s (d ∷ rest) =
    let popped : Session = record s { pending_datagrams = rest } in
    let one = recv_datagram-state popped d in
    let later = replay_datagrams-state (recv_datagram popped d).0 rest in ground (arith, one, later)

replay-Advances : (s : Session) (now : F64) → Advances s (replay_pending_queues s now).0
unfolding replay_pending_queues
replay-Advances s now =
    let t : Session = (replay_capsules (length s.pending_capsules) s s.pending_capsules now).0 in
    ground (
      arith,
      replay_capsules-Advances (length s.pending_capsules) s s.pending_capsules now,
      replay_datagrams-state t t.pending_datagrams,
    )

rank_connecting : (state : SessionState) → is_connecting state ≡ true → rank state ≡ 0
rank_connecting SessionState.connecting e = refl
rank_connecting SessionState.connected e = cc
rank_connecting SessionState.draining e = cc
rank_connecting SessionState.closing e = cc
rank_connecting SessionState.closed e = cc

pub confirm-Advances :
    (s : Session) (protocol : Option Text) (now : F64) → Advances s (confirm s protocol now).0
unfolding confirm
confirm-Advances s protocol now = elim (Bool-cases (is_connecting s.state)) [
  | inl e ↦ let low = rank_connecting s.state e in rw e (omega (arith, low))
  | inr e ↦ rw e (omega arith)
]

pub accept-Advances :
    (s : Session) (id : ℕ) (headers : Headers) (protocol : Option Text) (now : F64)
    → Advances s (accept s id headers protocol now).0
unfolding accept
accept-Advances s id headers protocol now = let low = rank_connecting s.state in ground (arith, low)

pub drain-Advances : (s : Session) → Advances s (drain s).0
unfolding drain
drain-Advances s = ground arith
