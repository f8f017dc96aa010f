-- ===== src/Session/Replay/Queues.antt =====
-- protocol/session.rs: `replay_pending_queues` empties the early queues of a session that stays
-- connected, and stops in one that does not.
use pywebtransport.Base.{
  ℕ, zero, suc, ◌≤◌, ◌≡◌, refl, ◌⊎◌, inl, inr, Bool, true, false, Option, List, [], ◌∷◌, length,
  arith, Bool-cases, is_empty,
}
use pywebtransport.Common.{Bytes, F64, Text, SessionState}
use pywebtransport.Common.Constants.{wt_capsule_type_drain_session}
use pywebtransport.Session.Capsules.{recv_capsule, dispatch_capsule, recv_drain}
use pywebtransport.Session.Datagrams.{recv_datagram}
use pywebtransport.Session.Defs.{Session, is_connected, is_connecting}
use pywebtransport.Session.Open.{
  replay_capsules, replay_datagrams, replay_pending_queues, confirm, connected,
}
use pywebtransport.Session.Replay.{Keeps}
use pywebtransport.Session.Replay.Capsules.{recv_capsule-Shrinks}

is_connected-started :
    (state : SessionState) → is_connected state ≡ true → is_connecting state ≡ false
is_connected-started SessionState.connected e = refl
is_connected-started SessionState.connecting e = cc
is_connected-started SessionState.draining e = refl
is_connected-started SessionState.closing e = refl
is_connected-started SessionState.closed e = refl

-- The replay of the capsules either takes them all in a session that stays connected, or stops in
-- one that does not.
record Ends (s : Session) (done : Bool) : Type 0 where
  complete : (done ≡ false) ⊎ (s.pending_capsules ≡ [])
  same : is_connected s.state ≡ done

replay_capsules-Ends :
    (rounds : ℕ) (s : Session) (queue : List (ℕ × Bytes)) (now : F64)
    → queue ≡ s.pending_capsules
    → length queue ≤ rounds
    → is_connected s.state ≡ true
    → Ends (replay_capsules rounds s queue now).0 (replay_capsules rounds s queue now).2
unfolding replay_capsules
replay_capsules-Ends zero s [] now e h c = ground arith
replay_capsules-Ends zero s (x ∷ rest) now e h c = ground arith
replay_capsules-Ends (suc rounds) s [] now e h c = ground arith
replay_capsules-Ends (suc rounds) s ((kind, value) ∷ rest) now e h c =
    let popped : Session = record s { pending_capsules = rest } in
    let t : Session = (recv_capsule popped kind value now).0 in
    let short : length t.pending_capsules ≤ length rest =
      recv_capsule-Shrinks popped now kind value (is_connected-started s.state c) in
    elim (Bool-cases (is_connected t.state)) [
      | inl live ↦
          rw (live, replay_capsules)
            (replay_capsules-Ends rounds t t.pending_capsules now refl (omega arith) live)
      | inr left ↦ rw (left, replay_capsules) (record { complete = inl refl; same = left })
    ]

recv_datagram-Keeps : (s : Session) (d : Bytes) → Keeps s (recv_datagram s d).0
unfolding recv_datagram
recv_datagram-Keeps s d = ground arith

-- The datagrams go to the requests that wait, until there are no more of one kind.
record Delivers (s t : Session) : Type 0 where
  keeps : Keeps s t
  served : (is_empty t.pending_datagram_requests ≡ true) ⊎ (t.pending_datagrams ≡ [])

replay_datagrams-Delivers :
    (s : Session) (queue : List Bytes) → Delivers s (replay_datagrams s queue).0
unfolding replay_datagrams
replay_datagrams-Delivers s [] = ground arith
replay_datagrams-Delivers s (d ∷ rest) =
    let popped : Session = record s { pending_datagrams = rest } in
    let one = recv_datagram-Keeps popped d in
    let later = replay_datagrams-Delivers (recv_datagram popped d).0 rest in
    elim (Bool-cases (is_empty s.pending_datagram_requests)) [
      | inl e ↦ rw e (ground arith)
      | inr e ↦ rw e (ground (arith, one, later))
    ]

-- `confirm` on a session that has not started, and that is connected afterwards, leaves no early
-- capsule and no early stream, and a datagram waits only where no request for one does.
pub record Replayed (s : Session) : Type 0 where
  pub no_capsule : s.pending_capsules ≡ []
  pub no_early_stream : s.pending_streams ≡ []
  pub served : (is_empty s.pending_datagram_requests ≡ true) ⊎ (s.pending_datagrams ≡ [])

replay_pending_queues-Replayed :
    (s : Session) (now : F64)
    → is_connected s.state ≡ true
    → is_connected (replay_pending_queues s now).0.state ≡ true
    → Replayed (replay_pending_queues s now).0
unfolding replay_pending_queues
replay_pending_queues-Replayed s now c e =
    let r = replay_capsules (length s.pending_capsules) s s.pending_capsules now in
    let ends =
      replay_capsules-Ends (length s.pending_capsules) s s.pending_capsules now refl (omega arith)
        c in
    let delivers = replay_datagrams-Delivers r.0 r.0.pending_datagrams in
    ground (arith, ends, delivers)

pub confirm-Replayed :
    (s : Session) (protocol : Option Text) (now : F64)
    → is_connecting s.state ≡ true
    → is_connected (confirm s protocol now).0.state ≡ true
    → Replayed (confirm s protocol now).0
unfolding confirm
confirm-Replayed s protocol now c e =
    let r = replay_pending_queues-Replayed (connected s protocol now) now refl in ground (arith, r)

-- A connected session that is asked to drain.
recv_capsule-drain :
    (s : Session) (value : Bytes) (now : F64)
    → s.state ≡ SessionState.connected
    → (recv_capsule s wt_capsule_type_drain_session value now).0
      ≡ record s { state = SessionState.draining }
unfolding recv_capsule dispatch_capsule recv_drain
recv_capsule-drain s value now e = ground arith

replay_capsules-drain :
    (rounds : ℕ) (s : Session) (value : Bytes) (rest : List (ℕ × Bytes)) (now : F64)
    → s.state ≡ SessionState.connected
    → ((replay_capsules (suc rounds) s ((wt_capsule_type_drain_session, value) ∷ rest) now).0
        ≡ record s { state = SessionState.draining; pending_capsules = rest })
      × ((replay_capsules (suc rounds) s ((wt_capsule_type_drain_session, value) ∷ rest) now).2
          ≡ false)
unfolding replay_capsules
replay_capsules-drain rounds s value rest now e =
    let popped : Session = record s { pending_capsules = rest } in
    let one = recv_capsule-drain popped value now e in rw (one, replay_capsules) (one, refl)

-- `confirm` on a session whose first early capsule asks to drain it.
pub confirm_drained :
    (s : Session) (protocol : Option Text) (now : F64) (value : Bytes) (rest : List (ℕ × Bytes))
    → is_connecting s.state ≡ true
    → s.pending_capsules ≡ (wt_capsule_type_drain_session, value) ∷ rest
    → ((confirm s protocol now).0.state ≡ SessionState.draining)
      × ((confirm s protocol now).0.pending_capsules ≡ rest)
      × ((confirm s protocol now).0.pending_streams ≡ s.pending_streams)
      × ((confirm s protocol now).0.pending_datagrams ≡ s.pending_datagrams)
unfolding confirm replay_pending_queues replay_capsules
confirm_drained s protocol now value rest c e =
    let r = replay_capsules-drain (length rest) (connected s protocol now) value rest now refl in
    rw (c, e, r.0, r.1) (refl, refl, refl, refl)
