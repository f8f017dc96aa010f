-- ===== src/Session/Invariant/Open.antt =====
-- protocol/session.rs: `accept`, `confirm` and `drain` keep a session valid.
use pywebtransport.Base.{
  ℕ, zero, suc, ◌≤◌, ◌≡◌, refl, inl, inr, true, Option, none, some, List, [], ◌∷◌, ◌++◌, length,
  arith, Bool-cases, is_empty,
}
use pywebtransport.Common.{Bytes, F64, Text, text, Headers, SessionState}
use pywebtransport.Session.Capsules.{recv_capsule}
use pywebtransport.Session.Datagrams.{recv_datagram}
use pywebtransport.Session.Defs.{Session, is_open, is_connected, is_connecting}
use pywebtransport.Session.Invariant.Capsules.{recv_capsule-IsValid}
use pywebtransport.Session.Invariant.Ends.{recv_datagram-IsValid}
use pywebtransport.Session.IsValid.{IsValid}
use pywebtransport.Session.Open.{
  replay_capsules, replay_datagrams, replay_pending_queues, connected, accept_with, accept_encoded,
  accept_protocol, accept, confirm, drain,
}
use pywebtransport.Utils.Protocols.{encode_wt_protocol_list}

-- The queue of the replay is the one of the session.
replay_capsules-IsValid :
    (rounds : ℕ) (s : Session) (queue : List (ℕ × Bytes)) (now : F64)
    → queue ≡ s.pending_capsules
    → IsValid s
    → IsValid (replay_capsules rounds s queue now).0
unfolding replay_capsules
replay_capsules-IsValid zero s queue now e v = v
replay_capsules-IsValid (suc rounds) s [] now e v = v
replay_capsules-IsValid (suc rounds) s ((kind, value) ∷ rest) now e v =
    let popped : Session = record s { pending_capsules = rest } in
    let popped-IsValid : IsValid popped = ground arith in
    let t : Session = (recv_capsule popped kind value now).0 in
    let t-IsValid : IsValid t = recv_capsule-IsValid popped kind value now popped-IsValid in
    elim (Bool-cases (is_connected t.state)) [
      | inl live ↦
          rw (live, replay_capsules)
            (replay_capsules-IsValid rounds t t.pending_capsules now refl t-IsValid)
      | inr left ↦ rw (left, replay_capsules) t-IsValid
    ]

recv_datagram-max_pending_datagrams :
    (s : Session) (d : Bytes)
    → (recv_datagram s d).0.max_pending_datagrams ≡ s.max_pending_datagrams
unfolding recv_datagram
recv_datagram-max_pending_datagrams s d = ground arith

replay_datagrams-IsValid :
    (s : Session) (queue : List Bytes)
    → length queue ≤ s.max_pending_datagrams
    → IsValid s
    → IsValid (replay_datagrams s queue).0
unfolding replay_datagrams
replay_datagrams-IsValid s [] h v = ground arith
replay_datagrams-IsValid s (d ∷ rest) h v =
    let popped : Session = record s { pending_datagrams = rest } in
    let popped-IsValid : IsValid popped = ground arith in
    let kept : Session = record s { pending_datagrams = d ∷ rest } in
    let kept-IsValid : IsValid kept = ground arith in
    let t : Session = (recv_datagram popped d).0 in
    let same : t.max_pending_datagrams ≡ s.max_pending_datagrams =
      recv_datagram-max_pending_datagrams popped d in
    let room : length rest ≤ t.max_pending_datagrams = ground arith in
    let later =
      replay_datagrams-IsValid t rest room (recv_datagram-IsValid popped d popped-IsValid) in
    elim (Bool-cases (is_empty s.pending_datagram_requests)) [
      | inl none_wait ↦ rw none_wait kept-IsValid
      | inr wait ↦ rw wait later
    ]

replay_pending_queues-IsValid :
    (s : Session) (now : F64) → IsValid s → IsValid (replay_pending_queues s now).0
unfolding replay_pending_queues
replay_pending_queues-IsValid s now v =
    let r = replay_capsules (length s.pending_capsules) s s.pending_capsules now in
    let t : Session = r.0 in
    let t-IsValid : IsValid t =
      replay_capsules-IsValid (length s.pending_capsules) s s.pending_capsules now refl v in
    let u : Session = (replay_datagrams t t.pending_datagrams).0 in
    let u-IsValid : IsValid u =
      replay_datagrams-IsValid t t.pending_datagrams t-IsValid.datagrams t-IsValid in
    let cleared : Session = record u { pending_streams = [] } in
    let cleared-IsValid : IsValid cleared = ground arith in
    elim (Bool-cases r.2) [ inl done ↦ rw done cleared-IsValid | inr stop ↦ rw stop t-IsValid ]

is_connecting-is_open : (state : SessionState) → is_connecting state ≡ true → is_open state ≡ true
is_connecting-is_open SessionState.connecting e = refl
is_connecting-is_open SessionState.connected e = refl
is_connecting-is_open SessionState.draining e = refl
is_connecting-is_open SessionState.closing e = cc
is_connecting-is_open SessionState.closed e = cc

-- Only an open session is connected.
connected-IsValid :
    (s : Session) (protocol : Option Text) (now : F64)
    → is_connecting s.state ≡ true
    → IsValid s
    → IsValid (connected s protocol now)
connected-IsValid s protocol now e v = let open' = is_connecting-is_open s.state e in ground arith

pub confirm-IsValid :
    (s : Session) (protocol : Option Text) (now : F64)
    → IsValid s
    → IsValid (confirm s protocol now).0
unfolding confirm
confirm-IsValid s protocol now v = elim (Bool-cases (is_connecting s.state)) [
  | inl e ↦ rw e (
      replay_pending_queues-IsValid (connected s protocol now) now
        (connected-IsValid s protocol now e v))
  | inr e ↦ rw e v
]

pub drain-IsValid : (s : Session) → IsValid s → IsValid (drain s).0
unfolding drain
drain-IsValid s v = ground arith

module _ (s : Session) (id : ℕ) (now : F64) (e : is_connecting s.state ≡ true) (v : IsValid s) where
  accept_with-IsValid :
      (headers : Headers) (protocol : Option Text)
      → IsValid (accept_with s id headers protocol now).0
  unfolding accept_with
  accept_with-IsValid headers protocol =
      replay_pending_queues-IsValid (connected s protocol now) now
        (connected-IsValid s protocol now e v)

  accept_encoded-IsValid :
      (headers : Headers) (protocol : Text) (encoded : Option Bytes)
      → IsValid (accept_encoded s id headers protocol encoded now).0
  unfolding accept_encoded
  accept_encoded-IsValid headers protocol none = v
  accept_encoded-IsValid headers protocol (some encoded) =
      ground
        (arith, accept_with-IsValid (headers ++ (text "wt-protocol", encoded) ∷ []) (some protocol))

  accept_protocol-IsValid :
      (headers : Headers) (protocol : Option Text)
      → IsValid (accept_protocol s id headers protocol now).0
  unfolding accept_protocol
  accept_protocol-IsValid headers none = accept_with-IsValid headers none
  accept_protocol-IsValid headers (some protocol) =
      accept_encoded-IsValid headers protocol (encode_wt_protocol_list (protocol ∷ []))

pub accept-IsValid :
    (s : Session) (id : ℕ) (headers : Headers) (protocol : Option Text) (now : F64)
    → IsValid s
    → IsValid (accept s id headers protocol now).0
unfolding accept
accept-IsValid s id headers protocol now v =
    let answer : Headers = (text ":status", text "200") ∷ headers in
    let r =
      λ (e : is_connecting s.state ≡ true). accept_protocol-IsValid s id now e v answer protocol in
    ground (arith, r)
