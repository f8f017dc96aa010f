-- ===== src/Session/Invariant/Ends.antt =====
-- protocol/session.rs: the methods that end a session, and those on datagrams, keep it valid.
use pywebtransport.Base.{
  ℕ, refl, inl, inr, ◌||◌, Option, some, [], ◌∷◌, length-append, arith, Bool-cases,
}
use pywebtransport.Common.{Bytes, F64, Text, text, Headers, ErrorCode, SessionState}
use pywebtransport.Session.Close.{abort, close, recv_connect_close, reject}
use pywebtransport.Session.Datagrams.{read_datagram, recv_datagram}
use pywebtransport.Session.Defs.{Session, is_closed_state, is_closing_state}
use pywebtransport.Session.Invariant.Helpers.{finish-IsValid, finish_over-IsValid}
use pywebtransport.Session.IsValid.{IsValid}

-- An aborted session may have received more than its limit.
pub abort_over-IsValid :
    (s : Session) (n : ℕ) (code : ErrorCode) (reason : Text) (now : F64)
    → IsValid s
    → IsValid (abort (record s { data_received = n }) code reason now).0
unfolding abort
abort_over-IsValid s n code reason now v =
    let f = finish_over-IsValid s n (some code) (some reason) now SessionState.closed refl v in
    elim (Bool-cases (is_closed_state s.state || is_closing_state s.state)) [
      | inl over ↦ rw over (ground arith)
      | inr live ↦ rw live f
    ]

pub abort-IsValid :
    (s : Session) (code : ErrorCode) (reason : Text) (now : F64)
    → IsValid s
    → IsValid (abort s code reason now).0
abort-IsValid s code reason now v = abort_over-IsValid s s.data_received code reason now v

pub close-IsValid :
    (s : Session) (id : ℕ) (code : ErrorCode) (reason : Option Text) (now : F64)
    → IsValid s
    → IsValid (close s id code reason now).0
unfolding close
close-IsValid s id code reason now v =
    let f = finish-IsValid s (some code) reason now SessionState.closing refl v in
    elim (Bool-cases (is_closed_state s.state || is_closing_state s.state)) [
      | inl over ↦ rw over v
      | inr live ↦ rw live f
    ]

pub recv_connect_close-IsValid :
    (s : Session) (code : ErrorCode) (reason : Text) (now : F64)
    → IsValid s
    → IsValid (recv_connect_close s code reason now).0
unfolding recv_connect_close
recv_connect_close-IsValid s code reason now v =
    let f = finish-IsValid s (some code) (some reason) now SessionState.closed refl v in
    elim (Bool-cases (is_closed_state s.state)) [
      | inl over ↦ rw over v
      | inr live ↦ elim (Bool-cases (is_closing_state s.state)) [
        | inl closing ↦ rw (live, closing) (ground arith)
        | inr open' ↦ rw (live, open') f
      ]
    ]

pub reject-IsValid :
    (s : Session) (id : ℕ) (headers : Headers) (status : ℕ) (now : F64)
    → IsValid s
    → IsValid (reject s id headers status now).0
unfolding reject
reject-IsValid s id headers status now v =
    let f =
      finish-IsValid s s.close_code (some (text "wt_session reject")) now SessionState.closed refl
        v in
    ground (arith, f)

pub read_datagram-IsValid : (s : Session) (id : ℕ) → IsValid s → IsValid (read_datagram s id).0
unfolding read_datagram
read_datagram-IsValid s id v = ground arith

pub recv_datagram-IsValid :
    (s : Session) (bytes : Bytes) → IsValid s → IsValid (recv_datagram s bytes).0
unfolding recv_datagram
recv_datagram-IsValid s bytes v = ground (arith, length-append s.pending_datagrams (bytes ∷ []))
