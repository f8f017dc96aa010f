-- ===== src/Connection/Invariant/Lifecycle.antt =====
-- protocol/connection.rs: the methods on the connection as a whole keep it valid.
use pywebtransport.Base.{
  ℕ, ◌+◌, ◌≤◌, ◌<◌, ◌^◌, ◌≡◌, inl, inr, Bool, true, false, not, ◌||◌, ◌&&◌, Option, none, some,
  List, [], ◌∷◌, length, arith, Bool-cases,
}
use pywebtransport.Base.Maps.{keys, sort}
use pywebtransport.Base.Maps.Sizes.{Every-remove_all, length-remove_all}
use pywebtransport.Common.{F64, Text, ErrorCode, RequestId, SessionId}
use pywebtransport.Connection.Defs.{
  Connection, has_flow_control, is_connected_state, is_connecting_state, is_closed_state,
}
use pywebtransport.Connection.Invariant.Routing.{Keeps, with_session-IsValid}
use pywebtransport.Connection.IsValid.{IsValid}
use pywebtransport.Connection.Lifecycle.{
  open_connection, started, handle_handshake_completed, or_else, with_settings, recv_settings,
  each_session,
}
use pywebtransport.Connection.Lifecycle.Ends.{
  close, close_gracefully, terminated, handle_terminated, closed_sessions, prune_resources,
}
use pywebtransport.Connection.Lifecycle.Requests.{recv_max_streams, recv_goaway}
use pywebtransport.Connection.Requests.{active_limit}
use pywebtransport.Connection.Routing.{with_session}
use pywebtransport.Events.{Effect}
use pywebtransport.Events.Protocol.{H3Settings}
use pywebtransport.Session.Close
use pywebtransport.Session.Defs.{Session}
use pywebtransport.Session.Flow
use pywebtransport.Session.Invariant.Ends.{recv_connect_close-IsValid}
use pywebtransport.Session.Invariant.Flow.{flush_blocked_stream_requests-IsValid}
use pywebtransport.Session.Invariant.Open.{drain-IsValid}
use pywebtransport.Session.IsValid.{IsValid as IsValidSession}
use pywebtransport.Session.Open

open_connection-IsValid :
    (c : Connection) (now : F64) → IsValid c → IsValid (open_connection c now).0
unfolding open_connection active_limit has_flow_control
open_connection-IsValid c now v = ground arith

pub handle_handshake_completed-IsValid :
    (c : Connection) (now : F64) → IsValid c → IsValid (handle_handshake_completed c now).0
unfolding handle_handshake_completed active_limit has_flow_control
handle_handshake_completed-IsValid c now v =
    let completed : Connection = record (started c) { handshake_completed = true } in
    let completed-IsValid : IsValid completed = ground arith in
    let started-IsValid : IsValid (started c) = ground arith in
    let opened = open_connection-IsValid completed now completed-IsValid in
    elim (Bool-cases (is_connecting_state (started c).state)) [
      | inr no_start ↦ rw no_start started-IsValid
      | inl start ↦ elim (Bool-cases (not c.is_client || c.peer_settings_received)) [
        | inl ready ↦ rw (start, ready) opened
        | inr waits ↦ rw (start, waits) completed-IsValid
      ]
    ]

-- The limits that a peer announces are 64-bit numbers.
abbrev IsSmall : Option ℕ → Type 0
IsSmall none = Unit {0}
IsSmall (some n) = n < 2 ^ 64

pub record Fits (settings : H3Settings) : Type 0 where
  pub max_data : IsSmall settings.wt_initial_max_data
  pub max_streams_bidi : IsSmall settings.wt_initial_max_streams_bidi
  pub max_streams_uni : IsSmall settings.wt_initial_max_streams_uni

or_else-lt : (o : Option ℕ) (old : ℕ) → IsSmall o → old < 2 ^ 64 → or_else o old < 2 ^ 64
or_else-lt none old h b = b
or_else-lt (some n) old h b = h

-- Before the settings of the peer there is no flow control, and so at most one session.
unsettled-active :
    (c : Connection)
    → IsValid c
    → c.peer_settings_received ≡ false
    → length c.sessions + length c.session_requests ≤ 1
unfolding active_limit has_flow_control
unsettled-active c v e = ground arith

with_settings-IsValid :
    (c : Connection) (settings : H3Settings)
    → c.peer_settings_received ≡ false
    → Fits settings
    → IsValid c
    → IsValid (with_settings c settings)
unfolding active_limit
with_settings-IsValid c settings e f v =
    let few = unsettled-active c v e in
    let data_lt =
      or_else-lt settings.wt_initial_max_data c.peer_initial_max_data f.max_data v.peer_data in
    let bidi_lt =
      or_else-lt settings.wt_initial_max_streams_bidi c.peer_initial_max_streams_bidi
        f.max_streams_bidi v.peer_bidi in
    let uni_lt =
      or_else-lt settings.wt_initial_max_streams_uni c.peer_initial_max_streams_uni
        f.max_streams_uni v.peer_uni in
    ground (arith, few, data_lt, bidi_lt, uni_lt)

pub recv_settings-IsValid :
    (c : Connection) (settings : H3Settings) (now : F64)
    → c.peer_settings_received ≡ false
    → Fits settings
    → IsValid c
    → IsValid (recv_settings c settings now).0
unfolding recv_settings
recv_settings-IsValid c settings now e f v =
    let w = with_settings-IsValid c settings e f v in
    let opened = open_connection-IsValid (with_settings c settings) now w in
    elim (Bool-cases (is_connecting_state c.state && c.handshake_completed)) [
      | inl ready ↦ rw ready opened
      | inr waits ↦ rw waits w
    ]

each_session-IsValid :
    (c : Connection) (call : Session → Session × List Effect) (ids : List SessionId)
    → Keeps call
    → IsValid c
    → IsValid (each_session c call ids).0
unfolding each_session
each_session-IsValid c call [] k v = v
each_session-IsValid c call (id ∷ ids) k v =
    each_session-IsValid (with_session c id call (c, [])).0 call ids k
      (with_session-IsValid c id call (c, []) k v v)

pub recv_max_streams-IsValid :
    (c : Connection) (uni : Bool) → IsValid c → IsValid (recv_max_streams c uni).0
unfolding recv_max_streams active_limit has_flow_control
recv_max_streams-IsValid c uni v =
    each_session-IsValid _ (λ s. Flow.flush_blocked_stream_requests s uni) (sort (keys c.sessions))
      (λ s. flush_blocked_stream_requests-IsValid s uni) (ground arith)

pub recv_goaway-IsValid : (c : Connection) → IsValid c → IsValid (recv_goaway c).0
unfolding recv_goaway active_limit has_flow_control
recv_goaway-IsValid c v =
    let fewer = length-remove_all c.blocked_session_requests c.session_requests in
    each_session-IsValid _ Open.drain (sort (keys c.sessions)) drain-IsValid (ground (arith, fewer))

pub close-IsValid :
    (c : Connection) (id : Option RequestId) (code : ErrorCode) (reason : Option Text) (now : F64)
    → IsValid c
    → IsValid (close c id code reason now).0
unfolding close active_limit has_flow_control
close-IsValid c id code reason now v = ground arith

pub close_gracefully-IsValid :
    (c : Connection) (id : RequestId) → IsValid c → IsValid (close_gracefully c id).0
unfolding close_gracefully active_limit has_flow_control
close_gracefully-IsValid c id v =
    let drained =
      each_session-IsValid (record c { local_goaway_sent = true }) Open.drain
        (sort (keys c.sessions)) drain-IsValid (ground arith) in
    elim (Bool-cases (is_connected_state c.state)) [ inl live ↦ rw live drained | inr e ↦ rw e v ]

terminated-IsValid :
    (c : Connection) (code : ErrorCode) (reason : Text) (now : F64)
    → IsValid c
    → IsValid (terminated c code reason now)
unfolding active_limit has_flow_control
terminated-IsValid c code reason now v = ground arith

pub handle_terminated-IsValid :
    (c : Connection) (code : ErrorCode) (reason : Text) (now : F64)
    → IsValid c
    → IsValid (handle_terminated c code reason now).0
unfolding handle_terminated
handle_terminated-IsValid c code reason now v =
    let ended =
      each_session-IsValid (terminated c code reason now)
        (λ s. Close.recv_connect_close s code reason now) (sort (keys c.sessions))
        (λ s. recv_connect_close-IsValid s code reason now)
        (terminated-IsValid c code reason now v) in
    elim (Bool-cases (is_closed_state c.state)) [ inl e ↦ rw e v | inr live ↦ rw live ended ]

pub prune_resources-IsValid : (c : Connection) → IsValid c → IsValid (prune_resources c)
unfolding prune_resources active_limit has_flow_control
prune_resources-IsValid c v =
    let closed = sort (closed_sessions c.sessions) in
    let every = Every-remove_all IsValidSession closed c.sessions v.sessions_valid in
    let fewer = length-remove_all closed c.sessions in ground (arith, every, fewer)
