-- ===== src/Connection/Invariant/Requests.antt =====
-- protocol/connection.rs: the requests for sessions keep a connection valid.
use pywebtransport.Base.{
  ◌+◌, ◌≡◌, refl, inl, inr, true, false, Option, none, some, length, arith, Bool-cases,
}
use pywebtransport.Base.Maps.{lookup, insert, remove}
use pywebtransport.Base.Maps.Sizes.{Every-insert, length-insert, length-remove, length-remove_found}
use pywebtransport.Common.{Text, ErrorCode, RequestId, StreamId}
use pywebtransport.Connection.Defs.{
  Connection, SessionRequest, has_flow_control, session_parameters,
}
use pywebtransport.Connection.IsValid.{IsValid}
use pywebtransport.Connection.Requests.{
  active_limit, is_full, offer, request_session, create_session, session_of, bind_found,
  bind_session, defer_session, fail_session,
}
use pywebtransport.Session.Defs.{Session}
use pywebtransport.Session.Invariant.Steps.{Fits, new-IsValid}
use pywebtransport.Session.IsValid.{IsValid as IsValidSession}

pub session_parameters-Fits : (c : Connection) → IsValid c → Fits (session_parameters c)
unfolding session_parameters
session_parameters-Fits c v = ground arith

request_session-IsValid :
    (c : Connection) (id : RequestId) (r : Option SessionRequest)
    → c.is_client ≡ true
    → is_full c (length c.sessions + length c.session_requests) ≡ false
    → IsValid c
    → IsValid (request_session c id r).0
unfolding request_session is_full active_limit has_flow_control
request_session-IsValid c id none e f v = v
request_session-IsValid c id (some r) e f v = ground (arith, length-insert id r c.session_requests)

pub create_session-IsValid :
    (c : Connection) (id : RequestId) (r : SessionRequest)
    → IsValid c
    → IsValid (create_session c id r).0
unfolding create_session
create_session-IsValid c id r v =
    let total = length c.sessions + length c.session_requests in
    let made = request_session-IsValid c id (offer r r.wt_available_protocols) in
    elim (Bool-cases c.is_client) [
      | inr server ↦ simp (server) v
      | inl client ↦ elim (Bool-cases (is_full c total)) [
        | inr room ↦ ground (arith, made client room)
        | inl full ↦ ground (arith, v)
      ]
    ]

-- A new session in place of a request.
pub started-IsValid :
    (c : Connection) (stream : StreamId) (id : RequestId) (r : SessionRequest) (s : Session)
    → lookup id c.session_requests ≡ some r
    → IsValidSession s
    → IsValid c
    → IsValid (record c {
      session_requests = remove id c.session_requests;
      sessions = insert stream s c.sessions;
    })
unfolding active_limit has_flow_control
started-IsValid c stream id r s e k v =
    let every = Every-insert IsValidSession stream s c.sessions k v.sessions_valid in
    let fewer = length-remove_found id c.session_requests r e in
    ground (arith, every, fewer, length-insert stream s c.sessions)

pub session_of-IsValid :
    (c : Connection) (stream : StreamId) (r : SessionRequest)
    → IsValid c
    → IsValidSession (session_of c stream r)
session_of-IsValid c stream r v =
    new-IsValid stream r.path r.headers r.wt_available_protocols c.is_client (session_parameters c)
      r.created_at (session_parameters-Fits c v)

pub bind_session-IsValid :
    (c : Connection) (stream : StreamId) (id : RequestId)
    → IsValid c
    → IsValid (bind_session c stream id).0
unfolding bind_session active_limit has_flow_control
bind_session-IsValid c stream id v = go (lookup id c.session_requests) refl
  where
    pending : Connection
    pending = record c { pending_session_requests = insert stream id c.pending_session_requests }

    pending-IsValid : IsValid pending
    pending-IsValid = ground arith

    go :
        (found : Option SessionRequest)
        → lookup id c.session_requests ≡ found
        → IsValid (bind_found pending stream id found).0
    go none e = pending-IsValid
    go (some r) e = elim (Bool-cases r.optimistic) [
      | inl now ↦ simp (now) (
          started-IsValid pending stream id r (session_of pending stream r) e
            (session_of-IsValid pending stream r pending-IsValid) pending-IsValid)
      | inr later ↦ simp (later) pending-IsValid
    ]

pub defer_session-IsValid :
    (c : Connection) (id : RequestId) → IsValid c → IsValid (defer_session c id).0
unfolding defer_session active_limit has_flow_control
defer_session-IsValid c id v = ground arith

-- A request that is dropped.
pub dropped-IsValid :
    (c : Connection) (id : RequestId)
    → IsValid c
    → IsValid (record c { session_requests = remove id c.session_requests })
unfolding active_limit has_flow_control
dropped-IsValid c id v = ground (arith, length-remove id c.session_requests)

pub fail_session-IsValid :
    (c : Connection) (id : RequestId) (code : Option ErrorCode) (reason : Text)
    → IsValid c
    → IsValid (fail_session c id code reason).0
unfolding fail_session
fail_session-IsValid c id code reason v = dropped-IsValid c id v
