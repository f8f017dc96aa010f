-- ===== src/Connection/Order.antt =====
-- protocol/connection.rs: the states of a connection, which a call moves forward only.
pub mod Early
pub mod Requests
pub mod Steps
use pywebtransport.Base.{ℕ, ◌≤◌, Bool, true, false, Option, none, some, List, [], ◌∷◌, arith}
use pywebtransport.Base.Maps.{lookup}
use pywebtransport.Common.{ConnectionState, SessionId, StreamId}
use pywebtransport.Connection.Defs.{Connection}
use pywebtransport.Connection.Lifecycle.{each_session}
use pywebtransport.Connection.Routing.{
  found_session, with_session, found_stream, routed_stream, with_stream,
}
use pywebtransport.Connection.Routing.Sessions.{bound_stream}
use pywebtransport.Events.{Effect}
use pywebtransport.Session.Defs.{Session}

-- The order of the states.
abbrev pub rank : ConnectionState → ℕ
rank ConnectionState.idle = 0
rank ConnectionState.connecting = 1
rank ConnectionState.connected = 2
rank ConnectionState.closing = 3
rank ConnectionState.closed = 4

abbrev pub Advances : Connection → Connection → Type 0
Advances c d = rank c.state ≤ rank d.state

module _ (c : Connection) (id : SessionId) (call : Session → Session × List Effect)
    (otherwise : Connection × List Effect) (o : Advances c otherwise.0) where
  pub found_session-Advances :
      (found : Option Session) → Advances c (found_session c id call otherwise found).0
  unfolding found_session
  found_session-Advances none = o
  found_session-Advances (some s) = omega arith

  pub with_session-Advances : Advances c (with_session c id call otherwise).0
  unfolding with_session
  with_session-Advances = found_session-Advances (lookup id c.sessions)

  module _ (stream : StreamId) where
    pub bound_stream-Advances :
        (found : Option Session) → Advances c (bound_stream c id stream call otherwise found).0
    unfolding bound_stream
    bound_stream-Advances none = o
    bound_stream-Advances (some s) = omega arith

    found_stream-Advances :
        (found : Option Session) → Advances c (found_stream c stream id call otherwise found).0
    unfolding found_stream
    found_stream-Advances none = o
    found_stream-Advances (some s) = omega arith

module _ (c : Connection) (stream : StreamId) (call : Session → Session × List Effect)
    (otherwise : Connection × List Effect) (o : Advances c otherwise.0) where
  routed_stream-Advances :
      (found : Option SessionId) → Advances c (routed_stream c stream call otherwise found).0
  unfolding routed_stream
  routed_stream-Advances none = o
  routed_stream-Advances (some id) =
      found_stream-Advances c id call otherwise o stream (lookup id c.sessions)

  pub with_stream-Advances : Advances c (with_stream c stream call otherwise).0
  unfolding with_stream
  with_stream-Advances = routed_stream-Advances (lookup stream c.stream_map)

-- The loops over all sessions.
pub each_session-Advances :
    (c : Connection) (call : Session → Session × List Effect) (ids : List SessionId)
    → Advances c (each_session c call ids).0
unfolding each_session
each_session-Advances c call [] = omega arith
each_session-Advances c call (id ∷ ids) =
    let one = with_session-Advances c id call (c, []) (omega arith) in
    let rest = each_session-Advances (with_session c id call (c, [])).0 call ids in
    omega (arith, one, rest)
