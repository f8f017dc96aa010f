-- ===== src/Connection/Invariant/Routing.antt =====
-- protocol/connection.rs: a call that goes to one session keeps a connection valid if the session's
-- method keeps the session valid.
use pywebtransport.Base.{◌≡◌, refl, Option, none, some, List, length, arith}
use pywebtransport.Base.Maps.{lookup, insert}
use pywebtransport.Base.Maps.Sizes.{Every-insert, Every-lookup, length-insert}
use pywebtransport.Common.{SessionId, StreamId}
use pywebtransport.Connection.Defs.{Connection, has_flow_control}
use pywebtransport.Connection.IsValid.{IsValid}
use pywebtransport.Connection.Requests.{active_limit}
use pywebtransport.Connection.Routing.{
  found_session, with_session, found_stream, routed_stream, with_stream,
}
use pywebtransport.Connection.Routing.Sessions.{bound_stream}
use pywebtransport.Events.{Effect}
use pywebtransport.Session.Defs.{Session}
use pywebtransport.Session.IsValid.{IsValid as IsValidSession}

-- A session's method that keeps it valid.
abbrev pub Keeps : (Session → Session × List Effect) → Type 0
Keeps call = (s : Session) → IsValidSession s → IsValidSession (call s).0

-- The session in its place, changed.
pub updated-IsValid :
    (c : Connection) (id : SessionId) (s t : Session) (streams : List (StreamId × SessionId))
    → lookup id c.sessions ≡ some s
    → IsValidSession t
    → IsValid c
    → IsValid (record c { sessions = insert id t c.sessions; stream_map = streams })
unfolding active_limit has_flow_control
updated-IsValid c id s t streams e k v =
    let every = Every-insert IsValidSession id t c.sessions k v.sessions_valid in
    let same : length (insert id t c.sessions) ≡ length c.sessions =
      ground (arith, length-insert id t c.sessions) in
    ground (arith, every, same)

module _ (c : Connection) (id : SessionId) (call : Session → Session × List Effect)
    (otherwise : Connection × List Effect) (k : Keeps call) (o : IsValid otherwise.0)
    (v : IsValid c) where
  valid : (s : Session) → lookup id c.sessions ≡ some s → IsValidSession (call s).0
  valid s e = k s (Every-lookup IsValidSession id s c.sessions e v.sessions_valid)

  pub found_session-IsValid :
      (found : Option Session)
      → lookup id c.sessions ≡ found
      → IsValid (found_session c id call otherwise found).0
  unfolding found_session
  found_session-IsValid none e = o
  found_session-IsValid (some s) e = updated-IsValid c id s (call s).0 c.stream_map e (valid s e) v

  pub with_session-IsValid : IsValid (with_session c id call otherwise).0
  unfolding with_session
  with_session-IsValid = found_session-IsValid (lookup id c.sessions) refl

  module _ (stream : StreamId) where
    pub bound_stream-IsValid :
        (found : Option Session)
        → lookup id c.sessions ≡ found
        → IsValid (bound_stream c id stream call otherwise found).0
    unfolding bound_stream
    bound_stream-IsValid none e = o
    bound_stream-IsValid (some s) e = updated-IsValid c id s (call s).0 _ e (valid s e) v

    found_stream-IsValid :
        (found : Option Session)
        → lookup id c.sessions ≡ found
        → IsValid (found_stream c stream id call otherwise found).0
    unfolding found_stream
    found_stream-IsValid none e = o
    found_stream-IsValid (some s) e = updated-IsValid c id s (call s).0 _ e (valid s e) v

module _ (c : Connection) (stream : StreamId) (call : Session → Session × List Effect)
    (otherwise : Connection × List Effect) (k : Keeps call) (o : IsValid otherwise.0)
    (v : IsValid c) where
  routed_stream-IsValid :
      (found : Option SessionId) → IsValid (routed_stream c stream call otherwise found).0
  unfolding routed_stream
  routed_stream-IsValid none = o
  routed_stream-IsValid (some id) =
      found_stream-IsValid c id call otherwise k o v stream (lookup id c.sessions) refl

  pub with_stream-IsValid : IsValid (with_stream c stream call otherwise).0
  unfolding with_stream
  with_stream-IsValid = routed_stream-IsValid (lookup stream c.stream_map)
