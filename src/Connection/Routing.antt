-- ===== src/Connection/Routing.antt =====
-- protocol/connection.rs: the methods that hand a call on to one session, by its identifier or by the
-- identifier of one of its streams.
pub mod Sessions
pub mod Streams
use pywebtransport.Base.{
  ℕ, Bool, true, false, ◌&&◌, Option, none, some, List, [], ◌∷◌, if◌then◌else◌, is_empty, is_some,
}
use pywebtransport.Base.Maps.{lookup, insert, remove}
use pywebtransport.Common.{
  Bytes, F64, Text, text, Headers, ErrorCode, RequestId, SessionId, StreamId,
}
use pywebtransport.Common.Constants.{err_app_no_error}
use pywebtransport.Connection.Defs.{Connection, unresolved_session, unresolved_stream}
use pywebtransport.Events.{Effect, notify_request_done, nothing}
use pywebtransport.Session.Capsules
use pywebtransport.Session.Close
use pywebtransport.Session.Datagrams
use pywebtransport.Session.Defs.{Session, has_stream}
use pywebtransport.Session.Defs
use pywebtransport.Session.Flow
use pywebtransport.Session.Open
use pywebtransport.Session.Peer

-- `unwrap_or(0)`.
abbrev pub or_zero : Option ℕ → ℕ
or_zero none = 0
or_zero (some n) = n

-- `if let Some(session) = sessions.get_mut(&session_id)`, with what is done otherwise.
unfoldable pub found_session :
    Connection
    → SessionId
    → (Session → Session × List Effect)
    → Connection × List Effect
    → Option Session
    → Connection × List Effect
found_session c session_id call otherwise none = otherwise
found_session c session_id call otherwise (some session) =
    let (session', effects) = call session in
    (record c { sessions = insert session_id session' c.sessions }, effects)

unfoldable pub with_session :
    Connection
    → SessionId
    → (Session → Session × List Effect)
    → Connection × List Effect
    → Connection × List Effect
unfolding found_session
with_session c session_id call otherwise =
    found_session c session_id call otherwise (lookup session_id c.sessions)

-- The same for a stream that the map of streams knows. A stream that the session has dropped leaves
-- the map.
unfoldable pub found_stream :
    Connection
    → StreamId
    → SessionId
    → (Session → Session × List Effect)
    → Connection × List Effect
    → Option Session
    → Connection × List Effect
found_stream c stream_id session_id call otherwise none = otherwise
found_stream c stream_id session_id call otherwise (some session) =
    let (session', effects) = call session in
    (
      record c {
        sessions = insert session_id session' c.sessions;
        stream_map =
            if has_stream session' stream_id then c.stream_map else remove stream_id c.stream_map;
      },
      effects,
    )

unfoldable pub routed_stream :
    Connection
    → StreamId
    → (Session → Session × List Effect)
    → Connection × List Effect
    → Option SessionId
    → Connection × List Effect
routed_stream c stream_id call otherwise none = otherwise
routed_stream c stream_id call otherwise (some session_id) =
    found_stream c stream_id session_id call otherwise (lookup session_id c.sessions)

unfoldable pub with_stream :
    Connection
    → StreamId
    → (Session → Session × List Effect)
    → Connection × List Effect
    → Connection × List Effect
unfolding routed_stream
with_stream c stream_id call otherwise =
    routed_stream c stream_id call otherwise (lookup stream_id c.stream_map)

-- A session method that changes nothing.
abbrev pub unchanged : (Session → List Effect) → Session → Session × List Effect
unchanged call session = (session, call session)
