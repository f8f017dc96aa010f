-- ===== src/Connection/Routing/Sessions.antt =====
-- protocol/connection.rs: the methods that name a session.
use pywebtransport.Base.{ℕ, Bool, Option, none, some, List, [], ◌∷◌, if◌then◌else◌}
use pywebtransport.Base.Maps.{lookup, insert}
use pywebtransport.Common.{Bytes, F64, Text, Headers, ErrorCode, RequestId, SessionId, StreamId}
use pywebtransport.Common.Constants.{err_app_no_error}
use pywebtransport.Connection.Defs.{Connection, unresolved_session}
use pywebtransport.Events.{Effect, notify_request_done, nothing}
use pywebtransport.Session.Capsules
use pywebtransport.Session.Close
use pywebtransport.Session.Datagrams
use pywebtransport.Session.Defs.{Session, has_stream}
use pywebtransport.Session.Defs
use pywebtransport.Session.Flow
use pywebtransport.Session.Open
use pywebtransport.Session.Peer
use pywebtransport.Connection.Routing.{or_zero, with_session, unchanged}

abbrev or_unresolved :
    Connection
    → SessionId
    → RequestId
    → (Session → Session × List Effect)
    → Connection × List Effect
or_unresolved c session_id request_id call =
    with_session c session_id call (c, unresolved_session request_id ∷ [])

unfoldable pub accept_session :
    Connection → SessionId → RequestId → Headers → Option Text → F64 → Connection × List Effect
accept_session c session_id request_id headers wt_protocol now =
    or_unresolved c session_id request_id (λ s. Open.accept s request_id headers wt_protocol now)

unfoldable pub close_session :
    Connection → SessionId → RequestId → ErrorCode → Option Text → F64 → Connection × List Effect
close_session c session_id request_id error_code reason now =
    with_session c session_id (λ s. Close.close s request_id error_code reason now)
      (c, notify_request_done request_id nothing ∷ [])

unfoldable pub create_stream : Connection → SessionId → RequestId → Bool → Connection × List Effect
create_stream c session_id request_id is_unidirectional =
    or_unresolved c session_id request_id (λ s. Flow.create_stream s request_id is_unidirectional)

unfoldable pub defer_stream : Connection → SessionId → RequestId → Bool → Connection × List Effect
defer_stream c session_id request_id is_unidirectional =
    or_unresolved c session_id request_id (λ s. Flow.defer_stream s request_id is_unidirectional)

unfoldable pub diagnose_session : Connection → SessionId → RequestId → Connection × List Effect
diagnose_session c session_id request_id =
    or_unresolved c session_id request_id (unchanged (λ s. Defs.diagnose s request_id))

unfoldable pub export_keying_material :
    Connection → SessionId → RequestId → Text → Bytes → ℕ → Connection × List Effect
export_keying_material c session_id request_id label context size =
    or_unresolved c session_id request_id
      (unchanged (λ s. Datagrams.export_keying_material s request_id label context size))

unfoldable pub read_datagram : Connection → SessionId → RequestId → Connection × List Effect
read_datagram c session_id request_id =
    or_unresolved c session_id request_id (λ s. Datagrams.read_datagram s request_id)

unfoldable pub recv_capsule : Connection → SessionId → ℕ → Bytes → F64 → Connection × List Effect
recv_capsule c session_id capsule_type value now =
    with_session c session_id (λ s. Capsules.recv_capsule s capsule_type value now) (c, [])

unfoldable pub recv_connect_close : Connection → SessionId → F64 → Connection × List Effect
recv_connect_close c session_id now =
    with_session c session_id (λ s. Close.recv_connect_close s err_app_no_error [] now) (c, [])

unfoldable pub reject_session :
    Connection → SessionId → RequestId → Headers → ℕ → F64 → Connection × List Effect
reject_session c session_id request_id headers status_code now =
    or_unresolved c session_id request_id (λ s. Close.reject s request_id headers status_code now)

unfoldable pub send_datagram : Connection → SessionId → RequestId → Bytes → Connection × List Effect
send_datagram c session_id request_id d = or_unresolved c session_id request_id (
    unchanged
      (λ s. Datagrams.send_datagram s request_id d (or_zero c.peer_max_datagram_frame_size)))

-- A stream that is bound to the session enters the map of streams.
unfoldable pub bound_stream :
    Connection
    → SessionId
    → StreamId
    → (Session → Session × List Effect)
    → Connection × List Effect
    → Option Session
    → Connection × List Effect
bound_stream c session_id stream_id call otherwise none = otherwise
bound_stream c session_id stream_id call otherwise (some session) =
    let (session', effects) = call session in
    (
      record c {
        sessions = insert session_id session' c.sessions;
        stream_map =
            if has_stream session' stream_id
            then insert stream_id session_id c.stream_map
            else c.stream_map;
      },
      effects,
    )

unfoldable pub bind_stream :
    Connection → SessionId → StreamId → RequestId → Bool → F64 → Connection × List Effect
bind_stream c session_id stream_id request_id is_unidirectional now =
    bound_stream c session_id stream_id
      (λ s. Peer.bind_stream s stream_id request_id is_unidirectional now)
      (c, unresolved_session request_id ∷ []) (lookup session_id c.sessions)
