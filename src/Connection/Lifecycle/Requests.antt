-- ===== src/Connection/Lifecycle/Requests.antt =====
-- protocol/connection.rs: `recv_max_streams` and `recv_goaway`, which serve or refuse what waits.
use pywebtransport.Base.{Bool, true, Option, none, some, List, [], ◌∷◌, ◌++◌, if◌then◌else◌}
use pywebtransport.Base.Maps.{lookup, remove_all, keys, sort}
use pywebtransport.Common.{RequestId}
use pywebtransport.Connection.Defs.{Connection, SessionRequest, connection_state_failure}
use pywebtransport.Events.{Effect, create_h3_connect_stream}
use pywebtransport.Session.Flow
use pywebtransport.Session.Open
use pywebtransport.Connection.Lifecycle.{each_session}

-- The requests that wait for a stream, as far as they are still known.
abbrev pub connect_request : RequestId → Option SessionRequest → List Effect
connect_request request_id none = []
connect_request request_id (some r) =
    create_h3_connect_stream request_id r.authority r.path r.headers ∷ []

abbrev pub connect_requests : List (RequestId × SessionRequest) → List RequestId → List Effect
connect_requests requests [] = []
connect_requests requests (request_id ∷ rest) =
    connect_request request_id (lookup request_id requests) ++ connect_requests requests rest

unfoldable pub recv_max_streams : Connection → Bool → Connection × List Effect
recv_max_streams c is_unidirectional =
    let freed : Connection = record c {
      blocked_session_requests = if is_unidirectional then c.blocked_session_requests else [];
    } in
    let connects =
      if is_unidirectional
      then []
      else connect_requests c.session_requests c.blocked_session_requests in
    let (c', effects) =
      each_session freed (λ s. Flow.flush_blocked_stream_requests s is_unidirectional)
        (sort (keys c.sessions)) in
    (c', connects ++ effects)

-- The refusals of the requests that wait.
abbrev pub refuse_requests : List RequestId → List Effect
refuse_requests [] = []
refuse_requests (request_id ∷ rest) = connection_state_failure request_id ∷ refuse_requests rest

unfoldable pub recv_goaway : Connection → Connection × List Effect
recv_goaway c =
    let refused : Connection = record c {
      peer_goaway_received = true;
      blocked_session_requests = [];
      session_requests = remove_all c.blocked_session_requests c.session_requests;
    } in
    let (c', effects) = each_session refused Open.drain (sort (keys c.sessions)) in
    (c', refuse_requests c.blocked_session_requests ++ effects)
