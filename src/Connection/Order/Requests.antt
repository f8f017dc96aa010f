-- ===== src/Connection/Order/Requests.antt =====
-- protocol/connection.rs: the requests for sessions move the state of a connection forward only.
use pywebtransport.Base.{inl, inr, Bool-cases, Option, none, some, List, arith}
use pywebtransport.Base.Maps.{lookup}
use pywebtransport.Utils.Fields.Items.{parse_wt_protocol_string}
use pywebtransport.Utils.Headers.{find_header, combine_header}
use pywebtransport.Utils.Protocols.{◌>>=◌}
use pywebtransport.Common.{F64, Text, text, Headers, ErrorCode, RequestId, StreamId}
use pywebtransport.Connection.Defs.{Connection, SessionRequest}
use pywebtransport.Connection.Order.{Advances, found_session-Advances}
use pywebtransport.Connection.Order.Early.{replay_early_events-Advances}
use pywebtransport.Connection.Requests.{
  offer, request_session, create_session, bind_found, bind_session,
}
use pywebtransport.Connection.Requests.Incoming.{open_session, recv_request, recv_headers}
use pywebtransport.Connection.Requests.Response.{
  has_value, is_acceptable, decline, start_session, establish, and_replay, recv_answer,
  recv_response,
}
use pywebtransport.Events.{Effect}

request_session-Advances :
    (c : Connection) (id : RequestId) (r : Option SessionRequest)
    → Advances c (request_session c id r).0
unfolding request_session
request_session-Advances c id none = omega arith
request_session-Advances c id (some r) = omega arith

pub create_session-Advances :
    (c : Connection) (id : RequestId) (r : SessionRequest) → Advances c (create_session c id r).0
unfolding create_session
create_session-Advances c id r =
    ground (arith, request_session-Advances c id (offer r r.wt_available_protocols))

bind_found-Advances :
    (c : Connection) (stream : StreamId) (id : RequestId) (found : Option SessionRequest)
    → Advances c (bind_found c stream id found).0
unfolding bind_found
bind_found-Advances c stream id none = omega arith
bind_found-Advances c stream id (some r) = ground arith

pub bind_session-Advances :
    (c : Connection) (stream : StreamId) (id : RequestId) → Advances c (bind_session c stream id).0
unfolding bind_session
bind_session-Advances c stream id = bind_found-Advances _ stream id (lookup id c.session_requests)

decline-Advances :
    (c : Connection) (stream : StreamId) (id : RequestId) (code : ErrorCode) (reason : Text)
    (now : F64)
    → Advances c (decline c stream id code reason now).0
unfolding decline
decline-Advances c stream id code reason now =
    found_session-Advances c stream _ _ (omega arith) (lookup stream c.sessions)

start_session-Advances :
    (c : Connection) (stream : StreamId) (id : RequestId) (protocol : Option Text) (now : F64)
    (found : Option SessionRequest)
    → Advances c (start_session c stream id protocol now found).0
unfolding start_session
start_session-Advances c stream id protocol now none = omega arith
start_session-Advances c stream id protocol now (some r) = omega arith

and_replay-Advances :
    (c : Connection) (stream : StreamId) (now : F64) (outcome : Connection × List Effect)
    → Advances c outcome.0
    → Advances c (and_replay stream now outcome).0
unfolding and_replay
and_replay-Advances c stream now (d, effects) o =
    omega (arith, o, replay_early_events-Advances d stream now)

establish-Advances :
    (c : Connection) (stream : StreamId) (id : RequestId) (protocol : Option Text) (now : F64)
    → Advances c (establish c stream id protocol now).0
unfolding establish
establish-Advances c stream id protocol now =
    found_session-Advances c stream _ _
      (start_session-Advances c stream id protocol now (lookup id c.session_requests))
      (lookup stream c.sessions)

recv_answer-Advances :
    (c : Connection) (stream : StreamId) (id : RequestId) (headers : Headers) (now : F64)
    (protocols : Option (Option (List Text)))
    → Advances c (recv_answer c stream id headers now protocols).0
unfolding recv_answer
recv_answer-Advances c stream id headers now none = omega arith
recv_answer-Advances c stream id headers now (some protocols) =
    let chosen = combine_header headers (text "wt-protocol") >>= parse_wt_protocol_string in
    elim (Bool-cases (has_value (find_header headers (text ":status")) (text "200"))) [
      | inr e ↦ simp (e) (and_replay-Advances c stream now _ (decline-Advances _ stream id _ _ now))
      | inl e ↦ elim (Bool-cases (is_acceptable protocols chosen)) [
        | inl f ↦
            simp (e, f)
              (and_replay-Advances c stream now _ (establish-Advances c stream id chosen now))
        | inr f ↦ simp (e, f) (decline-Advances c stream id _ _ now)
      ]
    ]

recv_response-Advances :
    (c : Connection) (stream : StreamId) (headers : Headers) (now : F64) (found : Option RequestId)
    → Advances c (recv_response c stream headers now found).0
unfolding recv_response
recv_response-Advances c stream headers now none = omega arith
recv_response-Advances c stream headers now (some id) =
    recv_answer-Advances _ stream id headers now _

open_session-Advances :
    (c : Connection) (stream : StreamId) (headers : Headers) (now : F64)
    → Advances c (open_session c stream headers now).0
unfolding open_session
open_session-Advances c stream headers now = and_replay-Advances c stream now _ (omega arith)

pub recv_headers-Advances :
    (c : Connection) (stream : StreamId) (headers : Headers) (now : F64)
    → Advances c (recv_headers c stream headers now).0
unfolding recv_headers recv_request
recv_headers-Advances c stream headers now = ground (
  arith,
  recv_response-Advances c stream headers now (lookup stream c.pending_session_requests),
  open_session-Advances c stream headers now,
)
