-- ===== src/Connection/Invariant/Headers.antt =====
-- protocol/connection.rs: `recv_headers` keeps a connection valid.
use pywebtransport.Base.{
  ◌≡◌, refl, inl, inr, false, Option, none, some, List, length, arith, Bool-cases,
}
use pywebtransport.Base.Maps.{lookup, remove}
use pywebtransport.Base.Maps.Sizes.{Every-insert, length-insert}
use pywebtransport.Common.{F64, Text, text, Headers, ErrorCode, RequestId, StreamId}
use pywebtransport.Connection.Defs.{
  Connection, SessionRequest, has_flow_control, session_parameters,
}
use pywebtransport.Connection.Invariant.Early.{replay_early_events-IsValid}
use pywebtransport.Connection.Invariant.Requests.{
  session_parameters-Fits, started-IsValid, session_of-IsValid, dropped-IsValid,
}
use pywebtransport.Connection.Invariant.Routing.{found_session-IsValid}
use pywebtransport.Connection.IsValid.{IsValid}
use pywebtransport.Connection.Requests.{active_limit, is_full, session_of}
use pywebtransport.Connection.Requests.Incoming.{
  path_or_root, open_session, recv_request, recv_headers,
}
use pywebtransport.Connection.Requests.Response.{
  has_value, offered, is_acceptable, decline, start_session, establish, and_replay, recv_answer,
  recv_response,
}
use pywebtransport.Events.{Effect}
use pywebtransport.Session.Close.{abort}
use pywebtransport.Session.Defs.{new}
use pywebtransport.Session.Invariant.Ends.{abort-IsValid}
use pywebtransport.Session.Invariant.Open.{confirm-IsValid}
use pywebtransport.Session.Invariant.Steps.{new-IsValid}
use pywebtransport.Session.IsValid.{IsValid as IsValidSession}
use pywebtransport.Session.Open
use pywebtransport.Utils.Fields.Items.{parse_wt_protocol_list, parse_wt_protocol_string}
use pywebtransport.Utils.Headers.{find_header, combine_header}
use pywebtransport.Utils.Protocols.{◌>>=◌}

decline-IsValid :
    (c : Connection) (stream : StreamId) (id : RequestId) (code : ErrorCode) (reason : Text)
    (now : F64)
    → IsValid c
    → IsValid (decline c stream id code reason now).0
unfolding decline
decline-IsValid c stream id code reason now v =
    found_session-IsValid c stream (λ s. abort s code reason now) _
      (λ s k. abort-IsValid s code reason now k) (dropped-IsValid c id v) v
      (lookup stream c.sessions) refl

start_session-IsValid :
    (c : Connection) (stream : StreamId) (id : RequestId) (protocol : Option Text) (now : F64)
    (found : Option SessionRequest)
    → lookup id c.session_requests ≡ found
    → IsValid c
    → IsValid (start_session c stream id protocol now found).0
unfolding start_session
start_session-IsValid c stream id protocol now none e v = v
start_session-IsValid c stream id protocol now (some r) e v =
    started-IsValid c stream id r _ e
      (confirm-IsValid (session_of c stream r) protocol now (session_of-IsValid c stream r v)) v

establish-IsValid :
    (c : Connection) (stream : StreamId) (id : RequestId) (protocol : Option Text) (now : F64)
    → IsValid c
    → IsValid (establish c stream id protocol now).0
unfolding establish
establish-IsValid c stream id protocol now v =
    found_session-IsValid c stream (λ s. Open.confirm s protocol now) _
      (λ s k. confirm-IsValid s protocol now k)
      (start_session-IsValid c stream id protocol now (lookup id c.session_requests) refl v) v
      (lookup stream c.sessions) refl

and_replay-IsValid :
    (stream : StreamId) (now : F64) (outcome : Connection × List Effect)
    → IsValid outcome.0
    → IsValid (and_replay stream now outcome).0
unfolding and_replay
and_replay-IsValid stream now (c, effects) v = replay_early_events-IsValid c stream now v

recv_answer-IsValid :
    (c : Connection) (stream : StreamId) (id : RequestId) (headers : Headers) (now : F64)
    (protocols : Option (Option (List Text)))
    → IsValid c
    → IsValid (recv_answer c stream id headers now protocols).0
unfolding recv_answer
recv_answer-IsValid c stream id headers now none v = v
recv_answer-IsValid c stream id headers now (some protocols) v =
    let chosen = combine_header headers (text "wt-protocol") >>= parse_wt_protocol_string in
    elim (Bool-cases (has_value (find_header headers (text ":status")) (text "200"))) [
      | inr e ↦ simp (e) (
          and_replay-IsValid stream now _
            (decline-IsValid _ stream id _ _ now (dropped-IsValid c id v)))
      | inl e ↦ elim (Bool-cases (is_acceptable protocols chosen)) [
        | inl f ↦
            simp (e, f)
              (and_replay-IsValid stream now _ (establish-IsValid c stream id chosen now v))
        | inr f ↦ simp (e, f) (decline-IsValid c stream id _ _ now v)
      ]
    ]

recv_response-IsValid :
    (c : Connection) (stream : StreamId) (headers : Headers) (now : F64) (found : Option RequestId)
    → IsValid c
    → IsValid (recv_response c stream headers now found).0
unfolding recv_response active_limit has_flow_control
recv_response-IsValid c stream headers now none v = v
recv_response-IsValid c stream headers now (some id) v =
    let taken : Connection = record c {
      pending_session_requests = remove stream c.pending_session_requests;
    } in
    let taken-IsValid : IsValid taken = ground arith in
    recv_answer-IsValid taken stream id headers now
      (offered (lookup stream c.sessions) (lookup id c.session_requests)) taken-IsValid

open_session-IsValid :
    (c : Connection) (stream : StreamId) (headers : Headers) (now : F64)
    → c.is_client ≡ false
    → is_full c (length c.sessions) ≡ false
    → IsValid c
    → IsValid (open_session c stream headers now).0
unfolding open_session is_full active_limit has_flow_control
open_session-IsValid c stream headers now server room v =
    let s =
      new stream (path_or_root (find_header headers (text ":path"))) headers
        (combine_header headers (text "wt-available-protocols") >>= parse_wt_protocol_list)
        c.is_client (session_parameters c) now in
    let fresh : IsValidSession s =
      new-IsValid stream _ headers _ c.is_client (session_parameters c) now
        (session_parameters-Fits c v) in
    let every = Every-insert IsValidSession stream s c.sessions fresh v.sessions_valid in
    and_replay-IsValid stream now _ (ground (arith, every, length-insert stream s c.sessions))

recv_request-IsValid :
    (c : Connection) (stream : StreamId) (headers : Headers) (now : F64)
    → c.is_client ≡ false
    → IsValid c
    → IsValid (recv_request c stream headers now).0
unfolding recv_request
recv_request-IsValid c stream headers now server v =
    elim (Bool-cases (is_full c (length c.sessions))) [
      | inl full ↦ ground (arith, v)
      | inr room ↦ ground (arith, open_session-IsValid c stream headers now server room v)
    ]

pub recv_headers-IsValid :
    (c : Connection) (stream : StreamId) (headers : Headers) (now : F64)
    → IsValid c
    → IsValid (recv_headers c stream headers now).0
unfolding recv_headers
recv_headers-IsValid c stream headers now v = elim (Bool-cases c.is_client) [
  | inl e ↦
      simp (e)
        (recv_response-IsValid c stream headers now (lookup stream c.pending_session_requests) v)
  | inr e ↦ ground (arith, recv_request-IsValid c stream headers now e v)
]
