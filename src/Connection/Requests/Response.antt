-- ===== src/Connection/Requests/Response.antt =====
-- protocol/connection.rs: `recv_headers` at a client: the answer to its request for a session.
use pywebtransport.Base.{Bool, true, false, Option, none, some, List, [], ◌∷◌, ◌++◌, if◌then◌else◌}
use pywebtransport.Base.Maps.{lookup, insert, remove}
use pywebtransport.Common.{
  Bytes, F64, Text, text, Headers, ErrorCode, ErrorSource, RequestId, StreamId,
}
use pywebtransport.Common.Constants.{
  err_h3_request_rejected, err_lib_internal_error, err_wt_alpn_error,
}
use pywebtransport.Connection.Defs.{Connection, SessionRequest}
use pywebtransport.Connection.Early.{replay_early_events}
use pywebtransport.Connection.Requests.{session_of}
use pywebtransport.Connection.Routing.{found_session}
use pywebtransport.Events.{
  Effect, notify_request_done, notify_request_failed, reset_quic_stream, stop_quic_stream,
  session_id,
}
use pywebtransport.Session.Close.{abort}
use pywebtransport.Session.Defs.{Session}
use pywebtransport.Session.Open
use pywebtransport.Utils.Fields.Items.{parse_wt_protocol_string}
use pywebtransport.Utils.Headers.{bytes_eq, find_header, combine_header, is_one_of}
use pywebtransport.Utils.Protocols.{◌>>=◌}

-- A header that is there and has the given value.
abbrev pub has_value : Option Bytes → Bytes → Bool
has_value none expected = false
has_value (some value) expected = bytes_eq value expected

-- The protocols that the client offered; `none` is a request that is not known any more.
abbrev pub offered_in : Option SessionRequest → Option (Option (List Text))
offered_in none = none
offered_in (some r) = some r.wt_available_protocols

abbrev pub offered : Option Session → Option SessionRequest → Option (Option (List Text))
offered none request = offered_in request
offered (some session) request = some session.wt_available_protocols

-- The choice of the server must be one of the offers.
abbrev pub is_chosen : Option Text → List Text → Bool
is_chosen none protocols = false
is_chosen (some protocol) protocols = is_one_of protocol protocols

abbrev pub is_acceptable : Option (List Text) → Option Text → Bool
is_acceptable none chosen = true
is_acceptable (some protocols) chosen = is_chosen chosen protocols

-- The end of a session that is there, or of the request for it.
unfoldable pub decline :
    Connection → StreamId → RequestId → ErrorCode → Text → F64 → Connection × List Effect
decline c stream_id request_id error_code reason now =
    found_session c stream_id (λ s. abort s error_code reason now)
      (
        record c { session_requests = remove request_id c.session_requests },
        notify_request_failed request_id ErrorSource.session (some error_code) reason
            ∷ stop_quic_stream stream_id error_code
            ∷ reset_quic_stream stream_id error_code
            ∷ [],
      )
      (lookup stream_id c.sessions)

-- The session of a request that was not optimistic.
unfoldable pub start_session :
    Connection
    → StreamId
    → RequestId
    → Option Text
    → F64
    → Option SessionRequest
    → Connection × List Effect
start_session c stream_id request_id wt_protocol now none = (c, [])
start_session c stream_id request_id wt_protocol now (some r) =
    let requested : Connection = record c {
      session_requests = remove request_id c.session_requests;
    } in
    let (session, effects) = Open.confirm (session_of c stream_id r) wt_protocol now in
    (
      record requested { sessions = insert stream_id session c.sessions },
      effects ++ notify_request_done request_id (session_id stream_id) ∷ [],
    )

unfoldable pub establish :
    Connection → StreamId → RequestId → Option Text → F64 → Connection × List Effect
unfolding start_session
establish c stream_id request_id wt_protocol now =
    found_session c stream_id (λ s. Open.confirm s wt_protocol now)
      (start_session c stream_id request_id wt_protocol now (lookup request_id c.session_requests))
      (lookup stream_id c.sessions)

-- The early events of the session follow.
unfoldable pub and_replay : StreamId → F64 → Connection × List Effect → Connection × List Effect
and_replay stream_id now (c, effects) =
    let (c', later) = replay_early_events c stream_id now in (c', effects ++ later)

-- The answer is read.
unfoldable pub recv_answer :
    Connection
    → StreamId
    → RequestId
    → Headers
    → F64
    → Option (Option (List Text))
    → Connection × List Effect
recv_answer c stream_id request_id headers now none = (
  c,
  notify_request_failed request_id ErrorSource.unspecified (some err_lib_internal_error)
        (text "wt_session resolve failed")
      ∷ [],
)
recv_answer c stream_id request_id headers now (some protocols) =
    let wt_protocol = combine_header headers (text "wt-protocol") >>= parse_wt_protocol_string in
    let refused : Connection = record c {
      session_requests = remove request_id c.session_requests;
    } in
    if has_value (find_header headers (text ":status")) (text "200")
    then if is_acceptable protocols wt_protocol
      then and_replay stream_id now (establish c stream_id request_id wt_protocol now)
      else decline c stream_id request_id err_wt_alpn_error (text "wt_protocol validate invalid")
          now
    else and_replay stream_id now
        (decline refused stream_id request_id err_h3_request_rejected (text "wt_session abort") now)

unfoldable pub recv_response :
    Connection → StreamId → Headers → F64 → Option RequestId → Connection × List Effect
unfolding recv_answer
recv_response c stream_id headers now none = (c, [])
recv_response c stream_id headers now (some request_id) =
    recv_answer
      (record c { pending_session_requests = remove stream_id c.pending_session_requests })
      stream_id request_id headers now
      (offered (lookup stream_id c.sessions) (lookup request_id c.session_requests))
