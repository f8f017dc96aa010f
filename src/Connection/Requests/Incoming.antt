-- ===== src/Connection/Requests/Incoming.antt =====
-- protocol/connection.rs: `recv_headers`, and its part at a server: the request of a peer for a session.
use pywebtransport.Base.{
  true, not, ◌&&◌, Option, none, some, List, [], ◌∷◌, if◌then◌else◌, is_some, length,
}
use pywebtransport.Base.Maps.{lookup, insert}
use pywebtransport.Base.Utf8.{is_utf8}
use pywebtransport.Common.{Bytes, F64, Text, text, Headers, EventType, StreamId}
use pywebtransport.Common.Constants.{err_h3_request_rejected}
use pywebtransport.Connection.Defs.{Connection, session_parameters, is_connected_state}
use pywebtransport.Connection.Requests.{is_full}
use pywebtransport.Connection.Requests.Response.{has_value, and_replay, recv_response}
use pywebtransport.Events.{
  Effect, session_event, emit_session_event, send_h3_headers, stop_quic_stream,
}
use pywebtransport.Session.Defs.{new}
use pywebtransport.Utils.Fields.Items.{parse_wt_protocol_list}
use pywebtransport.Utils.Headers.{find_header, combine_header}
use pywebtransport.Utils.Protocols.{◌>>=◌}

-- A refusal with a status.
abbrev pub refuse_request : StreamId → Text → List Effect
refuse_request stream_id status =
    send_h3_headers stream_id ((text ":status", status) ∷ []) true
    ∷ stop_quic_stream stream_id err_h3_request_rejected
    ∷ []

abbrev pub path_or_root : Option Bytes → Text
path_or_root none = text "/"
path_or_root (some path) = if is_utf8 path then path else text "/"

-- The session of a request that is in order.
unfoldable pub open_session : Connection → StreamId → Headers → F64 → Connection × List Effect
open_session c stream_id headers now =
    let path = path_or_root (find_header headers (text ":path")) in
    let protocols =
      combine_header headers (text "wt-available-protocols") >>= parse_wt_protocol_list in
    and_replay stream_id now (
      record c {
        sessions =
            insert stream_id
              (new stream_id path headers protocols c.is_client (session_parameters c) now)
              c.sessions;
      },
      emit_session_event (record (session_event stream_id EventType.session_request_received) {
        path = some path;
        headers = some headers;
        wt_available_protocols = protocols;
      })
          ∷ [],
    )

unfoldable pub recv_request : Connection → StreamId → Headers → F64 → Connection × List Effect
unfolding open_session
recv_request c stream_id headers now =
    if is_some (lookup stream_id c.sessions)
    then (c, [])
    else if not (is_connected_state c.state)
    then (c, refuse_request stream_id (text "429"))
    else if c.local_goaway_sent
    then (c, refuse_request stream_id (text "429"))
    else if is_full c (length c.sessions)
    then (c, refuse_request stream_id (text "429"))
    else if not (
        has_value (find_header headers (text ":method")) (text "CONNECT")
        && has_value (find_header headers (text ":protocol")) (text "webtransport-h3"))
    then (c, refuse_request stream_id (text "400"))
    else open_session c stream_id headers now

unfoldable pub recv_headers : Connection → StreamId → Headers → F64 → Connection × List Effect
unfolding recv_response recv_request
recv_headers c stream_id headers now =
    if c.is_client
    then recv_response c stream_id headers now (lookup stream_id c.pending_session_requests)
    else recv_request c stream_id headers now
