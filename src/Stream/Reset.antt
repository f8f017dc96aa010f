-- ===== src/Stream/Reset.antt =====
-- protocol/stream.rs: the methods that end a half of a stream: `send_reset`, `send_stop`, `abort`,
-- `reset`, `stop`, `recv_reset`, `recv_stop_sending`.
use pywebtransport.Base.{◌^◌, Option, none, some, List, [], ◌∷◌, ◌++◌, ltb, if◌then◌else◌, is_some}
use pywebtransport.Common.{
  text, ErrorCode, EventType, RequestId, StreamId, StreamReceiveState, StreamSendState,
}
use pywebtransport.Common.Constants.{err_wt_application_error_first}
use pywebtransport.Events.{
  Effect, emit_stream_event, notify_request_done, reset_quic_stream, stop_quic_stream, nothing,
}
use pywebtransport.Stream.Defs.{
  Stream, PendingRead, PendingWrite, is_receive_terminated, is_send_terminated, stream_failure,
  validate_invalid,
}
use pywebtransport.Stream.Write.{is_front_request}
use pywebtransport.Utils.ErrorCodes.{http_code_to_webtransport_code, webtransport_code_to_http_code}

abbrev pub abort_failure : Option ErrorCode → RequestId → Effect
abort_failure error_code request_id = stream_failure request_id error_code (text "wt_stream abort")

-- The `while let` loops that fail every queued request.
abbrev pub fail_writes : Option ErrorCode → List PendingWrite → List Effect
fail_writes error_code [] = []
fail_writes error_code (w ∷ rest) =
    abort_failure error_code w.request_id ∷ fail_writes error_code rest

abbrev pub fail_reads : Option ErrorCode → List PendingRead → List Effect
fail_reads error_code [] = []
fail_reads error_code (r ∷ rest) =
    abort_failure error_code r.request_id ∷ fail_reads error_code rest

-- The request in flight fails too, unless it is the front of the buffer and so fails with it.
abbrev pub fail_pending : Option ErrorCode → Option RequestId → List PendingWrite → List Effect
fail_pending error_code none buffer = []
fail_pending error_code (some request_id) buffer =
    if is_front_request buffer request_id then [] else abort_failure error_code request_id ∷ []

unfoldable pub send_reset : Stream → Option ErrorCode → ErrorCode → Stream × List Effect
send_reset s error_code http_error_code = if is_send_terminated s.send_state then (s, []) else (
  record s {
    send_error_code = error_code;
    send_state = some StreamSendState.reset_sent;
    write_buffer_size = 0;
    pending_write_request = none;
    write_buffer = [];
  },
  reset_quic_stream s.id http_error_code
      ∷ (fail_pending error_code s.pending_write_request s.write_buffer
          ++ fail_writes error_code s.write_buffer),
)

-- Only a stream that still receives asks the peer to stop.
abbrev pub stop_effects : Stream → Option StreamReceiveState → ErrorCode → List Effect
stop_effects s (some StreamReceiveState.receive) http_error_code =
    stop_quic_stream s.id http_error_code ∷ []
stop_effects s _ http_error_code = []

unfoldable pub send_stop : Stream → Option ErrorCode → ErrorCode → Stream × List Effect
send_stop s error_code http_error_code =
    if is_receive_terminated s.receive_state then (s, []) else (
      record s {
        receive_error_code = error_code;
        receive_state = some StreamReceiveState.reset_read;
        pending_read_requests = [];
      },
      stop_effects s s.receive_state http_error_code
          ++ fail_reads error_code s.pending_read_requests,
    )

unfoldable pub abort : Stream → ErrorCode → Stream × List Effect
abort s error_code =
    let (s', effects) = send_reset s (some error_code) error_code in
    let (s'', stop_effects') = send_stop s' (some error_code) error_code in
    (s'', effects ++ stop_effects')

-- `u32::try_from(error_code).map(webtransport_code_to_http_code)`, with the default of the callers.
abbrev pub http_error_code : ErrorCode → ErrorCode
http_error_code error_code =
    if ltb error_code (2 ^ 32)
    then webtransport_code_to_http_code error_code
    else err_wt_application_error_first

unfoldable pub reset : Stream → RequestId → ErrorCode → Stream × List Effect
reset s request_id error_code =
    let (s', effects) = send_reset s (some error_code) (http_error_code error_code) in
    if is_some s.send_state
    then if is_send_terminated s.send_state
      then (s, notify_request_done request_id nothing ∷ [])
      else (s', effects ++ notify_request_done request_id nothing ∷ [])
    else (s, validate_invalid request_id ∷ [])

unfoldable pub stop : Stream → RequestId → ErrorCode → Stream × List Effect
stop s request_id error_code =
    let (s', effects) = send_stop s (some error_code) (http_error_code error_code) in
    if is_some s.receive_state
    then if is_receive_terminated s.receive_state
      then (s, notify_request_done request_id nothing ∷ [])
      else (s', effects ++ notify_request_done request_id nothing ∷ [])
    else (s, validate_invalid request_id ∷ [])

abbrev pub stream_event : StreamId → EventType → Option ErrorCode → Effect
stream_event stream_id event_type error_code = emit_stream_event (record {
  stream_id = stream_id;
  event_type = event_type;
  session_id = none;
  direction = none;
  is_peer_initiated = none;
  error_code = error_code;
})

unfoldable pub recv_reset : Stream → ErrorCode → Stream × List Effect
recv_reset s error_code =
    let application_error_code = http_code_to_webtransport_code error_code in
    if is_receive_terminated s.receive_state then (s, []) else (
      record s {
        receive_error_code = application_error_code;
        receive_state = some StreamReceiveState.reset_read;
        pending_read_requests = [];
      },
      stream_event s.id EventType.stream_reset_received application_error_code
          ∷ fail_reads application_error_code s.pending_read_requests,
    )

unfoldable pub recv_stop_sending : Stream → ErrorCode → Stream × List Effect
recv_stop_sending s error_code =
    let application_error_code = http_code_to_webtransport_code error_code in
    let (s', effects) = send_reset s application_error_code error_code in
    if is_send_terminated s.send_state then (s, []) else (
      s',
      stream_event s.id EventType.stream_stop_sending_received application_error_code ∷ effects,
    )
