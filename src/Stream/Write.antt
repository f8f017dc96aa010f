-- ===== src/Stream/Write.antt =====
-- protocol/stream.rs: `write`, `flush_writes`, `complete_write`, `handle_data_acknowledged`.
use pywebtransport.Base.{
  ℕ, Bool, false, not, ◌&&◌, ◌||◌, Option, none, some, List, [], ◌∷◌, ◌++◌, ltb, leb, ◌==◌,
  if◌then◌else◌, is_some, is_empty, length, take, drop,
}
use pywebtransport.Base.Word.{add64, sub64}
use pywebtransport.Common.{Bytes, text, RequestId, StreamSendState}
use pywebtransport.Common.Constants.{err_lib_stream_state_error}
use pywebtransport.Events.{Effect, notify_request_done, send_quic_data, nothing}
use pywebtransport.Stream.Defs.{
  Stream, PendingWrite, is_ready, stream_failure, validate_invalid, validate_failed,
}

-- The bytes of an entry that the credit lets through (`split_off` leaves them in `data`).
abbrev pub sendable : PendingWrite → ℕ → Bytes
sendable w available_credit =
    if leb (length w.bytes) available_credit then w.bytes else take available_credit w.bytes

-- What stays in the buffer of an entry that is not sent whole.
abbrev pub unsent : PendingWrite → ℕ → List PendingWrite
unsent w available_credit =
    if leb (length w.bytes) available_credit
    then []
    else record w { bytes = drop available_credit w.bytes } ∷ []

-- `flush_writes` behind its first guard, on the buffer split at its front.
unfoldable pub flush_front : Stream → List PendingWrite → ℕ → Stream × List Effect × ℕ
flush_front s [] available_credit = (s, [], 0)
flush_front s (w ∷ rest) available_credit =
    let sent = length (sendable w available_credit) in
    let is_finished = leb (length w.bytes) available_credit && w.end_stream in
    if ltb 0 (length w.bytes) && available_credit == 0 then (s, [], 0) else (
      record s {
        write_buffer = unsent w available_credit ++ rest;
        write_buffer_size = sub64 s.write_buffer_size sent;
        pending_write_request = some w.request_id;
        send_state = if is_finished then some StreamSendState.data_sent else s.send_state;
      },
      send_quic_data s.id (sendable w available_credit) is_finished ∷ [],
      sent,
    )

unfoldable pub flush_writes : Stream → ℕ → Stream × List Effect × ℕ
unfolding flush_front
flush_writes s available_credit =
    if is_some s.pending_write_request || not (is_ready s.send_state)
    then (s, [], 0)
    else flush_front s s.write_buffer available_credit

-- Whether the front of the buffer belongs to the request.
abbrev pub is_front_request : List PendingWrite → RequestId → Bool
is_front_request [] request_id = false
is_front_request (w ∷ rest) request_id = w.request_id == request_id

unfoldable pub complete_request : Stream → Option RequestId → ℕ → Stream × List Effect × ℕ
complete_request s none available_credit = (s, [], 0)
complete_request s (some request_id) available_credit =
    let (s', flush_effects, sent) =
      flush_writes (record s { pending_write_request = none }) available_credit in
    let done =
      if is_front_request s.write_buffer request_id
      then []
      else notify_request_done request_id nothing ∷ [] in
    (s', done ++ flush_effects, sent)

unfoldable pub complete_write : Stream → ℕ → Stream × List Effect × ℕ
unfolding complete_request
complete_write s available_credit = complete_request s s.pending_write_request available_credit

-- `write_buffer.back().is_some_and(|&(_, _, end_stream)| end_stream)`.
abbrev pub is_finish_pending : List PendingWrite → Bool
is_finish_pending [] = false
is_finish_pending (w ∷ []) = w.end_stream
is_finish_pending (w ∷ v ∷ rest) = is_finish_pending (v ∷ rest)

-- `write` on a stream that has a send half.
unfoldable pub write_ready : Stream → RequestId → Bytes → Bool → ℕ → Stream × List Effect × ℕ
write_ready s request_id data' end_stream available_credit =
    if not (is_ready s.send_state) || is_finish_pending s.write_buffer
    then (
      s,
      (if is_empty data' && end_stream
            then notify_request_done request_id nothing
            else validate_failed request_id)
          ∷ [],
      0,
    )
    else if ltb s.max_write_buffer_size (add64 s.write_buffer_size (length data'))
    then (
      s,
      stream_failure request_id (some err_lib_stream_state_error)
            (text "wt_stream validate exceeded")
          ∷ [],
      0,
    )
    else flush_writes
        (record s {
          write_buffer =
              s.write_buffer
              ++ record { bytes = data'; request_id = request_id; end_stream = end_stream } ∷ [];
          write_buffer_size = add64 s.write_buffer_size (length data');
        })
        available_credit

unfoldable pub write : Stream → RequestId → Bytes → Bool → ℕ → Stream × List Effect × ℕ
unfolding write_ready
write s request_id data' end_stream available_credit =
    if is_some s.send_state
    then write_ready s request_id data' end_stream available_credit
    else (s, validate_invalid request_id ∷ [], 0)

-- `DataSent` becomes `DataReceived`; any other state stays.
abbrev pub acknowledged : Option StreamSendState → Option StreamSendState
acknowledged (some StreamSendState.data_sent) = some StreamSendState.data_received
acknowledged state = state

unfoldable pub handle_data_acknowledged : Stream → Stream
handle_data_acknowledged s = record s { send_state = acknowledged s.send_state }
