-- ===== src/H3/Frames.antt =====
-- protocol/h3.rs: `encode_frame_header`, `encode_capsule`, `encode_datagram`, `encode_goaway`,
-- `encode_stream_header`, `parse_push_id` and `recv_datagram`. Bytes that are sent as several parts
-- are a list of them.
pub mod RoundTrip
use pywebtransport.Base.{
  ℕ, ◌+◌, ◌*◌, ◌/◌, Bool, true, false, not, some, List, [], ◌∷◌, ◌++◌, ltb, if◌then◌else◌, is_empty,
  length,
}
use pywebtransport.Common.{Bytes, SessionId, StreamId, text}
use pywebtransport.Common.Constants.{
  err_h3_datagram_error, err_h3_frame_error, err_h3_stream_creation_error, h3_frame_type_data,
  h3_frame_type_goaway, h3_frame_type_wt_stream, h3_stream_type_webtransport, quic_varint_limit,
}
use pywebtransport.Common.Errors.{WebTransportError}
use pywebtransport.Events.{Effect, send_quic_data}
use pywebtransport.Events.Protocol.{ProtocolEvent, h3_datagram_received}
use pywebtransport.H3.Outcome.{Outcome, done, failed, ◌>>=◌, put_varint, get_varint}
use pywebtransport.Utils.StreamIds.{is_valid_session_id}

-- Two varints in a row.
abbrev pub put_varints : ℕ → ℕ → Outcome Bytes
put_varints first second = do
  front ← put_varint first
  back ← put_varint second
  done (front ++ back)

unfoldable pub encode_frame_header : ℕ → ℕ → Outcome Bytes
encode_frame_header frame_type payload_length = put_varints frame_type payload_length

unfoldable pub encode_capsule : StreamId → ℕ → Bytes → Outcome (List Bytes)
unfolding encode_frame_header
encode_capsule stream_id capsule_type capsule_value =
    if not (is_valid_session_id stream_id)
    then failed (
        WebTransportError.protocol (some err_h3_stream_creation_error)
          (text "h3_stream validate invalid"))
    else do
      capsule_header ← put_varints capsule_type (length capsule_value)
      frame_header ←
          encode_frame_header h3_frame_type_data (length capsule_header + length capsule_value)
      done (frame_header ∷ capsule_header ∷ capsule_value ∷ [])

unfoldable pub encode_datagram : SessionId → Bytes → Outcome (List Bytes)
encode_datagram session_id d =
    if not (is_valid_session_id session_id)
    then failed (
        WebTransportError.protocol (some err_h3_stream_creation_error)
          (text "wt_session validate invalid"))
    else put_varint (session_id / 4) >>= (λ header. done (header ∷ d ∷ []))

unfoldable pub encode_goaway : ℕ → Outcome Bytes
unfolding encode_frame_header
encode_goaway identifier = do
  payload ← put_varint identifier
  header ← encode_frame_header h3_frame_type_goaway (length payload)
  done (header ++ payload)

-- Where a varint cannot be written, nothing is sent.
abbrev pub send_header : StreamId → Outcome Bytes → List Effect
send_header stream_id (done header) = send_quic_data stream_id header false ∷ []
send_header stream_id (failed e) = []

unfoldable pub encode_stream_header : StreamId → SessionId → Bool → List Effect
encode_stream_header stream_id session_id is_unidirectional = send_header stream_id (
    put_varints (if is_unidirectional then h3_stream_type_webtransport else h3_frame_type_wt_stream)
      session_id)

unfoldable pub parse_push_id : Bytes → Outcome ℕ
parse_push_id d = do
  (push_id, rest) ← get_varint err_h3_frame_error d
  elim (is_empty rest) [
    | true ↦ done push_id
    | false ↦
        failed
          (WebTransportError.protocol (some err_h3_frame_error) (text "h3_frame validate invalid"))
  ]

unfoldable pub recv_datagram : Bytes → Outcome (List ProtocolEvent)
recv_datagram d = do
  (quarter_stream_id, rest) ← get_varint err_h3_datagram_error d
  elim (ltb quic_varint_limit (quarter_stream_id * 4)) [
    | true ↦ failed (
        WebTransportError.protocol (some err_h3_datagram_error)
          (text "wt_datagram validate exceeded"))
    | false ↦ done (h3_datagram_received (quarter_stream_id * 4) rest ∷ [])
  ]
