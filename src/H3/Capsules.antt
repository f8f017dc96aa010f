-- ===== src/H3/Capsules.antt =====
-- protocol/h3.rs: `parse_capsules`, the capsules in the bytes that a session's own stream delivers.
pub mod Chunks
pub mod Loop
pub mod Pieces
use pywebtransport.Base.{ℕ, zero, suc, some, List, [], ◌∷◌, ltb, if◌then◌else◌, length, take, drop}
use pywebtransport.Common.{Bytes, StreamId, text}
use pywebtransport.Common.Constants.{err_h3_message_error}
use pywebtransport.Common.Errors.{WebTransportError}
use pywebtransport.Events.Protocol.{ProtocolEvent, h3_capsule_received}
use pywebtransport.H3.Outcome.{Outcome, done, failed, ◌>>=◌}
use pywebtransport.Utils.Varint.{Result, ok, err, read_varint}

-- What stands at the front of the buffer: a part of a capsule, one that is too large, or a capsule
-- with its type and value, and what follows it.
pub data Front : Type 0 where
  partial : Front
  refused : WebTransportError → Front
  whole : ℕ → Bytes → Bytes → Front

module _ (max_capsule_size : ℕ) (stream_id : StreamId) where
  abbrev pub value_of : ℕ → Result (ℕ × Bytes) → Front
  value_of capsule_type (err code) = partial
  value_of capsule_type (ok (capsule_length, rest)) =
      if ltb max_capsule_size capsule_length
      then refused (
          WebTransportError.stream stream_id (some err_h3_message_error)
            (text "wt_capsule validate exceeded"))
      else if ltb (length rest) capsule_length
      then partial
      else whole capsule_type (take capsule_length rest) (drop capsule_length rest)

  abbrev pub capsule_of : Result (ℕ × Bytes) → Front
  capsule_of (err code) = partial
  capsule_of (ok (capsule_type, rest)) = value_of capsule_type (read_varint rest)

  -- One round of the loop.
  unfoldable pub front_of : Bytes → Front
  front_of buffer = capsule_of (read_varint buffer)

  -- The loop, with the rounds left. The events, and what stays in the buffer.
  unfoldable pub parse_rounds : ℕ → Bytes → Outcome (List ProtocolEvent × Bytes)
  parse_rounds zero buffer = done ([], buffer)
  parse_rounds (suc rounds) buffer = elim (front_of buffer) [
    | partial ↦ done ([], buffer)
    | refused e ↦ failed e
    | whole capsule_type capsule_value rest ↦ parse_rounds rounds rest >>= (λ (events, left).
        done (h3_capsule_received stream_id capsule_type capsule_value ∷ events, left))
  ]

  unfoldable pub parse_capsules : Bytes → Outcome (List ProtocolEvent × Bytes)
  parse_capsules buffer = parse_rounds (length buffer) buffer
