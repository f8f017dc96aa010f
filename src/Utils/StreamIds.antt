-- ===== src/Utils/StreamIds.antt =====
-- Stream identifiers: the two low bits give the initiator and the direction.
use Prim.Native.Nat.{bit_and, bit_or}
use pywebtransport.Base.{ℕ, zero, suc, ◌⊎◌, ◌%◌, ◌≡◌, ◌↔◌, Bool, true, false, not, arith, ◌==◌}
use pywebtransport.Base.Bits.{bit_and-one, bit_and-two, bit_and-three}
use pywebtransport.Common.{SessionId, StreamId, StreamDirection}
use pywebtransport.Common.Constants.{quic_stream_direction_mask, quic_stream_initiator_mask}

-- Equality of two flags, `==` on `bool`.
abbrev pub bool_eq : Bool → Bool → Bool
bool_eq true b = b
bool_eq false b = not b

unfoldable pub is_unidirectional_stream : StreamId → Bool
is_unidirectional_stream stream_id = not (bit_and stream_id quic_stream_direction_mask == 0)

unfoldable pub is_peer_initiated_stream : StreamId → Bool → Bool
is_peer_initiated_stream stream_id is_client =
    let is_client_initiated = bit_and stream_id quic_stream_initiator_mask == 0 in
    not (bool_eq is_client_initiated is_client)

unfoldable pub is_valid_session_id : SessionId → Bool
is_valid_session_id session_id =
    bit_and session_id (bit_or quic_stream_direction_mask quic_stream_initiator_mask) == 0

-- The `match` on the pair of tests.
direction_of : Bool → Bool → StreamDirection
direction_of false _ = StreamDirection.bidirectional
direction_of true false = StreamDirection.send_only
direction_of true true = StreamDirection.receive_only

unfoldable pub stream_direction_from_id : StreamId → Bool → StreamDirection
unfolding direction_of
stream_direction_from_id stream_id is_client =
    direction_of (is_unidirectional_stream stream_id) (is_peer_initiated_stream stream_id is_client)

-- RFC 9000, section 2.1: the direction by the stream type, the identifier modulo 4.
abbrev pub direction_of_type : ℕ → Bool → StreamDirection
direction_of_type zero is_client = StreamDirection.bidirectional
direction_of_type (suc zero) is_client = StreamDirection.bidirectional
direction_of_type (suc (suc zero)) true = StreamDirection.send_only
direction_of_type (suc (suc zero)) false = StreamDirection.receive_only
direction_of_type (suc (suc (suc n))) true = StreamDirection.receive_only
direction_of_type (suc (suc (suc n))) false = StreamDirection.send_only

type-cases : (id : ℕ) → (id % 4 ≡ 0) ⊎ (id % 4 ≡ 1) ⊎ (id % 4 ≡ 2) ⊎ (id % 4 ≡ 3)
type-cases id = omega arith

-- The direction that the code reads off the bits is that of the stream type, at either end.
pub stream_direction-type :
    (id : StreamId) (is_client : Bool)
    → stream_direction_from_id id is_client ≡ direction_of_type (id % 4) is_client
unfolding stream_direction_from_id is_unidirectional_stream is_peer_initiated_stream
stream_direction-type id is_client = ground (arith, type-cases id, bit_and-one id, bit_and-two id)

-- The two ends of a connection agree on who opened a stream.
pub is_peer_initiated_opposite :
    (id : StreamId) (is_client : Bool)
    → is_peer_initiated_stream id (not is_client) ≡ not (is_peer_initiated_stream id is_client)
unfolding is_peer_initiated_stream
is_peer_initiated_opposite id is_client = ground arith

-- A session identifier is valid exactly when it names a bidirectional stream that the client opened.
pub is_valid_session_id_iff :
    (id : SessionId)
    → (is_valid_session_id id ≡ true) ↔ (
        (stream_direction_from_id id true ≡ StreamDirection.bidirectional)
        × (is_peer_initiated_stream id true ≡ false))
unfolding is_valid_session_id stream_direction_from_id is_unidirectional_stream
    is_peer_initiated_stream
is_valid_session_id_iff id = (
  λ h. ground (arith, bit_and-one id, bit_and-two id, bit_and-three id),
  λ h. ground (arith, bit_and-one id, bit_and-two id, bit_and-three id),
)
