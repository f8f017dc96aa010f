-- ===== src/Utils/Tests.antt =====
-- The utilities at concrete inputs.
use pywebtransport.Base.{
  ℕ, ◌-◌, ◌%◌, ◌^◌, ◌<◌, ◌≤◌, ◌≡◌, refl, ◌↔◌, true, false, not, some, [], ◌∷◌, ◌++◌, arith, length,
}
use pywebtransport.Common.{Bytes, Text, StreamDirection}
use pywebtransport.Common.Constants.{
  err_wt_application_error_first, err_wt_application_error_last, err_lib_internal_error,
}
use pywebtransport.Utils.ErrorCodes.{
  http_code_to_webtransport_code, webtransport_code_to_http_code, http_code-webtransport_code,
  webtransport_code-http_code, webtransport_code_range, h3_error_reserved_offset,
  h3_error_reserved_modulo,
}
use pywebtransport.Utils.Fields.Items.{parse_wt_protocol_list, parse_wt_protocol_string}
use pywebtransport.Utils.Fields.RoundTrip.{
  parse_wt_protocol_list-encode, parse_wt_protocol_string-encode,
}
use pywebtransport.Utils.Protocols.{encode_wt_protocol_list, encode_bytes, encode_items}
use pywebtransport.Utils.StreamIds.{
  stream_direction_from_id, is_peer_initiated_stream, is_valid_session_id, stream_direction-type,
  is_peer_initiated_opposite, is_valid_session_id_iff,
}
use pywebtransport.Utils.Varint.{write_varint, read_varint, varint_size, ok, err}
use pywebtransport.Utils.Varint.RoundTrip.{
  read_varint-write_varint, read_varint_bounds, write_varint_error,
}

http_code-webtransport_code_example :
    http_code_to_webtransport_code (webtransport_code_to_http_code 31) ≡ some 31
http_code-webtransport_code_example = http_code-webtransport_code 31 (omega arith)

webtransport_code-http_code_example :
    (webtransport_code_to_http_code 30 ≡ 0x52e4_a40f_a8fa) × (30 < 2 ^ 32)
unfolding http_code_to_webtransport_code
webtransport_code-http_code_example = webtransport_code-http_code 0x52e4_a40f_a8fa 30 refl

webtransport_code_range_example :
    (err_wt_application_error_first ≤ webtransport_code_to_http_code 30)
    × (webtransport_code_to_http_code 30 ≤ err_wt_application_error_last)
    × (0
        < (webtransport_code_to_http_code 30 - h3_error_reserved_offset) % h3_error_reserved_modulo)
webtransport_code_range_example = webtransport_code_range 30 (omega arith)

stream_direction-type_example : stream_direction_from_id 7 true ≡ StreamDirection.receive_only
stream_direction-type_example = stream_direction-type 7 true

is_peer_initiated_opposite_example :
    is_peer_initiated_stream 5 false ≡ not (is_peer_initiated_stream 5 true)
is_peer_initiated_opposite_example = is_peer_initiated_opposite 5 true

is_valid_session_id_iff_example : (is_valid_session_id 8 ≡ true) ↔ (
    (stream_direction_from_id 8 true ≡ StreamDirection.bidirectional)
    × (is_peer_initiated_stream 8 true ≡ false))
is_valid_session_id_iff_example = is_valid_session_id_iff 8

read_varint-write_varint_example :
    (bs : Bytes) × (write_varint 15293 ≡ ok bs)
    × (length bs ≡ varint_size 15293)
    × (read_varint (bs ++ 1 ∷ []) ≡ ok (15293, 1 ∷ []))
read_varint-write_varint_example = read_varint-write_varint 15293 (1 ∷ []) (omega arith)

write_15293 : write_varint 15293 ≡ ok (0x7b ∷ 0xbd ∷ [])
unfolding write_varint
write_15293 = refl

read_varint_bounds_example :
    (15293 < 2 ^ 62) × (length {A = ℕ} (1 ∷ []) < length {A = ℕ} (0x7b ∷ 0xbd ∷ 1 ∷ []))
unfolding read_varint
read_varint_bounds_example = read_varint_bounds (0x7b ∷ 0xbd ∷ 1 ∷ []) (1 ∷ []) 15293 refl

write_varint_error_example : write_varint (2 ^ 62) ≡ err err_lib_internal_error
write_varint_error_example = write_varint_error (2 ^ 62) (omega arith)

-- A text with a quotation mark, `a"b`, and what is printed for it.
abbrev quoted : Text
quoted = 0x61 ∷ 0x22 ∷ 0x62 ∷ []

abbrev printed : Bytes
printed = 0x22 ∷ 0x61 ∷ 0x5c ∷ 0x22 ∷ 0x62 ∷ 0x22 ∷ []

parse_wt_protocol_list-encode_example :
    parse_wt_protocol_list (printed ++ 0x2c ∷ 0x20 ∷ printed) ≡ some (quoted ∷ quoted ∷ [])
unfolding encode_wt_protocol_list encode_bytes encode_items
parse_wt_protocol_list-encode_example =
    parse_wt_protocol_list-encode quoted (quoted ∷ []) (printed ++ 0x2c ∷ 0x20 ∷ printed) refl

parse_wt_protocol_string-encode_example : parse_wt_protocol_string printed ≡ some quoted
unfolding encode_wt_protocol_list encode_bytes encode_items
parse_wt_protocol_string-encode_example = parse_wt_protocol_string-encode quoted printed refl
