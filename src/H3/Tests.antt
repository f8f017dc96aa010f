-- ===== src/H3/Tests.antt =====
-- The framing of HTTP/3 at concrete inputs.
use pywebtransport.Base.{length, ◌≡◌, refl, some, [], ◌∷◌, ◌++◌, arith, true, false, all, is_some}
use pywebtransport.Common.{Bytes, Headers, text}
use pywebtransport.Events.Protocol.{H3Settings, h3_capsule_received, h3_datagram_received}
use pywebtransport.H3.Capsules.{parse_rounds, parse_capsules}
use pywebtransport.H3.Capsules.Chunks.{prepend}
use pywebtransport.H3.Capsules.Loop.{Stops, parse_capsules_terminates}
use pywebtransport.H3.Capsules.Pieces.{
  then_parse, parse_capsules-append, parse_capsules-encode_capsule,
}
use pywebtransport.H3.Frames.{encode_capsule, encode_datagram, encode_frame_header, recv_datagram}
use pywebtransport.H3.Frames.RoundTrip.{recv_datagram-encode_datagram}
use pywebtransport.H3.Headers.{
  is_allowed, is_valid_request, read_field, read_pseudo, read_request, read_response,
  validate_request_headers, validate_response_headers,
}
use pywebtransport.H3.Headers.Accepted.{
  pseudo_first, validate_request_headers-accepts, validate_response_headers-accepts,
}
use pywebtransport.Utils.Headers.{is_valid_header, is_connection_specific_header, find_header}
use pywebtransport.H3.Outcome.{done, ◌>>=◌}
use pywebtransport.H3.Settings.{no_settings, encode_settings, encode_entries, parse_settings}
use pywebtransport.H3.Settings.RoundTrip.{parse_settings-encode_settings}
use pywebtransport.Utils.StreamIds.{is_valid_session_id}
use pywebtransport.Utils.Varint.{ok, read_varint, write_varint}

recv_datagram-encode_datagram_example :
    recv_datagram (1 ∷ 7 ∷ []) ≡ done (h3_datagram_received 4 (7 ∷ []) ∷ [])
unfolding encode_datagram write_varint is_valid_session_id
recv_datagram-encode_datagram_example =
    recv_datagram-encode_datagram 4 (7 ∷ []) ((1 ∷ []) ∷ (7 ∷ []) ∷ []) (omega arith) refl

-- One known setting and one extension.
abbrev two : H3Settings
two = record no_settings { wt_enabled = some 1; unknown = (0x21, 5) ∷ [] }

parse_settings-encode_settings_example :
    parse_settings (0xac ∷ 0x7c ∷ 0xf0 ∷ 0 ∷ 1 ∷ 0x21 ∷ 5 ∷ []) ≡ done two
unfolding encode_settings encode_entries write_varint
parse_settings-encode_settings_example =
    parse_settings-encode_settings two (0xac ∷ 0x7c ∷ 0xf0 ∷ 0 ∷ 1 ∷ 0x21 ∷ 5 ∷ []) (refl, refl, tt)
      (omega arith) refl

-- A capsule, and a part of the next one.
abbrev piece : Bytes
piece = 1 ∷ 1 ∷ 9 ∷ 2 ∷ 3 ∷ []

parse_capsules_terminates_example :
    (parse_rounds 10 0 7 piece ≡ parse_capsules 10 0 piece) × Stops 10 0 (parse_capsules 10 0 piece)
parse_capsules_terminates_example = parse_capsules_terminates 10 0 7 piece (omega arith)

parse_capsules-append_example :
    parse_capsules 10 0 (piece ++ 4 ∷ 5 ∷ 6 ∷ [])
    ≡ (parse_capsules 10 0 piece >>= then_parse 10 0 (4 ∷ 5 ∷ 6 ∷ []))
parse_capsules-append_example = parse_capsules-append 10 0 piece (4 ∷ 5 ∷ 6 ∷ [])

parse_capsules-encode_capsule_example :
    (payload : Bytes) × (middle : Bytes) × (read_varint (0 ∷ 3 ∷ 1 ∷ 1 ∷ 9 ∷ 8 ∷ [])
      ≡ ok (0, middle))
    × (read_varint middle ≡ ok (length payload, payload ++ 8 ∷ []))
    × (parse_capsules 10 0 (payload ++ 2 ∷ 3 ∷ [])
        ≡ prepend (h3_capsule_received 0 1 (9 ∷ []) ∷ []) (parse_capsules 10 0 (2 ∷ 3 ∷ [])))
unfolding encode_capsule encode_frame_header write_varint is_valid_session_id
parse_capsules-encode_capsule_example =
    parse_capsules-encode_capsule 10 0 1 (9 ∷ []) ((0 ∷ 3 ∷ []) ∷ (1 ∷ 1 ∷ []) ∷ (9 ∷ []) ∷ [])
      (8 ∷ []) (2 ∷ 3 ∷ []) (omega arith) refl

-- A response, and the request for a session.
abbrev response : Headers
response = (text ":status", text "200") ∷ (text "server", text "x") ∷ []

abbrev request : Headers
request =
    (text ":method", text "CONNECT")
    ∷ (text ":protocol", text "webtransport-h3")
    ∷ (text ":scheme", text "https")
    ∷ (text ":authority", text "example.org")
    ∷ (text ":path", text "/")
    ∷ []

validate_response_headers-accepts_example :
    (is_some (find_header response (text ":status")) ≡ true)
    × (all (is_allowed false) response ≡ true)
    × (pseudo_first false response ≡ true)
unfolding validate_response_headers read_response is_valid_header is_connection_specific_header text
validate_response_headers-accepts_example = validate_response_headers-accepts 0 response refl

validate_request_headers-accepts_example :
    (all (is_allowed true) request ≡ true) × (pseudo_first false request ≡ true)
unfolding validate_request_headers read_request read_field read_pseudo is_valid_request
    is_valid_header is_connection_specific_header text
validate_request_headers-accepts_example = validate_request_headers-accepts 0 request refl
