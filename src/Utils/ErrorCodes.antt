-- ===== src/Utils/ErrorCodes.antt =====
-- The mapping between WebTransport application error codes and the HTTP/3 code points that carry
-- them: `webtransport_code_to_http_code` and `http_code_to_webtransport_code`.
use pywebtransport.Base.{
  ℕ, ◌+◌, ◌-◌, ◌/◌, ◌%◌, ◌^◌, ◌≤◌, ◌<◌, ◌≡◌, ◌&&◌, not, Option, none, some, arith, leb, ltb, ◌==◌,
  if◌then◌else◌,
}
use pywebtransport.Common.{ErrorCode}
use pywebtransport.Common.Constants.{err_wt_application_error_first, err_wt_application_error_last}

abbrev pub h3_error_reserved_modulo : ℕ
h3_error_reserved_modulo = 0x1f

abbrev pub h3_error_reserved_offset : ℕ
h3_error_reserved_offset = 0x21

abbrev wt_error_map_divisor : ℕ
wt_error_map_divisor = 0x1e

-- No sum here reaches 2 ^ 64: the argument is a `u32`.
unfoldable pub webtransport_code_to_http_code : ℕ → ErrorCode
webtransport_code_to_http_code application_error_code =
    let shifted = err_wt_application_error_first + application_error_code in
    let offset = application_error_code / wt_error_map_divisor in shifted + offset

-- The range test comes first, so neither difference is negative.
unfoldable pub http_code_to_webtransport_code : ErrorCode → Option ℕ
http_code_to_webtransport_code http_error_code =
    if not (
      leb err_wt_application_error_first http_error_code
      && leb http_error_code err_wt_application_error_last)
    then none
    else if (http_error_code - h3_error_reserved_offset) % h3_error_reserved_modulo == 0
    then none
    else let shifted = http_error_code - err_wt_application_error_first in
      let result = shifted - shifted / h3_error_reserved_modulo in
      if ltb result (2 ^ 32) then some result else none

-- Every 32-bit application code survives the trip through its HTTP/3 code point.
pub http_code-webtransport_code :
    (n : ℕ)
    → n < 2 ^ 32
    → http_code_to_webtransport_code (webtransport_code_to_http_code n) ≡ some n
unfolding webtransport_code_to_http_code http_code_to_webtransport_code
http_code-webtransport_code n h = ground arith

-- A code point that decodes to `n` is the one that `n` is encoded to, and `n` fits 32 bits.
pub webtransport_code-http_code :
    (c n : ℕ)
    → http_code_to_webtransport_code c ≡ some n
    → (webtransport_code_to_http_code n ≡ c) × (n < 2 ^ 32)
unfolding webtransport_code_to_http_code http_code_to_webtransport_code
webtransport_code-http_code c n h = ground arith

-- An encoded code lies in the range reserved for WebTransport, and is no reserved HTTP/3 code.
pub webtransport_code_range :
    (n : ℕ)
    → n < 2 ^ 32
    → (err_wt_application_error_first ≤ webtransport_code_to_http_code n)
      × (webtransport_code_to_http_code n ≤ err_wt_application_error_last)
      × (0
          < (webtransport_code_to_http_code n - h3_error_reserved_offset)
            % h3_error_reserved_modulo)
unfolding webtransport_code_to_http_code
webtransport_code_range n h = omega arith
