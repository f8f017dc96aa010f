-- ===== src/Utils/Fields/Parameters.antt =====
-- protocol/utils.rs: `discard_number` and `discard_parameters`.
use pywebtransport.Base.{
  ℕ, zero, suc, ◌+◌, ◌*◌, ◌-◌, ◌%◌, Bool, true, false, not, ◌&&◌, ◌||◌, Option, none, some, [], ◌∷◌,
  ltb, leb, ◌==◌, if◌then◌else◌, length, take, drop, all,
}
use pywebtransport.Base.Utf8.{is_utf8}
use pywebtransport.Common.{Bytes}
use pywebtransport.Utils.Protocols.{◌>>=◌, is_printable, quote}
use pywebtransport.Utils.Fields.{
  prefix_len, starts, skip, is_space, is_digit, is_lower, is_upper, is_alphanumeric, push,
  parse_string,
}

-- Whether the number is a decimal, and what is left.
unfoldable pub discard_number : Bytes → Option (Bool × Bytes)
discard_number cursor =
    let unsigned = if starts (λ b. b == 0x2d) cursor then drop 1 cursor else cursor in
    let integer_len = prefix_len is_digit unsigned in
    let rest = drop integer_len unsigned in
    let fraction = drop 1 rest in
    let fraction_len = prefix_len is_digit fraction in
    if integer_len == 0
    then none
    else if not (starts (λ b. b == 0x2e) rest)
    then if leb integer_len 15 then some (false, rest) else none
    else if leb integer_len 12 && leb 1 fraction_len && leb fraction_len 3
    then some (true, drop fraction_len fraction)
    else none

abbrev pub is_key_byte : ℕ → Bool
is_key_byte b = is_lower b || is_digit b || b == 0x5f || b == 0x2d || b == 0x2e || b == 0x2a

-- `b"!#$%&'*+-.^_`|~:/"`.
abbrev pub is_token_mark : ℕ → Bool
is_token_mark b =
    b == 0x21
    || b == 0x23
    || b == 0x24
    || b == 0x25
    || b == 0x26
    || b == 0x27
    || b == 0x2a
    || b == 0x2b
    || b == 0x2d
    || b == 0x2e
    || b == 0x5e
    || b == 0x5f
    || b == 0x60
    || b == 0x7c
    || b == 0x7e
    || b == 0x3a
    || b == 0x2f

abbrev pub is_token_byte : ℕ → Bool
is_token_byte b = is_alphanumeric b || is_token_mark b

-- `rposition(|&byte| byte != b'=').map_or(0, |index| index + 1)`.
abbrev pub data_length : Bytes → ℕ
data_length [] = 0
data_length (b ∷ bs) =
    let n = data_length bs in if ltb 0 n then suc n else if b == 0x3d then 0 else 1

abbrev pub is_base64_byte : ℕ → Bool
is_base64_byte b = is_alphanumeric b || b == 0x2b || b == 0x2f

-- A byte sequence behind its opening colon.
unfoldable pub discard_binary : Bytes → Option Bytes
discard_binary bs =
    let content_len = prefix_len (λ b. not (b == 0x3a)) bs in
    let content = take content_len bs in
    let data_len = data_length content in
    let padding_len = content_len - data_len in
    if content_len == length bs
    then none
    else if all is_base64_byte (take data_len content)
        && leb padding_len 2
        && not (data_len % 4 == 1)
        && (padding_len == 0 || content_len % 4 == 0)
    then some (drop (content_len + 1) bs)
    else none

abbrev pub hex_digit : ℕ → Option ℕ
hex_digit b =
    if is_digit b
    then some (b - 0x30)
    else if leb 0x61 b && leb b 0x66
    then some (b - 0x61 + 10)
    else none

-- The loop of a display string behind its opening quote.
unfoldable pub parse_display : Bytes → Option (Bytes × Bytes)
parse_display [] = none
parse_display (b ∷ []) = if b == quote then some ([], []) else none
parse_display (b ∷ c ∷ []) =
    if b == quote
    then some ([], c ∷ [])
    else if is_printable b && not (b == 0x25)
    then push b (parse_display (c ∷ []))
    else none
parse_display (b ∷ c ∷ d ∷ rest) = elim (b == 0x25) [
  | true ↦ do high ← hex_digit c; low ← hex_digit d; push (high * 16 + low) (parse_display rest)
  | false ↦
      if b == quote
      then some ([], c ∷ d ∷ rest)
      else if is_printable b
      then push b (parse_display (c ∷ d ∷ rest))
      else none
]

-- A display string behind its percent sign.
unfoldable pub discard_display : Bytes → Option Bytes
discard_display [] = none
discard_display (b ∷ bs) =
    if b == quote
    then parse_display bs >>= (λ (value, rest). if is_utf8 value then some rest else none)
    else none

-- The value of a parameter behind its equals sign: the `match` on its first byte.
unfoldable pub discard_value : Bytes → Option Bytes
discard_value [] = none
discard_value (b ∷ bs) =
    if b == 0x2d || is_digit b
    then discard_number (b ∷ bs) >>= (λ (is_decimal, rest). some rest)
    else if b == quote
    then parse_string (b ∷ bs) >>= (λ (value, rest). some rest)
    else if b == 0x2a || is_upper b || is_lower b
    then some (skip is_token_byte (b ∷ bs))
    else if b == 0x3a
    then discard_binary bs
    else if b == 0x3f
    then if starts (λ c. c == 0x30 || c == 0x31) bs then some (drop 1 bs) else none
    else if b == 0x40
    then discard_number bs >>= (λ (is_decimal, rest). if is_decimal then none else some rest)
    else if b == 0x25
    then discard_display bs
    else none

-- One parameter behind its semicolon.
unfoldable pub discard_parameter : Bytes → Option Bytes
discard_parameter cursor =
    let key = skip is_space cursor in
    let rest = skip is_key_byte key in
    if not (starts (λ b. is_lower b || b == 0x2a) key)
    then none
    else if starts (λ b. b == 0x3d) rest
    then discard_value (drop 1 rest)
    else some rest

-- The loop, with the rounds left: each takes a semicolon at least.
unfoldable pub discard_rounds : ℕ → Bytes → Option Bytes
discard_rounds rounds [] = some []
discard_rounds zero (b ∷ bs) = if b == 0x3b then none else some (b ∷ bs)
discard_rounds (suc rounds) (b ∷ bs) = elim (b == 0x3b) [
  | true ↦ do rest ← discard_parameter bs; discard_rounds rounds rest
  | false ↦ some (b ∷ bs)
]

unfoldable pub discard_parameters : Bytes → Option Bytes
discard_parameters cursor = discard_rounds (length cursor) cursor
