-- ===== src/Utils/Fields.antt =====
-- protocol/utils.rs: `parse_wt_protocol_list` and `parse_wt_protocol_string`, structured fields (RFC
-- 9651). A `Cursor` is the bytes that are left to read; `none` is a refusal.
pub mod Parameters
pub mod Items
pub mod RoundTrip
use pywebtransport.Base.{
  ℕ, zero, suc, ◌+◌, ◌*◌, ◌-◌, ◌%◌, Bool, true, false, not, ◌&&◌, ◌||◌, Option, none, some, List,
  [], ◌∷◌, ◌++◌, ltb, leb, ◌==◌, if◌then◌else◌, length, take, drop, all, is_empty,
}
use pywebtransport.Base.Utf8.{is_utf8}
use pywebtransport.Common.{Bytes, Text}
use pywebtransport.Utils.Headers.{is_between}
use pywebtransport.Utils.Protocols.{◌>>=◌, is_printable, quote, backslash}

-- `take_while(..).count()`.
abbrev pub prefix_len : (ℕ → Bool) → Bytes → ℕ
prefix_len p [] = 0
prefix_len p (b ∷ bs) = let n = prefix_len p bs in if p b then suc n else 0

-- `cursor.chunk().first()` against a byte.
abbrev pub starts : (ℕ → Bool) → Bytes → Bool
starts p [] = false
starts p (b ∷ bs) = p b

abbrev pub skip : (ℕ → Bool) → Bytes → Bytes
skip p bs = drop (prefix_len p bs) bs

abbrev pub is_space : ℕ → Bool
is_space b = b == 0x20

-- Space or tab.
abbrev pub is_whitespace : ℕ → Bool
is_whitespace b = b == 0x20 || b == 0x09

abbrev pub is_digit : ℕ → Bool
is_digit b = leb 0x30 b && leb b 0x39

abbrev pub is_lower : ℕ → Bool
is_lower b = leb 0x61 b && leb b 0x7a

abbrev pub is_upper : ℕ → Bool
is_upper b = leb 0x41 b && leb b 0x5a

abbrev pub is_alphanumeric : ℕ → Bool
is_alphanumeric b = is_digit b || is_lower b || is_upper b

-- A byte in front of a text that was read.
abbrev pub push : ℕ → Option (Text × Bytes) → Option (Text × Bytes)
push b none = none
push b (some (value, rest)) = some (b ∷ value, rest)

-- The loop of `parse_string`, behind the opening quote. A backslash at the end is pushed, and then the
-- input is over.
unfoldable pub parse_chars : Bytes → Option (Text × Bytes)
parse_chars [] = none
parse_chars (b ∷ []) = if b == quote then some ([], []) else none
parse_chars (b ∷ c ∷ rest) = elim (b == backslash) [
  | true ↦ if c == quote || c == backslash then push c (parse_chars rest) else none
  | false ↦
      if b == quote
      then some ([], c ∷ rest)
      else if is_printable b
      then push b (parse_chars (c ∷ rest))
      else none
]

unfoldable pub parse_string : Bytes → Option (Text × Bytes)
parse_string [] = none
parse_string (b ∷ bs) = if b == quote then parse_chars bs else none
