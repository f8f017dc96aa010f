-- ===== src/Utils/Protocols.antt =====
-- protocol/utils.rs: `encode_wt_protocol_list`, a structured-field list of strings (RFC 9651).
use pywebtransport.Base.{
  ℕ, Bool, ◌&&◌, ◌||◌, Option, none, some, List, [], ◌∷◌, ◌++◌, leb, ◌==◌, if◌then◌else◌,
}
use pywebtransport.Common.{Bytes, Text}

infixl 5 ◌>>=◌
abbrev pub ◌>>=◌ {ℓ κ} : {A : Type ℓ} {B : Type κ} → Option A → (A → Option B) → Option B
none >>= f = none
some a >>= f = f a

-- Printable ASCII, `0x20..=0x7E`.
abbrev pub is_printable : ℕ → Bool
is_printable byte = leb 0x20 byte && leb byte 0x7e

abbrev pub quote : ℕ
quote = 0x22

abbrev pub backslash : ℕ
backslash = 0x5c

-- A byte, escaped where it must be; `none` is the refusal of a byte that cannot be printed.
abbrev pub encode_byte : ℕ → Option Bytes
encode_byte byte =
    if is_printable byte
    then some (if byte == backslash || byte == quote then backslash ∷ byte ∷ [] else byte ∷ [])
    else none

unfoldable pub encode_bytes : Text → Option Bytes
encode_bytes [] = some []
encode_bytes (b ∷ bs) = do first ← encode_byte b; rest ← encode_bytes bs; some (first ++ rest)

-- The items after the first, each with its separator.
unfoldable pub encode_items : List Text → Option Bytes
encode_items [] = some []
encode_items (protocol ∷ rest) = do
  body ← encode_bytes protocol
  others ← encode_items rest
  some (0x2c ∷ 0x20 ∷ quote ∷ (body ++ (quote ∷ others)))

unfoldable pub encode_wt_protocol_list : List Text → Option Bytes
encode_wt_protocol_list [] = some []
encode_wt_protocol_list (protocol ∷ rest) = do
  body ← encode_bytes protocol
  others ← encode_items rest
  some (quote ∷ (body ++ (quote ∷ others)))
