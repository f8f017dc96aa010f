-- ===== src/Utils/Fields/Items.antt =====
-- protocol/utils.rs: `parse_wt_protocol_list` and `parse_wt_protocol_string`.
use pywebtransport.Base.{
  ℕ, zero, suc, not, ◌&&◌, Option, none, some, List, [], ◌∷◌, ◌==◌, if◌then◌else◌, length, is_empty,
}
use pywebtransport.Common.{Bytes, Text}
use pywebtransport.Utils.Protocols.{◌>>=◌}
use pywebtransport.Utils.Fields.{skip, is_space, is_whitespace, parse_string}
use pywebtransport.Utils.Fields.Parameters.{discard_parameters}

-- What stands between two items: `none` is a refusal, and an empty rest the end of the list.
unfoldable pub parse_separator : Bytes → Option Bytes
parse_separator [] = some []
parse_separator (b ∷ bs) =
    let rest = skip is_whitespace bs in if b == 0x2c && not (is_empty rest) then some rest else none

-- The loop of `parse_wt_protocol_list`, with the rounds left: each takes a quote at least.
unfoldable pub parse_items : ℕ → Bytes → Option (List Text)
parse_items rounds [] = some []
parse_items zero (b ∷ bs) = none
parse_items (suc rounds) (b ∷ bs) = do
  (protocol, after_string) ← parse_string (b ∷ bs)
  after_parameters ← discard_parameters after_string
  rest ← parse_separator (skip is_whitespace after_parameters)
  others ← parse_items rounds rest
  some (protocol ∷ others)

-- `(!protocols.is_empty()).then_some(protocols)`.
abbrev pub nonempty : List Text → Option (List Text)
nonempty [] = none
nonempty (protocol ∷ rest) = some (protocol ∷ rest)

unfoldable pub parse_wt_protocol_list : Bytes → Option (List Text)
parse_wt_protocol_list header =
    let start = skip is_space header in parse_items (length start) start >>= nonempty

unfoldable pub parse_wt_protocol_string : Bytes → Option Text
parse_wt_protocol_string header = do
  (protocol, after_string) ← parse_string (skip is_space header)
  after_parameters ← discard_parameters after_string
  if is_empty (skip is_space after_parameters) then some protocol else none
