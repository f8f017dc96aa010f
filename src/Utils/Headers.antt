-- ===== src/Utils/Headers.antt =====
-- protocol/utils.rs: header fields: `find_header`, `combine_header`, `is_connection_specific_header`,
-- `is_valid_header`, `is_valid_user_headers`.
use pywebtransport.Base.{
  ℕ, ◌+◌, Bool, true, false, not, ◌&&◌, ◌||◌, Option, none, some, List, [], ◌∷◌, ◌++◌, leb, ◌==◌,
  if◌then◌else◌, all, is_empty,
}
use pywebtransport.Base.Maps.{contains}
use pywebtransport.Common.{Bytes, Headers, text}

abbrev pub bytes_eq : Bytes → Bytes → Bool
bytes_eq [] [] = true
bytes_eq [] (b ∷ bs) = false
bytes_eq (a ∷ as') [] = false
bytes_eq (a ∷ as') (b ∷ bs) = a == b && bytes_eq as' bs

unfoldable pub find_header : Headers → Bytes → Option Bytes
find_header [] key = none
find_header ((header_key, header_value) ∷ rest) key =
    if bytes_eq header_key key then some header_value else find_header rest key

-- The values of a key, in order.
header_values : Headers → Bytes → List Bytes
header_values [] key = []
header_values ((header_key, header_value) ∷ rest) key =
    let values = header_values rest key in
    if bytes_eq header_key key then header_value ∷ values else values

-- `values.join(b", ")`.
join_values : List Bytes → Bytes
join_values [] = []
join_values (v ∷ []) = v
join_values (v ∷ w ∷ rest) = v ++ (text ", " ++ join_values (w ∷ rest))

unfoldable pub combine_header : Headers → Bytes → Option Bytes
unfolding header_values join_values
combine_header headers key =
    let values = header_values headers key in
    if is_empty values then none else some (join_values values)

abbrev pub is_between : ℕ → ℕ → ℕ → Bool
is_between lo hi byte = leb lo byte && leb byte hi

-- The ASCII lower case of a byte, for `eq_ignore_ascii_case`.
abbrev pub lower : ℕ → ℕ
lower byte = if is_between b'A' b'Z' byte then byte + 32 else byte

abbrev pub lower_all : Bytes → Bytes
lower_all [] = []
lower_all (b ∷ bs) = lower b ∷ lower_all bs

-- Whether a key is in a list of names.
abbrev pub is_one_of : Bytes → List Bytes → Bool
is_one_of key [] = false
is_one_of key (name ∷ names) = bytes_eq key name || is_one_of key names

unfoldable pub is_connection_specific_header : Bytes → Bytes → Bool → Bool
is_connection_specific_header key value is_request =
    if bytes_eq key (text "te")
    then not (is_request && bytes_eq (lower_all value) (text "trailers"))
    else is_one_of key (
        text "connection"
        ∷ text "keep-alive"
        ∷ text "proxy-connection"
        ∷ text "transfer-encoding"
        ∷ text "upgrade"
        ∷ [])

abbrev pub starts_with_colon : Bytes → Bool
starts_with_colon [] = false
starts_with_colon (b ∷ bs) = b == b':'

-- `key.strip_prefix(b":").unwrap_or(key)`.
abbrev pub field_name : Bytes → Bytes
field_name [] = []
field_name (b ∷ bs) = if b == b':' then bs else b ∷ bs

is_name_byte : ℕ → Bool
is_name_byte byte =
    is_between b'a' b'z' byte || is_between b'0' b'9' byte || contains byte (text "!#$%&'*+-.^_`|~")

is_blank : ℕ → Bool
is_blank byte = byte == 32 || byte == 9

begins_blank : Bytes → Bool
begins_blank [] = false
begins_blank (b ∷ bs) = is_blank b

ends_blank : Bytes → Bool
ends_blank [] = false
ends_blank (b ∷ []) = is_blank b
ends_blank (b ∷ c ∷ bs) = ends_blank (c ∷ bs)

is_value_byte : ℕ → Bool
is_value_byte byte = byte == 9 || is_between 32 b'~' byte || is_between 0x80 0xff byte

unfoldable pub is_valid_header : Bytes → Bytes → Bool
unfolding is_name_byte is_blank begins_blank ends_blank is_value_byte
is_valid_header key value =
    not (is_empty (field_name key))
    && all is_name_byte (field_name key)
    && not (begins_blank value || ends_blank value)
    && all is_value_byte value

is_valid_user_header : Bool → Bytes × Bytes → Bool
is_valid_user_header is_request (key, value) =
    is_valid_header key value
    && not (
        starts_with_colon key
        || is_connection_specific_header key value is_request
        || (is_request && bytes_eq key (text "host"))
        || is_one_of key
            (text "content-length" ∷ text "wt-available-protocols" ∷ text "wt-protocol" ∷ []))

unfoldable pub is_valid_user_headers : Headers → Bool → Bool
unfolding is_valid_user_header
is_valid_user_headers headers is_request = all (is_valid_user_header is_request) headers
