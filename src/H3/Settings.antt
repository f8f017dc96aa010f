-- ===== src/H3/Settings.antt =====
-- protocol/h3.rs: `encode_settings`, `parse_settings` and `validate_settings`.
pub mod RoundTrip
use pywebtransport.Base.{
  ℕ, zero, suc, Bool, true, false, not, ◌&&◌, ◌||◌, Option, none, some, List, [], ◌∷◌, ◌++◌, ltb,
  leb, ◌==◌, if◌then◌else◌, is_some,
}
use pywebtransport.Common.{Bytes, text}
use pywebtransport.Common.Constants.{
  err_h3_frame_error, err_h3_settings_error, err_wt_requirements_not_met,
  settings_enable_connect_protocol, settings_h3_datagram, settings_max_field_section_size,
  settings_qpack_blocked_streams, settings_qpack_max_table_capacity, settings_reserved_enable_push,
  settings_reserved_initial_window_size, settings_reserved_max_concurrent_streams,
  settings_reserved_max_frame_size, settings_wt_enabled, settings_wt_initial_max_data,
  settings_wt_initial_max_streams_bidi, settings_wt_initial_max_streams_uni,
}
use pywebtransport.Common.Errors.{WebTransportError}
use pywebtransport.Connection.Defs.{Connection}
use pywebtransport.Connection.Routing.{or_zero}
use pywebtransport.Events.Protocol.{H3Settings}
use pywebtransport.H3.Frames.{put_varints}
use pywebtransport.H3.Outcome.{Outcome, done, failed, ◌>>=◌, get_varint}

abbrev pub settings_entries_limit : ℕ
settings_entries_limit = 64

-- `H3Settings::default()`.
abbrev pub no_settings : H3Settings
no_settings = record {
  enable_connect_protocol = none;
  h3_datagram = none;
  max_field_section_size = none;
  qpack_blocked_streams = none;
  qpack_max_table_capacity = none;
  unknown = [];
  wt_enabled = none;
  wt_initial_max_data = none;
  wt_initial_max_streams_bidi = none;
  wt_initial_max_streams_uni = none;
}

-- A setting that is set, before the others.
abbrev pub entry : ℕ → Option ℕ → List (ℕ × ℕ) → List (ℕ × ℕ)
entry identifier none entries = entries
entry identifier (some value) entries = (identifier, value) ∷ entries

-- The known settings in their order, and the unknown ones.
abbrev pub entries_of : H3Settings → List (ℕ × ℕ)
entries_of s = entry settings_qpack_max_table_capacity s.qpack_max_table_capacity (
    entry settings_max_field_section_size s.max_field_section_size (
      entry settings_qpack_blocked_streams s.qpack_blocked_streams (
        entry settings_enable_connect_protocol s.enable_connect_protocol (
          entry settings_h3_datagram s.h3_datagram (
            entry settings_wt_initial_max_data s.wt_initial_max_data (
              entry settings_wt_initial_max_streams_uni s.wt_initial_max_streams_uni (
                entry settings_wt_initial_max_streams_bidi s.wt_initial_max_streams_bidi
                  (entry settings_wt_enabled s.wt_enabled s.unknown))))))))

-- The loops.
unfoldable pub encode_entries : List (ℕ × ℕ) → Outcome Bytes
encode_entries [] = done []
encode_entries ((identifier, value) ∷ entries) = do
  first ← put_varints identifier value
  rest ← encode_entries entries
  done (first ++ rest)

unfoldable pub encode_settings : H3Settings → Outcome Bytes
encode_settings settings = encode_entries (entries_of settings)

abbrev pub settings_error : WebTransportError
settings_error =
    WebTransportError.protocol (some err_h3_settings_error) (text "h3_settings validate invalid")

abbrev pub is_reserved : ℕ → Bool
is_reserved identifier =
    identifier == settings_reserved_enable_push
    || identifier == settings_reserved_initial_window_size
    || identifier == settings_reserved_max_concurrent_streams
    || identifier == settings_reserved_max_frame_size

abbrev pub is_known_entry : ℕ → List (ℕ × ℕ) → Bool
is_known_entry identifier [] = false
is_known_entry identifier ((other, value) ∷ entries) =
    other == identifier || is_known_entry identifier entries

-- A slot must be empty.
abbrev pub into_slot : Option ℕ → H3Settings → Outcome H3Settings
into_slot none filled = done filled
into_slot (some value) filled = failed settings_error

-- An entry that was read goes into its slot, or to the unknown settings.
unfoldable pub set_entry : H3Settings → ℕ → ℕ → Outcome H3Settings
set_entry s identifier value =
    if is_reserved identifier
    then failed settings_error
    else if identifier == settings_enable_connect_protocol
    then into_slot s.enable_connect_protocol (record s { enable_connect_protocol = some value })
    else if identifier == settings_h3_datagram
    then into_slot s.h3_datagram (record s { h3_datagram = some value })
    else if identifier == settings_max_field_section_size
    then into_slot s.max_field_section_size (record s { max_field_section_size = some value })
    else if identifier == settings_qpack_blocked_streams
    then into_slot s.qpack_blocked_streams (record s { qpack_blocked_streams = some value })
    else if identifier == settings_qpack_max_table_capacity
    then into_slot s.qpack_max_table_capacity (record s { qpack_max_table_capacity = some value })
    else if identifier == settings_wt_enabled
    then into_slot s.wt_enabled (record s { wt_enabled = some value })
    else if identifier == settings_wt_initial_max_data
    then into_slot s.wt_initial_max_data (record s { wt_initial_max_data = some value })
    else if identifier == settings_wt_initial_max_streams_bidi
    then into_slot s.wt_initial_max_streams_bidi
        (record s { wt_initial_max_streams_bidi = some value })
    else if identifier == settings_wt_initial_max_streams_uni
    then into_slot s.wt_initial_max_streams_uni
        (record s { wt_initial_max_streams_uni = some value })
    else if is_known_entry identifier s.unknown
    then failed settings_error
    else done (record s { unknown = s.unknown ++ (identifier, value) ∷ [] })

-- The loop, with the entries that may still come.
unfoldable pub parse_entries : ℕ → H3Settings → Bytes → Outcome H3Settings
parse_entries more s [] = done s
parse_entries zero s (b ∷ bs) =
    failed (
      WebTransportError.protocol (some err_h3_settings_error)
        (text "h3_settings validate exceeded"))
parse_entries (suc more) s (b ∷ bs) = do
  (identifier, after_identifier) ← get_varint err_h3_frame_error (b ∷ bs)
  (value, rest) ← get_varint err_h3_frame_error after_identifier
  filled ← set_entry s identifier value
  parse_entries more filled rest

unfoldable pub parse_settings : Bytes → Outcome H3Settings
parse_settings d = parse_entries settings_entries_limit no_settings d

-- `is_some_and`.
abbrev pub is_some_and : Option ℕ → (ℕ → Bool) → Bool
is_some_and none p = false
is_some_and (some value) p = p value

-- The peer supports datagrams if its limit for them is above zero.
unfoldable pub validate_settings : H3Settings → Connection → Outcome (Unit {0})
validate_settings settings c =
    if is_some_and settings.enable_connect_protocol (λ value. not (value == 1))
    then failed settings_error
    else if not (ltb 0 (or_zero c.peer_max_datagram_frame_size))
        && is_some_and settings.h3_datagram (λ value. value == 1)
    then failed settings_error
    else if c.is_client && is_some_and settings.wt_enabled (λ value. ltb 1 value)
    then failed settings_error
    else if or_zero settings.wt_enabled == 0
    then failed (
        WebTransportError.protocol (some err_wt_requirements_not_met)
          (text "h3_settings validate invalid"))
    else done tt
