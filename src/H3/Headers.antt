-- ===== src/H3/Headers.antt =====
-- protocol/h3.rs: `validate_request_headers` and `validate_response_headers`.
pub mod Accepted
use pywebtransport.Base.{
  ℕ, Bool, true, false, not, ◌&&◌, ◌||◌, Option, none, some, List, [], ◌∷◌, ◌++◌, ◌==◌, leb,
  if◌then◌else◌, all, is_empty, is_some,
}
use pywebtransport.Common.{Bytes, Headers, StreamId, text}
use pywebtransport.Common.Constants.{err_h3_message_error}
use pywebtransport.Common.Errors.{WebTransportError}
use pywebtransport.H3.Outcome.{Outcome, done, failed}
use pywebtransport.Utils.Headers.{
  bytes_eq, is_valid_header, is_connection_specific_header, starts_with_colon,
}

abbrev pub invalid_headers : StreamId → Outcome (Unit {0})
invalid_headers stream_id = failed (
    WebTransportError.stream stream_id (some err_h3_message_error)
      (text "h3_headers validate invalid"))

-- A field that may stand in a request or a response.
abbrev pub is_allowed : Bool → Bytes × Bytes → Bool
is_allowed is_request (key, value) =
    is_valid_header key value && not (is_connection_specific_header key value is_request)

-- The variables of the loop over a response. `none` is a refusal.
unfoldable pub read_response : Bool → Option Bytes → Headers → Option (Option Bytes)
read_response after_pseudo status [] = some status
read_response after_pseudo status ((key, value) ∷ headers) =
    let behind_pseudo = read_response after_pseudo (some value) headers in
    let behind_field = read_response true status headers in
    if not (is_allowed false (key, value))
    then none
    else if starts_with_colon key
    then if after_pseudo || not (bytes_eq key (text ":status")) || is_some status
      then none
      else behind_pseudo
    else behind_field

abbrev pub accept_status : StreamId → Option (Option Bytes) → Outcome (Unit {0})
accept_status stream_id none = invalid_headers stream_id
accept_status stream_id (some none) = invalid_headers stream_id
accept_status stream_id (some (some status)) = done tt

unfoldable pub validate_response_headers : StreamId → Headers → Outcome (Unit {0})
validate_response_headers stream_id headers =
    accept_status stream_id (read_response false none headers)

-- The variables of the loop over a request.
pub record RequestFields : Type 0 where
  pub after_pseudo : Bool
  pub method : Option Bytes
  pub scheme : Option Bytes
  pub authority : Option Bytes
  pub path : Option Bytes
  pub protocol : Option Bytes
  pub hosts : List Bytes

abbrev pub no_fields : RequestFields
no_fields = record {
  after_pseudo = false;
  method = none;
  scheme = none;
  authority = none;
  path = none;
  protocol = none;
  hosts = [];
}

-- `pseudo_header.replace(value)`, behind no other field, and once.
abbrev pub into_empty : Bool → Option Bytes → RequestFields → Option RequestFields
into_empty true slot filled = none
into_empty false none filled = some filled
into_empty false (some value) filled = none

unfoldable pub read_pseudo : RequestFields → Bytes → Bytes → Option RequestFields
read_pseudo f key value =
    if bytes_eq key (text ":method")
    then into_empty f.after_pseudo f.method (record f { method = some value })
    else if bytes_eq key (text ":scheme")
    then into_empty f.after_pseudo f.scheme (record f { scheme = some value })
    else if bytes_eq key (text ":authority")
    then into_empty f.after_pseudo f.authority (record f { authority = some value })
    else if bytes_eq key (text ":path")
    then into_empty f.after_pseudo f.path (record f { path = some value })
    else if bytes_eq key (text ":protocol")
    then into_empty f.after_pseudo f.protocol (record f { protocol = some value })
    else none

-- One field. `none` is a refusal.
unfoldable pub read_field : RequestFields → Bytes → Bytes → Option RequestFields
read_field f key value =
    if not (is_allowed true (key, value))
    then none
    else if starts_with_colon key
    then read_pseudo f key value
    else some (record f {
      after_pseudo = true;
      hosts = if bytes_eq key (text "host") then f.hosts ++ value ∷ [] else f.hosts;
    })

unfoldable pub read_request : Option RequestFields → Headers → Option RequestFields
read_request none headers = none
read_request (some f) [] = some f
read_request (some f) ((key, value) ∷ headers) = read_request (read_field f key value) headers

abbrev pub is_nonempty : Option Bytes → Bool
is_nonempty none = false
is_nonempty (some value) = not (is_empty value)

abbrev pub equals : Option Bytes → Bytes → Bool
equals none expected = false
equals (some value) expected = bytes_eq value expected

-- Which pseudo-header fields a request needs.
unfoldable pub is_valid_pseudo : RequestFields → Bool
is_valid_pseudo f =
    if not (is_some f.method)
    then false
    else if not (is_some f.protocol)
    then if equals f.method (text "CONNECT")
      then is_nonempty f.authority && not (is_some f.scheme) && not (is_some f.path)
      else is_some f.scheme && is_some f.path
    else equals f.method (text "CONNECT") && is_some f.scheme && is_some f.path

-- `is_ascii_graphic`.
abbrev pub is_graphic : ℕ → Bool
is_graphic byte = leb 0x21 byte && leb byte 0x7e

abbrev pub is_valid_path : Option Bytes → Bool
is_valid_path none = true
is_valid_path (some path) = all is_graphic path

-- The authority and the `host` fields of a request for an `http` or `https` resource.
abbrev pub is_valid_authority : Option Bytes → List Bytes → Bool
is_valid_authority (some authority) [] = not (is_empty authority)
is_valid_authority (some authority) (host ∷ []) =
    not (is_empty authority) && bytes_eq host authority
is_valid_authority (some authority) (host ∷ other ∷ hosts) = false
is_valid_authority none [] = false
is_valid_authority none (host ∷ hosts) = all (λ h. not (is_empty h)) (host ∷ hosts)

-- A path starts with a slash, or is the star of an `OPTIONS` request.
abbrev pub is_resource : Option Bytes → Option Bytes → Bool
is_resource none method = false
is_resource (some []) method = false
is_resource (some (b ∷ path)) method =
    b == 0x2f || (bytes_eq (b ∷ path) (text "*") && equals method (text "OPTIONS"))

abbrev pub is_http : Option Bytes → Bool
is_http scheme = equals scheme (text "http") || equals scheme (text "https")

unfoldable pub is_valid_request : RequestFields → Bool
unfolding is_valid_pseudo
is_valid_request f =
    is_valid_pseudo f
    && is_valid_path f.path
    && (not (is_http f.scheme)
        || (is_valid_authority f.authority f.hosts && is_resource f.path f.method))

abbrev pub accept_request : StreamId → Option RequestFields → Outcome (Unit {0})
accept_request stream_id none = invalid_headers stream_id
accept_request stream_id (some f) =
    if is_valid_request f then done tt else invalid_headers stream_id

unfoldable pub validate_request_headers : StreamId → Headers → Outcome (Unit {0})
validate_request_headers stream_id headers =
    accept_request stream_id (read_request (some no_fields) headers)
