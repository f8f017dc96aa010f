-- ===== src/H3/Headers/Accepted.antt =====
-- protocol/h3.rs: what is known of header fields that were accepted.
use pywebtransport.Base.{
  ◌≡◌, refl, Bool, true, false, not, ◌&&◌, ◌||◌, Option, none, some, [], ◌∷◌, arith, all, is_some,
  if◌then◌else◌,
}
use pywebtransport.Common.{Bytes, Headers, StreamId, text}
use pywebtransport.H3.Headers.{
  is_allowed, read_response, accept_status, validate_response_headers, RequestFields, no_fields,
  read_field, read_pseudo, read_request, accept_request, validate_request_headers,
}
use pywebtransport.H3.Outcome.{done}
use pywebtransport.Utils.Headers.{find_header, starts_with_colon}

-- No pseudo-header field stands behind another field.
abbrev pub pseudo_first : Bool → Headers → Bool
pseudo_first after_field [] = true
pseudo_first after_field ((key, value) ∷ headers) =
    let rest = pseudo_first after_field headers in
    let behind = pseudo_first true headers in
    if starts_with_colon key then not after_field && rest else behind

read_response-accepts :
    (after : Bool) (status : Option Bytes) (headers : Headers) (found : Bytes)
    → read_response after status headers ≡ some (some found)
    → (all (is_allowed false) headers ≡ true)
      × (pseudo_first after headers ≡ true)
      × ((is_some status || is_some (find_header headers (text ":status"))) ≡ true)
unfolding read_response find_header
read_response-accepts after status [] found e = ground arith
read_response-accepts after status ((key, value) ∷ headers) found e = ground (
  arith,
  read_response-accepts after (some value) headers found,
  read_response-accepts true status headers found,
)

-- A response that is accepted has a status, its fields are valid and none is specific to a connection,
-- and no pseudo-header field stands behind another field.
pub validate_response_headers-accepts :
    (id : StreamId) (headers : Headers)
    → validate_response_headers id headers ≡ done tt
    → (is_some (find_header headers (text ":status")) ≡ true)
      × (all (is_allowed false) headers ≡ true)
      × (pseudo_first false headers ≡ true)
unfolding validate_response_headers
validate_response_headers-accepts id headers e = go (read_response false none headers) refl e
  where
    go :
        (r : Option (Option Bytes))
        → read_response false none headers ≡ r
        → accept_status id r ≡ done tt
        → (is_some (find_header headers (text ":status")) ≡ true)
          × (all (is_allowed false) headers ≡ true)
          × (pseudo_first false headers ≡ true)
    go none f a = cc
    go (some none) f a = cc
    go (some (some found)) f a =
        let (allowed, first, status) = read_response-accepts false none headers found f in
        (status, allowed, first)

-- One field of a request that is accepted.
read_field-accepts :
    (f g : RequestFields) (key value : Bytes)
    → read_field f key value ≡ some g
    → (is_allowed true (key, value) ≡ true)
      × ((if starts_with_colon key then not f.after_pseudo else true) ≡ true)
      × (g.after_pseudo ≡ (if starts_with_colon key then f.after_pseudo else true))
unfolding read_field read_pseudo
read_field-accepts f g key value e = ground arith

read_request-accepts :
    (f g : RequestFields) (headers : Headers)
    → read_request (some f) headers ≡ some g
    → (all (is_allowed true) headers ≡ true) × (pseudo_first f.after_pseudo headers ≡ true)
unfolding read_request
read_request-accepts f g [] e = (refl, refl)
read_request-accepts f g ((key, value) ∷ headers) e =
    go (read_field f key value) refl e (λ h. read_request-accepts h g headers)
  where
    go :
        (r : Option RequestFields)
        → read_field f key value ≡ r
        → read_request r headers ≡ some g
        → ((h : RequestFields)
            → read_request (some h) headers ≡ some g
            → (all (is_allowed true) headers ≡ true) × (pseudo_first h.after_pseudo headers ≡ true))
        → (all (is_allowed true) ((key, value) ∷ headers) ≡ true)
          × (pseudo_first f.after_pseudo ((key, value) ∷ headers) ≡ true)
    go none a b ih = cc
    go (some h) a b ih =
        let (rest, first) = ih h b in
        let (allowed, front, after) = read_field-accepts f h key value a in
        ground (arith, rest, first, allowed, front, after)

-- Of a request that is accepted all fields are valid and none is specific to a connection, and no
-- pseudo-header field stands behind another field.
pub validate_request_headers-accepts :
    (id : StreamId) (headers : Headers)
    → validate_request_headers id headers ≡ done tt
    → (all (is_allowed true) headers ≡ true) × (pseudo_first false headers ≡ true)
unfolding validate_request_headers
validate_request_headers-accepts id headers e = go (read_request (some no_fields) headers) refl e
  where
    go :
        (r : Option RequestFields)
        → read_request (some no_fields) headers ≡ r
        → accept_request id r ≡ done tt
        → (all (is_allowed true) headers ≡ true) × (pseudo_first false headers ≡ true)
    go none f a = cc
    go (some g) f a = read_request-accepts no_fields g headers f
