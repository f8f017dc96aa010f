-- ===== src/H3/Settings/RoundTrip.antt =====
-- protocol/h3.rs: `parse_settings` reads what `encode_settings` writes.
use mathlib.Core.List.{append_assoc, append-nil}
use pywebtransport.Base.{
  ℕ, zero, suc, ◌≤◌, ◌≡◌, refl, sym, ◌∙◌, ap, Bool, true, false, not, ◌||◌, Option, none, some,
  List, [], ◌∷◌, ◌++◌, ◌==◌, arith, length,
}
use pywebtransport.Common.{Bytes}
use pywebtransport.Common.Constants.{
  settings_enable_connect_protocol, settings_h3_datagram, settings_max_field_section_size,
  settings_qpack_blocked_streams, settings_qpack_max_table_capacity, settings_wt_enabled,
  settings_wt_initial_max_data, settings_wt_initial_max_streams_bidi,
  settings_wt_initial_max_streams_uni,
}
use pywebtransport.Events.Protocol.{H3Settings}
use pywebtransport.H3.Frames.{put_varints}
use pywebtransport.H3.Frames.RoundTrip.{bind-done, read_varints-put_varints}
use pywebtransport.H3.Outcome.{Outcome, done, failed, ◌>>=◌}
use pywebtransport.H3.Settings.{
  no_settings, entry, entries_of, encode_entries, encode_settings, is_reserved, is_known_entry,
  set_entry, parse_entries, parse_settings, settings_entries_limit,
}
use pywebtransport.Utils.Varint.{ok, read_varint}

-- An identifier that no slot is for, and that is not reserved.
abbrev pub is_extension : ℕ → Bool
is_extension identifier = not (
    is_reserved identifier
    || identifier == settings_enable_connect_protocol
    || identifier == settings_h3_datagram
    || identifier == settings_max_field_section_size
    || identifier == settings_qpack_blocked_streams
    || identifier == settings_qpack_max_table_capacity
    || identifier == settings_wt_enabled
    || identifier == settings_wt_initial_max_data
    || identifier == settings_wt_initial_max_streams_bidi
    || identifier == settings_wt_initial_max_streams_uni)

-- Extensions, each given once and not among those before.
abbrev pub AreExtensions : List (ℕ × ℕ) → List (ℕ × ℕ) → Type 0
AreExtensions before [] = Unit {0}
AreExtensions before ((identifier, value) ∷ entries) =
    (is_extension identifier ≡ true)
    × (is_known_entry identifier before ≡ false)
    × AreExtensions (before ++ (identifier, value) ∷ []) entries

-- The entries, set one after another.
abbrev set_entries : H3Settings → List (ℕ × ℕ) → Outcome H3Settings
set_entries s [] = done s
set_entries s ((identifier, value) ∷ entries) =
    set_entry s identifier value >>= (λ filled. set_entries filled entries)

-- One round of the loop.
parse_entries_step :
    (more : ℕ) (s : H3Settings) (identifier value : ℕ) (bytes middle rest : Bytes)
    → read_varint bytes ≡ ok (identifier, middle)
    → read_varint middle ≡ ok (value, rest)
    → parse_entries (suc more) s bytes
      ≡ (set_entry s identifier value >>= (λ filled. parse_entries more filled rest))
unfolding parse_entries read_varint
parse_entries_step more s identifier value [] middle rest e f = cc
parse_entries_step more s identifier value (b ∷ bytes) middle rest e f = rw (e, f) refl

parse_entries_end : (more : ℕ) (s : H3Settings) → parse_entries more s [] ≡ done s
unfolding parse_entries
parse_entries_end zero s = refl
parse_entries_end (suc more) s = refl

bind_ext :
    (m : Outcome H3Settings) (f g : H3Settings → Outcome H3Settings)
    → ((s : H3Settings) → f s ≡ g s)
    → (m >>= f) ≡ (m >>= g)
bind_ext (done s) f g h = h s
bind_ext (failed e) f g h = refl

parse_entries-encode_entries :
    (more : ℕ) (s : H3Settings) (entries : List (ℕ × ℕ)) (out : Bytes)
    → length entries ≤ more
    → encode_entries entries ≡ done out
    → parse_entries more s out ≡ set_entries s entries
unfolding encode_entries
parse_entries-encode_entries more s [] out h e =
    let empty : out ≡ [] = cc in rw empty (parse_entries_end more s)
parse_entries-encode_entries zero s ((identifier, value) ∷ entries) out h e = ground arith
parse_entries-encode_entries (suc more) s ((identifier, value) ∷ entries) out h e =
    let (first, first_eq, e₁) = bind-done (put_varints identifier value) _ out e in
    let (rest, rest_eq, e₂) = bind-done (encode_entries entries) _ out e₁ in
    let (middle, read_first, read_second) =
      read_varints-put_varints identifier value first rest first_eq in
    let whole : out ≡ first ++ rest = cc in
    let step =
      parse_entries_step more s identifier value (first ++ rest) middle rest read_first
        read_second in
    rw whole (
      step
      ∙ bind_ext (set_entry s identifier value) _ _
          (λ filled. parse_entries-encode_entries more filled entries rest (omega arith) rest_eq))

-- An optional entry goes into its slot.
set_entries-entry :
    (identifier : ℕ) (slot : Option ℕ) (fill : Option ℕ → H3Settings) (entries : List (ℕ × ℕ))
    → ((value : ℕ) → set_entry (fill none) identifier value ≡ done (fill (some value)))
    → set_entries (fill none) (entry identifier slot entries) ≡ set_entries (fill slot) entries
set_entries-entry identifier none fill entries h = refl
set_entries-entry identifier (some value) fill entries h = rw (h value) refl

set_entry-extension :
    (s : H3Settings) (identifier value : ℕ)
    → is_extension identifier ≡ true
    → is_known_entry identifier s.unknown ≡ false
    → set_entry s identifier value
      ≡ done (record s { unknown = s.unknown ++ (identifier, value) ∷ [] })
unfolding set_entry
set_entry-extension s identifier value new once = ground arith

-- The extensions go behind those before.
set_entries-extensions :
    (s : H3Settings) (entries : List (ℕ × ℕ))
    → AreExtensions s.unknown entries
    → set_entries s entries ≡ done (record s { unknown = s.unknown ++ entries })
set_entries-extensions s [] h =
    ap (λ u. done (record s { unknown = u })) (sym (append-nil s.unknown))
set_entries-extensions s ((identifier, value) ∷ entries) (new, once, others) =
    let next : H3Settings = record s { unknown = s.unknown ++ (identifier, value) ∷ [] } in
    rw (set_entry-extension s identifier value new once) (
      set_entries-extensions next entries others
      ∙ ap (λ u. done (record s { unknown = u }))
          (append_assoc s.unknown ((identifier, value) ∷ []) entries))

-- The settings with the slots filled up to one, in the order in which they are encoded.
abbrev filled : Option ℕ → Option ℕ → Option ℕ → Option ℕ → Option ℕ → H3Settings
filled a b c d e = record no_settings {
  qpack_max_table_capacity = a;
  max_field_section_size = b;
  qpack_blocked_streams = c;
  enable_connect_protocol = d;
  h3_datagram = e;
}

set_entries-entries_of :
    (s : H3Settings) → AreExtensions [] s.unknown → set_entries no_settings (entries_of s) ≡ done s
unfolding set_entry
set_entries-entries_of s h =
    let a = s.qpack_max_table_capacity in
    let b = s.max_field_section_size in
    let c = s.qpack_blocked_streams in
    let d = s.enable_connect_protocol in
    let e = s.h3_datagram in
    let f = s.wt_initial_max_data in
    let g = s.wt_initial_max_streams_uni in
    let i = s.wt_initial_max_streams_bidi in
    let j = s.wt_enabled in
    set_entries-entry settings_qpack_max_table_capacity a (λ o. filled o none none none none) _
      (λ v. refl)
    ∙ set_entries-entry settings_max_field_section_size b (λ o. filled a o none none none) _
        (λ v. refl)
    ∙ set_entries-entry settings_qpack_blocked_streams c (λ o. filled a b o none none) _ (λ v. refl)
    ∙ set_entries-entry settings_enable_connect_protocol d (λ o. filled a b c o none) _ (λ v. refl)
    ∙ set_entries-entry settings_h3_datagram e (λ o. filled a b c d o) _ (λ v. refl)
    ∙ set_entries-entry settings_wt_initial_max_data f
        (λ o. record (filled a b c d e) { wt_initial_max_data = o }) _ (λ v. refl)
    ∙ set_entries-entry settings_wt_initial_max_streams_uni g
        (λ o. record (filled a b c d e) { wt_initial_max_data = f; wt_initial_max_streams_uni = o })
        _ (λ v. refl)
    ∙ set_entries-entry settings_wt_initial_max_streams_bidi i
        (λ o. record (filled a b c d e) {
          wt_initial_max_data = f;
          wt_initial_max_streams_uni = g;
          wt_initial_max_streams_bidi = o;
        })
        _ (λ v. refl)
    ∙ set_entries-entry settings_wt_enabled j
        (λ o. record (filled a b c d e) {
          wt_initial_max_data = f;
          wt_initial_max_streams_uni = g;
          wt_initial_max_streams_bidi = i;
          wt_enabled = o;
        })
        _ (λ v. refl)
    ∙ set_entries-extensions (record s { unknown = [] }) s.unknown h

-- Settings of at most 64 entries that could be encoded are parsed as they were, where the extensions
-- among them are no reserved or known identifiers and are given once.
pub parse_settings-encode_settings :
    (s : H3Settings) (out : Bytes)
    → AreExtensions [] s.unknown
    → length (entries_of s) ≤ 64
    → encode_settings s ≡ done out
    → parse_settings out ≡ done s
unfolding encode_settings parse_settings
parse_settings-encode_settings s out h few e =
    parse_entries-encode_entries settings_entries_limit no_settings (entries_of s) out few e
    ∙ set_entries-entries_of s h
