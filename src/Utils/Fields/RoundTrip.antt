-- ===== src/Utils/Fields/RoundTrip.antt =====
-- protocol/utils.rs: what `encode_wt_protocol_list` prints, the parsers read back.
use pywebtransport.Base.{
  ℕ, zero, suc, ◌≤◌, ◌≡◌, refl, ap, true, false, ◌||◌, Option, none, some, List, [], ◌∷◌, ◌++◌, ◌∙◌,
  ◌≢◌, arith, Bool-cases, inl, inr, ◌==◌, length, length-append,
}
use mathlib.Core.List.{append_assoc}
use pywebtransport.Common.{Bytes, Text}
use pywebtransport.Utils.Fields.{push, parse_chars, parse_string, skip, is_whitespace}
use pywebtransport.Utils.Fields.Items.{
  parse_separator, parse_items, parse_wt_protocol_list, parse_wt_protocol_string,
}
use pywebtransport.Utils.Fields.Parameters.{discard_rounds, discard_parameters}
use pywebtransport.Utils.Protocols.{
  ◌>>=◌, is_printable, quote, backslash, encode_byte, encode_bytes, encode_items,
  encode_wt_protocol_list,
}

-- A step that succeeded.
bind-some {ℓ κ} :
    {A : Type ℓ} {B : Type κ} (x : Option A) (f : A → Option B) (b : B)
    → (x >>= f) ≡ some b
    → (a : A) × (x ≡ some a) × (f a ≡ some b)
bind-some none f b e = cc
bind-some (some a) f b e = (a, refl, e)

parse_chars_plain :
    (b : ℕ) (rest : Bytes)
    → is_printable b ≡ true
    → (b == backslash || b == quote) ≡ false
    → rest ≢ []
    → parse_chars (b ∷ rest) ≡ push b (parse_chars rest)
unfolding parse_chars
parse_chars_plain b [] p e h = absurd (h refl)
parse_chars_plain b (c ∷ rest) p e h = ground arith

-- An encoded byte is read back as the first of the text.
parse_chars-encode_byte :
    (b : ℕ) (first rest : Bytes)
    → encode_byte b ≡ some first
    → rest ≢ []
    → parse_chars (first ++ rest) ≡ push b (parse_chars rest)
unfolding parse_chars
parse_chars-encode_byte b first rest e h =
    let printable : is_printable b ≡ true = ground arith in
    elim (Bool-cases (b == backslash || b == quote)) [
      | inl escaped ↦ let f : first ≡ backslash ∷ b ∷ [] = ground arith in rw f (ground arith)
      | inr plain ↦
          let f : first ≡ b ∷ [] = ground arith in rw f (parse_chars_plain b rest printable plain h)
    ]

parse_chars-quote : (rest : Bytes) → parse_chars (quote ∷ rest) ≡ some ([], rest)
unfolding parse_chars
parse_chars-quote [] = refl
parse_chars-quote (c ∷ rest) = refl

append_quote_ne : (body rest : Bytes) → body ++ quote ∷ rest ≢ []
append_quote_ne [] rest = λ e. cc
append_quote_ne (b ∷ bs) rest = λ e. cc

-- An encoded text is read back, up to its closing quote.
parse_chars-encode_bytes :
    (p : Text) (body rest : Bytes)
    → encode_bytes p ≡ some body
    → parse_chars (body ++ quote ∷ rest) ≡ some (p, rest)
unfolding encode_bytes
parse_chars-encode_bytes [] body rest e = let b : body ≡ [] = cc in rw b (parse_chars-quote rest)
parse_chars-encode_bytes (b ∷ bs) body rest e =
    let (first, first_eq, e₁) = bind-some (encode_byte b) _ body e in
    let (others, others_eq, e₂) = bind-some (encode_bytes bs) _ body e₁ in
    let whole : body ≡ first ++ others = cc in
    let ih = parse_chars-encode_bytes bs others rest others_eq in
    let step =
      parse_chars-encode_byte b first (others ++ quote ∷ rest) first_eq
        (append_quote_ne others rest) in
    rw whole (rw (append_assoc first others (quote ∷ rest)) (step ∙ ap (push b) ih))

parse_string-encode_bytes :
    (p : Text) (body rest : Bytes)
    → encode_bytes p ≡ some body
    → parse_string (quote ∷ (body ++ quote ∷ rest)) ≡ some (p, rest)
unfolding parse_string
parse_string-encode_bytes p body rest e = parse_chars-encode_bytes p body rest e

-- What follows an item is no parameter and no blank.
encode_items_start :
    (ps : List Text) (out : Bytes)
    → encode_items ps ≡ some out
    → (discard_parameters out ≡ some out) × (skip is_whitespace out ≡ out)
unfolding encode_items discard_parameters discard_rounds
encode_items_start [] out e = ground arith
encode_items_start (p ∷ ps) out e =
    let (body, body_eq, e₁) = bind-some (encode_bytes p) _ out e in
    let (others, others_eq, e₂) = bind-some (encode_items ps) _ out e₁ in
    let whole : out ≡ 0x2c ∷ 0x20 ∷ quote ∷ (body ++ (quote ∷ others)) = cc in rw whole (refl, refl)

length-encode_items :
    (ps : List Text) (out : Bytes) → encode_items ps ≡ some out → length ps ≤ length out
unfolding encode_items
length-encode_items [] out e = omega arith
length-encode_items (p ∷ ps) out e =
    let (body, body_eq, e₁) = bind-some (encode_bytes p) _ out e in
    let (others, others_eq, e₂) = bind-some (encode_items ps) _ out e₁ in
    let whole : out ≡ 0x2c ∷ 0x20 ∷ quote ∷ (body ++ (quote ∷ others)) = cc in
    let ih = length-encode_items ps others others_eq in
    rw whole (omega (arith, length-append body (quote ∷ others)))

-- An item is read back, whatever follows it.
parse_items_first :
    (rounds : ℕ) (p : Text) (body out : Bytes) (ps : List Text)
    → encode_bytes p ≡ some body
    → encode_items ps ≡ some out
    → (parse_separator out >>= parse_items rounds) ≡ some ps
    → parse_items (suc rounds) (quote ∷ (body ++ quote ∷ out)) ≡ some (p ∷ ps)
unfolding parse_items
parse_items_first rounds p body out ps e e' h =
    let first = parse_string-encode_bytes p body out e in
    let (parameters, blanks) = encode_items_start ps out e' in
    let (rest, rest_eq, items_eq) = bind-some (parse_separator out) _ ps h in
    rw (first, parameters, blanks, rest_eq, items_eq) refl

parse_items_none : (rounds : ℕ) → parse_items rounds [] ≡ some []
unfolding parse_items
parse_items_none zero = refl
parse_items_none (suc rounds) = refl

parse_items-encode_items :
    (ps : List Text) (out : Bytes) (rounds : ℕ)
    → encode_items ps ≡ some out
    → length ps ≤ rounds
    → (parse_separator out >>= parse_items rounds) ≡ some ps
unfolding encode_items parse_separator
parse_items-encode_items [] out rounds e h =
    let none_left : out ≡ [] = cc in rw none_left (parse_items_none rounds)
parse_items-encode_items (p ∷ ps) out zero e h = absurd (omega arith)
parse_items-encode_items (p ∷ ps) out (suc rounds) e h =
    let (body, body_eq, e₁) = bind-some (encode_bytes p) _ out e in
    let (others, others_eq, e₂) = bind-some (encode_items ps) _ out e₁ in
    let whole : out ≡ 0x2c ∷ 0x20 ∷ quote ∷ (body ++ (quote ∷ others)) = cc in
    rw whole (
      parse_items_first rounds p body others ps body_eq others_eq
        (parse_items-encode_items ps others rounds others_eq (omega arith)))

-- A list of protocols that was printed is read back.
pub parse_wt_protocol_list-encode :
    (p : Text) (ps : List Text) (out : Bytes)
    → encode_wt_protocol_list (p ∷ ps) ≡ some out
    → parse_wt_protocol_list out ≡ some (p ∷ ps)
unfolding encode_wt_protocol_list parse_wt_protocol_list
parse_wt_protocol_list-encode p ps out e =
    let (body, body_eq, e₁) = bind-some (encode_bytes p) _ out e in
    let (others, others_eq, e₂) = bind-some (encode_items ps) _ out e₁ in
    let whole : out ≡ quote ∷ (body ++ (quote ∷ others)) = cc in
    let rounds = length (body ++ (quote ∷ others)) in
    let enough : length ps ≤ rounds =
      omega (arith, length-append body (quote ∷ others), length-encode_items ps others others_eq) in
    let read =
      parse_items_first rounds p body others ps body_eq others_eq
        (parse_items-encode_items ps others rounds others_eq enough) in
    rw (whole, read) refl

-- A protocol that was printed alone is read back.
pub parse_wt_protocol_string-encode :
    (p : Text) (out : Bytes)
    → encode_wt_protocol_list (p ∷ []) ≡ some out
    → parse_wt_protocol_string out ≡ some p
unfolding encode_wt_protocol_list parse_wt_protocol_string encode_items
parse_wt_protocol_string-encode p out e =
    let (body, body_eq, e₁) = bind-some (encode_bytes p) _ out e in
    let whole : out ≡ quote ∷ (body ++ (quote ∷ [])) = cc in
    let read = parse_string-encode_bytes p body [] body_eq in
    let parameters = (encode_items_start [] [] refl).0 in rw (whole, read, parameters) refl
