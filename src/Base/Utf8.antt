-- ===== src/Base/Utf8.antt =====
-- UTF-8 as the standard library of the source treats it: `str::floor_char_boundary` and
-- `str::from_utf8` on bytes.
use Prim.Native.Nat.{ℕ, zero, suc}
use mathlib.Core.Bool.{Bool, true, false, not, ◌&&◌, ◌||◌}
use mathlib.Core.List.{List, [], ◌∷◌}
use pywebtransport.Base.Lists.{length, drop}
use pywebtransport.Base.Tests.{leb, ltb, ◌==◌, if◌then◌else◌}

abbrev pub is_continuation : ℕ → Bool
is_continuation b = leb 0x80 b && leb b 0xbf

-- Whether a character begins where the rest of the text is given.
abbrev pub is_boundary : List ℕ → Bool
is_boundary [] = true
is_boundary (b ∷ rest) = not (is_continuation b)

-- The nearest boundary at or below an index.
pub boundary_below : List ℕ → ℕ → ℕ
boundary_below bytes zero = 0
boundary_below bytes (suc i) = elim (is_boundary (drop (suc i) bytes)) [
  | true ↦ suc i
  | false ↦ boundary_below bytes i
]

unfoldable pub floor_char_boundary : List ℕ → ℕ → ℕ
unfolding boundary_below
floor_char_boundary bytes limit =
    if leb (length bytes) limit then length bytes else boundary_below bytes limit

-- The length that a leading byte announces, with the range of the second byte (RFC 3629); 0 is an
-- invalid leading byte.
abbrev between : ℕ → ℕ → ℕ → Bool
between lo hi b = leb lo b && leb b hi

abbrev pub second_ok : ℕ → ℕ → Bool
second_ok first b =
    if first == 0xe0
    then between 0xa0 0xbf b
    else if first == 0xed
    then between 0x80 0x9f b
    else if first == 0xf0
    then between 0x90 0xbf b
    else if first == 0xf4
    then between 0x80 0x8f b
    else is_continuation b

-- `str::from_utf8(bytes).is_ok()`.
unfoldable pub is_utf8 : List ℕ → Bool
is_utf8 [] = true
is_utf8 (a ∷ []) = ltb a 0x80
is_utf8 (a ∷ b ∷ []) =
    (ltb a 0x80 && is_utf8 (b ∷ [])) || (between 0xc2 0xdf a && is_continuation b)
is_utf8 (a ∷ b ∷ c ∷ []) =
    let one = is_utf8 (b ∷ c ∷ []) in
    let two = is_utf8 (c ∷ []) in
    (ltb a 0x80 && one)
    || (between 0xc2 0xdf a && is_continuation b && two)
    || (between 0xe0 0xef a && second_ok a b && is_continuation c)
is_utf8 (a ∷ b ∷ c ∷ d ∷ rest) =
    let one = is_utf8 (b ∷ c ∷ d ∷ rest) in
    let two = is_utf8 (c ∷ d ∷ rest) in
    let three = is_utf8 (d ∷ rest) in
    let four = is_utf8 rest in
    elim (ltb a 0x80) [
      | true ↦ one
      | false ↦ elim (between 0xc2 0xdf a && is_continuation b) [
        | true ↦ two
        | false ↦ elim (between 0xe0 0xef a && second_ok a b && is_continuation c) [
          | true ↦ three
          | false ↦
              elim (between 0xf0 0xf4 a
                && second_ok a b
                && is_continuation c
                && is_continuation d) [ true ↦ four | false ↦ false ]
        ]
      ]
    ]
