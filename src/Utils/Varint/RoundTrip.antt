-- ===== src/Utils/Varint/RoundTrip.antt =====
-- protocol/utils.rs: what `write_varint` writes is what `read_varint` reads.
use Prim.Native.Nat.{bit_or}
use pywebtransport.Base.{
  ℕ, ◌+◌, ◌*◌, ◌/◌, ◌%◌, ◌^◌, ◌≤◌, ◌<◌, ◌≡◌, inl, inr, [], ◌∷◌, ◌++◌, leb, arith, length,
  length-drop, take, true, Bool-cases,
}
use pywebtransport.Base.Bits.{bit_and-mask, bit_or-above}
use pywebtransport.Common.{Bytes}
use pywebtransport.Common.Constants.{err_lib_internal_error}
use pywebtransport.Utils.Varint.{
  ok, err, put_u8, put_u16, put_u32, put_u64, varint_size, write_varint, be_value, read_len,
  read_varint,
}

-- The four formats as sums, for the values that they serve.
or_u16 : (v : ℕ) → v < 2 ^ 14 → bit_or v 0x4000 ≡ v + 2 ^ 14
or_u16 v h = bit_or-above 14 v 1 h

or_u32 : (v : ℕ) → v < 2 ^ 30 → bit_or v 0x8000_0000 ≡ v + 2 * 2 ^ 30
or_u32 v h = bit_or-above 30 v 2 h

or_u64 : (v : ℕ) → v < 2 ^ 62 → bit_or v 0xc000_0000_0000_0000 ≡ v + 3 * 2 ^ 62
or_u64 v h = bit_or-above 62 v 3 h

value-put_u64 : (w : ℕ) → w < 2 ^ 64 → be_value 0 (put_u64 w) ≡ w
value-put_u64 w h = omega arith

read_u8 : (v : ℕ) (rest : Bytes) → v < 2 ^ 6 → read_varint (put_u8 v ++ rest) ≡ ok (v, rest)
unfolding read_varint
read_u8 v rest h =
    let e : v % 256 / 2 ^ 6 ≡ 0 = omega arith in
    rw (e, read_len) (ground (arith, bit_and-mask 6 (v % 256)))

read_u16 :
    (v : ℕ) (rest : Bytes) → v < 2 ^ 14 → read_varint (put_u16 (v + 2 ^ 14) ++ rest) ≡ ok (v, rest)
unfolding read_varint
read_u16 v rest h =
    let e : (v + 2 ^ 14) / 2 ^ 8 % 256 / 2 ^ 6 ≡ 1 = omega arith in
    let w : be_value 0 (put_u16 (v + 2 ^ 14)) ≡ v + 2 ^ 14 = omega arith in
    rw (e, w, bit_and-mask 14 (v + 2 ^ 14)) (ground arith)

read_u32 :
    (v : ℕ) (rest : Bytes)
    → v < 2 ^ 30
    → read_varint (put_u32 (v + 2 * 2 ^ 30) ++ rest) ≡ ok (v, rest)
unfolding read_varint
read_u32 v rest h =
    let e : (v + 2 * 2 ^ 30) / 2 ^ 16 / 2 ^ 8 % 256 / 2 ^ 6 ≡ 2 = omega arith in
    let w : be_value 0 (put_u32 (v + 2 * 2 ^ 30)) ≡ v + 2 * 2 ^ 30 = omega arith in
    rw (e, w, bit_and-mask 30 (v + 2 * 2 ^ 30)) (ground arith)

read_u64 :
    (v : ℕ) (rest : Bytes)
    → v < 2 ^ 62
    → read_varint (put_u64 (v + 3 * 2 ^ 62) ++ rest) ≡ ok (v, rest)
unfolding read_varint
read_u64 v rest h =
    let e : (v + 3 * 2 ^ 62) / 2 ^ 32 / 2 ^ 16 / 2 ^ 8 % 256 / 2 ^ 6 ≡ 3 = omega arith in
    rw (e, value-put_u64 (v + 3 * 2 ^ 62) (omega arith), bit_and-mask 62 (v + 3 * 2 ^ 62))
      (ground arith)

-- A value of a varint can be written, in `varint_size` bytes, and reading gives it back with
-- whatever follows.
pub read_varint-write_varint :
    (v : ℕ) (rest : Bytes)
    → v < 2 ^ 62
    → (bs : Bytes) × (write_varint v ≡ ok bs)
      × (length bs ≡ varint_size v)
      × (read_varint (bs ++ rest) ≡ ok (v, rest))
unfolding write_varint varint_size
read_varint-write_varint v rest h = elim (Bool-cases (leb v 63)) [
  | inl a ↦ (put_u8 v, rw a, rw a, read_u8 v rest (ground arith))
  | inr a ↦ elim (Bool-cases (leb v 16383)) [
    | inl b ↦
        let e = or_u16 v (ground arith) in
        (put_u16 (v + 2 ^ 14), rw (a, b, e), rw (a, b), read_u16 v rest (ground arith))
    | inr b ↦ elim (Bool-cases (leb v 1073741823)) [
      | inl c ↦
          let e = or_u32 v (ground arith) in
          (put_u32 (v + 2 * 2 ^ 30), rw (a, b, c, e), rw (a, b, c), read_u32 v rest (ground arith))
      | inr c ↦
          let d : leb v 4611686018427387903 ≡ true = ground arith in
          let e = or_u64 v h in
          (put_u64 (v + 3 * 2 ^ 62), rw (a, b, c, d, e), rw (a, b, c), read_u64 v rest h)
    ]
  ]
]

-- A larger value is refused, and nothing is written.
pub write_varint_error : (v : ℕ) → 2 ^ 62 ≤ v → write_varint v ≡ err err_lib_internal_error
unfolding write_varint
write_varint_error v h = ground arith

read_len_bounds :
    (len : ℕ) (buffer rest : Bytes) (v : ℕ)
    → len ≤ length buffer
    → read_len len buffer ≡ ok (v, rest)
    → (v < 2 ^ 62) × (length rest + len ≡ length buffer) × (0 < len)
unfolding read_len
read_len_bounds len buffer rest v h e = ground (
  arith,
  length-drop 1 buffer,
  length-drop 2 buffer,
  length-drop 4 buffer,
  length-drop 8 buffer,
  bit_and-mask 6 (be_value 0 (take 1 buffer)),
  bit_and-mask 14 (be_value 0 (take 2 buffer)),
  bit_and-mask 30 (be_value 0 (take 4 buffer)),
  bit_and-mask 62 (be_value 0 (take 8 buffer)),
)

-- A value that was read is below 2 ^ 62, and the read consumed at least one byte.
pub read_varint_bounds :
    (buffer rest : Bytes) (v : ℕ)
    → read_varint buffer ≡ ok (v, rest)
    → (v < 2 ^ 62) × (length rest < length buffer)
unfolding read_varint
read_varint_bounds [] rest v e = cc
read_varint_bounds (first ∷ tail) rest v e =
    ground (arith, read_len_bounds (2 ^ (first / 2 ^ 6)) (first ∷ tail) rest v)
