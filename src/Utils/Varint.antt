-- ===== src/Utils/Varint.antt =====
-- QUIC variable-length integers: `varint_size`, `write_varint` and `read_varint`.
-- A `Cursor` is the bytes that are left to read; a buffer is the bytes that were written.
pub mod RoundTrip
pub mod Chunks
use Prim.Native.Nat.{bit_and, bit_or}
use pywebtransport.Base.{
  ℕ, ◌+◌, ◌*◌, ◌/◌, ◌%◌, ◌^◌, List, [], ◌∷◌, ◌++◌, if◌then◌else◌, leb, ltb, ◌==◌, length, take,
  drop,
}
use pywebtransport.Common.{Bytes, ErrorCode}
use pywebtransport.Common.Constants.{err_h3_frame_error, err_lib_internal_error}

pub data Result {ℓ} (A : Type ℓ) : Type ℓ where
  ok : A → Result A
  err : ErrorCode → Result A

-- `put_u8`, `put_u16`, `put_u32`, `put_u64`: big endian.
abbrev pub put_u8 : ℕ → Bytes
put_u8 v = v % 256 ∷ []

abbrev pub put_u16 : ℕ → Bytes
put_u16 v = put_u8 (v / 2 ^ 8) ++ put_u8 v

abbrev pub put_u32 : ℕ → Bytes
put_u32 v = put_u16 (v / 2 ^ 16) ++ put_u16 v

abbrev pub put_u64 : ℕ → Bytes
put_u64 v = put_u32 (v / 2 ^ 32) ++ put_u32 v

unfoldable pub varint_size : ℕ → ℕ
varint_size value =
    if leb value 63 then 1 else if leb value 16383 then 2 else if leb value 1073741823 then 4 else 8

-- The bytes that are appended. The conversions to `u8`, `u16` and `u32` cannot fail in their branch.
unfoldable pub write_varint : ℕ → Result Bytes
write_varint value =
    if leb value 63
    then ok (put_u8 value)
    else if leb value 16383
    then ok (put_u16 (bit_or value 0x4000))
    else if leb value 1073741823
    then ok (put_u32 (bit_or value 0x8000_0000))
    else if leb value 4611686018427387903
    then ok (put_u64 (bit_or value 0xc000_0000_0000_0000))
    else err err_lib_internal_error

-- The number that big-endian bytes stand for.
abbrev pub be_value : ℕ → Bytes → ℕ
be_value acc [] = acc
be_value acc (b ∷ bs) = be_value (acc * 256 + b) bs

-- The `match` on the length: read that many bytes and clear the two length bits.
read_len : ℕ → Bytes → Result (ℕ × Bytes)
read_len len buffer =
    if len == 1
    then ok (bit_and (be_value 0 (take 1 buffer)) 0x3f, drop 1 buffer)
    else if len == 2
    then ok (bit_and (be_value 0 (take 2 buffer)) 0x3fff, drop 2 buffer)
    else if len == 4
    then ok (bit_and (be_value 0 (take 4 buffer)) 0x3fff_ffff, drop 4 buffer)
    else if len == 8
    then ok (bit_and (be_value 0 (take 8 buffer)) 0x3fff_ffff_ffff_ffff, drop 8 buffer)
    else err err_h3_frame_error

unfoldable pub read_varint : Bytes → Result (ℕ × Bytes)
unfolding read_len
read_varint [] = err err_h3_frame_error
read_varint (first ∷ rest) =
    let len = 2 ^ (first / 2 ^ 6) in
    if ltb (length (first ∷ rest)) len then err err_h3_frame_error else read_len len (first ∷ rest)
