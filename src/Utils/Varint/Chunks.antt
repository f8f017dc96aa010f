-- ===== src/Utils/Varint/Chunks.antt =====
-- protocol/utils.rs: `read_varint` looks at the bytes of the varint only.
use pywebtransport.Base.{
  ℕ, ◌≤◌, ◌≡◌, ◌^◌, ◌/◌, [], ◌∷◌, ◌++◌, arith, length, length-append, take-append, drop-append,
}
use pywebtransport.Common.{Bytes}
use pywebtransport.Utils.Varint.{ok, read_len, read_varint}

read_len-append :
    (len : ℕ) (buffer more rest : Bytes) (v : ℕ)
    → len ≤ length buffer
    → read_len len buffer ≡ ok (v, rest)
    → read_len len (buffer ++ more) ≡ ok (v, rest ++ more)
unfolding read_len
read_len-append len buffer more rest v h e = ground (
  arith,
  take-append 1 buffer more,
  take-append 2 buffer more,
  take-append 4 buffer more,
  take-append 8 buffer more,
  drop-append 1 buffer more,
  drop-append 2 buffer more,
  drop-append 4 buffer more,
  drop-append 8 buffer more,
)

-- More bytes behind a varint stay behind it.
pub read_varint-append :
    (buffer more rest : Bytes) (v : ℕ)
    → read_varint buffer ≡ ok (v, rest)
    → read_varint (buffer ++ more) ≡ ok (v, rest ++ more)
unfolding read_varint
read_varint-append [] more rest v e = cc
read_varint-append (first ∷ tail) more rest v e = ground (
  arith,
  length-append tail more,
  read_len-append (2 ^ (first / 2 ^ 6)) (first ∷ tail) more rest v,
)
