-- ===== src/H3/Frames/RoundTrip.antt =====
-- protocol/h3.rs: varints and datagrams that the encoders write are read back.
use mathlib.Core.List.{append_assoc, append-nil}
use pywebtransport.Base.{
  ℕ, ◌*◌, ◌/◌, ◌^◌, ◌<◌, ◌≡◌, refl, ◌∙◌, ap, inl, inr, true, List, [], ◌∷◌, ◌++◌, ltb, arith,
  Bool-cases,
}
use pywebtransport.Common.{Bytes}
use pywebtransport.Base.Bits.{bit_and-three}
use pywebtransport.Common.{SessionId}
use pywebtransport.Events.Protocol.{h3_datagram_received}
use pywebtransport.H3.Frames.{put_varints, encode_datagram, recv_datagram}
use pywebtransport.Utils.StreamIds.{is_valid_session_id}
use pywebtransport.H3.Outcome.{Outcome, done, failed, ◌>>=◌, put_varint}
use pywebtransport.Utils.Varint.{ok, read_varint}
use pywebtransport.Utils.Varint.RoundTrip.{read_varint-write_varint, write_varint_error}

-- A chain that was done, was done in both its parts.
pub bind-done {ℓ κ} :
    {A : Type ℓ} {B : Type κ} (m : Outcome A) (f : A → Outcome B) (b : B)
    → (m >>= f) ≡ done b
    → (a : A) × (m ≡ done a) × (f a ≡ done b)
bind-done (done a) f b e = (a, refl, e)
bind-done (failed x) f b e = cc

pub read_varint-put_varint :
    (v : ℕ) (bs rest : Bytes) → put_varint v ≡ done bs → read_varint (bs ++ rest) ≡ ok (v, rest)
read_varint-put_varint v bs rest e = elim (Bool-cases (ltb v (2 ^ 62))) [
  | inl small ↦
      let (cs, written, size, read) = read_varint-write_varint v rest (ground arith) in
      let same : put_varint v ≡ done cs = rw written refl in
      let equal : cs ≡ bs = cc in rw⁻¹ equal read
  | inr large ↦ let refused = write_varint_error v (ground arith) in cc
]

-- Two varints, whatever follows them.
pub read_varints-put_varints :
    (v w : ℕ) (bs rest : Bytes)
    → put_varints v w ≡ done bs
    → (middle : Bytes) × (read_varint (bs ++ rest) ≡ ok (v, middle))
      × (read_varint middle ≡ ok (w, rest))
read_varints-put_varints v w bs rest e =
    let (front, front_eq, e₁) = bind-done (put_varint v) _ bs e in
    let (back, back_eq, e₂) = bind-done (put_varint w) _ bs e₁ in
    let first = read_varint-put_varint v front (back ++ rest) front_eq in
    let second = read_varint-put_varint w back rest back_eq in
    let whole : bs ≡ front ++ back = cc in
    (
      back ++ rest,
      ap (λ x. read_varint (x ++ rest)) whole
          ∙ ap read_varint (append_assoc front back rest)
          ∙ first,
      second,
    )

-- The parts of a message, as the transport joins them.
abbrev pub joined : List Bytes → Bytes
joined [] = []
joined (part ∷ parts) = part ++ joined parts

session_id_quarter : (id : SessionId) → is_valid_session_id id ≡ true → id / 4 * 4 ≡ id
unfolding is_valid_session_id
session_id_quarter id e = ground (arith, bit_and-three id)

-- A datagram that could be encoded is received with its session and its bytes.
pub recv_datagram-encode_datagram :
    (id : SessionId) (d : Bytes) (parts : List Bytes)
    → id < 2 ^ 62
    → encode_datagram id d ≡ done parts
    → recv_datagram (joined parts) ≡ done (h3_datagram_received id d ∷ [])
unfolding encode_datagram recv_datagram
recv_datagram-encode_datagram id d parts h e = elim (Bool-cases (is_valid_session_id id)) [
  | inr bad ↦ ground arith
  | inl good ↦
      let valid : (put_varint (id / 4) >>= (λ header. done (header ∷ d ∷ []))) ≡ done parts =
        ground arith in
      let (header, header_eq, e₁) = bind-done (put_varint (id / 4)) _ parts valid in
      let read = read_varint-put_varint (id / 4) header (d ++ []) header_eq in
      let same : parts ≡ header ∷ d ∷ [] = cc in
      rw (same, read, append-nil d) (ground (arith, session_id_quarter id good))
]
