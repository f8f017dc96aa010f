-- ===== src/H3/Capsules/Chunks.antt =====
-- protocol/h3.rs: one round of `parse_capsules`: what more bytes change, and what a capsule takes.
use pywebtransport.Base.{
  ℕ, ◌<◌, ◌≡◌, refl, Bool, true, false, List, [], ◌++◌, arith, length, length-append, length-drop,
  take-append, drop-append,
}
use pywebtransport.Common.{Bytes, StreamId}
use pywebtransport.Events.Protocol.{ProtocolEvent}
use pywebtransport.H3.Capsules.{Front, partial, refused, whole, value_of, capsule_of, front_of}
use pywebtransport.H3.Outcome.{Outcome, done, failed, ◌>>=◌}
use pywebtransport.Utils.Varint.{Result, ok, err, read_varint}
use pywebtransport.Utils.Varint.Chunks.{read_varint-append}
use pywebtransport.Utils.Varint.RoundTrip.{read_varint_bounds}

abbrev pub is_partial : Front → Bool
is_partial partial = true
is_partial (refused e) = false
is_partial (whole capsule_type capsule_value rest) = false

-- More bytes behind what stands at the front.
abbrev pub extend : Bytes → Front → Front
extend more partial = partial
extend more (refused e) = refused e
extend more (whole capsule_type capsule_value rest) =
    whole capsule_type capsule_value (rest ++ more)

-- The outcome, with the events before it.
abbrev pub prepend :
    List ProtocolEvent → Outcome (List ProtocolEvent × Bytes) → Outcome (List ProtocolEvent × Bytes)
prepend events outcome = outcome >>= (λ (later, left). done (events ++ later, left))

pub prepend-nil : (outcome : Outcome (List ProtocolEvent × Bytes)) → prepend [] outcome ≡ outcome
prepend-nil (done (later, left)) = refl
prepend-nil (failed e) = refl

module _ (max : ℕ) (id : StreamId) where
  value_of-append :
      (t : ℕ) (after more : Bytes) (r : Result (ℕ × Bytes))
      → read_varint after ≡ r
      → is_partial (value_of max id t r) ≡ false
      → value_of max id t (read_varint (after ++ more)) ≡ extend more (value_of max id t r)
  value_of-append t after more (err code) e h = cc
  value_of-append t after more (ok (size, rest)) e h =
      rw (read_varint-append after more rest size e) (
        ground
          (arith, length-append rest more, take-append size rest more, drop-append size rest more))

  capsule_of-append :
      (buffer more : Bytes) (r : Result (ℕ × Bytes))
      → read_varint buffer ≡ r
      → is_partial (capsule_of max id r) ≡ false
      → capsule_of max id (read_varint (buffer ++ more)) ≡ extend more (capsule_of max id r)
  capsule_of-append buffer more (err code) e h = cc
  capsule_of-append buffer more (ok (t, after)) e h =
      rw (read_varint-append buffer more after t e)
        (value_of-append t after more (read_varint after) refl h)

  -- What is there for certain stays there when more bytes come.
  pub front_of-append :
      (buffer more : Bytes)
      → is_partial (front_of max id buffer) ≡ false
      → front_of max id (buffer ++ more) ≡ extend more (front_of max id buffer)
  unfolding front_of
  front_of-append buffer more h = capsule_of-append buffer more (read_varint buffer) refl h

  -- A capsule takes bytes.
  value_of_size :
      (t : ℕ) (after v rest : Bytes) (k : ℕ) (r : Result (ℕ × Bytes))
      → read_varint after ≡ r
      → value_of max id t r ≡ whole k v rest
      → length rest < length after
  value_of_size t after v rest k (err code) e h = cc
  value_of_size t after v rest k (ok (size, tail)) e h =
      ground (arith, read_varint_bounds after tail size e, length-drop size tail)

  pub front_of_size :
      (buffer v rest : Bytes) (k : ℕ)
      → front_of max id buffer ≡ whole k v rest
      → length rest < length buffer
  unfolding front_of
  front_of_size buffer v rest k h = go (read_varint buffer) refl h
    where
      go :
          (r : Result (ℕ × Bytes))
          → read_varint buffer ≡ r
          → capsule_of max id r ≡ whole k v rest
          → length rest < length buffer
      go (err code) e h = cc
      go (ok (t, after)) e h =
          let inner = value_of_size t after v rest k (read_varint after) refl h in
          omega (arith, inner, read_varint_bounds buffer after t e)
