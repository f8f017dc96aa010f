-- ===== src/H3/Capsules/Loop.antt =====
-- protocol/h3.rs: the loop of `parse_capsules` comes to its end.
use pywebtransport.Base.{
  ℕ, zero, suc, ◌≤◌, ◌<◌, ◌≡◌, refl, sym, ◌∙◌, ap, List, [], ◌∷◌, arith, length,
}
use pywebtransport.Common.{Bytes, StreamId}
use pywebtransport.Common.Errors.{WebTransportError}
use pywebtransport.Events.Protocol.{ProtocolEvent, h3_capsule_received}
use pywebtransport.H3.Capsules.{
  Front, partial, refused, whole, front_of, parse_rounds, parse_capsules,
}
use pywebtransport.H3.Capsules.Chunks.{front_of_size}
use pywebtransport.H3.Outcome.{Outcome, done, failed, ◌>>=◌}
use pywebtransport.Utils.Varint.{read_varint}

module _ (max : ℕ) (id : StreamId) where
  -- The buffer in which the loop stops starts with no whole capsule.
  abbrev pub Stops : Outcome (List ProtocolEvent × Bytes) → Type 0
  Stops (done (events, left)) = front_of max id left ≡ partial
  Stops (failed e) = Unit {0}

  abbrev pub cons :
      ProtocolEvent → List ProtocolEvent × Bytes → Outcome (List ProtocolEvent × Bytes)
  cons event (events, left) = done (event ∷ events, left)

  -- The three ways of a round.
  pub round_partial :
      (n : ℕ) (buffer : Bytes)
      → front_of max id buffer ≡ partial
      → parse_rounds max id (suc n) buffer ≡ done ([], buffer)
  unfolding parse_rounds
  round_partial n buffer e = rw (parse_rounds, e) refl

  pub round_refused :
      (n : ℕ) (buffer : Bytes) (x : WebTransportError)
      → front_of max id buffer ≡ refused x
      → parse_rounds max id (suc n) buffer ≡ failed x
  unfolding parse_rounds
  round_refused n buffer x e = rw (parse_rounds, e) refl

  pub round_whole :
      (n : ℕ) (buffer : Bytes) (t : ℕ) (v rest : Bytes)
      → front_of max id buffer ≡ whole t v rest
      → parse_rounds max id (suc n) buffer
        ≡ (parse_rounds max id n rest >>= cons (h3_capsule_received id t v))
  unfolding parse_rounds
  round_whole n buffer t v rest e = rw (parse_rounds, e) refl

  Stops-cons :
      (event : ProtocolEvent) (outcome : Outcome (List ProtocolEvent × Bytes))
      → Stops outcome
      → Stops (outcome >>= cons event)
  Stops-cons event (done (events, left)) h = h
  Stops-cons event (failed e) h = tt

  front_of_empty : front_of max id [] ≡ partial
  unfolding front_of read_varint
  front_of_empty = refl

  pub rounds_empty : (n : ℕ) → parse_rounds max id n [] ≡ done ([], [])
  unfolding parse_rounds front_of read_varint
  rounds_empty zero = refl
  rounds_empty (suc n) = refl

  -- The rounds suffice: with as many as there are bytes, more of them change nothing.
  pub rounds_enough :
      (n m : ℕ) (buffer : Bytes)
      → length buffer ≤ n
      → length buffer ≤ m
      → parse_rounds max id n buffer ≡ parse_rounds max id m buffer
  rounds_enough n m [] h k = rounds_empty n ∙ sym (rounds_empty m)
  rounds_enough zero m (b ∷ bs) h k = ground arith
  rounds_enough (suc n) zero (b ∷ bs) h k = ground arith
  rounds_enough (suc n) (suc m) (b ∷ bs) h k =
      go (front_of max id (b ∷ bs)) refl
        (λ rest less. rounds_enough n m rest (omega arith) (omega arith))
    where
      go :
          (f : Front)
          → front_of max id (b ∷ bs) ≡ f
          → ((rest : Bytes)
              → length rest < length (b ∷ bs)
              → parse_rounds max id n rest ≡ parse_rounds max id m rest)
          → parse_rounds max id (suc n) (b ∷ bs) ≡ parse_rounds max id (suc m) (b ∷ bs)
      go partial e ih = round_partial n (b ∷ bs) e ∙ sym (round_partial m (b ∷ bs) e)
      go (refused x) e ih = round_refused n (b ∷ bs) x e ∙ sym (round_refused m (b ∷ bs) x e)
      go (whole t v rest) e ih =
          round_whole n (b ∷ bs) t v rest e
          ∙ ap (λ o. o >>= cons (h3_capsule_received id t v))
              (ih rest (front_of_size max id (b ∷ bs) v rest t e))
          ∙ sym (round_whole m (b ∷ bs) t v rest e)

  rounds-Stops : (n : ℕ) (buffer : Bytes) → length buffer ≤ n → Stops (parse_rounds max id n buffer)
  rounds-Stops n [] h = rw (rounds_empty n) front_of_empty
  rounds-Stops zero (b ∷ bs) h = ground arith
  rounds-Stops (suc n) (b ∷ bs) h =
      go (front_of max id (b ∷ bs)) refl (λ rest less. rounds-Stops n rest (omega arith))
    where
      go :
          (f : Front)
          → front_of max id (b ∷ bs) ≡ f
          → ((rest : Bytes) → length rest < length (b ∷ bs) → Stops (parse_rounds max id n rest))
          → Stops (parse_rounds max id (suc n) (b ∷ bs))
      go partial e ih = rw (round_partial n (b ∷ bs) e) e
      go (refused x) e ih = rw (round_refused n (b ∷ bs) x e) tt
      go (whole t v rest) e ih = rw (round_whole n (b ∷ bs) t v rest e) (
          Stops-cons (h3_capsule_received id t v) (parse_rounds max id n rest)
            (ih rest (front_of_size max id (b ∷ bs) v rest t e)))

  -- The loop of `parse_capsules` ends by itself: more rounds than there are bytes change nothing, and
  -- the bytes that it leaves start with no whole capsule.
  pub parse_capsules_terminates :
      (rounds : ℕ) (buffer : Bytes)
      → length buffer ≤ rounds
      → (parse_rounds max id rounds buffer ≡ parse_capsules max id buffer)
        × Stops (parse_capsules max id buffer)
  unfolding parse_capsules
  parse_capsules_terminates rounds buffer h = (
    rounds_enough rounds (length buffer) buffer h (omega arith),
    rounds-Stops (length buffer) buffer (omega arith),
  )
