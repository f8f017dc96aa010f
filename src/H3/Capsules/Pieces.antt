-- ===== src/H3/Capsules/Pieces.antt =====
-- protocol/h3.rs: `parse_capsules` over bytes that come in pieces, and over capsules that were encoded.
use mathlib.Core.List.{append_assoc, append-nil}
use pywebtransport.Base.{
  ℕ, zero, suc, ◌+◌, ◌≤◌, ◌<◌, ◌≡◌, refl, inl, inr, sym, ◌∙◌, ap, false, List, [], ◌∷◌, ◌++◌, arith,
  length, length-append, Bool-cases, take-length, drop-length,
}
use pywebtransport.Common.{Bytes, StreamId}
use pywebtransport.Common.Constants.{h3_frame_type_data}
use pywebtransport.Events.Protocol.{ProtocolEvent, h3_capsule_received}
use pywebtransport.H3.Capsules.{
  Front, partial, refused, whole, front_of, parse_rounds, parse_capsules,
}
use pywebtransport.H3.Capsules.Chunks.{
  is_partial, extend, prepend, prepend-nil, front_of-append, front_of_size,
}
use pywebtransport.H3.Capsules.Loop.{
  cons, round_partial, round_refused, round_whole, rounds_empty, rounds_enough,
  parse_capsules_terminates,
}
use pywebtransport.H3.Frames.{put_varints, encode_frame_header, encode_capsule}
use pywebtransport.H3.Frames.RoundTrip.{bind-done, joined, read_varints-put_varints}
use pywebtransport.H3.Outcome.{Outcome, done, failed, ◌>>=◌}
use pywebtransport.Utils.Varint.{ok, read_varint}
use pywebtransport.Utils.StreamIds.{is_valid_session_id}

module _ (max : ℕ) (id : StreamId) where
  -- The bytes that were left, with more behind them.
  abbrev pub then_parse : Bytes → List ProtocolEvent × Bytes → Outcome (List ProtocolEvent × Bytes)
  then_parse more (events, left) = prepend events (parse_capsules max id (left ++ more))

  then_parse-cons :
      (event : ProtocolEvent) (more : Bytes) (outcome : Outcome (List ProtocolEvent × Bytes))
      → ((outcome >>= then_parse more) >>= cons max id event)
        ≡ ((outcome >>= cons max id event) >>= then_parse more)
  then_parse-cons event more (failed e) = refl
  then_parse-cons event more (done (events, left)) = go (parse_capsules max id (left ++ more))
    where
      go :
          (later : Outcome (List ProtocolEvent × Bytes))
          → (prepend events later >>= cons max id event) ≡ prepend (event ∷ events) later
      go (done pair) = refl
      go (failed e) = refl

  parse_rounds-append :
      (n m : ℕ) (buffer more : Bytes)
      → length buffer ≤ n
      → length (buffer ++ more) ≤ m
      → parse_rounds max id m (buffer ++ more) ≡ (parse_rounds max id n buffer >>= then_parse more)
  unfolding parse_capsules
  parse_rounds-append n m [] more h k =
      rounds_enough max id m (length more) more k (omega arith)
      ∙ sym (prepend-nil (parse_capsules max id more))
      ∙ ap (λ o. o >>= then_parse more) (sym (rounds_empty max id n))
  parse_rounds-append zero m (b ∷ bs) more h k = ground arith
  parse_rounds-append (suc n) zero (b ∷ bs) more h k = ground arith
  parse_rounds-append (suc n) (suc m) (b ∷ bs) more h k =
      go (front_of max id (b ∷ bs)) refl (front_of-append max id (b ∷ bs) more) (λ rest less.
        parse_rounds-append n m rest more (omega arith)
          (omega (arith, length-append rest more, length-append bs more)))
    where
      go :
          (f : Front)
          → front_of max id (b ∷ bs) ≡ f
          → (is_partial (front_of max id (b ∷ bs)) ≡ false
              → front_of max id (b ∷ bs ++ more) ≡ extend more (front_of max id (b ∷ bs)))
          → ((rest : Bytes)
              → length rest < length (b ∷ bs)
              → parse_rounds max id m (rest ++ more)
                ≡ (parse_rounds max id n rest >>= then_parse more))
          → parse_rounds max id (suc m) (b ∷ bs ++ more)
            ≡ (parse_rounds max id (suc n) (b ∷ bs) >>= then_parse more)
      go partial e a ih =
          rounds_enough max id (suc m) (length (b ∷ bs ++ more)) (b ∷ bs ++ more) k (omega arith)
          ∙ sym (prepend-nil (parse_capsules max id (b ∷ bs ++ more)))
          ∙ ap (λ o. o >>= then_parse more) (sym (round_partial max id n (b ∷ bs) e))
      go (refused x) e a ih =
          let same : front_of max id (b ∷ bs ++ more) ≡ refused x =
            a (rw e refl) ∙ ap (extend more) e in
          round_refused max id m (b ∷ bs ++ more) x same
          ∙ ap (λ o. o >>= then_parse more) (sym (round_refused max id n (b ∷ bs) x e))
      go (whole t v rest) e a ih =
          let same : front_of max id (b ∷ bs ++ more) ≡ whole t v (rest ++ more) =
            a (rw e refl) ∙ ap (extend more) e in
          round_whole max id m (b ∷ bs ++ more) t v (rest ++ more) same
          ∙ ap (λ o. o >>= cons max id (h3_capsule_received id t v))
              (ih rest (front_of_size max id (b ∷ bs) v rest t e))
          ∙ then_parse-cons (h3_capsule_received id t v) more (parse_rounds max id n rest)
          ∙ ap (λ o. o >>= then_parse more) (sym (round_whole max id n (b ∷ bs) t v rest e))

  -- Bytes that come in two pieces give the same as all of them at once: the events of the first piece,
  -- and then those of what it left together with the second.
  pub parse_capsules-append :
      (buffer more : Bytes)
      → parse_capsules max id (buffer ++ more) ≡ (parse_capsules max id buffer >>= then_parse more)
  unfolding parse_capsules
  parse_capsules-append buffer more =
      parse_rounds-append (length buffer) (length (buffer ++ more)) buffer more (omega arith)
        (omega arith)

  front_of-encoded :
      (t : ℕ) (v header more : Bytes)
      → length v ≤ max
      → put_varints t (length v) ≡ done header
      → front_of max id (header ++ (v ++ more)) ≡ whole t v more
  unfolding front_of
  front_of-encoded t v header more h e =
      let (middle, first, second) = read_varints-put_varints t (length v) header (v ++ more) e in
      rw (first, second)
        (ground (arith, length-append v more, take-length v more, drop-length v more))

  -- The parts of a capsule that could be encoded.
  encoded_parts :
      (t : ℕ) (v : Bytes) (parts : List Bytes)
      → encode_capsule id t v ≡ done parts
      → (header : Bytes) × (frame : Bytes) × (put_varints t (length v) ≡ done header)
        × (put_varints h3_frame_type_data (length header + length v) ≡ done frame)
        × (parts ≡ frame ∷ header ∷ v ∷ [])
  unfolding encode_capsule encode_frame_header
  encoded_parts t v parts e = elim (Bool-cases (is_valid_session_id id)) [
    | inr bad ↦ ground arith
    | inl good ↦
        let frame_of : Bytes → Outcome (List Bytes) = λ h.
          put_varints h3_frame_type_data (length h + length v) >>= (λ f. done (f ∷ h ∷ v ∷ [])) in
        let valid : (put_varints t (length v) >>= frame_of) ≡ done parts = ground arith in
        let (header, header_eq, e₁) = bind-done (put_varints t (length v)) frame_of parts valid in
        let (frame, frame_eq, e₂) =
          bind-done (put_varints h3_frame_type_data (length header + length v))
            (λ f. done (f ∷ header ∷ v ∷ [])) parts e₁ in
        (header, frame, header_eq, frame_eq, cc)
  ]

  -- The payload of a capsule's frame, before any other bytes of capsules.
  parse_capsules-payload :
      (t : ℕ) (v header more : Bytes)
      → length v ≤ max
      → put_varints t (length v) ≡ done header
      → parse_capsules max id (header ++ (v ++ more))
        ≡ prepend (h3_capsule_received id t v ∷ []) (parse_capsules max id more)
  parse_capsules-payload t v header more h e =
      let payload = header ++ (v ++ more) in
      let front = front_of-encoded t v header more h e in
      let more_rounds =
        parse_capsules_terminates max id (suc (length payload)) payload (omega arith) in
      let rest =
        parse_capsules_terminates max id (length payload) more
          (omega (arith, front_of_size max id payload v more t front)) in
      sym more_rounds.0
      ∙ round_whole max id (length payload) payload t v more front
      ∙ ap (λ o. o >>= cons max id (h3_capsule_received id t v)) rest.0

  -- A capsule that could be encoded, and is not too large, is sent as one DATA frame: the bytes start
  -- with the type of the frame and with the length of a payload, which is there and ends where the bytes
  -- behind the frame start. From the payload the capsule is parsed, and the bytes of capsules that
  -- follow it are parsed as they would be alone.
  pub parse_capsules-encode_capsule :
      (t : ℕ) (v : Bytes) (parts : List Bytes) (behind more : Bytes)
      → length v ≤ max
      → encode_capsule id t v ≡ done parts
      → (payload : Bytes) × (middle : Bytes) × (read_varint (joined parts ++ behind)
          ≡ ok (h3_frame_type_data, middle))
        × (read_varint middle ≡ ok (length payload, payload ++ behind))
        × (parse_capsules max id (payload ++ more)
            ≡ prepend (h3_capsule_received id t v ∷ []) (parse_capsules max id more))
  parse_capsules-encode_capsule t v parts behind more h e =
      let (header, frame, header_eq, frame_eq, parts_eq) = encoded_parts t v parts e in
      let payload = header ++ v in
      let (middle, kind, size) =
        read_varints-put_varints h3_frame_type_data (length header + length v) frame
          (payload ++ behind) frame_eq in
      let bytes : joined parts ++ behind ≡ frame ++ (payload ++ behind) =
        ap (λ p. joined p ++ behind) parts_eq
        ∙ ap (λ x. (frame ++ (header ++ x)) ++ behind) (append-nil v)
        ∙ append_assoc frame payload behind in
      (
        payload,
        middle,
        ap read_varint bytes ∙ kind,
        size ∙ ap (λ n. ok (n, payload ++ behind)) (sym (length-append header v)),
        ap (parse_capsules max id) (append_assoc header v more)
            ∙ parse_capsules-payload t v header more h header_eq,
      )
