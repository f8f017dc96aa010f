-- ===== src/Session/Invariant/Capsules.antt =====
-- protocol/session.rs: `recv_capsule` keeps a session valid.
use pywebtransport.Base.{
  ℕ, ◌<◌, ◌^◌, ◌≡◌, refl, inl, inr, Bool, true, false, not, ◌&&◌, some, List, [], ◌∷◌, length,
  length-append, take, drop, arith, Bool-cases, if◌then◌else◌, ltb,
}
use pywebtransport.Base.Utf8.{is_utf8}
use pywebtransport.Common.{Bytes, F64, text, SessionState}
use pywebtransport.Common.Constants.{
  err_h3_excessive_load, err_h3_frame_unexpected, err_h3_general_protocol_error,
  err_h3_message_error, err_wt_flow_control_error, wt_close_reason_size_limit, wt_streams_limit,
}
use pywebtransport.Events.{Effect}
use pywebtransport.Session.Capsules.{
  recv_close, recv_data_blocked, recv_drain, recv_max_data, recv_max_streams_bidi,
  recv_max_streams_uni, recv_streams_blocked, dispatch_capsule, buffer_capsule, recv_capsule,
  is_flow_control_capsule,
}
use pywebtransport.Session.Defs.{Session, is_closed_state, is_closing_state, is_connecting}
use pywebtransport.Session.Invariant.Ends.{abort-IsValid}
use pywebtransport.Session.Invariant.Flow.{
  flush_blocked_writes-IsValid, flush_blocked_stream_requests-IsValid,
}
use pywebtransport.Session.Invariant.Helpers.{
  finish-IsValid, replenish_data_credit-IsValid, replenish_streams_credit-IsValid,
}
use pywebtransport.Session.IsValid.{IsValid}
use pywebtransport.Utils.Varint.{Result, ok, err, read_varint, be_value}
use pywebtransport.Utils.Varint.RoundTrip.{read_varint_bounds}

recv_close-IsValid :
    (s : Session) (value : Bytes) (now : F64) → IsValid s → IsValid (recv_close s value now).0
unfolding recv_close
recv_close-IsValid s value now v =
    let f =
      finish-IsValid s (some (be_value 0 (take 4 value))) (some (drop 4 value)) now
        SessionState.closed refl v in
    let bad = abort-IsValid s err_h3_message_error (text "wt_capsule validate invalid") now v in
    let long = abort-IsValid s err_h3_message_error (text "wt_capsule validate exceeded") now v in
    elim (Bool-cases (ltb (length value) 4)) [
      | inl short ↦ rw short bad
      | inr whole ↦ elim (Bool-cases (ltb wt_close_reason_size_limit (length (drop 4 value)))) [
        | inl over ↦ rw (whole, over) long
        | inr fits ↦ elim (Bool-cases (is_utf8 (drop 4 value))) [
          | inl utf ↦ rw (whole, fits, utf) f
          | inr e ↦ rw (whole, fits, e) bad
        ]
      ]
    ]

recv_data_blocked-IsValid : (s : Session) → IsValid s → IsValid (recv_data_blocked s).0
unfolding recv_data_blocked
recv_data_blocked-IsValid s v = ground (arith, replenish_data_credit-IsValid s v true)

recv_drain-IsValid : (s : Session) → IsValid s → IsValid (recv_drain s).0
unfolding recv_drain
recv_drain-IsValid s v = ground arith

-- A number that was read from a capsule.
IsRead : Result (ℕ × Bytes) → Type 0
IsRead (ok (n, rest)) = n < 2 ^ 64
IsRead (err code) = Unit {0}

recv_max_data-IsValid :
    (s : Session) (r : Result (ℕ × Bytes)) (now : F64)
    → IsRead r
    → IsValid s
    → IsValid (recv_max_data s r now).0
unfolding recv_max_data IsRead
recv_max_data-IsValid s (err code) now h v =
    abort-IsValid s err_h3_general_protocol_error (text "varint decode invalid") now v
recv_max_data-IsValid s (ok (n, rest)) now h v =
    let raised : Session = record s { peer_max_data = n } in
    let low = abort-IsValid s err_wt_flow_control_error (text "wt_session validate failed") now v in
    elim (Bool-cases (ltb s.peer_max_data n)) [
      | inl more ↦ rw more (flush_blocked_writes-IsValid raised (ground arith))
      | inr less ↦ rw less low
    ]

recv_max_streams_bidi-IsValid :
    (s : Session) (r : Result (ℕ × Bytes)) (now : F64)
    → IsValid s
    → IsValid (recv_max_streams_bidi s r now).0
unfolding recv_max_streams_bidi
recv_max_streams_bidi-IsValid s (err code) now v =
    abort-IsValid s err_h3_general_protocol_error (text "varint decode invalid") now v
recv_max_streams_bidi-IsValid s (ok (n, rest)) now v =
    let raised : Session = record s { peer_max_streams_bidi = n } in
    let low = abort-IsValid s err_wt_flow_control_error (text "wt_session validate failed") now v in
    let high =
      abort-IsValid s err_wt_flow_control_error (text "wt_session validate exceeded") now v in
    elim (Bool-cases (ltb wt_streams_limit n)) [
      | inl over ↦ rw over high
      | inr within ↦ elim (Bool-cases (ltb s.peer_max_streams_bidi n)) [
        | inl more ↦
            rw (within, more) (flush_blocked_stream_requests-IsValid raised false (ground arith))
        | inr less ↦ rw (within, less) low
      ]
    ]

recv_max_streams_uni-IsValid :
    (s : Session) (r : Result (ℕ × Bytes)) (now : F64)
    → IsValid s
    → IsValid (recv_max_streams_uni s r now).0
unfolding recv_max_streams_uni
recv_max_streams_uni-IsValid s (err code) now v =
    abort-IsValid s err_h3_general_protocol_error (text "varint decode invalid") now v
recv_max_streams_uni-IsValid s (ok (n, rest)) now v =
    let raised : Session = record s { peer_max_streams_uni = n } in
    let low = abort-IsValid s err_wt_flow_control_error (text "wt_session validate failed") now v in
    let high =
      abort-IsValid s err_wt_flow_control_error (text "wt_session validate exceeded") now v in
    elim (Bool-cases (ltb wt_streams_limit n)) [
      | inl over ↦ rw over high
      | inr within ↦ elim (Bool-cases (ltb s.peer_max_streams_uni n)) [
        | inl more ↦
            rw (within, more) (flush_blocked_stream_requests-IsValid raised true (ground arith))
        | inr less ↦ rw (within, less) low
      ]
    ]

recv_streams_blocked-IsValid :
    (s : Session) (uni : Bool) (r : Result (ℕ × Bytes)) (now : F64)
    → IsValid s
    → IsValid (recv_streams_blocked s uni r now).0
unfolding recv_streams_blocked
recv_streams_blocked-IsValid s uni (err code) now v =
    abort-IsValid s err_h3_general_protocol_error (text "varint decode invalid") now v
recv_streams_blocked-IsValid s uni (ok (n, rest)) now v =
    let credit = replenish_streams_credit-IsValid s v uni true in
    let high =
      abort-IsValid s err_wt_flow_control_error (text "wt_session validate exceeded") now v in
    ground arith

read_varint-IsRead : (value : Bytes) → IsRead (read_varint value)
unfolding IsRead
read_varint-IsRead value = go (read_varint value) (read_varint_bounds value)
  where
    go :
        (r : Result (ℕ × Bytes))
        → ((rest : Bytes) (n : ℕ) → r ≡ ok (n, rest) → (n < 2 ^ 62) × (length rest < length value))
        → IsRead r
    go (ok (n, rest)) h = let b : n < 2 ^ 62 = (h rest n refl).0 in omega arith
    go (err code) h = tt

-- An outcome with a valid session, apart from how it is computed.
record Keeps (outcome : Session × List Effect) : Type 0 where
  valid : IsValid outcome.0

-- A test between two outcomes that are valid.
if-Keeps :
    (test : Bool) {x y : Session × List Effect} → Keeps x → Keeps y → Keeps (if test then x else y)
if-Keeps true h k = h
if-Keeps false h k = k

dispatch_capsule-Keeps :
    (s : Session) (kind : ℕ) (value : Bytes) (now : F64)
    → IsValid s
    → Keeps (dispatch_capsule s kind value now)
unfolding dispatch_capsule
dispatch_capsule-Keeps s kind value now v =
    let r = read_varint value in
    if-Keeps _ (record { valid = recv_close-IsValid s value now v })
      (if-Keeps _ (record { valid = recv_data_blocked-IsValid s v })
        (if-Keeps _ (record { valid = recv_drain-IsValid s v })
          (if-Keeps _
            (record { valid = recv_max_data-IsValid s r now (read_varint-IsRead value) v })
            (if-Keeps _
              (record {
                valid =
                    abort-IsValid s err_h3_frame_unexpected (text "wt_session validate failed") now
                      v;
              })
              (if-Keeps _ (record { valid = recv_max_streams_bidi-IsValid s r now v })
                (if-Keeps _ (record { valid = recv_max_streams_uni-IsValid s r now v })
                  (if-Keeps _ (record { valid = recv_streams_blocked-IsValid s false r now v })
                    (if-Keeps _ (record { valid = recv_streams_blocked-IsValid s true r now v })
                      (record { valid = v })))))))))

buffer_capsule-IsValid :
    (s : Session) (kind : ℕ) (value : Bytes) (now : F64)
    → IsValid s
    → IsValid (buffer_capsule s kind value now).0
unfolding buffer_capsule
buffer_capsule-IsValid s kind value now v = ground (
  arith,
  length-append s.pending_capsules ((kind, value) ∷ []),
  abort-IsValid s err_h3_excessive_load (text "wt_session validate exceeded") now v,
)

pub recv_capsule-IsValid :
    (s : Session) (kind : ℕ) (value : Bytes) (now : F64)
    → IsValid s
    → IsValid (recv_capsule s kind value now).0
unfolding recv_capsule
recv_capsule-IsValid s kind value now v =
    let buffered = buffer_capsule-IsValid s kind value now v in
    let taken = (dispatch_capsule-Keeps s kind value now v).valid in
    let unread = not s.flow_control_negotiated && is_flow_control_capsule kind in
    elim (Bool-cases (is_connecting s.state)) [
      | inl e ↦ rw e buffered
      | inr started ↦ elim (Bool-cases (is_closing_state s.state)) [
        | inl e ↦ rw (started, e) v
        | inr open' ↦ elim (Bool-cases (is_closed_state s.state)) [
          | inl e ↦ rw (started, open', e) v
          | inr live ↦ elim (Bool-cases unread) [
            | inl e ↦ rw (started, open', live, e) v
            | inr e ↦ rw (started, open', live, e) taken
          ]
        ]
      ]
    ]
