-- ===== src/Session/Credit.antt =====
-- protocol/session.rs: the flow control capsules: `replenish_data_credit`,
-- `replenish_streams_credit`, `emit_data_blocked`, `emit_streams_blocked`.
use pywebtransport.Base.{
  ℕ, ◌/◌, Bool, true, false, not, ◌&&◌, ◌||◌, Option, none, some, ltb, leb, if◌then◌else◌, is_empty,
}
use pywebtransport.Base.Word.{saturating_add}
use pywebtransport.Common.{Bytes, SessionState}
use pywebtransport.Common.Constants.{
  wt_capsule_type_max_data, wt_capsule_type_max_streams_bidi, wt_capsule_type_max_streams_uni,
  wt_capsule_type_data_blocked, wt_capsule_type_streams_blocked_bidi,
  wt_capsule_type_streams_blocked_uni,
}
use pywebtransport.Events.{Effect, send_h3_capsule}
use pywebtransport.Session.Defs.{Session}
use pywebtransport.Utils.Varint.{Result, ok, err, write_varint}

-- `matches!((state, is_client), (Connected | Draining, _) | (Connecting, true))`.
abbrev pub may_send_credit : SessionState → Bool → Bool
may_send_credit SessionState.connected is_client = true
may_send_credit SessionState.draining is_client = true
may_send_credit SessionState.connecting is_client = is_client
may_send_credit SessionState.closed is_client = false
may_send_credit SessionState.closing is_client = false

-- The capsule that carries a limit; `none` if the limit is no varint.
abbrev pub limit_capsule : Session → ℕ → Result Bytes → Option Effect
limit_capsule s capsule_type (ok value) = some (send_h3_capsule s.id capsule_type value false)
limit_capsule s capsule_type (err code) = none

-- An encoding that failed changes nothing.
abbrev pub if_ok : Result Bytes → Session → Session → Session
if_ok (ok value) s' s = s'
if_ok (err code) s' s = s

unfoldable pub replenish_data_credit : Session → Bool → Session × Option Effect
replenish_data_credit s force_send =
    let new_limit = saturating_add s.data_consumed s.receive_window in
    let threshold = if force_send then 0 else s.receive_window / 2 in
    if not s.flow_control_negotiated || not (may_send_credit s.state s.is_client)
    then (s, none)
    else if leb new_limit (saturating_add s.local_max_data threshold)
    then (s, none)
    else (
      if_ok (write_varint new_limit) (record s { local_max_data = new_limit }) s,
      limit_capsule s wt_capsule_type_max_data (write_varint new_limit),
    )

-- The test of `replenish_streams_credit` on one kind of streams.
abbrev pub keeps_limit : ℕ → ℕ → ℕ → Bool → Bool
keeps_limit current closed initial force_send =
    let new_limit = saturating_add closed initial in
    let threshold = if force_send then 0 else initial / 2 in
    leb new_limit current || ltb new_limit (saturating_add current threshold)

unfoldable pub replenish_uni : Session → Bool → Session × Option Effect
replenish_uni s force_send =
    let new_limit = saturating_add s.peer_streams_uni_closed s.initial_max_streams_uni in
    if keeps_limit s.local_max_streams_uni s.peer_streams_uni_closed s.initial_max_streams_uni
      force_send
    then (s, none)
    else (
      if_ok (write_varint new_limit) (record s { local_max_streams_uni = new_limit }) s,
      limit_capsule s wt_capsule_type_max_streams_uni (write_varint new_limit),
    )

unfoldable pub replenish_bidi : Session → Bool → Session × Option Effect
replenish_bidi s force_send =
    let new_limit = saturating_add s.peer_streams_bidi_closed s.initial_max_streams_bidi in
    if keeps_limit s.local_max_streams_bidi s.peer_streams_bidi_closed s.initial_max_streams_bidi
      force_send
    then (s, none)
    else (
      if_ok (write_varint new_limit) (record s { local_max_streams_bidi = new_limit }) s,
      limit_capsule s wt_capsule_type_max_streams_bidi (write_varint new_limit),
    )

unfoldable pub replenish_streams_credit : Session → Bool → Bool → Session × Option Effect
replenish_streams_credit s is_unidirectional force_send =
    if not s.flow_control_negotiated || not (may_send_credit s.state s.is_client)
    then (s, none)
    else if is_unidirectional
    then replenish_uni s force_send
    else replenish_bidi s force_send

-- `last.is_none_or(|last| limit > last)`.
abbrev pub is_news : Option ℕ → ℕ → Bool
is_news none limit = true
is_news (some last) limit = ltb last limit

-- The mark is set before the limit is encoded, and stays if that fails.
unfoldable pub emit_data_blocked : Session → Session × Option Effect
emit_data_blocked s =
    if s.flow_control_negotiated
      && leb s.peer_max_data s.data_sent
      && not (is_empty s.blocked_streams)
      && is_news s.last_data_blocked_sent s.peer_max_data
    then (
      record s { last_data_blocked_sent = some s.peer_max_data },
      limit_capsule s wt_capsule_type_data_blocked (write_varint s.peer_max_data),
    )
    else (s, none)

unfoldable pub emit_blocked_uni : Session → Session × Option Effect
emit_blocked_uni s =
    if is_empty s.blocked_stream_requests_uni
      || ltb s.local_streams_uni_opened s.peer_max_streams_uni
      || not (is_news s.last_streams_blocked_uni_sent s.peer_max_streams_uni)
    then (s, none)
    else (
      if_ok (write_varint s.peer_max_streams_uni)
          (record s { last_streams_blocked_uni_sent = some s.peer_max_streams_uni }) s,
      limit_capsule s wt_capsule_type_streams_blocked_uni (write_varint s.peer_max_streams_uni),
    )

unfoldable pub emit_blocked_bidi : Session → Session × Option Effect
emit_blocked_bidi s =
    if is_empty s.blocked_stream_requests_bidi
      || ltb s.local_streams_bidi_opened s.peer_max_streams_bidi
      || not (is_news s.last_streams_blocked_bidi_sent s.peer_max_streams_bidi)
    then (s, none)
    else (
      if_ok (write_varint s.peer_max_streams_bidi)
          (record s { last_streams_blocked_bidi_sent = some s.peer_max_streams_bidi }) s,
      limit_capsule s wt_capsule_type_streams_blocked_bidi (write_varint s.peer_max_streams_bidi),
    )

unfoldable pub emit_streams_blocked : Session → Bool → Session × Option Effect
emit_streams_blocked s is_unidirectional =
    if s.flow_control_negotiated
    then if is_unidirectional then emit_blocked_uni s else emit_blocked_bidi s
    else (s, none)
