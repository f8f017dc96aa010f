-- ===== src/Session/Open.antt =====
-- protocol/session.rs: `accept`, `confirm`, `drain` and `replay_pending_queues`.
use pywebtransport.Base.{
  ℕ, zero, suc, Bool, true, false, not, Option, none, some, List, [], ◌∷◌, ◌++◌, if◌then◌else◌,
  length, is_some, is_empty,
}
use pywebtransport.Base.Maps.{lookup}
use pywebtransport.Common.{
  Bytes, F64, Text, text, Headers, EventType, RequestId, SessionState, StreamId,
}
use pywebtransport.Common.Constants.{wt_capsule_type_drain_session}
use pywebtransport.Events.{
  Effect, session_event, emit_session_event, notify_request_done, send_h3_capsule, send_h3_headers,
  nothing,
}
use pywebtransport.Session.Capsules.{recv_capsule}
use pywebtransport.Session.Datagrams.{recv_datagram}
use pywebtransport.Session.Defs.{
  Session, is_connecting, is_connected, session_failure, state_failure,
}
use pywebtransport.Session.Peer.{opened_event}
use pywebtransport.Utils.Headers.{is_one_of, is_valid_user_headers}
use pywebtransport.Utils.Protocols.{encode_wt_protocol_list}
use pywebtransport.Utils.StreamIds.{stream_direction_from_id}

-- The loop over the pending capsules, with the rounds left: each round takes one, and a session that
-- is not connected any more ends the replay, which the flag reports.
unfoldable pub replay_capsules : ℕ → Session → List (ℕ × Bytes) → F64 → Session × List Effect × Bool
replay_capsules zero s queue now = (s, [], true)
replay_capsules (suc rounds) s [] now = (s, [], true)
replay_capsules (suc rounds) s ((capsule_type, value) ∷ rest) now =
    let (s', effects) =
      recv_capsule (record s { pending_capsules = rest }) capsule_type value now in
    let (s'', later, done) = replay_capsules rounds s' s'.pending_capsules now in
    elim (is_connected s'.state) [
      | true ↦ (s'', effects ++ later, done)
      | false ↦ (s', effects, false)
    ]

-- The loop over the pending datagrams, while requests wait.
unfoldable pub replay_datagrams : Session → List Bytes → Session × List Effect
replay_datagrams s [] = (record s { pending_datagrams = [] }, [])
replay_datagrams s (d ∷ rest) =
    let (s', effects) = recv_datagram (record s { pending_datagrams = rest }) d in
    let (s'', later) = replay_datagrams s' rest in
    if is_empty s.pending_datagram_requests
    then (record s { pending_datagrams = d ∷ rest }, [])
    else (s'', effects ++ later)

-- The streams that opened before the session was ready and are still there.
unfoldable pub replay_streams : Session → List StreamId → List Effect
replay_streams s [] = []
replay_streams s (id ∷ rest) =
    let later = replay_streams s rest in
    if is_some (lookup id s.streams)
    then opened_event s id (stream_direction_from_id id s.is_client) true ∷ later
    else later

unfoldable pub replay_pending_queues : Session → F64 → Session × List Effect
replay_pending_queues s now =
    let (s₁, capsules, done) =
      replay_capsules (length s.pending_capsules) s s.pending_capsules now in
    let (s₂, datagrams) = replay_datagrams s₁ s₁.pending_datagrams in
    if done
    then (
      record s₂ { pending_streams = [] },
      capsules ++ (datagrams ++ replay_streams s₂ s₂.pending_streams),
    )
    else (s₁, capsules)

abbrev pub connected : Session → Option Text → F64 → Session
connected s wt_protocol now = record s {
  ready_at = some now;
  wt_protocol = wt_protocol;
  state = SessionState.connected;
}

-- The end of `accept`, with the headers of the response.
unfoldable pub accept_with :
    Session → RequestId → Headers → Option Text → F64 → Session × List Effect
accept_with s request_id headers wt_protocol now =
    let (s', effects) = replay_pending_queues (connected s wt_protocol now) now in
    (
      s',
      send_h3_headers s.id headers false
          ∷ emit_session_event (record (session_event s.id EventType.session_ready) {
            wt_protocol = wt_protocol;
            ready_at = some now;
          })
          ∷ notify_request_done request_id nothing
          ∷ effects,
    )

-- `wt_available_protocols.is_some_and(|protocols| protocols.contains(wt_protocol))`.
abbrev pub is_offered : Option (List Text) → Text → Bool
is_offered none protocol = false
is_offered (some protocols) protocol = is_one_of protocol protocols

-- The encoded protocol goes into the response if it was offered.
unfoldable pub accept_encoded :
    Session → RequestId → Headers → Text → Option Bytes → F64 → Session × List Effect
accept_encoded s request_id headers protocol none now =
    (s, session_failure request_id none (text "wt_protocol encode failed") ∷ [])
accept_encoded s request_id headers protocol (some encoded) now =
    if is_offered s.wt_available_protocols protocol
    then accept_with s request_id (headers ++ (text "wt-protocol", encoded) ∷ []) (some protocol)
        now
    else (s, session_failure request_id none (text "wt_protocol validate invalid") ∷ [])

unfoldable pub accept_protocol :
    Session → RequestId → Headers → Option Text → F64 → Session × List Effect
unfolding accept_encoded
accept_protocol s request_id headers none now = accept_with s request_id headers none now
accept_protocol s request_id headers (some protocol) now =
    accept_encoded s request_id headers protocol (encode_wt_protocol_list (protocol ∷ [])) now

unfoldable pub accept : Session → RequestId → Headers → Option Text → F64 → Session × List Effect
unfolding accept_protocol
accept s request_id headers wt_protocol now =
    if s.is_client
    then (s, session_failure request_id none (text "wt_session validate failed") ∷ [])
    else if not (is_connecting s.state)
    then (s, state_failure request_id ∷ [])
    else if not (is_valid_user_headers headers false)
    then (s, session_failure request_id none (text "h3_headers validate invalid") ∷ [])
    else accept_protocol s request_id ((text ":status", text "200") ∷ headers) wt_protocol now

unfoldable pub confirm : Session → Option Text → F64 → Session × List Effect
confirm s wt_protocol now =
    let (s', effects) = replay_pending_queues (connected s wt_protocol now) now in
    if is_connecting s.state
    then (
      s',
      emit_session_event (record (session_event s.id EventType.session_ready) {
        path = some s.path;
        headers = some s.headers;
        wt_protocol = wt_protocol;
        ready_at = some now;
      })
          ∷ effects,
    )
    else (s, [])

unfoldable pub drain : Session → Session × List Effect
drain s =
    if is_connected s.state
    then (
      record s { state = SessionState.draining },
      send_h3_capsule s.id wt_capsule_type_drain_session [] false
          ∷ emit_session_event (session_event s.id EventType.session_draining)
          ∷ [],
    )
    else (s, [])
