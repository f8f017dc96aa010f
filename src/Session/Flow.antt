-- ===== src/Session/Flow.antt =====
-- protocol/session.rs: writing under the session's credit, and waiting for it: `write_stream`,
-- `complete_stream_write`, `flush_blocked_writes`, `create_stream`, `defer_stream`,
-- `flush_blocked_stream_requests`.
use pywebtransport.Base.{
  ℕ, zero, suc, Bool, true, false, not, ◌&&◌, ◌||◌, Option, none, some, List, [], ◌∷◌, ◌++◌, ltb,
  leb, ◌==◌, if◌then◌else◌, is_empty, length, option_list,
}
use pywebtransport.Base.Maps.{lookup, insert, contains, discard}
use pywebtransport.Base.Word.{add64, sub64}
use pywebtransport.Common.{Bytes, RequestId, SessionId, StreamId}
use pywebtransport.Events.{Effect, create_quic_stream, notify_request_done, nothing}
use pywebtransport.Session.Credit.{emit_data_blocked, emit_streams_blocked}
use pywebtransport.Session.Defs.{Session, is_open, session_credit, state_failure, resolve_failure}
use pywebtransport.Stream.Defs.{Stream, is_blocked}
use pywebtransport.Stream.Write
use pywebtransport.Stream.Write.{flush_writes}

-- What `write_stream` and `complete_stream_write` do once the stream has sent: store the stream,
-- count the bytes, remember a blocked stream, and report that the credit is used up.
unfoldable pub after_send : Session → StreamId → Stream × List Effect × ℕ → Session × List Effect
after_send s stream_id (stream, effects, sent) =
    let is_new = is_blocked stream && not (contains stream_id s.blocked_streams) in
    let (s', effect) = emit_data_blocked (record s {
      streams = insert stream_id stream s.streams;
      data_sent = add64 s.data_sent sent;
      blocked_streams = if is_new then stream_id ∷ s.blocked_streams else s.blocked_streams;
      blocked_streams_queue =
          if is_new then s.blocked_streams_queue ++ stream_id ∷ [] else s.blocked_streams_queue;
    }) in
    (s', effects ++ option_list effect)

unfoldable pub write_found :
    Session → StreamId → RequestId → Bytes → Bool → Option Stream → Session × List Effect
write_found s stream_id request_id bytes end_stream none = (
  s,
  (if is_empty bytes && end_stream
        then notify_request_done request_id nothing
        else resolve_failure request_id)
      ∷ [],
)
write_found s stream_id request_id bytes end_stream (some stream) =
    after_send s stream_id (Write.write stream request_id bytes end_stream (session_credit s))

unfoldable pub write_stream : Session → StreamId → RequestId → Bytes → Bool → Session × List Effect
unfolding write_found
write_stream s stream_id request_id bytes end_stream =
    write_found s stream_id request_id bytes end_stream (lookup stream_id s.streams)

unfoldable pub complete_found : Session → StreamId → Option Stream → Session × List Effect
complete_found s stream_id none = (s, [])
complete_found s stream_id (some stream) =
    after_send s stream_id (Write.complete_write stream (session_credit s))

unfoldable pub complete_stream_write : Session → StreamId → Session × List Effect
unfolding complete_found
complete_stream_write s stream_id = complete_found s stream_id (lookup stream_id s.streams)

-- A round of the loop of `flush_blocked_writes` that found its stream: flush it, and queue it again
-- if it is still blocked.
unfoldable pub flush_found : Session → StreamId → Option Stream → Session × List Effect
flush_found s stream_id none = (s, [])
flush_found s stream_id (some stream) =
    let (stream', effects, sent) = flush_writes stream (session_credit s) in
    let blocked = is_blocked stream' in
    (
      record s {
        streams = insert stream_id stream' s.streams;
        data_sent = add64 s.data_sent sent;
        blocked_streams =
            if blocked && not (contains stream_id s.blocked_streams)
            then stream_id ∷ s.blocked_streams
            else s.blocked_streams;
        blocked_streams_queue =
            if blocked then s.blocked_streams_queue ++ stream_id ∷ [] else s.blocked_streams_queue;
      },
      effects,
    )

-- The session without the front of its queue.
abbrev pub unblock : Session → StreamId → List StreamId → Session
unblock s stream_id rest = record s {
  blocked_streams_queue = rest;
  blocked_streams = discard stream_id s.blocked_streams;
}

-- What `break` leaves: the stream back at the front, and in the set.
abbrev pub reblock : Session → StreamId → List StreamId → Session
reblock s stream_id rest = record s {
  blocked_streams_queue = stream_id ∷ rest;
  blocked_streams = stream_id ∷ discard stream_id s.blocked_streams;
}

-- The loop, with the rounds left and the queue as it stands.
unfoldable pub flush_rounds : ℕ → Session → List StreamId → Session × List Effect
flush_rounds zero s queue = (s, [])
flush_rounds (suc rounds) s [] = (s, [])
flush_rounds (suc rounds) s (stream_id ∷ rest) =
    let popped = unblock s stream_id rest in
    let (s', effects) = flush_found popped stream_id (lookup stream_id s.streams) in
    let (s'', later) = flush_rounds rounds s' s'.blocked_streams_queue in
    elim (session_credit popped == 0) [
      | true ↦ (reblock s stream_id rest, [])
      | false ↦ (s'', effects ++ later)
    ]

unfoldable pub flush_blocked_writes : Session → Session × List Effect
flush_blocked_writes s =
    let (s', effects) = flush_rounds (length s.blocked_streams_queue) s s.blocked_streams_queue in
    let (s'', effect) = emit_data_blocked s' in
    if s.flow_control_negotiated && leb s.peer_max_data s.data_sent
    then (s, [])
    else (s'', effects ++ option_list effect)

-- `local_streams_*_opened >= peer_max_streams_*`, under flow control.
abbrev pub streams_exhausted : Session → Bool → Bool
streams_exhausted s is_unidirectional =
    s.flow_control_negotiated
    && (if is_unidirectional
        then leb s.peer_max_streams_uni s.local_streams_uni_opened
        else leb s.peer_max_streams_bidi s.local_streams_bidi_opened)

abbrev pub block_request : Session → RequestId → Bool → Session
block_request s request_id true = record s {
  blocked_stream_requests_uni = s.blocked_stream_requests_uni ++ request_id ∷ [];
}
block_request s request_id false = record s {
  blocked_stream_requests_bidi = s.blocked_stream_requests_bidi ++ request_id ∷ [];
}

abbrev pub count_opened : Session → Bool → Session
count_opened s true = record s { local_streams_uni_opened = add64 s.local_streams_uni_opened 1 }
count_opened s false = record s { local_streams_bidi_opened = add64 s.local_streams_bidi_opened 1 }

unfoldable pub create_stream : Session → RequestId → Bool → Session × List Effect
create_stream s request_id is_unidirectional =
    let (s', effect) =
      emit_streams_blocked (block_request s request_id is_unidirectional) is_unidirectional in
    if not (is_open s.state)
    then (s, state_failure request_id ∷ [])
    else if streams_exhausted s is_unidirectional
    then (s', option_list effect)
    else (
      count_opened s is_unidirectional,
      create_quic_stream request_id s.id is_unidirectional ∷ [],
    )

abbrev pub uncount_opened : Session → Bool → Session
uncount_opened s true = record s { local_streams_uni_opened = sub64 s.local_streams_uni_opened 1 }
uncount_opened s false = record s {
  local_streams_bidi_opened = sub64 s.local_streams_bidi_opened 1;
}

unfoldable pub defer_stream : Session → RequestId → Bool → Session × List Effect
defer_stream s request_id is_unidirectional =
    if not (is_open s.state)
    then (s, state_failure request_id ∷ [])
    else (block_request (uncount_opened s is_unidirectional) request_id is_unidirectional, [])

-- The loop of `flush_blocked_stream_requests` over the queue of one kind: the streams opened, the
-- requests that still wait, and the effects.
unfoldable pub open_blocked :
    SessionId → Bool → Bool → ℕ → ℕ → List RequestId → ℕ × List RequestId × List Effect
open_blocked id negotiated is_unidirectional limit opened [] = (opened, [], [])
open_blocked id negotiated is_unidirectional limit opened (request_id ∷ rest) =
    let (opened', waiting, effects) =
      open_blocked id negotiated is_unidirectional limit (add64 opened 1) rest in
    if not negotiated || ltb opened limit
    then (opened', waiting, create_quic_stream request_id id is_unidirectional ∷ effects)
    else (opened, request_id ∷ rest, [])

unfoldable pub open_uni : Session → Session × List Effect
open_uni s =
    let (opened, waiting, effects) =
      open_blocked s.id s.flow_control_negotiated true s.peer_max_streams_uni
        s.local_streams_uni_opened s.blocked_stream_requests_uni in
    (record s { local_streams_uni_opened = opened; blocked_stream_requests_uni = waiting }, effects)

unfoldable pub open_bidi : Session → Session × List Effect
open_bidi s =
    let (opened, waiting, effects) =
      open_blocked s.id s.flow_control_negotiated false s.peer_max_streams_bidi
        s.local_streams_bidi_opened s.blocked_stream_requests_bidi in
    (
      record s { local_streams_bidi_opened = opened; blocked_stream_requests_bidi = waiting },
      effects,
    )

unfoldable pub flush_blocked_stream_requests : Session → Bool → Session × List Effect
unfolding open_uni open_bidi
flush_blocked_stream_requests s is_unidirectional =
    let (s', effects) = if is_unidirectional then open_uni s else open_bidi s in
    let (s'', effect) = emit_streams_blocked s' is_unidirectional in
    (s'', effects ++ option_list effect)
