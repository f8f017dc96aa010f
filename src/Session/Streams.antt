-- ===== src/Session/Streams.antt =====
-- protocol/session.rs: streams that end: `suppress_pending_stream_events`, `handle_closed`,
-- `abort_streams`.
use pywebtransport.Base.{
  Bool, true, false, Option, none, some, List, [], ◌∷◌, ◌++◌, if◌then◌else◌, option_list,
}
use pywebtransport.Base.Maps.{lookup, insert, remove, keys, contains, discard, sort}
use pywebtransport.Base.Word.{add64}
use pywebtransport.Common.{EventType, StreamId}
use pywebtransport.Common.Constants.{err_wt_session_gone}
use pywebtransport.Events.{Effect, emit_stream_event}
use pywebtransport.Session.Credit.{replenish_streams_credit}
use pywebtransport.Session.Defs.{Session, fail_requests}
use pywebtransport.Stream.Defs.{Stream}
use pywebtransport.Stream.Defs
use pywebtransport.Stream.Reset
use pywebtransport.Stream.Reset.{stream_event}
use pywebtransport.Utils.StreamIds.{is_peer_initiated_stream, is_unidirectional_stream}

-- The effects but the stream events.
abbrev pub without_stream_events : List Effect → List Effect
without_stream_events [] = []
without_stream_events (emit_stream_event e ∷ es) = without_stream_events es
without_stream_events (e ∷ es) = e ∷ without_stream_events es

unfoldable pub suppress_pending_stream_events : Session → StreamId → List Effect → List Effect
suppress_pending_stream_events s stream_id stream_effects =
    if contains stream_id s.pending_streams
    then without_stream_events stream_effects
    else stream_effects

-- `streams.get(&stream_id).is_some_and(Stream::is_closed)`.
abbrev pub is_closed_stream : Option Stream → Bool
is_closed_stream none = false
is_closed_stream (some stream) = Defs.is_closed stream

-- A closed stream of the peer counts, and may earn the peer the credit for another.
unfoldable pub count_closed : Session → StreamId → Session × Option Effect
count_closed s stream_id =
    if is_peer_initiated_stream stream_id s.is_client
    then if is_unidirectional_stream stream_id
      then replenish_streams_credit
          (record s { peer_streams_uni_closed = add64 s.peer_streams_uni_closed 1 }) true false
      else replenish_streams_credit
          (record s { peer_streams_bidi_closed = add64 s.peer_streams_bidi_closed 1 }) false false
    else (s, none)

unfoldable pub handle_closed : Session → StreamId → Session × List Effect
handle_closed s stream_id =
    let (s', effect) =
      count_closed
        (record s {
          streams = remove stream_id s.streams;
          blocked_streams = discard stream_id s.blocked_streams;
        })
        stream_id in
    if is_closed_stream (lookup stream_id s.streams)
    then (
      s',
      suppress_pending_stream_events s stream_id
            (stream_event stream_id EventType.stream_closed none ∷ [])
          ++ option_list effect,
    )
    else (s, [])

-- One round of the loop of `abort_streams`, on the stream if the session still has it.
unfoldable pub abort_found : Session → StreamId → Option Stream → Session × List Effect
abort_found s stream_id none = (s, [])
abort_found s stream_id (some stream) =
    let (stream', effects) = Reset.abort stream err_wt_session_gone in
    (
      record s { streams = insert stream_id stream' s.streams },
      suppress_pending_stream_events s stream_id effects,
    )

unfoldable pub abort_one : Session → StreamId → Session × List Effect
abort_one s stream_id =
    let (s', effects) = abort_found s stream_id (lookup stream_id s.streams) in
    let (s'', closed) = handle_closed s' stream_id in (s'', effects ++ closed)

unfoldable pub abort_all : Session → List StreamId → Session × List Effect
abort_all s [] = (s, [])
abort_all s (stream_id ∷ rest) =
    let (s', effects) = abort_one s stream_id in
    let (s'', later) = abort_all s' rest in (s'', effects ++ later)

unfoldable pub abort_streams : Session → Session × List Effect
abort_streams s =
    let (s', effects) = abort_all s (sort (keys s.streams)) in
    (
      record s' {
        blocked_streams = [];
        blocked_streams_queue = [];
        pending_streams = [];
        blocked_stream_requests_bidi = [];
        blocked_stream_requests_uni = [];
      },
      effects
          ++ (fail_requests s'.blocked_stream_requests_bidi
              ++ fail_requests s'.blocked_stream_requests_uni),
    )
