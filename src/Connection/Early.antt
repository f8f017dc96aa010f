-- ===== src/Connection/Early.antt =====
-- protocol/connection.rs: what arrives for a session that is not there yet: `buffer_early_event`,
-- `handle_stream_opened`, `recv_datagram`, `replay_early_events`, `prune_early_events`.
use pywebtransport.Base.{
  ℕ, suc, Bool, true, false, Option, none, some, List, [], ◌∷◌, ◌++◌, leb, if◌then◌else◌, is_empty,
  is_some, length,
}
use pywebtransport.Base.Maps.{lookup, insert, remove, remove_all, keys, sort}
use pywebtransport.Base.Word.{add64, sub64}
use pywebtransport.Common.{Bytes, F64, SessionId, StreamId}
use pywebtransport.Common.Constants.{err_wt_buffered_stream_rejected}
use pywebtransport.Connection.Defs.{Connection}
use pywebtransport.Connection.Routing.{with_session}
use pywebtransport.Connection.Routing.Sessions.{bound_stream}
use pywebtransport.Events.{Effect, reset_quic_stream, stop_quic_stream}
use pywebtransport.Events.Protocol.{
  ProtocolEvent, h3_datagram_received, h3_web_transport_stream_opened,
}
use pywebtransport.Session.Datagrams
use pywebtransport.Session.Peer
use pywebtransport.Utils.StreamIds.{is_unidirectional_stream}

abbrev pub Buffer : Type 0
Buffer = List (F64 × ProtocolEvent)

-- The refusal of a stream that cannot wait.
unfoldable pub refuse_early : StreamId → List Effect
refuse_early stream_id =
    if is_unidirectional_stream stream_id
    then stop_quic_stream stream_id err_wt_buffered_stream_rejected ∷ []
    else reset_quic_stream stream_id err_wt_buffered_stream_rejected
      ∷ stop_quic_stream stream_id err_wt_buffered_stream_rejected
      ∷ []

-- `entry(session_id).or_default()`.
abbrev pub or_default : Option Buffer → Buffer
or_default none = []
or_default (some events) = events

-- The flag says whether the event was kept.
unfoldable pub buffer_early_event : Connection → SessionId → ProtocolEvent → F64 → Connection × Bool
buffer_early_event c session_id event now =
    let session_buffer = or_default (lookup session_id c.early_event_buffer) in
    if leb c.max_connection_pending_events c.early_event_count
    then (c, false)
    else if leb c.max_session_pending_events (length session_buffer)
    then (
      record c { early_event_buffer = insert session_id session_buffer c.early_event_buffer },
      false,
    )
    else (
      record c {
        early_event_buffer =
            insert session_id (session_buffer ++ (now, event) ∷ []) c.early_event_buffer;
        early_event_count = add64 c.early_event_count 1;
      },
      true,
    )

unfoldable pub handle_stream_opened :
    Connection → SessionId → StreamId → F64 → Connection × List Effect
handle_stream_opened c session_id stream_id now =
    let (c', kept) =
      buffer_early_event c session_id (h3_web_transport_stream_opened session_id stream_id) now in
    bound_stream c session_id stream_id (λ s. Peer.handle_stream_opened s stream_id now)
      (c', if kept then [] else refuse_early stream_id) (lookup session_id c.sessions)

unfoldable pub recv_datagram : Connection → SessionId → Bytes → F64 → Connection × List Effect
recv_datagram c session_id d now =
    with_session c session_id (λ s. Datagrams.recv_datagram s d)
      ((buffer_early_event c session_id (h3_datagram_received session_id d) now).0, [])

-- The `match` in the loop of `replay_early_events`.
unfoldable pub replay_event : Connection → Bool → F64 → ProtocolEvent → Connection × List Effect
replay_event c is_session_present now (h3_datagram_received session_id d) =
    if is_session_present then recv_datagram c session_id d now else (c, [])
replay_event c is_session_present now (h3_web_transport_stream_opened session_id stream_id) =
    if is_session_present
    then handle_stream_opened c session_id stream_id now
    else (c, refuse_early stream_id)
replay_event c is_session_present now _ = (c, [])

unfoldable pub replay_events : Connection → Bool → F64 → Buffer → Connection × List Effect
replay_events c is_session_present now [] = (c, [])
replay_events c is_session_present now ((timestamp, event) ∷ events) =
    let (c', effects) = replay_event c is_session_present now event in
    let (c'', later) = replay_events c' is_session_present now events in (c'', effects ++ later)

unfoldable pub replay_found :
    Connection → SessionId → F64 → Option Buffer → Connection × List Effect
replay_found c session_id now none = (c, [])
replay_found c session_id now (some events) =
    replay_events
      (record c {
        early_event_buffer = remove session_id c.early_event_buffer;
        early_event_count = sub64 c.early_event_count (length events);
      })
      (is_some (lookup session_id c.sessions)) now events

unfoldable pub replay_early_events : Connection → SessionId → F64 → Connection × List Effect
unfolding replay_found
replay_early_events c session_id now =
    replay_found c session_id now (lookup session_id c.early_event_buffer)

-- What an event that has expired leaves to do.
abbrev pub expire_event : ProtocolEvent → List Effect
expire_event (h3_web_transport_stream_opened session_id stream_id) = refuse_early stream_id
expire_event _ = []

-- `is_fresh now timestamp ttl` is `now - timestamp < ttl`, in the arithmetic of `f64`.
module _ (is_fresh : F64 → F64 → F64 → Bool) where
  -- The loop over one buffer: what stays, what goes, and the effects of that.
  unfoldable pub prune_events : F64 → F64 → Buffer → Buffer × ℕ × List Effect
  prune_events now ttl [] = ([], 0, [])
  prune_events now ttl ((timestamp, event) ∷ events) =
      let (valid, gone, effects) = prune_events now ttl events in
      if is_fresh now timestamp ttl
      then ((timestamp, event) ∷ valid, gone, effects)
      else (valid, suc gone, expire_event event ++ effects)

  -- The loop over the sessions, with the identifiers of the buffers that are left empty.
  unfoldable pub prune_session :
      Connection → F64 → SessionId → Option Buffer → Connection × List SessionId × List Effect
  prune_session c now session_id none = (c, [], [])
  prune_session c now session_id (some events) =
      let (valid, gone, effects) = prune_events now c.early_event_ttl events in
      (
        record c {
          early_event_buffer = insert session_id valid c.early_event_buffer;
          early_event_count = sub64 c.early_event_count gone;
        },
        if is_empty valid then session_id ∷ [] else [],
        effects,
      )

  unfoldable pub prune_sessions :
      Connection → F64 → List SessionId → Connection × List SessionId × List Effect
  prune_sessions c now [] = (c, [], [])
  prune_sessions c now (session_id ∷ rest) =
      let (c', empty, effects) =
        prune_session c now session_id (lookup session_id c.early_event_buffer) in
      let (c'', more, later) = prune_sessions c' now rest in (c'', empty ++ more, effects ++ later)

  unfoldable pub prune_early_events : Connection → F64 → Connection × List Effect
  prune_early_events c now =
      let (c', empty, effects) = prune_sessions c now (sort (keys c.early_event_buffer)) in
      (record c' { early_event_buffer = remove_all empty c'.early_event_buffer }, effects)
