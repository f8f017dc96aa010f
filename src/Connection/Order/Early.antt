-- ===== src/Connection/Order/Early.antt =====
-- protocol/connection.rs: the early events move the state of a connection forward only.
use pywebtransport.Base.{Bool, true, false, Option, none, some, List, [], ◌∷◌, arith}
use pywebtransport.Base.Maps.{lookup, sort, keys}
use pywebtransport.Common.{Bytes, F64, SessionId, StreamId}
use pywebtransport.Connection.Defs.{Connection}
use pywebtransport.Connection.Early.{
  Buffer, buffer_early_event, handle_stream_opened, recv_datagram, replay_event, replay_events,
  replay_found, replay_early_events, prune_session, prune_sessions, prune_early_events,
}
use pywebtransport.Connection.Order.{Advances, with_session-Advances, bound_stream-Advances}
use pywebtransport.Events.Protocol.{
  ProtocolEvent, h3_datagram_received, h3_web_transport_stream_opened,
}

buffer_early_event-Advances :
    (c : Connection) (id : SessionId) (event : ProtocolEvent) (now : F64)
    → Advances c (buffer_early_event c id event now).0
unfolding buffer_early_event
buffer_early_event-Advances c id event now = ground arith

pub handle_stream_opened-Advances :
    (c : Connection) (id : SessionId) (stream : StreamId) (now : F64)
    → Advances c (handle_stream_opened c id stream now).0
unfolding handle_stream_opened
handle_stream_opened-Advances c id stream now =
    bound_stream-Advances c id _ _
      (buffer_early_event-Advances c id (h3_web_transport_stream_opened id stream) now) stream
      (lookup id c.sessions)

pub recv_datagram-Advances :
    (c : Connection) (id : SessionId) (bytes : Bytes) (now : F64)
    → Advances c (recv_datagram c id bytes now).0
unfolding recv_datagram
recv_datagram-Advances c id bytes now =
    with_session-Advances c id _ _
      (buffer_early_event-Advances c id (h3_datagram_received id bytes) now)

replay_event-Advances :
    (c : Connection) (present : Bool) (now : F64) (event : ProtocolEvent)
    → Advances c (replay_event c present now event).0
unfolding replay_event
replay_event-Advances c true now (h3_datagram_received id bytes) =
    recv_datagram-Advances c id bytes now
replay_event-Advances c false now (h3_datagram_received id bytes) = omega arith
replay_event-Advances c true now (h3_web_transport_stream_opened id stream) =
    handle_stream_opened-Advances c id stream now
replay_event-Advances c false now (h3_web_transport_stream_opened id stream) = omega arith
replay_event-Advances c present now _ = omega arith

replay_events-Advances :
    (c : Connection) (present : Bool) (now : F64) (events : Buffer)
    → Advances c (replay_events c present now events).0
unfolding replay_events
replay_events-Advances c present now [] = omega arith
replay_events-Advances c present now ((time, event) ∷ events) =
    let one = replay_event-Advances c present now event in
    let rest = replay_events-Advances (replay_event c present now event).0 present now events in
    omega (arith, one, rest)

replay_found-Advances :
    (c : Connection) (id : SessionId) (now : F64) (found : Option Buffer)
    → Advances c (replay_found c id now found).0
unfolding replay_found
replay_found-Advances c id now none = omega arith
replay_found-Advances c id now (some events) = replay_events-Advances _ _ now events

pub replay_early_events-Advances :
    (c : Connection) (id : SessionId) (now : F64) → Advances c (replay_early_events c id now).0
unfolding replay_early_events
replay_early_events-Advances c id now =
    replay_found-Advances c id now (lookup id c.early_event_buffer)

module _ (is_fresh : F64 → F64 → F64 → Bool) where
  prune_session-Advances :
      (c : Connection) (now : F64) (id : SessionId) (found : Option Buffer)
      → Advances c (prune_session is_fresh c now id found).0
  unfolding prune_session
  prune_session-Advances c now id none = omega arith
  prune_session-Advances c now id (some events) = omega arith

  prune_sessions-Advances :
      (c : Connection) (now : F64) (ids : List SessionId)
      → Advances c (prune_sessions is_fresh c now ids).0
  unfolding prune_sessions
  prune_sessions-Advances c now [] = omega arith
  prune_sessions-Advances c now (id ∷ ids) =
      let found = lookup id c.early_event_buffer in
      let one = prune_session-Advances c now id found in
      let rest = prune_sessions-Advances (prune_session is_fresh c now id found).0 now ids in
      omega (arith, one, rest)

  pub prune_early_events-Advances :
      (c : Connection) (now : F64) → Advances c (prune_early_events is_fresh c now).0
  unfolding prune_early_events
  prune_early_events-Advances c now =
      prune_sessions-Advances c now (sort (keys c.early_event_buffer))
