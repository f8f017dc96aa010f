-- ===== src/Connection/Invariant/Early.antt =====
-- protocol/connection.rs: the buffer of early events keeps a connection valid.
use pywebtransport.Base.{
  ℕ, ◌+◌, ◌≤◌, ◌≡◌, refl, inl, inr, Bool, true, false, Option, none, some, [], ◌∷◌, ◌++◌, length,
  length-append, arith, is_some, Bool-cases, leb,
}
use pywebtransport.Base.Maps.{lookup, insert, remove}
use pywebtransport.Base.Maps.Sizes.{
  Every-insert, Every-remove, Every-lookup, Distinct-insert, Distinct-remove, total, total-insert,
  total-remove, size_of,
}
use pywebtransport.Base.Word.{add64, sub64}
use pywebtransport.Common.{Bytes, F64, SessionId, StreamId}
use pywebtransport.Connection.Defs.{Connection, has_flow_control}
use pywebtransport.Connection.Early.{
  Buffer, or_default, buffer_early_event, handle_stream_opened, recv_datagram, replay_event,
  replay_events, replay_found, replay_early_events,
}
use pywebtransport.Connection.Invariant.Routing.{with_session-IsValid, bound_stream-IsValid}
use pywebtransport.Connection.IsValid.{IsValid, IsWithin}
use pywebtransport.Connection.Requests.{active_limit}
use pywebtransport.Events.Protocol.{
  ProtocolEvent, h3_datagram_received, h3_web_transport_stream_opened,
}
use pywebtransport.Session.Invariant.Ends.{recv_datagram-IsValid as recv_datagram-IsValid_session}
use pywebtransport.Session.Invariant.Peer.{
  handle_stream_opened-IsValid as handle_stream_opened-IsValid_session,
}
use pywebtransport.Session.Datagrams
use pywebtransport.Session.Peer

length-or_default : (found : Option Buffer) → length (or_default found) ≡ size_of found
length-or_default none = refl
length-or_default (some events) = refl

default-IsWithin :
    (c : Connection) (id : SessionId)
    → IsValid c
    → IsWithin c.max_session_pending_events (or_default (lookup id c.early_event_buffer))
default-IsWithin c id v = go (lookup id c.early_event_buffer) refl
  where
    go :
        (found : Option Buffer)
        → lookup id c.early_event_buffer ≡ found
        → IsWithin c.max_session_pending_events (or_default found)
    go none e = omega arith
    go (some events) e =
        Every-lookup (IsWithin c.max_session_pending_events) id events c.early_event_buffer e
          v.session_limit

-- A buffer in its place, changed, and the count with it.
pub rebuffered-IsValid :
    (c : Connection) (id : SessionId) (events : Buffer) (n : ℕ)
    → IsWithin c.max_session_pending_events events
    → n + size_of (lookup id c.early_event_buffer) ≡ c.early_event_count + length events
    → n ≤ c.max_connection_pending_events
    → IsValid c
    → IsValid (record c {
      early_event_buffer = insert id events c.early_event_buffer;
      early_event_count = n;
    })
unfolding active_limit has_flow_control
rebuffered-IsValid c id events n w e b v =
    let every =
      Every-insert (IsWithin c.max_session_pending_events) id events c.early_event_buffer w
        v.session_limit in
    let sum = total-insert id events c.early_event_buffer in
    let distinct = Distinct-insert id events c.early_event_buffer v.one_buffer in
    ground (arith, every, sum, distinct)

buffer_early_event-IsValid :
    (c : Connection) (id : SessionId) (event : ProtocolEvent) (now : F64)
    → IsValid c
    → IsValid (buffer_early_event c id event now).0
unfolding buffer_early_event
buffer_early_event-IsValid c id event now v =
    let buffer = or_default (lookup id c.early_event_buffer) in
    let size = length-or_default (lookup id c.early_event_buffer) in
    let old = default-IsWithin c id v in
    elim (Bool-cases (leb c.max_connection_pending_events c.early_event_count)) [
      | inl full ↦ rw full v
      | inr room ↦ elim (Bool-cases (leb c.max_session_pending_events (length buffer))) [
        | inl full ↦
            rw (room, full)
              (rebuffered-IsValid c id buffer c.early_event_count old (omega (arith, size))
                v.early_limit v)
        | inr more ↦
            rw (room, more)
              (rebuffered-IsValid c id (buffer ++ (now, event) ∷ []) (add64 c.early_event_count 1)
                (ground (arith, length-append buffer ((now, event) ∷ [])))
                (ground (arith, size, length-append buffer ((now, event) ∷ []))) (ground arith) v)
      ]
    ]

pub handle_stream_opened-IsValid :
    (c : Connection) (id : SessionId) (stream : StreamId) (now : F64)
    → IsValid c
    → IsValid (handle_stream_opened c id stream now).0
unfolding handle_stream_opened
handle_stream_opened-IsValid c id stream now v =
    bound_stream-IsValid c id (λ s. Peer.handle_stream_opened s stream now) _
      (λ s. handle_stream_opened-IsValid_session s stream now)
      (buffer_early_event-IsValid c id (h3_web_transport_stream_opened id stream) now v) v stream
      (lookup id c.sessions) refl

pub recv_datagram-IsValid :
    (c : Connection) (id : SessionId) (bytes : Bytes) (now : F64)
    → IsValid c
    → IsValid (recv_datagram c id bytes now).0
unfolding recv_datagram
recv_datagram-IsValid c id bytes now v =
    with_session-IsValid c id (λ s. Datagrams.recv_datagram s bytes) _
      (λ s. recv_datagram-IsValid_session s bytes)
      (buffer_early_event-IsValid c id (h3_datagram_received id bytes) now v) v

replay_event-IsValid :
    (c : Connection) (present : Bool) (now : F64) (event : ProtocolEvent)
    → IsValid c
    → IsValid (replay_event c present now event).0
unfolding replay_event
replay_event-IsValid c true now (h3_datagram_received id bytes) v =
    recv_datagram-IsValid c id bytes now v
replay_event-IsValid c false now (h3_datagram_received id bytes) v = v
replay_event-IsValid c true now (h3_web_transport_stream_opened id stream) v =
    handle_stream_opened-IsValid c id stream now v
replay_event-IsValid c false now (h3_web_transport_stream_opened id stream) v = v
replay_event-IsValid c present now _ v = v

replay_events-IsValid :
    (c : Connection) (present : Bool) (now : F64) (events : Buffer)
    → IsValid c
    → IsValid (replay_events c present now events).0
unfolding replay_events
replay_events-IsValid c present now [] v = v
replay_events-IsValid c present now ((timestamp, event) ∷ events) v =
    replay_events-IsValid (replay_event c present now event).0 present now events
      (replay_event-IsValid c present now event v)

-- The connection without one buffer.
unbuffered-IsValid :
    (c : Connection) (id : SessionId) (events : Buffer)
    → lookup id c.early_event_buffer ≡ some events
    → IsValid c
    → IsValid (record c {
      early_event_buffer = remove id c.early_event_buffer;
      early_event_count = sub64 c.early_event_count (length events);
    })
unfolding active_limit has_flow_control
unbuffered-IsValid c id events e v =
    let every =
      Every-remove (IsWithin c.max_session_pending_events) id c.early_event_buffer
        v.session_limit in
    let distinct = Distinct-remove id c.early_event_buffer v.one_buffer in
    let sum : total (remove id c.early_event_buffer) + length events ≡ total c.early_event_buffer =
      ground (arith, total-remove id c.early_event_buffer v.one_buffer) in
    ground (arith, every, distinct, sum)

pub replay_early_events-IsValid :
    (c : Connection) (id : SessionId) (now : F64)
    → IsValid c
    → IsValid (replay_early_events c id now).0
unfolding replay_early_events
replay_early_events-IsValid c id now v = go (lookup id c.early_event_buffer) refl
  where
    go :
        (found : Option Buffer)
        → lookup id c.early_event_buffer ≡ found
        → IsValid (replay_found c id now found).0
    go none e = v
    go (some events) e =
        replay_events-IsValid _ (is_some (lookup id c.sessions)) now events
          (unbuffered-IsValid c id events e v)
