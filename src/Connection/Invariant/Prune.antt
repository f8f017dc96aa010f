-- ===== src/Connection/Invariant/Prune.antt =====
-- protocol/connection.rs: the pruning of early events keeps a connection valid.
use pywebtransport.Base.{
  ℕ, ap, is_empty, ◌+◌, ◌≡◌, refl, Bool, Option, none, some, List, [], ◌∷◌, length, arith,
  if◌then◌else◌,
}
use pywebtransport.Base.Maps.{lookup, lookup-insert, insert, keys, sort}
use pywebtransport.Base.Maps.Sizes.{
  Every-remove_all, Every-lookup, Distinct-remove_all, total-remove_all, size_of, size_of-le-total,
  EmptyAt, EmptyAt-mono, EmptyAt-append,
}
use pywebtransport.Base.Word.{sub64}
use pywebtransport.Common.{F64, SessionId}
use pywebtransport.Connection.Defs.{Connection, has_flow_control}
use pywebtransport.Connection.Early.{
  Buffer, prune_events, prune_session, prune_sessions, prune_early_events,
}
use pywebtransport.Connection.IsValid.{IsValid, IsWithin}
use pywebtransport.Connection.Requests.{active_limit}
use pywebtransport.Connection.Invariant.Early.{rebuffered-IsValid}

module _ (is_fresh : F64 → F64 → F64 → Bool) (now : F64) where
  -- Every event stays or goes.
  prune_events-sum :
      (ttl : F64) (events : Buffer)
      → length (prune_events is_fresh now ttl events).0 + (prune_events is_fresh now ttl events).1
        ≡ length events
  unfolding prune_events
  prune_events-sum ttl [] = refl
  prune_events-sum ttl ((timestamp, event) ∷ events) = ground (arith, prune_events-sum ttl events)

  emptied_at :
      (id : SessionId) (events : Buffer) (m : List (SessionId × Buffer))
      → EmptyAt (insert id events m) (if is_empty events then id ∷ [] else [])
  emptied_at id [] m = (ground (arith, lookup-insert id id [] m), tt)
  emptied_at id (e ∷ events) m = tt

  -- What a round of the loop leaves: no buffer that was empty is filled.
  record Pruned (c d : Connection) (ids : List SessionId) : Type 0 where
    valid : IsValid d
    emptied : EmptyAt d.early_event_buffer ids
    still :
        (k : ℕ)
        → size_of (lookup k c.early_event_buffer) ≡ 0
        → size_of (lookup k d.early_event_buffer) ≡ 0

  prune_session-Pruned :
      (c : Connection) (id : SessionId) (found : Option Buffer)
      → lookup id c.early_event_buffer ≡ found
      → IsValid c
      → let r = prune_session is_fresh c now id found in Pruned c r.0 r.1
  unfolding prune_session
  prune_session-Pruned c id none e v = record { valid = v; emptied = tt; still = λ k z. z }
  prune_session-Pruned c id (some events) e v =
      let r = prune_events is_fresh now c.early_event_ttl events in
      let sum = prune_events-sum c.early_event_ttl events in
      let within =
        Every-lookup (IsWithin c.max_session_pending_events) id events c.early_event_buffer e
          v.session_limit in
      let size : size_of (lookup id c.early_event_buffer) ≡ length events = ap size_of e in
      let enough = size_of-le-total id c.early_event_buffer in
      record {
        valid =
            rebuffered-IsValid c id r.0 (sub64 c.early_event_count r.1) (omega (arith, sum, within))
              (ground (arith, sum, size, enough, v.counted, v.early_limit, v.early_limit_u64))
              (ground (arith, sum, size, enough, v.counted, v.early_limit, v.early_limit_u64)) v;
        emptied = emptied_at id r.0 c.early_event_buffer;
        still = λ k z. ground (arith, lookup-insert id k r.0 c.early_event_buffer, sum, size, z);
      }

  prune_sessions-Pruned :
      (c : Connection) (ids : List SessionId)
      → IsValid c
      → let r = prune_sessions is_fresh c now ids in Pruned c r.0 r.1
  unfolding prune_sessions
  prune_sessions-Pruned c [] v = record { valid = v; emptied = tt; still = λ k z. z }
  prune_sessions-Pruned c (id ∷ ids) v =
      let r = prune_session is_fresh c now id (lookup id c.early_event_buffer) in
      let one = prune_session-Pruned c id (lookup id c.early_event_buffer) refl v in
      let rest = prune_sessions-Pruned r.0 ids one.valid in
      let last : List (SessionId × Buffer) =
        (prune_sessions is_fresh r.0 now ids).0.early_event_buffer in
      record {
        valid = rest.valid;
        emptied =
            EmptyAt-append last r.1 (prune_sessions is_fresh r.0 now ids).1
              (EmptyAt-mono r.0.early_event_buffer last r.1 rest.still one.emptied) rest.emptied;
        still = λ k z. rest.still k (one.still k z);
      }

  pub prune_early_events-IsValid :
      (c : Connection) → IsValid c → IsValid (prune_early_events is_fresh c now).0
  unfolding prune_early_events active_limit has_flow_control
  prune_early_events-IsValid c v =
      let p = prune_sessions-Pruned c (sort (keys c.early_event_buffer)) v in
      let r = prune_sessions is_fresh c now (sort (keys c.early_event_buffer)) in
      let d : Connection = r.0 in
      let w : IsValid d = p.valid in
      let every =
        Every-remove_all (IsWithin d.max_session_pending_events) r.1 d.early_event_buffer
          w.session_limit in
      let distinct = Distinct-remove_all r.1 d.early_event_buffer w.one_buffer in
      let sum = total-remove_all r.1 d.early_event_buffer w.one_buffer p.emptied in
      ground (arith, every, distinct, sum)
