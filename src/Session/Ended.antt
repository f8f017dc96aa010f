-- ===== src/Session/Ended.antt =====
-- protocol/session.rs: what `abort` and `close` leave in an open session.
use pywebtransport.Base.{ℕ, ◌≡◌, refl, true, false, ◌||◌, Option, none, some, List, [], ◌∷◌, arith}
use pywebtransport.Base.Maps.{lookup, remove, discard, sort, keys}
use pywebtransport.Common.{ErrorCode, F64, Text, SessionState, StreamId}
use pywebtransport.Session.Close.{finish, abort, close}
use pywebtransport.Session.Credit.{replenish_streams_credit, replenish_uni, replenish_bidi}
use pywebtransport.Session.Defs.{Session, is_closed_state, is_closing_state, is_open}
use pywebtransport.Session.Emptied.{IsEmptied, abort_streams-streams}
use pywebtransport.Session.Streams.{
  count_closed, handle_closed, abort_found, abort_one, abort_all, abort_streams,
}
use pywebtransport.Stream.Defs.{Stream}

-- What the loop over the streams leaves alone.
pub record Keeps (s t : Session) : Type 0 where
  pub same_state : t.state ≡ s.state
  pub same_capsules : t.pending_capsules ≡ s.pending_capsules
  pub same_datagrams : t.pending_datagrams ≡ s.pending_datagrams

count_closed-Keeps : (s : Session) (id : StreamId) → Keeps s (count_closed s id).0
unfolding count_closed replenish_streams_credit replenish_uni replenish_bidi
count_closed-Keeps s id = ground arith

pub handle_closed-Keeps : (s : Session) (id : StreamId) → Keeps s (handle_closed s id).0
unfolding handle_closed
handle_closed-Keeps s id =
    let k =
      count_closed-Keeps
        (record s { streams = remove id s.streams; blocked_streams = discard id s.blocked_streams })
        id in
    ground (arith, k)

abort_one-Keeps : (s : Session) (id : StreamId) → Keeps s (abort_one s id).0
unfolding abort_one abort_found
abort_one-Keeps s id = go (lookup id s.streams)
  where
    go : (found : Option Stream) → Keeps s (handle_closed (abort_found s id found).0 id).0
    go none = handle_closed-Keeps s id
    go (some stream) =
        let k = handle_closed-Keeps (abort_found s id (some stream)).0 id in ground (arith, k)

abort_all-Keeps : (s : Session) (ids : List StreamId) → Keeps s (abort_all s ids).0
unfolding abort_all
abort_all-Keeps s [] = ground arith
abort_all-Keeps s (id ∷ ids) =
    ground (arith, abort_one-Keeps s id, abort_all-Keeps (abort_one s id).0 ids)

-- A session that is finished holds nothing that waits.
pub finish-IsEmptied :
    (s : Session) (code : Option ErrorCode) (reason : Option Text) (now : F64)
    (state : SessionState)
    → IsEmptied (finish s code reason now state).0
      × ((finish s code reason now state).0.state ≡ state)
unfolding finish abort_streams
finish-IsEmptied s code reason now state =
    let ended : Session = record s {
      close_code = code;
      close_reason = reason;
      closed_at = some now;
      state = state;
      pending_capsules = [];
      pending_datagrams = [];
    } in
    let gone = abort_streams-streams ended in
    let kept = abort_all-Keeps ended (sort (keys s.streams)) in ground (arith, gone, kept)

pub is_open-live :
    (state : SessionState)
    → is_open state ≡ true
    → (is_closed_state state || is_closing_state state) ≡ false
is_open-live SessionState.connecting e = refl
is_open-live SessionState.connected e = refl
is_open-live SessionState.draining e = refl
is_open-live SessionState.closing e = cc
is_open-live SessionState.closed e = cc

-- `abort` closes an open session and leaves nothing in it that waits.
pub abort-IsEmptied :
    (s : Session) (code : ErrorCode) (reason : Text) (now : F64)
    → is_open s.state ≡ true
    → IsEmptied (abort s code reason now).0
      × ((abort s code reason now).0.state ≡ SessionState.closed)
unfolding abort
abort-IsEmptied s code reason now e =
    let live = is_open-live s.state e in
    let f = finish-IsEmptied s (some code) (some reason) now SessionState.closed in rw live f

-- `close` brings an open session into the closing state, with nothing in it that waits.
pub close-IsEmptied :
    (s : Session) (id : ℕ) (code : ErrorCode) (reason : Option Text) (now : F64)
    → is_open s.state ≡ true
    → IsEmptied (close s id code reason now).0
      × ((close s id code reason now).0.state ≡ SessionState.closing)
unfolding close
close-IsEmptied s id code reason now e =
    let live = is_open-live s.state e in
    let f = finish-IsEmptied s (some code) reason now SessionState.closing in rw live f
