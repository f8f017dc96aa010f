-- ===== src/Session/Emptied.antt =====
-- protocol/session.rs: `abort_streams` leaves no stream, and what it means that a session holds nothing
-- that waits.
use pywebtransport.Base.{
  ◌≡◌, refl, ◌∙◌, true, Option, none, some, List, [], ◌∷◌, arith, if◌then◌else◌,
}
use pywebtransport.Base.Maps.{
  lookup, insert, remove, keys, sort, contains-sort, discard, remove_absent, remove-insert,
  remove_all, remove_all_empty, lookup-insert,
}
use pywebtransport.Common.{ErrorCode, StreamId}
use pywebtransport.Common.Constants.{err_wt_session_gone}
use pywebtransport.Session.Defs.{Session}
use pywebtransport.Session.Streams.{
  count_closed, handle_closed, is_closed_stream, abort_found, abort_one, abort_all, abort_streams,
}
use pywebtransport.Session.Credit.{replenish_streams_credit, replenish_uni, replenish_bidi}
use pywebtransport.Stream.Defs.{Stream, is_closed}
use pywebtransport.Stream.Reset

-- An aborted stream is closed.
abort-is_closed : (s : Stream) (code : ErrorCode) → is_closed (Reset.abort s code).0 ≡ true
unfolding Reset.abort Reset.send_reset Reset.send_stop is_closed
abort-is_closed s code = ground arith

count_closed-streams : (s : Session) (id : StreamId) → (count_closed s id).0.streams ≡ s.streams
unfolding count_closed replenish_streams_credit replenish_uni replenish_bidi
count_closed-streams s id = ground arith

handle_closed-streams :
    (s : Session) (id : StreamId)
    → (handle_closed s id).0.streams
      ≡ (if is_closed_stream (lookup id s.streams) then remove id s.streams else s.streams)
unfolding handle_closed
handle_closed-streams s id =
    let gone =
      count_closed-streams
        (record s { streams = remove id s.streams; blocked_streams = discard id s.blocked_streams })
        id in
    ground (arith, gone)

-- A round of the loop removes the stream from the map.
abort_one-streams : (s : Session) (id : StreamId) → (abort_one s id).0.streams ≡ remove id s.streams
unfolding abort_one abort_found
abort_one-streams s id = go (lookup id s.streams) refl
  where
    go :
        (found : Option Stream)
        → lookup id s.streams ≡ found
        → (handle_closed (abort_found s id found).0 id).0.streams ≡ remove id s.streams
    go none e =
        let r = handle_closed-streams s id in
        let same = remove_absent id s.streams e in ground (arith, r, same)
    go (some stream) e =
        let x = (Reset.abort stream err_wt_session_gone).0 in
        let m = insert id x s.streams in
        let r = handle_closed-streams (record s { streams = m }) id in
        let found = lookup-insert id id x s.streams in
        let over = abort-is_closed stream err_wt_session_gone in
        let same = remove-insert id x s.streams in ground (arith, r, found, over, same)

abort_all-streams :
    (s : Session) (ids : List StreamId) → (abort_all s ids).0.streams ≡ remove_all ids s.streams
unfolding abort_all remove_all
abort_all-streams s [] = refl
abort_all-streams s (id ∷ ids) =
    let one = abort_one-streams s id in
    let rest = abort_all-streams (abort_one s id).0 ids in ground (arith, one, rest)

-- What is left of a session whose streams were aborted.
pub abort_streams-streams : (s : Session) → (abort_streams s).0.streams ≡ []
unfolding abort_streams
abort_streams-streams s =
    let all = abort_all-streams s (sort (keys s.streams)) in
    let none_left =
      remove_all_empty (sort (keys s.streams)) s.streams
        (λ j e. contains-sort j (keys s.streams) ∙ e) in
    ground (arith, all, none_left)

-- A session that holds nothing that waits: no stream, no request, no early capsule or datagram.
pub record IsEmptied (s : Session) : Type 0 where
  pub no_stream : s.streams ≡ []
  pub no_blocked_stream : s.blocked_streams ≡ []
  pub no_queued_stream : s.blocked_streams_queue ≡ []
  pub no_early_stream : s.pending_streams ≡ []
  pub no_bidi_request : s.blocked_stream_requests_bidi ≡ []
  pub no_uni_request : s.blocked_stream_requests_uni ≡ []
  pub no_datagram_request : s.pending_datagram_requests ≡ []
  pub no_capsule : s.pending_capsules ≡ []
  pub no_datagram : s.pending_datagrams ≡ []
