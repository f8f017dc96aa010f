-- ===== src/Session/Answers.antt =====
-- protocol/session.rs: `abort`, `close` and `recv_connect_close` answer the requests that wait in an
-- open session for a stream or a datagram.
use pywebtransport.Base.{
  ℕ, ◌+◌, ◌≤◌, ◌≡◌, refl, ap, true, Option, none, some, List, [], ◌∷◌, ◌++◌, arith, count,
  count-append,
}
use pywebtransport.Base.Maps.{lookup, remove, discard, sort, keys}
use pywebtransport.Common.{ErrorCode, F64, RequestId, Text, SessionState, StreamId}
use pywebtransport.Events.{Effect, answered, reset_quic_stream}
use pywebtransport.Session.Close.{closed_event, finish, abort, close, recv_connect_close}
use pywebtransport.Session.Credit.{replenish_streams_credit, replenish_uni, replenish_bidi}
use pywebtransport.Session.Defs.{Session, is_open, fail_requests}
use pywebtransport.Session.Ended.{is_open-live}
use pywebtransport.Session.Streams.{
  count_closed, handle_closed, abort_found, abort_one, abort_all, abort_streams,
}
use pywebtransport.Stream.Defs.{Stream}
use pywebtransport.Stream.Requests.{answered-append}

-- The requests that wait in a session: for a stream of either kind, and for a datagram.
abbrev pub waiting_requests : Session → List RequestId
waiting_requests s =
    s.blocked_stream_requests_bidi ++ (s.blocked_stream_requests_uni ++ s.pending_datagram_requests)

-- The loop over the streams leaves them alone.
record Waits (s t : Session) : Type 0 where
  same_bidi : t.blocked_stream_requests_bidi ≡ s.blocked_stream_requests_bidi
  same_uni : t.blocked_stream_requests_uni ≡ s.blocked_stream_requests_uni
  same_datagrams : t.pending_datagram_requests ≡ s.pending_datagram_requests

count_closed-Waits : (s : Session) (id : StreamId) → Waits s (count_closed s id).0
unfolding count_closed replenish_streams_credit replenish_uni replenish_bidi
count_closed-Waits s id = ground arith

handle_closed-Waits : (s : Session) (id : StreamId) → Waits s (handle_closed s id).0
unfolding handle_closed
handle_closed-Waits s id =
    let k =
      count_closed-Waits
        (record s { streams = remove id s.streams; blocked_streams = discard id s.blocked_streams })
        id in
    ground (arith, k)

abort_one-Waits : (s : Session) (id : StreamId) → Waits s (abort_one s id).0
unfolding abort_one abort_found
abort_one-Waits s id = go (lookup id s.streams)
  where
    go : (found : Option Stream) → Waits s (handle_closed (abort_found s id found).0 id).0
    go none = handle_closed-Waits s id
    go (some stream) =
        let k = handle_closed-Waits (abort_found s id (some stream)).0 id in ground (arith, k)

abort_all-Waits : (s : Session) (ids : List StreamId) → Waits s (abort_all s ids).0
unfolding abort_all
abort_all-Waits s [] = ground arith
abort_all-Waits s (id ∷ ids) =
    ground (arith, abort_one-Waits s id, abort_all-Waits (abort_one s id).0 ids)

answered-fail_requests : (ids : List RequestId) → answered (fail_requests ids) ≡ ids
answered-fail_requests [] = refl
answered-fail_requests (id ∷ ids) = ap (◌∷◌ id) (answered-fail_requests ids)

-- The answers of the streams come first, then those of the session.
finish-answered :
    (s : Session) (code : Option ErrorCode) (reason : Option Text) (now : F64)
    (state : SessionState)
    → (first : List RequestId) × (answered (finish s code reason now state).1
        ≡ (first ++ (s.blocked_stream_requests_bidi ++ s.blocked_stream_requests_uni))
          ++ s.pending_datagram_requests)
unfolding finish abort_streams
finish-answered s code reason now state =
    let ended : Session = record s {
      close_code = code;
      close_reason = reason;
      closed_at = some now;
      state = state;
      pending_capsules = [];
      pending_datagrams = [];
    } in
    let r = abort_all ended (sort (keys s.streams)) in
    let k = abort_all-Waits ended (sort (keys s.streams)) in
    let bidi = fail_requests r.0.blocked_stream_requests_bidi in
    let uni = fail_requests r.0.blocked_stream_requests_uni in
    (
      answered r.1,
      ground (
        arith,
        k,
        answered-append (r.1 ++ (bidi ++ uni)) (fail_requests r.0.pending_datagram_requests),
        answered-append r.1 (bidi ++ uni),
        answered-append bidi uni,
        answered-fail_requests r.0.blocked_stream_requests_bidi,
        answered-fail_requests r.0.blocked_stream_requests_uni,
        answered-fail_requests r.0.pending_datagram_requests,
      ),
    )

-- Effects answer at least what waited in a session.
abbrev pub AnswersAll : Session → ℕ → List Effect → Type 0
AnswersAll s id effects = count id (waiting_requests s) ≤ count id (answered effects)

finish-AnswersAll :
    (s : Session) (code : Option ErrorCode) (reason : Option Text) (now : F64)
    (state : SessionState) (id : RequestId)
    → AnswersAll s id (finish s code reason now state).1
finish-AnswersAll s code reason now state id =
    let (first, e) = finish-answered s code reason now state in
    let bidi = s.blocked_stream_requests_bidi in
    let uni = s.blocked_stream_requests_uni in
    let datagrams = s.pending_datagram_requests in
    omega (
      arith,
      ap (count id) e,
      count-append id (first ++ (bidi ++ uni)) datagrams,
      count-append id first (bidi ++ uni),
      count-append id bidi uni,
      count-append id bidi (uni ++ datagrams),
      count-append id uni datagrams,
    )

module _ (s : Session) (code : ErrorCode) (now : F64) (id : RequestId)
    (e : is_open s.state ≡ true) where
  abort-AnswersAll : (reason : Text) → AnswersAll s id (abort s code reason now).1
  unfolding abort
  abort-AnswersAll reason =
      let r = finish s (some code) (some reason) now SessionState.closed in
      let all = finish-AnswersAll s (some code) (some reason) now SessionState.closed id in
      let last = reset_quic_stream s.id code ∷ closed_event s (some code) (some reason) ∷ [] in
      rw (is_open-live s.state e, answered-append r.1 last)
        (omega (arith, all, count-append id (answered r.1) []))

  close-AnswersAll :
      (request : RequestId) (reason : Option Text)
      → count id (waiting_requests s) + count id (request ∷ [])
        ≤ count id (answered (close s request code reason now).1)
  unfolding close
  close-AnswersAll request reason =
      let r = finish s (some code) reason now SessionState.closing in
      let all = finish-AnswersAll s (some code) reason now SessionState.closing id in
      simp (is_open-live s.state e, answered-append)
        (ground (arith, all, count-append id (answered r.1) (request ∷ [])))

  recv_connect_close-AnswersAll :
      (reason : Text) → AnswersAll s id (recv_connect_close s code reason now).1
  unfolding recv_connect_close
  recv_connect_close-AnswersAll reason =
      let r = finish s (some code) (some reason) now SessionState.closed in
      let all = finish-AnswersAll s (some code) (some reason) now SessionState.closed id in
      ground (
        arith,
        is_open-live s.state e,
        all,
        answered-append r.1 (closed_event s (some code) (some reason) ∷ []),
        count-append id (answered r.1) [],
      )

-- However an open session ends, by `abort`, `close` or the end of its own stream, every request that
-- waits in it for a stream or a datagram is answered, at least as often as it waits, and `close` answers
-- its own request besides.
pub ended-AnswersAll :
    (s : Session) (request : RequestId) (code : ErrorCode) (reason : Text) (note : Option Text)
    (now : F64) (id : RequestId)
    → is_open s.state ≡ true
    → AnswersAll s id (abort s code reason now).1
      × (count id (waiting_requests s) + count id (request ∷ [])
          ≤ count id (answered (close s request code note now).1))
      × AnswersAll s id (recv_connect_close s code reason now).1
ended-AnswersAll s request code reason note now id e = (
  abort-AnswersAll s code now id e reason,
  close-AnswersAll s code now id e request note,
  recv_connect_close-AnswersAll s code now id e reason,
)
