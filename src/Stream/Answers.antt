-- ===== src/Stream/Answers.antt =====
-- protocol/stream.rs: the account of the requests over one call and over a history.
use pywebtransport.Base.{ℕ, ◌+◌, ◌≡◌, Bool, some, List, [], ◌∷◌, ◌++◌, arith, count, count-append}
use pywebtransport.Common.{RequestId, Bytes}
use pywebtransport.Events.{Effect, answered, notify_request_done, nothing}
use pywebtransport.Stream.Defs.{Stream, diagnose}
use pywebtransport.Stream.Write.{flush_writes, complete_write, write, handle_data_acknowledged}
use pywebtransport.Stream.Read.{read, recv_data}
use pywebtransport.Stream.Reset.{
  send_reset, send_stop, abort, reset, stop, recv_reset, recv_stop_sending, http_error_code,
}
use pywebtransport.Stream.Calls.{
  Call, aborts, completes_write, diagnoses, flushes_writes, acknowledges, reads, receives,
  receives_reset, receives_stop, resets, stops, writes, step, run, read_ids, open_writes,
}
use pywebtransport.Utils.ErrorCodes.{http_code_to_webtransport_code}
use pywebtransport.Stream.Requests.{
  brought, open_requests, Apart, IsFresh, answered-append, answered-fail_reads, flush_writes-open,
  complete_write-open, write-open, send_reset-open, send_stop-open, recv_data-fifo, read-open,
}

-- Answers given and answers owed, against what was owed before and the requests brought.
abbrev pub Balanced : Stream → List RequestId → Stream × List Effect → ℕ → Type 0
Balanced s new r id =
    (count id (answered r.1) + count id (open_requests r.0)
      ≡ count id (open_requests s) + count id new)
    × Apart (r.0).write_buffer

split_open :
    (s : Stream) (id : ℕ)
    → count id (open_requests s)
      ≡ count id (read_ids s.pending_read_requests) + count id (open_writes s)
split_open s id = count-append id (read_ids s.pending_read_requests) (open_writes s)

module _ (s : Stream) (id : ℕ) (a : Apart s.write_buffer) where
  abort-Balanced : (code : ℕ) → Balanced s [] (abort s code) id
  unfolding abort
  abort-Balanced code =
      let t = (send_reset s (some code) code).0 in
      let u = (send_stop t (some code) code).0 in
      ground (
        arith,
        send_reset-open s (some code) code id a,
        send_stop-open t (some code) code,
        answered-append (send_reset s (some code) code).1 (send_stop t (some code) code).1,
        count-append id (answered (send_reset s (some code) code).1)
            (answered (send_stop t (some code) code).1),
        count-append id (answered (send_stop t (some code) code).1)
            (read_ids u.pending_read_requests),
        split_open s id,
        split_open u id,
      )

  complete_write-Balanced :
      (credit : ℕ) → Balanced s [] ((complete_write s credit).0, (complete_write s credit).1) id
  complete_write-Balanced credit = ground (
    arith,
    complete_write-open s credit id a,
    split_open s id,
    split_open (complete_write s credit).0 id,
  )

  flush_writes-Balanced :
      (credit : ℕ) → Balanced s [] ((flush_writes s credit).0, (flush_writes s credit).1) id
  flush_writes-Balanced credit = ground (
    arith,
    flush_writes-open s credit id a,
    split_open s id,
    split_open (flush_writes s credit).0 id,
  )

  read-Balanced : (new max_size : ℕ) → Balanced s (new ∷ []) (read s new max_size) id
  read-Balanced new max_size =
      ground
        (arith, read-open s new max_size id, split_open s id, split_open (read s new max_size).0 id)

  recv_data-Balanced :
      (bytes : Bytes) (end_stream : Bool) → Balanced s [] (recv_data s bytes end_stream) id
  recv_data-Balanced bytes end_stream =
      let r = recv_data s bytes end_stream in
      ground (
        arith,
        recv_data-fifo s bytes end_stream,
        count-append id (answered r.1) (read_ids r.0.pending_read_requests),
        split_open s id,
        split_open r.0 id,
      )

  reset-Balanced : (new code : ℕ) → Balanced s (new ∷ []) (reset s new code) id
  unfolding reset
  reset-Balanced new code =
      let r = send_reset s (some code) (http_error_code code) in
      ground (
        arith,
        send_reset-open s (some code) (http_error_code code) id a,
        answered-append r.1 (notify_request_done new nothing ∷ []),
        count-append id (answered r.1) (new ∷ []),
        split_open s id,
        split_open r.0 id,
      )

  stop-Balanced : (new code : ℕ) → Balanced s (new ∷ []) (stop s new code) id
  unfolding stop
  stop-Balanced new code =
      let r = send_stop s (some code) (http_error_code code) in
      ground (
        arith,
        send_stop-open s (some code) (http_error_code code),
        answered-append r.1 (notify_request_done new nothing ∷ []),
        count-append id (answered r.1) (new ∷ []),
        count-append id (answered r.1) (read_ids r.0.pending_read_requests),
        split_open s id,
        split_open r.0 id,
      )

  recv_stop_sending-Balanced : (code : ℕ) → Balanced s [] (recv_stop_sending s code) id
  unfolding recv_stop_sending
  recv_stop_sending-Balanced code =
      let r = send_reset s (http_code_to_webtransport_code code) code in
      ground (
        arith,
        send_reset-open s (http_code_to_webtransport_code code) code id a,
        split_open s id,
        split_open r.0 id,
      )

  recv_reset-Balanced : (code : ℕ) → Balanced s [] (recv_reset s code) id
  unfolding recv_reset
  recv_reset-Balanced code = ground (
    arith,
    answered-fail_reads (http_code_to_webtransport_code code) s.pending_read_requests,
    split_open s id,
  )

  write-Balanced :
      (new : ℕ) (bytes : Bytes) (end_stream : Bool) (credit : ℕ)
      → count new (open_writes s) ≡ 0
      → Balanced s
          (new ∷ [])
          ((write s new bytes end_stream credit).0, (write s new bytes end_stream credit).1)
          id
  write-Balanced new bytes end_stream credit f = ground (
    arith,
    write-open s new bytes end_stream credit id f a,
    split_open s id,
    split_open (write s new bytes end_stream credit).0 id,
  )

-- A call answers and queues exactly what it brings: for every request, the answers given and the
-- answers still owed are those owed before and those that the call brings, provided that a write
-- comes under a request that the stream does not hold and that neighbours in the buffer are apart,
-- which the call keeps.
pub step-Balanced :
    (s : Stream) (c : Call) (id : ℕ)
    → Apart s.write_buffer
    → IsFresh s c
    → Balanced s (brought c) (step s c) id
unfolding step handle_data_acknowledged diagnose
step-Balanced s (aborts code) id a f = abort-Balanced s id a code
step-Balanced s (completes_write credit) id a f = complete_write-Balanced s id a credit
step-Balanced s (diagnoses new) id a f = ground arith
step-Balanced s (flushes_writes credit) id a f = flush_writes-Balanced s id a credit
step-Balanced s acknowledges id a f = ground arith
step-Balanced s (reads new max_size) id a f = read-Balanced s id a new max_size
step-Balanced s (receives bytes end_stream) id a f = recv_data-Balanced s id a bytes end_stream
step-Balanced s (receives_reset code) id a f = recv_reset-Balanced s id a code
step-Balanced s (receives_stop code) id a f = recv_stop_sending-Balanced s id a code
step-Balanced s (resets new code) id a f = reset-Balanced s id a new code
step-Balanced s (stops new code) id a f = stop-Balanced s id a new code
step-Balanced s (writes new bytes end_stream credit) id a f =
    write-Balanced s id a new bytes end_stream credit f

-- The requests that a history brings.
abbrev pub brought_run : List Call → List RequestId
brought_run [] = []
brought_run (c ∷ cs) = brought c ++ brought_run cs

-- Each write of a history comes under a request that the stream does not hold then.
abbrev pub AllFresh : Stream → List Call → Type 0
AllFresh s [] = Unit {0}
AllFresh s (c ∷ cs) = IsFresh s c × AllFresh (step s c).0 cs

-- Over a history each request gets as many answers as it was brought, less those still owed.
pub run-Balanced :
    (s : Stream) (cs : List Call) (id : ℕ)
    → Apart s.write_buffer
    → AllFresh s cs
    → Balanced s (brought_run cs) (run s cs) id
unfolding run
run-Balanced s [] id a f = ground arith
run-Balanced s (c ∷ cs) id a f = ground (
  arith,
  step-Balanced s c id a f.0,
  run-Balanced (step s c).0 cs id,
  answered-append (step s c).1 (run (step s c).0 cs).1,
  count-append id (answered (step s c).1) (answered (run (step s c).0 cs).1),
  count-append id (brought c) (brought_run cs),
)
