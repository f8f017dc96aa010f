-- ===== src/Stream/Requests.antt =====
-- protocol/stream.rs: the account of the requests over one call: those that are answered, and those
-- that still wait.
use mathlib.Core.List.{append-nil}
use pywebtransport.Base.{
  ℕ, ◌+◌, ◌≡◌, ◌≢◌, refl, ap, Bool, Option, none, some, List, [], ◌∷◌, ◌++◌, arith, count,
  count-append, length,
}
use pywebtransport.Base.Word.{add64}
use pywebtransport.Common.{Bytes, RequestId, ErrorCode}
use pywebtransport.Events.{Effect, answered, notify_request_done, notify_request_failed}
use pywebtransport.Stream.Defs.{Stream, PendingWrite, PendingRead}
use pywebtransport.Stream.Write.{flush_front, flush_writes, complete_write, write}
use pywebtransport.Stream.Read.{read, recv_data, finish_reads}
use pywebtransport.Stream.Reset.{
  send_reset, send_stop, fail_reads, fail_writes, stop_effects, fail_pending,
}
use pywebtransport.Stream.Calls.{
  Call, diagnoses, reads, resets, stops, writes, read_ids, write_ids, in_flight, open_writes,
}

-- The requests that a call brings.
abbrev pub brought : Call → List RequestId
brought (diagnoses id) = id ∷ []
brought (reads id max_size) = id ∷ []
brought (resets id code) = id ∷ []
brought (stops id code) = id ∷ []
brought (writes id bytes end_stream credit) = id ∷ []
brought _ = []

-- The requests that wait for an answer.
abbrev pub open_requests : Stream → List RequestId
open_requests s = read_ids s.pending_read_requests ++ open_writes s

-- Neighbours in the buffer belong to different requests.
abbrev pub Apart : List PendingWrite → Type 0
Apart [] = Unit {0}
Apart (w ∷ []) = Unit {0}
Apart (w ∷ v ∷ rest) = (w.request_id ≢ v.request_id) × Apart (v ∷ rest)

-- A write comes under a request that the stream does not hold yet.
abbrev pub IsFresh : Stream → Call → Type 0
IsFresh s (writes id bytes end_stream credit) = count id (open_writes s) ≡ 0
IsFresh s _ = Unit {0}

pub answered-append : (es fs : List Effect) → answered (es ++ fs) ≡ answered es ++ answered fs
answered-append [] fs = refl
answered-append (notify_request_done id result ∷ es) fs = ap (◌∷◌ id) (answered-append es fs)
answered-append (notify_request_failed id source code reason ∷ es) fs =
    ap (◌∷◌ id) (answered-append es fs)
answered-append (_ ∷ es) fs = answered-append es fs

read_ids-append : (xs ys : List PendingRead) → read_ids (xs ++ ys) ≡ read_ids xs ++ read_ids ys
read_ids-append [] ys = refl
read_ids-append (x ∷ xs) ys = ap (◌∷◌ x.request_id) (read_ids-append xs ys)

write_ids-append : (xs ys : List PendingWrite) → write_ids (xs ++ ys) ≡ write_ids xs ++ write_ids ys
write_ids-append [] ys = refl
write_ids-append (x ∷ xs) ys = ap (◌∷◌ x.request_id) (write_ids-append xs ys)

answered-finish_reads : (rs : List PendingRead) → answered (finish_reads rs) ≡ read_ids rs
answered-finish_reads [] = refl
answered-finish_reads (r ∷ rs) = ap (◌∷◌ r.request_id) (answered-finish_reads rs)

pub answered-fail_reads :
    (code : Option ErrorCode) (rs : List PendingRead) → answered (fail_reads code rs) ≡ read_ids rs
answered-fail_reads code [] = refl
answered-fail_reads code (r ∷ rs) = ap (◌∷◌ r.request_id) (answered-fail_reads code rs)

answered-fail_writes :
    (code : Option ErrorCode) (ws : List PendingWrite)
    → answered (fail_writes code ws) ≡ write_ids ws
answered-fail_writes code [] = refl
answered-fail_writes code (w ∷ ws) = ap (◌∷◌ w.request_id) (answered-fail_writes code ws)

answered-fail_pending :
    (code : Option ErrorCode) (p : Option RequestId) (ws : List PendingWrite)
    → answered (fail_pending code p ws) ≡ in_flight p ws
answered-fail_pending code none ws = refl
answered-fail_pending code (some id) [] = refl
answered-fail_pending code (some id) (w ∷ ws) = ground arith

-- A flush gives no answer; the request that it sends moves from the buffer to the flight.
flush_front-open :
    (s : Stream) (buffer : List PendingWrite) (credit id : ℕ)
    → s.write_buffer ≡ buffer
    → s.pending_write_request ≡ none
    → Apart buffer
    → (answered (flush_front s buffer credit).1 ≡ [])
      × (count id (open_writes (flush_front s buffer credit).0) ≡ count id (open_writes s))
      × ((flush_front s buffer credit).0.pending_read_requests ≡ s.pending_read_requests)
      × Apart (flush_front s buffer credit).0.write_buffer
unfolding flush_front
flush_front-open s [] credit id e p a = ground arith
flush_front-open s (w ∷ []) credit id e p a = ground arith
flush_front-open s (w ∷ v ∷ rest) credit id e p a = ground arith

pub flush_writes-open :
    (s : Stream) (credit id : ℕ)
    → Apart s.write_buffer
    → (answered (flush_writes s credit).1 ≡ [])
      × (count id (open_writes (flush_writes s credit).0) ≡ count id (open_writes s))
      × ((flush_writes s credit).0.pending_read_requests ≡ s.pending_read_requests)
      × Apart (flush_writes s credit).0.write_buffer
unfolding flush_writes
flush_writes-open s credit id a = ground (arith, flush_front-open s s.write_buffer credit id refl)

pub complete_write-open :
    (s : Stream) (credit id : ℕ)
    → Apart s.write_buffer
    → (count id (answered (complete_write s credit).1)
          + count id (open_writes (complete_write s credit).0)
        ≡ count id (open_writes s))
      × ((complete_write s credit).0.pending_read_requests ≡ s.pending_read_requests)
      × Apart (complete_write s credit).0.write_buffer
unfolding complete_write
complete_write-open s credit id a =
    ground (arith, flush_writes-open (record s { pending_write_request = none }) credit id)

-- A fresh request stays apart from the buffer that it joins.
Apart-append :
    (buffer : List PendingWrite) (w : PendingWrite)
    → count w.request_id (write_ids buffer) ≡ 0
    → Apart buffer
    → Apart (buffer ++ w ∷ [])
Apart-append [] w f a = tt
Apart-append (u ∷ []) w f a = (λ e. ground arith, tt)
Apart-append (u ∷ v ∷ rest) w f a = (a.0, Apart-append (v ∷ rest) w (ground arith) a.1)

-- Joining the buffer adds a fresh request to those that are open.
open_writes-push :
    (p : Option RequestId) (buffer : List PendingWrite) (w : PendingWrite) (id : ℕ)
    → count w.request_id (in_flight p buffer ++ write_ids buffer) ≡ 0
    → count id (in_flight p (buffer ++ w ∷ []) ++ write_ids (buffer ++ w ∷ []))
      ≡ count id (in_flight p buffer ++ write_ids buffer) + count id (w.request_id ∷ [])
open_writes-push none buffer w id f = omega (
  arith,
  ap (count id) (write_ids-append buffer (w ∷ [])),
  count-append id (write_ids buffer) (w.request_id ∷ []),
)
open_writes-push (some p) [] w id f = ground arith
open_writes-push (some p) (u ∷ rest) w id f =
    ground
      (arith, write_ids-append rest (w ∷ []), count-append id (write_ids rest) (w.request_id ∷ []))

pub write-open :
    (s : Stream) (request_id : RequestId) (bytes : Bytes) (end_stream : Bool) (credit id : ℕ)
    → count request_id (open_writes s) ≡ 0
    → Apart s.write_buffer
    → (count id (answered (write s request_id bytes end_stream credit).1)
          + count id (open_writes (write s request_id bytes end_stream credit).0)
        ≡ count id (open_writes s) + count id (request_id ∷ []))
      × ((write s request_id bytes end_stream credit).0.pending_read_requests
          ≡ s.pending_read_requests)
      × Apart (write s request_id bytes end_stream credit).0.write_buffer
unfolding write
write-open s request_id bytes end_stream credit id f a =
    let w : PendingWrite = record {
      bytes = bytes;
      request_id = request_id;
      end_stream = end_stream;
    } in
    ground (
      arith,
      open_writes-push s.pending_write_request s.write_buffer w id,
      count-append request_id (in_flight s.pending_write_request s.write_buffer)
          (write_ids s.write_buffer),
      Apart-append s.write_buffer w,
      flush_writes-open
          (record s {
            write_buffer = s.write_buffer ++ w ∷ [];
            write_buffer_size = add64 s.write_buffer_size (length bytes);
          })
          credit id,
    )

pub send_reset-open :
    (s : Stream) (code : Option ℕ) (http id : ℕ)
    → Apart s.write_buffer
    → (count id (answered (send_reset s code http).1)
          + count id (open_writes (send_reset s code http).0)
        ≡ count id (open_writes s))
      × ((send_reset s code http).0.pending_read_requests ≡ s.pending_read_requests)
      × Apart (send_reset s code http).0.write_buffer
unfolding send_reset
send_reset-open s code http id a = ground (
  arith,
  answered-append (fail_pending code s.pending_write_request s.write_buffer)
      (fail_writes code s.write_buffer),
  answered-fail_pending code s.pending_write_request s.write_buffer,
  answered-fail_writes code s.write_buffer,
)

pub send_stop-open :
    (s : Stream) (code : Option ℕ) (http : ℕ)
    → (answered (send_stop s code http).1
          ++ read_ids (send_stop s code http).0.pending_read_requests
        ≡ read_ids s.pending_read_requests)
      × ((send_stop s code http).0.pending_write_request ≡ s.pending_write_request)
      × ((send_stop s code http).0.write_buffer ≡ s.write_buffer)
unfolding send_stop
send_stop-open s code http = ground (
  arith,
  answered-append (stop_effects s s.receive_state http) (fail_reads code s.pending_read_requests),
  answered-fail_reads code s.pending_read_requests,
  append-nil (read_ids s.pending_read_requests),
)

-- The requests that received data answers, followed by those that still wait, are those that waited
-- before, in order.
pub recv_data-fifo :
    (s : Stream) (bytes : Bytes) (end_stream : Bool)
    → (answered (recv_data s bytes end_stream).1
          ++ read_ids (recv_data s bytes end_stream).0.pending_read_requests
        ≡ read_ids s.pending_read_requests)
      × ((recv_data s bytes end_stream).0.pending_write_request ≡ s.pending_write_request)
      × ((recv_data s bytes end_stream).0.write_buffer ≡ s.write_buffer)
unfolding recv_data
recv_data-fifo s bytes end_stream = grind (arith, answered-finish_reads, append-nil)

pub read-open :
    (s : Stream) (request_id : RequestId) (max_size id : ℕ)
    → (count id (answered (read s request_id max_size).1)
          + count id (read_ids (read s request_id max_size).0.pending_read_requests)
        ≡ count id (read_ids s.pending_read_requests) + count id (request_id ∷ []))
      × ((read s request_id max_size).0.pending_write_request ≡ s.pending_write_request)
      × ((read s request_id max_size).0.write_buffer ≡ s.write_buffer)
unfolding read
read-open s request_id max_size id = ground (
  arith,
  read_ids-append s.pending_read_requests
      (record { request_id = request_id; max_size = max_size } ∷ []),
  count-append id (read_ids s.pending_read_requests) (request_id ∷ []),
)
