-- ===== src/Stream/Invariant.antt =====
-- protocol/stream.rs: what holds of a stream between two calls.
use pywebtransport.Base.{
  ℕ, ◌+◌, ◌≤◌, ◌<◌, ◌^◌, ◌≡◌, refl, ◌⊎◌, Bool, true, false, Option, none, some, List, [], ◌∷◌, ◌++◌,
  length, length-take, length-drop, arith,
}
use pywebtransport.Base.Word.{add64}
use pywebtransport.Common.{Bytes, StreamDirection, SessionId, StreamId, F64}
use pywebtransport.Stream.Defs.{Stream, PendingWrite, StreamParameters, new, is_ready}
use pywebtransport.Stream.Write.{
  sendable, unsent, flush_front, flush_writes, complete_write, write, handle_data_acknowledged,
  is_finish_pending,
}
use pywebtransport.Stream.Read.{is_receiving, read, recv_data}
use pywebtransport.Stream.Reset.{
  send_reset, send_stop, abort, reset, stop, recv_reset, recv_stop_sending,
}
use pywebtransport.Stream.Calls.{
  Call, aborts, completes_write, diagnoses, flushes_writes, acknowledges, reads, receives,
  receives_reset, receives_stop, resets, stops, writes, step, buffered, Fits,
}

-- Only the last entry of the buffer may end the stream.
abbrev pub EndsLast : List PendingWrite → Type 0
EndsLast [] = Unit {0}
EndsLast (w ∷ []) = Unit {0}
EndsLast (w ∷ v ∷ rest) = (w.end_stream ≡ false) × EndsLast (v ∷ rest)

pub record IsValid (s : Stream) : Type 0 where
  pub sized : s.write_buffer_size ≡ buffered s.write_buffer
  pub capped : s.write_buffer_size ≤ s.max_write_buffer_size
  pub bounded : s.max_write_buffer_size < 2 ^ 64
  pub ends_last : EndsLast s.write_buffer
  pub ready_only : (is_ready s.send_state ≡ true) ⊎ (s.write_buffer ≡ [])
  pub receiving_only : (is_receiving s.receive_state ≡ true) ⊎ (s.pending_read_requests ≡ [])

pub buffered-append : (xs ys : List PendingWrite) → buffered (xs ++ ys) ≡ buffered xs + buffered ys
buffered-append [] ys = omega arith
buffered-append (x ∷ xs) ys = omega (arith, buffered-append xs ys)

-- What is sent of an entry and what is kept make up the entry.
pub length-sendable :
    (w : PendingWrite) (credit : ℕ)
    → length (sendable w credit) + buffered (unsent w credit) ≡ length w.bytes
length-sendable w credit = ground (arith, length-take credit w.bytes, length-drop credit w.bytes)

pub length-sendable-le : (w : PendingWrite) (credit : ℕ) → length (sendable w credit) ≤ credit
length-sendable-le w credit = ground (arith, length-take credit w.bytes)

EndsLast-tail :
    (w : PendingWrite) (rest : List PendingWrite) (credit : ℕ)
    → EndsLast (w ∷ rest)
    → EndsLast (unsent w credit ++ rest)
EndsLast-tail w [] credit h = ground arith
EndsLast-tail w (v ∷ rest) credit h = ground arith

flush_front-IsValid :
    (s : Stream) (buffer : List PendingWrite) (credit : ℕ)
    → s.write_buffer ≡ buffer
    → is_ready s.send_state ≡ true
    → IsValid s
    → IsValid (flush_front s buffer credit).0
unfolding flush_front
flush_front-IsValid s [] credit e r v = v
flush_front-IsValid s (w ∷ []) credit e r v =
    ground (arith, length-sendable w credit, length-sendable-le w credit)
flush_front-IsValid s (w ∷ v' ∷ rest) credit e r v =
    ground (arith, length-sendable w credit, length-sendable-le w credit)

flush_writes-IsValid : (s : Stream) (credit : ℕ) → IsValid s → IsValid (flush_writes s credit).0
unfolding flush_writes
flush_writes-IsValid s credit v = ground (arith, flush_front-IsValid s s.write_buffer credit refl)

complete_write-IsValid : (s : Stream) (credit : ℕ) → IsValid s → IsValid (complete_write s credit).0
unfolding complete_write
complete_write-IsValid s credit v =
    ground (arith, flush_writes-IsValid (record s { pending_write_request = none }) credit)

-- An entry may follow a buffer whose last entry does not end the stream.
EndsLast-append :
    (buffer : List PendingWrite) (w : PendingWrite)
    → is_finish_pending buffer ≡ false
    → EndsLast buffer
    → EndsLast (buffer ++ w ∷ [])
EndsLast-append [] w f h = tt
EndsLast-append (u ∷ []) w f h = (f, tt)
EndsLast-append (u ∷ v ∷ rest) w f h = (h.0, EndsLast-append (v ∷ rest) w f h.1)

write-IsValid :
    (s : Stream) (id : ℕ) (bytes : Bytes) (end_stream : Bool) (credit : ℕ)
    → s.max_write_buffer_size + length bytes < 2 ^ 64
    → IsValid s
    → IsValid (write s id bytes end_stream credit).0
unfolding write
write-IsValid s id bytes end_stream credit fits v =
    let w : PendingWrite = record { bytes = bytes; request_id = id; end_stream = end_stream } in
    ground (
      arith,
      buffered-append s.write_buffer (w ∷ []),
      EndsLast-append s.write_buffer w,
      flush_writes-IsValid
          (record s {
            write_buffer = s.write_buffer ++ w ∷ [];
            write_buffer_size = add64 s.write_buffer_size (length bytes);
          })
          credit,
    )

read-IsValid : (s : Stream) (id max_size : ℕ) → IsValid s → IsValid (read s id max_size).0
unfolding read
read-IsValid s id max_size v = ground arith

recv_data-IsValid :
    (s : Stream) (bytes : Bytes) (end_stream : Bool)
    → IsValid s
    → IsValid (recv_data s bytes end_stream).0
unfolding recv_data
recv_data-IsValid s bytes end_stream v = ground arith

send_reset-IsValid :
    (s : Stream) (code : Option ℕ) (http : ℕ) → IsValid s → IsValid (send_reset s code http).0
unfolding send_reset
send_reset-IsValid s code http v = ground arith

send_stop-IsValid :
    (s : Stream) (code : Option ℕ) (http : ℕ) → IsValid s → IsValid (send_stop s code http).0
unfolding send_stop
send_stop-IsValid s code http v = ground arith

-- A new stream is valid.
pub new-IsValid :
    (id : StreamId) (session : SessionId) (direction : StreamDirection) (peer : Bool)
    (parameters : StreamParameters) (now : F64)
    → parameters.max_write_buffer_size < 2 ^ 64
    → IsValid (new id session direction peer parameters now)
unfolding new
new-IsValid id session direction peer parameters now h = ground arith

-- Every call keeps a stream valid, provided that a write's length fits the 64-bit counter.
pub step-IsValid : (s : Stream) (c : Call) → Fits s c → IsValid s → IsValid (step s c).0
unfolding step handle_data_acknowledged abort reset stop recv_reset recv_stop_sending
step-IsValid s (aborts code) f v =
    send_stop-IsValid (send_reset s (some code) code).0 (some code) code
      (send_reset-IsValid s (some code) code v)
step-IsValid s (completes_write credit) f v = complete_write-IsValid s credit v
step-IsValid s (diagnoses id) f v = v
step-IsValid s (flushes_writes credit) f v = flush_writes-IsValid s credit v
step-IsValid s acknowledges f v = ground arith
step-IsValid s (reads id max_size) f v = read-IsValid s id max_size v
step-IsValid s (receives bytes end_stream) f v = recv_data-IsValid s bytes end_stream v
step-IsValid s (receives_reset code) f v = ground arith
step-IsValid s (receives_stop code) f v = grind (arith, send_reset-IsValid)
step-IsValid s (resets id code) f v = grind (arith, send_reset-IsValid)
step-IsValid s (stops id code) f v = grind (arith, send_stop-IsValid)
step-IsValid s (writes id bytes end_stream credit) f v =
    write-IsValid s id bytes end_stream credit f v
