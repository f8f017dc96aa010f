-- ===== src/Stream/Order.antt =====
-- protocol/stream.rs: what a flush sends and what it keeps: the buffered bytes, in order, and within its
-- credit.
use mathlib.Core.List.{append_assoc, append-nil}
use pywebtransport.Base.{
  ℕ, ◌+◌, ◌≤◌, ◌<◌, ◌^◌, ◌≡◌, ◌≢◌, refl, sym, ap, ◌∙◌, ◌⊎◌, inl, inr, Bool, Option, none, some,
  List, [], ◌∷◌, ◌++◌, length, take, drop, take-append-drop, leb, arith, Bool-cases,
}
use pywebtransport.Base.Word.{add64}
use pywebtransport.Common.{Bytes, StreamSendState, RequestId}
use pywebtransport.Events.{Effect, send_quic_data}
use pywebtransport.Stream.Defs.{Stream, PendingWrite, PendingRead, diagnose}
use pywebtransport.Stream.Write.{
  sendable, unsent, flush_front, flush_writes, complete_write, write, handle_data_acknowledged,
}
use pywebtransport.Stream.Read.{read, recv_data, finish_reads}
use pywebtransport.Stream.Reset.{
  send_reset, send_stop, abort, reset, stop, recv_reset, recv_stop_sending, fail_reads,
  stop_effects,
}
use pywebtransport.Stream.Calls.{
  Call, aborts, completes_write, diagnoses, flushes_writes, acknowledges, reads, receives,
  receives_reset, receives_stop, resets, stops, writes, step, pending_bytes, sent_bytes,
  accepted_bytes, Fits,
}
use pywebtransport.Stream.Invariant.{IsValid, length-sendable-le}

pending_bytes-append :
    (xs ys : List PendingWrite) → pending_bytes (xs ++ ys) ≡ pending_bytes xs ++ pending_bytes ys
pending_bytes-append [] ys = refl
pending_bytes-append (x ∷ xs) ys = simp (pending_bytes-append xs ys, append_assoc)

pub sent_bytes-append :
    (es fs : List Effect) → sent_bytes (es ++ fs) ≡ sent_bytes es ++ sent_bytes fs
sent_bytes-append [] fs = refl
sent_bytes-append (send_quic_data id bytes end_stream ∷ es) fs =
    rw (sent_bytes-append es fs) (sym (append_assoc bytes (sent_bytes es) (sent_bytes fs)))
sent_bytes-append (_ ∷ es) fs = sent_bytes-append es fs

sendable-unsent :
    (w : PendingWrite) (rest : List PendingWrite) (credit : ℕ)
    → sendable w credit ++ pending_bytes (unsent w credit ++ rest) ≡ w.bytes ++ pending_bytes rest
sendable-unsent w rest credit = elim (Bool-cases (leb (length w.bytes) credit)) [
  | inl whole ↦ rw whole
  | inr part ↦ rw part (
      sym (append_assoc (take credit w.bytes) (drop credit w.bytes) (pending_bytes rest))
      ∙ ap (λ (bytes : Bytes). bytes ++ pending_bytes rest) (take-append-drop credit w.bytes))
]

-- What a flush does to the bytes.
abbrev pub Flushed : Stream → ℕ → Stream × List Effect × ℕ → Type 0
Flushed s credit r =
    (sent_bytes r.1 ++ pending_bytes (r.0).write_buffer ≡ pending_bytes s.write_buffer)
    × (r.2 ≡ length (sent_bytes r.1))
    × (r.2 ≤ credit)

flush_front-Flushed :
    (s : Stream) (buffer : List PendingWrite) (credit : ℕ)
    → s.write_buffer ≡ buffer
    → Flushed s credit (flush_front s buffer credit)
unfolding flush_front
flush_front-Flushed s [] credit e = ground arith
flush_front-Flushed s (w ∷ rest) credit e = ground (
  arith,
  sendable-unsent w rest credit,
  length-sendable-le w credit,
  append-nil (sendable w credit),
)

-- A flush moves bytes from the front of the buffer to the transport: what it sends and what it
-- keeps are what was buffered, it reports the number of bytes sent, and that is within the credit.
pub flush_writes-Flushed : (s : Stream) (credit : ℕ) → Flushed s credit (flush_writes s credit)
unfolding flush_writes
flush_writes-Flushed s credit = ground (arith, flush_front-Flushed s s.write_buffer credit refl)

complete_write-bytes :
    (s : Stream) (credit : ℕ)
    → sent_bytes (complete_write s credit).1
        ++ pending_bytes (complete_write s credit).0.write_buffer
      ≡ pending_bytes s.write_buffer
unfolding complete_write
complete_write-bytes s credit =
    ground (arith, flush_writes-Flushed (record s { pending_write_request = none }) credit)

write-bytes :
    (s : Stream) (id : RequestId) (bytes : Bytes) (end_stream : Bool) (credit : ℕ)
    → s.max_write_buffer_size + length bytes < 2 ^ 64
    → IsValid s
    → let r = write s id bytes end_stream credit in
      sent_bytes r.1 ++ pending_bytes (r.0).write_buffer
      ≡ pending_bytes s.write_buffer ++ accepted_bytes s (writes id bytes end_stream credit)
unfolding write
write-bytes s id bytes end_stream credit fits v =
    let w : PendingWrite = record { bytes = bytes; request_id = id; end_stream = end_stream } in
    ground (
      arith,
      append-nil (pending_bytes s.write_buffer),
      append-nil bytes,
      pending_bytes-append s.write_buffer (w ∷ []),
      flush_writes-Flushed
          (record s {
            write_buffer = s.write_buffer ++ w ∷ [];
            write_buffer_size = add64 s.write_buffer_size (length bytes);
          })
          credit,
    )

finish_reads-bytes : (rs : List PendingRead) → sent_bytes (finish_reads rs) ≡ []
finish_reads-bytes [] = refl
finish_reads-bytes (r ∷ rs) = finish_reads-bytes rs

fail_reads-bytes : (code : Option ℕ) (rs : List PendingRead) → sent_bytes (fail_reads code rs) ≡ []
fail_reads-bytes code [] = refl
fail_reads-bytes code (r ∷ rs) = fail_reads-bytes code rs

read-bytes :
    (s : Stream) (id max_size : ℕ)
    → (sent_bytes (read s id max_size).1 ≡ [])
      × ((read s id max_size).0.write_buffer ≡ s.write_buffer)
unfolding read
read-bytes s id max_size = ground arith

recv_data-bytes :
    (s : Stream) (bytes : Bytes) (end_stream : Bool)
    → (sent_bytes (recv_data s bytes end_stream).1 ≡ [])
      × ((recv_data s bytes end_stream).0.write_buffer ≡ s.write_buffer)
unfolding recv_data
recv_data-bytes s bytes end_stream = grind (arith, finish_reads-bytes)

send_stop-bytes :
    (s : Stream) (code : Option ℕ) (http : ℕ)
    → (sent_bytes (send_stop s code http).1 ≡ [])
      × ((send_stop s code http).0.write_buffer ≡ s.write_buffer)
      × ((send_stop s code http).0.send_state ≡ s.send_state)
unfolding send_stop
send_stop-bytes s code http = ground (
  arith,
  fail_reads-bytes code s.pending_read_requests,
  sent_bytes-append (stop_effects s s.receive_state http) (fail_reads code s.pending_read_requests),
)

-- `send_reset` either resets the stream or does nothing.
send_reset-bytes :
    (s : Stream) (code : Option ℕ) (http : ℕ)
    → ((send_reset s code http).0.send_state ≡ some StreamSendState.reset_sent)
      ⊎ (send_reset s code http ≡ (s, []))
unfolding send_reset
send_reset-bytes s code http = ground arith

-- Every call but one that resets the send half hands over a prefix of the bytes that wait, and
-- leaves the rest with the bytes that a write adds.
pub step-bytes :
    (s : Stream) (c : Call)
    → Fits s c
    → IsValid s
    → (step s c).0.send_state ≢ some StreamSendState.reset_sent
    → sent_bytes (step s c).1 ++ pending_bytes (step s c).0.write_buffer
      ≡ pending_bytes s.write_buffer ++ accepted_bytes s c
unfolding step handle_data_acknowledged abort reset stop recv_reset recv_stop_sending diagnose
step-bytes s (aborts code) f v h = grind (
  arith,
  send_reset-bytes s (some code) code,
  send_stop-bytes (send_reset s (some code) code).0 (some code) code,
  sent_bytes-append (send_reset s (some code) code).1
      (send_stop (send_reset s (some code) code).0 (some code) code).1,
  append-nil (pending_bytes s.write_buffer),
)
step-bytes s (completes_write credit) f v h =
    complete_write-bytes s credit ∙ sym (append-nil (pending_bytes s.write_buffer))
step-bytes s (diagnoses id) f v h = sym (append-nil (pending_bytes s.write_buffer))
step-bytes s (flushes_writes credit) f v h =
    (flush_writes-Flushed s credit).0 ∙ sym (append-nil (pending_bytes s.write_buffer))
step-bytes s acknowledges f v h = sym (append-nil (pending_bytes s.write_buffer))
step-bytes s (reads id max_size) f v h =
    ground (arith, read-bytes s id max_size, append-nil (pending_bytes s.write_buffer))
step-bytes s (receives bytes end_stream) f v h =
    ground (arith, recv_data-bytes s bytes end_stream, append-nil (pending_bytes s.write_buffer))
step-bytes s (receives_reset code) f v h =
    grind (arith, fail_reads-bytes, append-nil (pending_bytes s.write_buffer))
step-bytes s (receives_stop code) f v h =
    grind (arith, send_reset-bytes, append-nil (pending_bytes s.write_buffer))
step-bytes s (resets id code) f v h =
    grind (arith, send_reset-bytes, sent_bytes-append, append-nil (pending_bytes s.write_buffer))
step-bytes s (stops id code) f v h =
    grind (arith, send_stop-bytes, sent_bytes-append, append-nil (pending_bytes s.write_buffer))
step-bytes s (writes id bytes end_stream credit) f v h =
    write-bytes s id bytes end_stream credit f v

-- A write sends no more than the credit, and nothing if it is refused.
pub write-sent_le :
    (s : Stream) (id : RequestId) (bytes : Bytes) (end_stream : Bool) (credit : ℕ)
    → (write s id bytes end_stream credit).2 ≤ credit
unfolding write
write-sent_le s id bytes end_stream credit =
    let w : PendingWrite = record { bytes = bytes; request_id = id; end_stream = end_stream } in
    ground (
      arith,
      flush_writes-Flushed
          (record s {
            write_buffer = s.write_buffer ++ w ∷ [];
            write_buffer_size = add64 s.write_buffer_size (length bytes);
          })
          credit,
    )

pub complete_write-sent_le : (s : Stream) (credit : ℕ) → (complete_write s credit).2 ≤ credit
unfolding complete_write
complete_write-sent_le s credit =
    ground (arith, flush_writes-Flushed (record s { pending_write_request = none }) credit)
