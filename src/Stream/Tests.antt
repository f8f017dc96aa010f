-- ===== src/Stream/Tests.antt =====
-- Runs of a stream at concrete inputs.
use pywebtransport.Base.{◌≡◌, refl, true, false, none, some, List, [], ◌∷◌, ◌++◌, arith}
use pywebtransport.Common.{StreamDirection, StreamReceiveState}
use pywebtransport.Events.{send_quic_data, notify_request_done, nothing}
use pywebtransport.Stream.Defs.{Stream, new, is_closed}
use pywebtransport.Stream.Write.{write, flush_writes, complete_write}
use pywebtransport.Stream.Read.{recv_data, read, read_state, queue_read}
use pywebtransport.Stream.Calls.{
  Call, aborts, writes, completes_write, reads, step, run, sent_bytes, pending_bytes,
}
use pywebtransport.Stream.Invariant.{IsValid, new-IsValid, step-IsValid}
use pywebtransport.Stream.Lifecycle.{Follows, step-Follows, run_closed}
use pywebtransport.Stream.Order.{Flushed, flush_writes-Flushed}
use pywebtransport.Stream.History.{accepted_run, run-bytes}
use pywebtransport.Stream.Delivery.{Delivers, recv_data-Delivers}
use pywebtransport.Stream.Answers.{Balanced, brought_run, run-Balanced}

-- A client's bidirectional stream with room for ten bytes.
abbrev fresh : Stream
fresh = new 4 0 StreamDirection.bidirectional false (record { max_write_buffer_size = 10 }) 0

-- Three bytes with credit for two, then the end of the stream.
abbrev history : List Call
history =
    writes 1 (7 ∷ 8 ∷ 9 ∷ []) false 2
    ∷ writes 2 (5 ∷ []) true 0
    ∷ completes_write 9
    ∷ completes_write 0
    ∷ []

abbrev mid : Stream
mid = (run fresh history).0

history_effects :
    (run fresh history).1
    ≡ send_quic_data 4 (7 ∷ 8 ∷ []) false
      ∷ send_quic_data 4 (9 ∷ []) false
      ∷ notify_request_done 1 nothing
      ∷ []
unfolding run step new write flush_writes complete_write
history_effects = refl

fresh-IsValid_example : IsValid fresh
fresh-IsValid_example =
    new-IsValid 4 0 StreamDirection.bidirectional false (record { max_write_buffer_size = 10 }) 0
      (omega arith)

step-IsValid_example : IsValid (step fresh (writes 1 (7 ∷ 8 ∷ 9 ∷ []) false 2)).0
unfolding new
step-IsValid_example =
    step-IsValid fresh (writes 1 (7 ∷ 8 ∷ 9 ∷ []) false 2) (omega arith) (ground arith)

run-bytes_example :
    sent_bytes (run fresh history).1 ++ pending_bytes (run fresh history).0.write_buffer
    ≡ pending_bytes fresh.write_buffer ++ accepted_run fresh history
unfolding run step new write flush_writes complete_write
run-bytes_example = run-bytes fresh history (omega arith) (ground arith) (λ e. cc)

step-Follows_example : Follows mid (step mid (aborts 1)).0
step-Follows_example = step-Follows mid (aborts 1)

flush_writes-Flushed_example : Flushed fresh 3 (flush_writes fresh 3)
flush_writes-Flushed_example = flush_writes-Flushed fresh 3

-- A unidirectional stream of the peer that has been read to its end is closed.
abbrev ended : Stream
ended =
    record (new 3 0 StreamDirection.receive_only true (record { max_write_buffer_size = 10 }) 0) {
      receive_state = some StreamReceiveState.data_read;
    }

run_closed_example :
    (is_closed (run ended history).0 ≡ true)
    × ((run ended history).0.send_state ≡ none)
    × ((run ended history).0.receive_state ≡ some StreamReceiveState.data_read)
unfolding new is_closed
run_closed_example = run_closed ended history refl

abbrev waiting : Stream
waiting = (run fresh (reads 1 4 ∷ reads 2 4 ∷ [])).0

recv_data-Delivers_example : Delivers waiting (6 ∷ []) true (recv_data waiting (6 ∷ []) true)
unfolding run step new read read_state queue_read
recv_data-Delivers_example = recv_data-Delivers waiting (6 ∷ []) true refl

run-Balanced_example : Balanced fresh (brought_run history) (run fresh history) 1
unfolding run step new write flush_writes complete_write
run-Balanced_example = run-Balanced fresh history 1 tt (omega arith)
