-- ===== src/Session/Tests.antt =====
-- Runs of a session at concrete inputs.
use pywebtransport.Base.{◌+◌, count, ◌≤◌, ◌≡◌, refl, true, false, none, List, [], ◌∷◌, arith}
use pywebtransport.Common.{text, SessionState, StreamDirection}
use pywebtransport.Common.Constants.{wt_capsule_type_max_data}
use pywebtransport.Session.Calls.{
  Call, step, run, creates_stream, binds_stream, writes, confirms, receives_capsule, receives,
  opens, defers_stream,
}
use pywebtransport.Session.Close.{abort, close, recv_connect_close}
use pywebtransport.Session.Defs.{Session, SessionParameters, is_connected, new}
use pywebtransport.Events.{answered}
use pywebtransport.Session.Answers.{AnswersAll, waiting_requests, ended-AnswersAll}
use pywebtransport.Session.Emptied.{IsEmptied}
use pywebtransport.Session.Ended.{close-IsEmptied}
use pywebtransport.Session.Over.{aborted_run}
use pywebtransport.Session.Invariant.Steps.{Fits, step_owed-IsValid, run-new-IsValid}
use pywebtransport.Session.Open.{confirm, replay_pending_queues, replay_capsules, replay_datagrams}
use pywebtransport.Session.Capsules.{recv_capsule, dispatch_capsule, recv_max_data}
use pywebtransport.Session.Flow.{flush_blocked_writes, flush_rounds}
use pywebtransport.Session.Credit.{emit_data_blocked}
use pywebtransport.Utils.Varint.{read_varint}
use pywebtransport.Common.Constants.{wt_capsule_type_drain_session}
use pywebtransport.Session.Lifecycle.{rank}
use pywebtransport.Session.Lifecycle.Steps.{run-Advances}
use pywebtransport.Session.Replay.Queues.{Replayed, confirm-Replayed, confirm_drained}
use pywebtransport.Stream.Defs
use pywebtransport.Session.IsValid.{IsValid}

abbrev parameters : SessionParameters
parameters = record {
  flow_control_negotiated = true;
  initial_max_data = 10;
  initial_max_streams_bidi = 1;
  initial_max_streams_uni = 1;
  max_pending_capsules = 2;
  max_pending_datagrams = 2;
  max_pending_streams = 2;
  max_write_buffer_size = 10;
  peer_max_data = 2;
  peer_max_streams_bidi = 1;
  peer_max_streams_uni = 1;
  receive_window = 10;
}

abbrev fresh : Session
fresh = new 0 (text "/") [] none true parameters 0

-- A stream writes three bytes with credit for two; the peer raises the limit, opens a stream and
-- sends more than it may.
abbrev history : List Call
history =
    confirms none 0
    ∷ creates_stream 1 false
    ∷ binds_stream 4 1 false 0
    ∷ writes 4 2 (7 ∷ 8 ∷ 9 ∷ []) true
    ∷ receives_capsule wt_capsule_type_max_data (9 ∷ []) 0
    ∷ opens 1 0
    ∷ receives 1 (1 ∷ 2 ∷ 3 ∷ 4 ∷ 5 ∷ 6 ∷ 7 ∷ 8 ∷ 9 ∷ 10 ∷ 11 ∷ []) false 1
    ∷ []

parameters-Fits : Fits parameters
parameters-Fits = ground arith

run-new-IsValid_example : IsValid (run fresh history).0
run-new-IsValid_example =
    run-new-IsValid 0 (text "/") [] none true parameters 0 history parameters-Fits
      (tt, (tt, (tt, (tt, (tt, (tt, (tt, tt)))))))

abbrev waiting : Session
waiting = record fresh { local_streams_uni_opened = 1 }

step_owed-IsValid_example : IsValid (step waiting (defers_stream 5 true)).0
unfolding new
step_owed-IsValid_example =
    step_owed-IsValid waiting (defers_stream 5 true) (omega arith) (ground arith)

-- A session with an open stream, an early stream and a waiting request.
abbrev busy : Session
busy = record fresh {
  state = SessionState.connected;
  pending_streams = 1 ∷ [];
  blocked_stream_requests_uni = 7 ∷ [];
  streams =
      (1, Defs.new 1 0 StreamDirection.receive_only true (record { max_write_buffer_size = 10 }) 0)
      ∷ [];
}

aborted_run_example :
    IsEmptied (abort busy 5 (text "gone") 1).0
    × ((run (abort busy 5 (text "gone") 1).0 history).0 ≡ (abort busy 5 (text "gone") 1).0)
aborted_run_example = aborted_run busy 5 (text "gone") 1 history refl

close-IsEmptied_example :
    IsEmptied (close busy 3 0 none 1).0 × ((close busy 3 0 none 1).0.state ≡ SessionState.closing)
close-IsEmptied_example = close-IsEmptied busy 3 0 none 1 refl

ended-AnswersAll_example :
    AnswersAll busy 7 (abort busy 5 (text "gone") 1).1
    × (count 7 (waiting_requests busy) + count 7 (3 ∷ [])
        ≤ count 7 (answered (close busy 3 5 none 1).1))
    × AnswersAll busy 7 (recv_connect_close busy 5 (text "gone") 1).1
ended-AnswersAll_example = ended-AnswersAll busy 3 5 (text "gone") none 1 7 refl

-- A session that is not ready, with an early capsule, stream and datagram.
abbrev early : Session
early = record fresh {
  pending_capsules = (wt_capsule_type_max_data, 9 ∷ []) ∷ [];
  pending_datagrams = (5 ∷ []) ∷ [];
  pending_streams = 1 ∷ [];
}

early_connected : is_connected (confirm early none 0).0.state ≡ true
unfolding new confirm replay_pending_queues replay_capsules replay_datagrams recv_capsule
    dispatch_capsule recv_max_data read_varint flush_blocked_writes flush_rounds emit_data_blocked
early_connected = refl

confirm-Replayed_example : Replayed (confirm early none 0).0
unfolding new
confirm-Replayed_example = confirm-Replayed early none 0 refl early_connected

-- The same, but the capsule asks to drain the session.
abbrev early_drain : Session
early_drain = record early { pending_capsules = (wt_capsule_type_drain_session, []) ∷ [] }

confirm_drained_example :
    ((confirm early_drain none 0).0.state ≡ SessionState.draining)
    × ((confirm early_drain none 0).0.pending_capsules ≡ [])
    × ((confirm early_drain none 0).0.pending_streams ≡ 1 ∷ [])
    × ((confirm early_drain none 0).0.pending_datagrams ≡ (5 ∷ []) ∷ [])
unfolding new
confirm_drained_example = confirm_drained early_drain none 0 [] [] refl refl

run-Advances_example : rank fresh.state ≤ rank (run fresh history).0.state
run-Advances_example = run-Advances fresh history
