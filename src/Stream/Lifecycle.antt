-- ===== src/Stream/Lifecycle.antt =====
-- protocol/stream.rs: the life of the two halves of a stream, as the RFC 9000 state diagrams that
-- the code implements (section 3.1 for sending, 3.2 for receiving).
use pywebtransport.Base.{ℕ, ◌≡◌, refl, ◌∙◌, Bool, true, Option, some, List, [], ◌∷◌, arith}
use pywebtransport.Common.{RequestId, Bytes, StreamReceiveState, StreamSendState}
use pywebtransport.Stream.Defs.{Stream, is_closed, is_receive_terminated, is_send_terminated}
use pywebtransport.Stream.Write.{flush_writes, complete_write, write, handle_data_acknowledged}
use pywebtransport.Stream.Read.{read, recv_data}
use pywebtransport.Stream.Reset.{
  send_reset, send_stop, abort, reset, stop, recv_reset, recv_stop_sending,
}
use pywebtransport.Stream.Calls.{
  Call, aborts, completes_write, diagnoses, flushes_writes, acknowledges, reads, receives,
  receives_reset, receives_stop, resets, stops, writes, step, run,
}

infix 40 ◌⟶◌ ◌⟹◌
-- The send half.
pub data ◌⟶◌ : Option StreamSendState → Option StreamSendState → Type 0 where
  stays : {x : Option StreamSendState} → x ⟶ x
  finishes : some StreamSendState.ready ⟶ some StreamSendState.data_sent
  is_acknowledged : some StreamSendState.data_sent ⟶ some StreamSendState.data_received
  resets_open : some StreamSendState.ready ⟶ some StreamSendState.reset_sent
  resets_sent : some StreamSendState.data_sent ⟶ some StreamSendState.reset_sent

-- The receive half.
pub data ◌⟹◌ : Option StreamReceiveState → Option StreamReceiveState → Type 0 where
  remains : {x : Option StreamReceiveState} → x ⟹ x
  arrives : some StreamReceiveState.receive ⟹ some StreamReceiveState.data_received
  is_delivered : some StreamReceiveState.receive ⟹ some StreamReceiveState.data_read
  is_read : some StreamReceiveState.data_received ⟹ some StreamReceiveState.data_read
  is_reset : some StreamReceiveState.receive ⟹ some StreamReceiveState.reset_read
  is_stopped : some StreamReceiveState.data_received ⟹ some StreamReceiveState.reset_read

ruleset send_edges = (stays, finishes, is_acknowledged, resets_open, resets_sent)

ruleset receive_edges = (remains, arrives, is_delivered, is_read, is_reset, is_stopped)

-- A call moves each half along one edge of its diagram at most, and the identity of the stream and
-- the limit of its buffer never change.
pub record Follows (s t : Stream) : Type 0 where
  pub sends : s.send_state ⟶ t.send_state
  pub gets : s.receive_state ⟹ t.receive_state
  pub same_id : t.id ≡ s.id
  pub same_direction : t.direction ≡ s.direction
  pub same_session : t.session_id ≡ s.session_id
  pub same_limit : t.max_write_buffer_size ≡ s.max_write_buffer_size

flush_writes-Follows : (s : Stream) (credit : ℕ) → Follows s (flush_writes s credit).0
unfolding flush_writes
flush_writes-Follows s credit = grind (arith, send_edges, receive_edges)

complete_write-Follows : (s : Stream) (credit : ℕ) → Follows s (complete_write s credit).0
unfolding complete_write flush_writes
complete_write-Follows s credit = grind (arith, send_edges, receive_edges)

write-Follows :
    (s : Stream) (id : RequestId) (bytes : Bytes) (end_stream : Bool) (credit : ℕ)
    → Follows s (write s id bytes end_stream credit).0
unfolding write
write-Follows s id bytes end_stream credit =
    grind (arith, flush_writes-Follows, send_edges, receive_edges)

send_reset-Follows :
    (s : Stream) (code : Option ℕ) (http : ℕ) → Follows s (send_reset s code http).0
unfolding send_reset
send_reset-Follows s code http = grind (arith, send_edges, receive_edges)

send_stop-Follows : (s : Stream) (code : Option ℕ) (http : ℕ) → Follows s (send_stop s code http).0
unfolding send_stop
send_stop-Follows s code http = grind (arith, send_edges, receive_edges)

abort-Follows : (s : Stream) (code : ℕ) → Follows s (abort s code).0
unfolding abort send_reset send_stop
abort-Follows s code = grind (arith, send_edges, receive_edges)

recv_data-Follows :
    (s : Stream) (bytes : Bytes) (end_stream : Bool) → Follows s (recv_data s bytes end_stream).0
unfolding recv_data
recv_data-Follows s bytes end_stream = grind (arith, send_edges, receive_edges)

read-Follows : (s : Stream) (id max_size : ℕ) → Follows s (read s id max_size).0
unfolding read
read-Follows s id max_size = grind (arith, send_edges, receive_edges)

-- Every call follows the diagrams of the two halves.
pub step-Follows : (s : Stream) (c : Call) → Follows s (step s c).0
unfolding step handle_data_acknowledged reset stop recv_reset recv_stop_sending
step-Follows s (aborts code) = abort-Follows s code
step-Follows s (completes_write credit) = complete_write-Follows s credit
step-Follows s (diagnoses id) = grind (arith, send_edges, receive_edges)
step-Follows s (flushes_writes credit) = flush_writes-Follows s credit
step-Follows s acknowledges = grind (arith, send_edges, receive_edges)
step-Follows s (reads id max_size) = read-Follows s id max_size
step-Follows s (receives bytes end_stream) = recv_data-Follows s bytes end_stream
step-Follows s (receives_reset code) = grind (arith, send_edges, receive_edges)
step-Follows s (receives_stop code) = grind (arith, send_reset-Follows, send_edges, receive_edges)
step-Follows s (resets id code) = grind (arith, send_reset-Follows, send_edges, receive_edges)
step-Follows s (stops id code) = grind (arith, send_stop-Follows, send_edges, receive_edges)
step-Follows s (writes id bytes end_stream credit) = write-Follows s id bytes end_stream credit

-- A terminated half is left by no edge.
terminated-⟶ : {x y : Option StreamSendState} → x ⟶ y → is_send_terminated x ≡ true → y ≡ x
terminated-⟶ stays h = refl
terminated-⟶ finishes h = cc
terminated-⟶ is_acknowledged h = cc
terminated-⟶ resets_open h = cc
terminated-⟶ resets_sent h = cc

terminated-⟹ : {x y : Option StreamReceiveState} → x ⟹ y → is_receive_terminated x ≡ true → y ≡ x
terminated-⟹ remains h = refl
terminated-⟹ arrives h = cc
terminated-⟹ is_delivered h = cc
terminated-⟹ is_read h = cc
terminated-⟹ is_reset h = cc
terminated-⟹ is_stopped h = cc

-- A half that has ended never changes again.
pub step_terminated :
    (s : Stream) (c : Call)
    → is_send_terminated s.send_state ≡ true
    → (step s c).0.send_state ≡ s.send_state
step_terminated s c h = terminated-⟶ (step-Follows s c).sends h

step_closed :
    (s : Stream) (c : Call)
    → is_closed s ≡ true
    → (is_closed (step s c).0 ≡ true)
      × ((step s c).0.send_state ≡ s.send_state)
      × ((step s c).0.receive_state ≡ s.receive_state)
unfolding is_closed
step_closed s c h =
    ground (arith, terminated-⟶ (step-Follows s c).sends, terminated-⟹ (step-Follows s c).gets)

-- A closed stream stays closed through any history of calls, with both halves as they were.
pub run_closed :
    (s : Stream) (cs : List Call)
    → is_closed s ≡ true
    → (is_closed (run s cs).0 ≡ true)
      × ((run s cs).0.send_state ≡ s.send_state)
      × ((run s cs).0.receive_state ≡ s.receive_state)
unfolding run
run_closed s [] h = (h, refl, refl)
run_closed s (c ∷ cs) h =
    let (still, sends, gets) = step_closed s c h in
    let (end, sends', gets') = run_closed (step s c).0 cs still in
    (end, sends' ∙ sends, gets' ∙ gets)

-- A send half that was reset stays so.
pub run_reset :
    (s : Stream) (cs : List Call)
    → s.send_state ≡ some StreamSendState.reset_sent
    → (run s cs).0.send_state ≡ some StreamSendState.reset_sent
unfolding run
run_reset s [] h = h
run_reset s (c ∷ cs) h = run_reset (step s c).0 cs (step_terminated s c (rw h) ∙ h)
