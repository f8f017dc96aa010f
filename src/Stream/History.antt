-- ===== src/Stream/History.antt =====
-- protocol/stream.rs: the bytes of a whole history of calls.
use mathlib.Core.List.{append_assoc, append-nil}
use pywebtransport.Base.{◌≡◌, ◌≢◌, sym, ap, ◌∙◌, some, List, [], ◌∷◌, ◌++◌}
use pywebtransport.Common.{Bytes, StreamSendState}
use pywebtransport.Stream.Defs.{Stream}
use pywebtransport.Stream.Calls.{Call, step, run, pending_bytes, sent_bytes, accepted_bytes, Fits}
use pywebtransport.Stream.Invariant.{IsValid, step-IsValid}
use pywebtransport.Stream.Lifecycle.{run_reset}
use pywebtransport.Stream.Order.{step-bytes, sent_bytes-append}

-- The data of the writes that a history has taken, in order.
unfoldable pub accepted_run : Stream → List Call → Bytes
accepted_run s [] = []
accepted_run s (c ∷ cs) = accepted_bytes s c ++ accepted_run (step s c).0 cs

-- Every write of a history has room for its length in the 64-bit counter.
abbrev pub AllFit : Stream → List Call → Type 0
AllFit s [] = Unit {0}
AllFit s (c ∷ cs) = Fits s c × AllFit (step s c).0 cs

-- Validity is kept by any history.
pub run-IsValid : (s : Stream) (cs : List Call) → AllFit s cs → IsValid s → IsValid (run s cs).0
unfolding run
run-IsValid s [] f v = v
run-IsValid s (c ∷ cs) f v = run-IsValid (step s c).0 cs f.1 (step-IsValid s c f.0 v)

regroup :
    (sent later rest middle before added more : Bytes)
    → sent ++ middle ≡ before ++ added
    → later ++ rest ≡ middle ++ more
    → (sent ++ later) ++ rest ≡ before ++ (added ++ more)
regroup sent later rest middle before added more p q =
    append_assoc sent later rest
    ∙ ap (◌++◌ sent) q
    ∙ sym (append_assoc sent middle more)
    ∙ ap (λ (bytes : Bytes). bytes ++ more) p
    ∙ append_assoc before added more

-- Over a history that does not reset the send half, the bytes handed to the transport, followed by
-- those that still wait, are the bytes that waited at first, followed by all data taken, in order.
pub run-bytes :
    (s : Stream) (cs : List Call)
    → AllFit s cs
    → IsValid s
    → (run s cs).0.send_state ≢ some StreamSendState.reset_sent
    → sent_bytes (run s cs).1 ++ pending_bytes (run s cs).0.write_buffer
      ≡ pending_bytes s.write_buffer ++ accepted_run s cs
unfolding run accepted_run
run-bytes s [] f v h = sym (append-nil (pending_bytes s.write_buffer))
run-bytes s (c ∷ cs) f v h =
    let one = step-bytes s c f.0 v (λ e. h (run_reset (step s c).0 cs e)) in
    let rest = run-bytes (step s c).0 cs f.1 (step-IsValid s c f.0 v) h in
    rw (sent_bytes-append (step s c).1 (run (step s c).0 cs).1) (
      regroup (sent_bytes (step s c).1) _ _ (pending_bytes (step s c).0.write_buffer) _ _ _ one
        rest)
