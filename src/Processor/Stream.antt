-- ===== src/Processor/Stream.antt =====
-- The whole run of the loop of pushers/processor.go, and the framing of its payloads.
use edgedelta_lambda_extensi.Common.{
  ◌≡◌, refl, false, Option, none, some, List, [], ◌∷◌, ◌++◌, arith, Result, ok, err, All,
  All-append,
}
use edgedelta_lambda_extensi.Text.Bytes.{Bytes}
use edgedelta_lambda_extensi.Text.Records.{
  frame, frame-IsFramed, IsFramed, IsFramed-append, framed_from,
}
use edgedelta_lambda_extensi.Host.{Host}
use edgedelta_lambda_extensi.Lambda.Events.{LambdaEvent}
use edgedelta_lambda_extensi.Processor.Types.{EventError}
use edgedelta_lambda_extensi.Processor.Events.{process}
use edgedelta_lambda_extensi.Processor.Loop.{
  Processor, Batch, State, Input, Output, events, invoke, out, signal_runtime_done, stopped, stop,
  line_of, process_into, batch_event, flag_event, run_batch, drain_batch, drain, finish_batch, step,
  run,
}
use edgedelta_lambda_extensi.Processor.Batches.{payloads}

line_of-IsFramed : (r : Result EventError (Option Bytes)) → IsFramed (line_of r)
unfolding line_of frame framed_from
line_of-IsFramed (ok (some b)) = frame-IsFramed (b ∷ [])
line_of-IsFramed (ok none) = refl
line_of-IsFramed (err x) = refl

pub payloads-append : (a b : List Output) → payloads (a ++ b) ≡ payloads a ++ payloads b
unfolding payloads
payloads-append [] b = refl
payloads-append (out x ∷ a) b = λ i. x ∷ payloads-append a b i
payloads-append (signal_runtime_done ∷ a) b = payloads-append a b
payloads-append (stopped ∷ a) b = payloads-append a b

module _ (host : Host) (p : Processor) where
  process_into-IsFramed :
      (e : LambdaEvent) (b : Batch) → IsFramed b.buf → IsFramed (process_into host p e b).buf
  unfolding process_into
  process_into-IsFramed e b h =
      IsFramed-append b.buf _ h
        (line_of-IsFramed (process host p.cloud p.host_arch p.process_runtime e b.globals).0)

  batch_event-IsFramed :
      (e : LambdaEvent) (b : Batch) → IsFramed b.buf → IsFramed (batch_event host p e b).buf
  unfolding batch_event
  batch_event-IsFramed e b h =
      process_into-IsFramed e (flag_event host p e b) (unfold flag_event in h)

  run_batch-IsFramed :
      (es : List LambdaEvent) (b : Batch) → IsFramed b.buf → IsFramed (run_batch host p es b).buf
  unfolding run_batch
  run_batch-IsFramed [] b h = h
  run_batch-IsFramed (e ∷ es) b h =
      run_batch-IsFramed es (batch_event host p e b) (batch_event-IsFramed e b h)

  drain_batch-IsFramed :
      (es : List LambdaEvent) (b : Batch) → IsFramed b.buf → IsFramed (drain_batch host p es b).buf
  unfolding drain_batch
  drain_batch-IsFramed [] b h = h
  drain_batch-IsFramed (e ∷ es) b h =
      drain_batch-IsFramed es (process_into host p e b) (process_into-IsFramed e b h)

  drain-IsFramed :
      (queued : List (List LambdaEvent)) (b : Batch)
      → IsFramed b.buf
      → IsFramed (drain host p queued b).buf
  unfolding drain
  drain-IsFramed [] b h = h
  drain-IsFramed (es ∷ rest) b h =
      drain-IsFramed rest (drain_batch host p es b) (drain_batch-IsFramed es b h)

  abbrev opened : State → Batch
  opened s = record { buf = []; globals = s.globals; runtime_done = s.runtime_done }

  finish_batch-IsFramed :
      (b : Batch) → IsFramed b.buf → All IsFramed (payloads (finish_batch host p b).1)
  unfolding finish_batch payloads
  finish_batch-IsFramed b h = ground arith

  step-IsFramed : (i : Input) (s : State) → All IsFramed (payloads (step host p i s).1)
  unfolding step payloads
  step-IsFramed (events es) s = ground (
    arith,
    finish_batch-IsFramed (run_batch host p es (opened s))
        (run_batch-IsFramed es (opened s) (unfold framed_from in refl)),
  )
  step-IsFramed (invoke r) s = ground arith
  step-IsFramed (stop queued) s =
      ground (arith, drain-IsFramed queued (opened s) (unfold framed_from in refl))

  -- Whatever arrives, every payload that the loop sends is empty or ends behind a separator.
  pub run-payloads-IsFramed :
      (is : List Input) (s : State) → All IsFramed (payloads (run host p is s).1)
  unfolding run payloads
  run-payloads-IsFramed [] s = tt
  run-payloads-IsFramed (i ∷ is) s = rw (payloads-append (step host p i s).1 _) (
      All-append IsFramed (payloads (step host p i s).1) _ (step-IsFramed i s)
        (run-payloads-IsFramed is (step host p i s).0))

  step_stopped : (i : Input) (s : State) → s.running ≡ false → step host p i s ≡ (s, [])
  unfolding step
  step_stopped i s h = ground arith

  -- Once the loop has returned, it sends nothing and keeps its state, whatever arrives.
  pub run_stopped : (is : List Input) (s : State) → s.running ≡ false → run host p is s ≡ (s, [])
  unfolding run
  run_stopped [] s h = refl
  run_stopped (i ∷ is) s h = rw (step_stopped i s h) (run_stopped is s h)
