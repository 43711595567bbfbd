-- ===== src/System/Refines.antt =====
-- Every run of the composed system is a run of each of its loops.
pub mod Loops
pub mod Cases
pub mod Moves
pub mod Records
use edgedelta_lambda_extensi.Common.{
  append_assoc, ℕ, ◌+◌, ◌≡◌, inl, inr, refl, pos, Bool, true, false, Option, none, some, List, [],
  ◌∷◌, ◌++◌, arith, if◌then◌else◌, Option-cases, All, subst, sym, ◌∙◌, ap, append-nil, if_either,
  ◌==◌,
}
use edgedelta_lambda_extensi.Text.Bytes.{Bytes}
use edgedelta_lambda_extensi.Text.Records.{IsFramed}
use edgedelta_lambda_extensi.Host.{Host}
use edgedelta_lambda_extensi.Lambda.Events.{LambdaEvent}
use edgedelta_lambda_extensi.Processor.Types.{Globals}
use edgedelta_lambda_extensi.Processor.Loop.{
  Processor, State as ProcessorState, Input as Arrival, events, Output as Sent, out,
  signal_runtime_done, stopped, step as step_processor, run as run_processor,
  invoke as set_invocation, stop as stop_processor,
}
use edgedelta_lambda_extensi.Processor.Batches.{payloads}
use edgedelta_lambda_extensi.Processor.Stream.{payloads-append, run-payloads-IsFramed}
use edgedelta_lambda_extensi.Pusher.Loop.{
  Conf, State as PusherState, Input, chunk, runtime_done, expire, ctx_done, flush_resp, invoke,
  stop, force_flush, running, is_running, Output, step as step_pusher, run as run_pusher, start,
  on_input, on_expire, on_runtime_done, on_ctx_done, on_invoke, on_force_flush, on_flush_resp,
  finish_flush, failed_flush, on_response, pick,
}
use edgedelta_lambda_extensi.Pusher.Whole.{IsWhole}
use edgedelta_lambda_extensi.Pusher.Ledger.{
  weigh_all, received_all, delivered, lost, held, records_conserved,
}
use edgedelta_lambda_extensi.Pusher.Failures.{dropped_bytes-some}
use edgedelta_lambda_extensi.Pipeline.{chunks, chunks-framed}
use edgedelta_lambda_extensi.System.Steps.{
  Worker, idle, invoking_pusher, invoking_processor, waiting, forcing, System, Move, deliver, pass,
  call, enter_pusher, enter_processor, finish, deadline, see_deadline, respond, take_force, leave,
  is_nil, blocking, push_input, processor_input, to_pusher, pass_on, pass_deadline, step_worker,
  finish_with, step, run,
}
use edgedelta_lambda_extensi.System.Calm.{initial}
use edgedelta_lambda_extensi.System.Refines.Moves.{run-Traced, initial-Traced}
use edgedelta_lambda_extensi.System.Refines.Records.{Accounted, Traced-Accounted}

-- The batches among the cases of the processor's loop.
unfoldable pub batches : List Arrival → List (List LambdaEvent)
batches [] = []
batches (events es ∷ is) = es ∷ batches is
batches (_ ∷ is) = batches is

batches-append : (xs ys : List Arrival) → batches (xs ++ ys) ≡ batches xs ++ batches ys
unfolding batches
batches-append [] ys = refl
batches-append (events es ∷ xs) ys = ap (λ l. es ∷ l) (batches-append xs ys)
batches-append (set_invocation id ∷ xs) ys = batches-append xs ys
batches-append (stop_processor q ∷ xs) ys = batches-append xs ys

append-if :
    (b : Bool) (es : List LambdaEvent) (xs ys : List (List LambdaEvent))
    → (xs ++ (if b then es ∷ [] else [])) ++ ys ≡ xs ++ (if b then es ∷ ys else ys)
append-if true es xs ys = append_assoc xs (es ∷ []) ys
append-if false es xs ys = append_assoc xs [] ys

module _ (host : Host) (p : Processor) (conf : Conf) where
  -- The batches that are handed over when the processor is at its `select`.
  unfoldable pub accepted : List Move → System → List (List LambdaEvent)
  accepted [] s = []
  accepted (deliver es ∷ ms) s =
      let rest = accepted ms (step host p conf (deliver es) s) in
      if is_nil s.sending then es ∷ rest else rest
  accepted (m ∷ ms) s = accepted ms (step host p conf m s)

  pass-arrivals :
      (ok : Bool) (os : List Sent) (s : System)
      → (pass_on host p conf ok os s).arrivals ≡ s.arrivals
  unfolding pass_on to_pusher push_input
  pass-arrivals ok [] s = refl
  pass-arrivals ok (out b ∷ os) s = ground arith
  pass-arrivals ok (signal_runtime_done ∷ os) s = ground arith
  pass-arrivals ok (stopped ∷ os) s = refl

  enter-batches :
      (w : Worker) (s : System)
      → batches (step_worker host p conf enter_processor w s).arrivals ≡ batches s.arrivals
  unfolding step_worker processor_input batches
  enter-batches (invoking_processor n id) s =
      ground
        (arith, batches-append s.arrivals (set_invocation id ∷ []), append-nil (batches s.arrivals))
  enter-batches _ s = refl

  -- No batch arrives but by a delivery.
  abbrev IsOther : Move → Type 0
  IsOther (deliver es) = ⊥
  IsOther _ = Unit

  other-batches :
      (m : Move) (s : System)
      → IsOther m
      → batches (step host p conf m s).arrivals ≡ batches s.arrivals
  unfolding step push_input to_pusher step_worker finish_with pass_deadline processor_input batches
  other-batches (deliver es) s h = absurd h
  other-batches (pass ok) s h = ap batches (pass-arrivals ok s.sending s)
  other-batches finish s h = ground arith
  other-batches deadline s h = ground arith
  other-batches (see_deadline ok) s h = ground arith
  other-batches (respond i ok) s h = ground arith
  other-batches (take_force ok) s h = ground arith
  other-batches (call n id) s h = ground arith
  other-batches enter_pusher s h = ground arith
  other-batches enter_processor s h = enter-batches s.worker s
  other-batches leave s h = ground arith

  deliver-batches :
      (es : List LambdaEvent) (s : System)
      → batches (step host p conf (deliver es) s).arrivals
        ≡ batches s.arrivals ++ (if is_nil s.sending then es ∷ [] else [])
  unfolding step processor_input batches
  deliver-batches es s =
      ground (arith, batches-append s.arrivals (events es ∷ []), append-nil (batches s.arrivals))

  run-batches :
      (ms : List Move) (s : System)
      → batches (run host p conf ms s).arrivals ≡ batches s.arrivals ++ accepted ms s
  unfolding run accepted
  run-batches [] s = sym (append-nil (batches s.arrivals))
  run-batches (deliver es ∷ ms) s =
      run-batches ms (step host p conf (deliver es) s)
      ∙ ap (λ l. l ++ accepted ms (step host p conf (deliver es) s)) (deliver-batches es s)
      ∙ append-if (is_nil s.sending) es (batches s.arrivals)
          (accepted ms (step host p conf (deliver es) s))
  run-batches (m ∷ ms) s =
      run-batches ms (step host p conf m s)
      ∙ ap (λ l. l ++ accepted ms (step host p conf m s)) (other-batches m s tt)

-- With a buffer size that is not negative, in every run of the composed system from the start of the
-- program: the processor's state is that of its own loop on the cases it has taken, whose batches are
-- those handed over when it was at its `select`, in order; the pusher's state, and what it has pushed,
-- dropped and told, are those of its own loop on the cases it has taken; and the payloads that the
-- processor has sent are those that the pusher took, in order, followed by those still on their way. So by
-- any weight of the records, those of all payloads sent are delivered, lost with a failed push or a drop
-- of old logs, held by the pusher, or on their way to it; and what the pusher holds is framed.
pub system_refines :
    (w : Bytes → ℕ) (host : Host) (p : Processor) (conf : Conf) (k : ℕ) (g : Globals)
    (xs : List Move)
    → conf.buffer_size ≡ pos k
    → let s = run host p conf xs (initial g) in
      let sent = payloads (run_processor host p s.arrivals (initial g).processor).1 in
      ((run_processor host p s.arrivals (initial g).processor).0 ≡ s.processor)
      × (batches s.arrivals ≡ accepted host p conf xs (initial g))
      × ((run_pusher conf s.inputs start).0 ≡ s.pusher)
      × ((run_pusher conf s.inputs start).1 ≡ s.outputs)
      × (sent ≡ chunks s.inputs ++ payloads s.sending)
      × (weigh_all w sent
          ≡ delivered w s.outputs
            + (lost w s.outputs + (held w s.pusher + weigh_all w (payloads s.sending))))
      × IsWhole s.pusher
unfolding batches
system_refines w host p conf k g xs size =
    let s = run host p conf xs (initial g) in
    let t = run-Traced host p conf k size g xs (initial g) (initial-Traced host p conf k size g) in
    let (kept, whole) = Traced-Accounted w host p conf g s t in
    (t.processor, run-batches host p conf xs (initial g), t.pusher, t.done, t.channel, kept, whole)
