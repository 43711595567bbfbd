-- ===== src/System/Steps.antt =====
-- `Worker.Invoke` of main.go, the loop of pushers/processor.go and the loop of pushers/pusher.go, as
-- they meet on unbuffered channels. A loop that has something to send receives nothing. The producer
-- and the network are outside: they may move at any time.
use edgedelta_lambda_extensi.Common.{ℕ, Bool, true, false, List, [], ◌∷◌, ◌++◌, if◌then◌else◌, ◌==◌}
use edgedelta_lambda_extensi.Text.Bytes.{Bytes}
use edgedelta_lambda_extensi.Host.{Host}
use edgedelta_lambda_extensi.Lambda.Events.{LambdaEvent}
use edgedelta_lambda_extensi.Processor.Loop.{
  Processor, State as ProcessorState, Input as Arrival, events, Output as Sent, out,
  signal_runtime_done, stopped, step as step_processor, invoke as set_invocation,
}
use edgedelta_lambda_extensi.Pusher.Loop.{
  Conf, State as PusherState, Input, chunk, runtime_done, ctx_done, expire, flush_resp, force_flush,
  invoke, Output, signal_done, step as step_pusher, on_expire, is_running,
}

-- Where `Worker.Invoke` stands, with the number of its invocation.
pub data Worker : Type 0 where
  -- In front of the next `NextEvent`.
  idle : Worker
  -- In `w.pusher.Invoke`.
  invoking_pusher : ℕ → Bytes → Worker
  -- In `w.processor.Invoke`.
  invoking_processor : ℕ → Bytes → Worker
  -- In the `select`.
  waiting : ℕ → Worker
  -- In `w.pusher.ForceFlush`.
  forcing : Worker

pub record System : Type 0 where
  pub worker : Worker
  pub processor : ProcessorState
  -- What the processor has still to send.
  pub sending : List Sent
  pub pusher : PusherState
  -- The invocations that the pusher has still to tell.
  pub telling : List ℕ
  -- The request in the buffer of `forceFlushing`.
  pub force_requested : Bool
  -- What has happened: the cases of the processor's loop and of the pusher's loop, in order, and what the
  -- pusher has pushed, dropped and told.
  pub arrivals : List Arrival
  pub inputs : List Input
  pub outputs : List Output

pub data Move : Type 0 where
  -- `p.outC <- events` of the producer
  deliver : List LambdaEvent → Move
  -- The processor's next send, with the outcome of the push that it may make.
  pass : Bool → Move
  -- The call of `Worker.Invoke`.
  call : ℕ → Bytes → Move
  -- `p.invokeC <- &invocation{…}` of the pusher
  enter_pusher : Move
  -- `p.invokeC <- e.RequestID` of the processor
  enter_processor : Move
  -- `<-doneC`, and the return
  finish : Move
  -- The deadline of the invocation's context.
  deadline : Move
  -- The pusher's case `<-ctx.Done()`.
  see_deadline : Bool → Move
  -- The pusher's case `<-flushRespC`.
  respond : ℕ → Bool → Move
  -- The pusher's case `<-p.forceFlushing`.
  take_force : Bool → Move
  -- The return of `ForceFlush`, answered or timed out, and that of `Invoke`.
  leave : Move

-- The sends of the pusher's loop that wait for a receiver.
unfoldable pub blocking : List Output → List ℕ
blocking [] = []
blocking (signal_done n ∷ os) = n ∷ blocking os
blocking (_ ∷ os) = blocking os

abbrev pub is_nil {ℓ} : {A : Type ℓ} → List A → Bool
is_nil [] = true
is_nil (x ∷ xs) = false

module _ (host : Host) (p : Processor) (conf : Conf) where
  -- A case of the pusher's loop, where it is at its `select`.
  unfoldable pub push_input : Input → System → System
  unfolding blocking
  push_input i s =
      let r = step_pusher conf i s.pusher in
      if is_nil s.telling
      then record s {
        pusher = r.0;
        telling = blocking r.1;
        inputs = s.inputs ++ i ∷ [];
        outputs = s.outputs ++ r.1;
      }
      else s

  -- A case of the processor's loop, where it is at its `select`.
  unfoldable pub processor_input : Arrival → System → System
  processor_input i s =
      let r = step_processor host p i s.processor in
      if is_nil s.sending
      then record s { processor = r.0; sending = r.1; arrivals = s.arrivals ++ i ∷ [] }
      else s

  -- A send to the pusher, which waits until the pusher is at its `select`.
  unfoldable pub to_pusher : Input → System → System → System
  unfolding push_input
  to_pusher i sent s =
      if is_nil s.telling then (if is_running s.pusher.phase then push_input i sent else s) else s

  unfoldable pub pass_on : Bool → List Sent → System → System
  unfolding to_pusher
  pass_on ok [] s = s
  pass_on ok (out b ∷ rest) s = to_pusher (chunk b) (record s { sending = rest }) s
  pass_on ok (signal_runtime_done ∷ rest) s =
      to_pusher (runtime_done ok) (record s { sending = rest }) s
  pass_on ok (stopped ∷ rest) s = s

  -- The context of the invocation is done.
  abbrev pub end_context : System → System
  end_context s = record s { pusher = (on_expire s.pusher).0; inputs = s.inputs ++ expire ∷ [] }

  unfoldable pub step_worker : Move → Worker → System → System
  unfolding to_pusher processor_input
  step_worker (call n id) idle s = record s { worker = invoking_pusher n id }
  step_worker enter_pusher (invoking_pusher n id) s =
      to_pusher (invoke n) (record s { worker = invoking_processor n id }) s
  step_worker enter_processor (invoking_processor n id) s =
      if is_nil s.sending
      then (if s.processor.running
          then processor_input (set_invocation id) (record s { worker = waiting n })
          else s)
      else s
  step_worker leave forcing s = record (end_context s) { worker = idle }
  step_worker _ w s = s

  -- `<-doneC`: the pusher's next send is for the invocation that waits. The return cancels the context.
  unfoldable pub finish_with : Worker → List ℕ → System → System
  finish_with (waiting n) (m ∷ rest) s =
      if m == n then record (end_context s) { worker = idle; telling = rest } else s
  finish_with _ _ s = s

  -- The context is done; `Worker.Invoke` goes on to `ForceFlush` if it is in its `select`.
  unfoldable pub pass_deadline : Worker → System → System
  pass_deadline (waiting n) s = record (end_context s) { worker = forcing; force_requested = true }
  pass_deadline _ s = end_context s

  unfoldable pub step : Move → System → System
  unfolding processor_input push_input pass_on step_worker finish_with pass_deadline
  step (deliver es) s = processor_input (events es) s
  step (pass ok) s = pass_on ok s.sending s
  step finish s = finish_with s.worker s.telling s
  step deadline s = pass_deadline s.worker s
  step (see_deadline ok) s = push_input (ctx_done ok) s
  step (respond i ok) s = push_input (flush_resp i ok) s
  step (take_force ok) s =
      if s.force_requested
      then (if is_nil s.telling
          then push_input (force_flush ok) (record s { force_requested = false })
          else s)
      else s
  step (call n id) s = step_worker (call n id) s.worker s
  step enter_pusher s = step_worker enter_pusher s.worker s
  step enter_processor s = step_worker enter_processor s.worker s
  step leave s = step_worker leave s.worker s

  unfoldable pub run : List Move → System → System
  run [] s = s
  run (m ∷ ms) s = run ms (step m s)
