-- ===== src/System/Stopping/Lost.antt =====
-- The handlers of handlers/producer.go behind the stop of the processor.
use edgedelta_lambda_extensi.Common.{
  ℕ, ◌+◌, ◌≡◌, inl, inr, refl, Bool, true, false, some, List, [], ◌∷◌, ◌++◌, arith, length,
  length-append, Option-cases, ap, ◌∙◌,
}
use edgedelta_lambda_extensi.Host.{Host}
use edgedelta_lambda_extensi.Lambda.Events.{LambdaEvent}
use edgedelta_lambda_extensi.Processor.Loop.{
  Processor, State as ProcessorState, Output as Sent, out, signal_runtime_done, stopped,
}
use edgedelta_lambda_extensi.Pusher.Loop.{Conf, pick}
use edgedelta_lambda_extensi.System.Steps.{
  System, Move, deliver, pass, call, enter_pusher, enter_processor, finish, deadline, see_deadline,
  respond, take_force, leave, push_input, processor_input, to_pusher, pass_on, step_worker,
  finish_with, pass_deadline, step,
}
use edgedelta_lambda_extensi.System.Calm.Parts.{pick-shorter}
use edgedelta_lambda_extensi.System.Stopping.{
  Stopper, not_called, sleeping, closing, stopping_processor, awaiting_processor, stopping_pusher,
  awaiting_pusher, Halting, StopMove, inner, post, hand_over, call_stop, wake, server_down,
  enter_processor_stop, processor_down, enter_pusher_stop, pusher_down, send_stop_processor,
  send_stop_pusher, inner_step, send_batch, take_stopped, close_server, stop_step, move, moves,
}

-- How many batches wait for a receiver, or did when the channel was closed.
abbrev pub unreceived : Halting → ℕ
unreceived h = length h.posting + length h.crashed

record IsClosed (q : ProcessorState) (n : ℕ) (h : Halting) : Type 0 where
  processor : h.system.processor ≡ q
  refusing : h.accepting ≡ false
  count : unreceived h ≡ n

module _ (host : Host) (p : Processor) (conf : Conf) where
  pass-processor :
      (ok : Bool) (os : List Sent) (s : System)
      → (pass_on host p conf ok os s).processor ≡ s.processor
  unfolding pass_on to_pusher push_input
  pass-processor ok [] s = refl
  pass-processor ok (out b ∷ os) s = ground arith
  pass-processor ok (signal_runtime_done ∷ os) s = ground arith
  pass-processor ok (stopped ∷ os) s = refl

  pub inner-processor :
      (m : Move) (s : System)
      → s.processor.running ≡ false
      → (inner_step host p conf m s).processor ≡ s.processor
  unfolding inner_step step to_pusher push_input step_worker finish_with pass_deadline
  inner-processor (deliver es) s h = refl
  inner-processor (pass ok) s h = pass-processor ok s.sending s
  inner-processor finish s h = ground arith
  inner-processor deadline s h = ground arith
  inner-processor (see_deadline ok) s h = ground arith
  inner-processor (respond i ok) s h = ground arith
  inner-processor (take_force ok) s h = ground arith
  inner-processor (call j d) s h = ground arith
  inner-processor enter_pusher s h = ground arith
  inner-processor enter_processor s h = ground arith
  inner-processor leave s h = ground arith

module _ (host : Host) (p : Processor) (conf : Conf) (q : ProcessorState) (off : q.running ≡ false)
    (n : ℕ) where
  send-IsClosed :
      (i : ℕ) (h : Halting)
      → IsClosed q n h
      → IsClosed q n (send_batch host p conf (pick i h.posting) h)
  unfolding send_batch
  send-IsClosed i h c = elim (Option-cases (pick i h.posting)) [
    | inl e ↦ ground arith
    | inr ((es, rest), e) ↦
        ground (arith, pick-shorter i h.posting es rest e, length-append h.crashed (es ∷ []))
  ]

  take-IsClosed :
      (os : List Sent) (h : Halting) → IsClosed q n h → IsClosed q n (take_stopped host p conf os h)
  unfolding take_stopped
  take-IsClosed [] h c = c
  take-IsClosed (out b ∷ os) h c = c
  take-IsClosed (signal_runtime_done ∷ os) h c = c
  take-IsClosed (stopped ∷ os) h c = ground arith

  stop-IsClosed :
      (x : StopMove) (t : Stopper) (h : Halting)
      → IsClosed q n h
      → IsClosed q n (stop_step host p conf x t h)
  unfolding stop_step close_server send_stop_processor send_stop_pusher processor_input to_pusher
      push_input
  stop-IsClosed call_stop not_called h c = ground arith
  stop-IsClosed wake sleeping h c = ground arith
  stop-IsClosed (server_down false) closing h c = ground arith
  stop-IsClosed (server_down true) closing h c = ground arith
  stop-IsClosed enter_processor_stop stopping_processor h c = ground arith
  stop-IsClosed processor_down awaiting_processor h c = take-IsClosed h.system.sending h c
  stop-IsClosed (enter_pusher_stop ok) stopping_pusher h c = ground arith
  stop-IsClosed pusher_down awaiting_pusher h c = ground arith
  stop-IsClosed _ t h c = c

  move-IsClosed :
      (x : StopMove) (h : Halting) → IsClosed q n h → IsClosed q n (move host p conf x h)
  unfolding move
  move-IsClosed (inner m) h c = ground (arith, inner-processor host p conf m h.system)
  move-IsClosed (post es) h c = ground arith
  move-IsClosed (hand_over i) h c = send-IsClosed i h c
  move-IsClosed call_stop h c = stop-IsClosed call_stop h.stopper h c
  move-IsClosed wake h c = stop-IsClosed wake h.stopper h c
  move-IsClosed (server_down ok) h c = stop-IsClosed (server_down ok) h.stopper h c
  move-IsClosed enter_processor_stop h c = stop-IsClosed enter_processor_stop h.stopper h c
  move-IsClosed processor_down h c = stop-IsClosed processor_down h.stopper h c
  move-IsClosed (enter_pusher_stop ok) h c = stop-IsClosed (enter_pusher_stop ok) h.stopper h c
  move-IsClosed pusher_down h c = stop-IsClosed pusher_down h.stopper h c

  moves-IsClosed :
      (xs : List StopMove) (h : Halting) → IsClosed q n h → IsClosed q n (moves host p conf xs h)
  unfolding moves
  moves-IsClosed [] h c = c
  moves-IsClosed (x ∷ xs) h c = moves-IsClosed xs (move host p conf x h) (move-IsClosed x h c)

module _ (host : Host) (p : Processor) (conf : Conf) where
  hand_over-crashes :
      (i : ℕ) (es : List LambdaEvent) (rest : List (List LambdaEvent)) (h : Halting)
      → h.system.processor.running ≡ false
      → pick i h.posting ≡ some (es, rest)
      → (move host p conf (hand_over i) h).crashed ≡ h.crashed ++ es ∷ []
  unfolding move send_batch
  hand_over-crashes i es rest h off at = ground arith

  -- Once the processor has stopped and the server takes no requests: whatever happens from then on,
  -- the processor does not change, and the number of batches that stand at its channel or are those
  -- of handlers that panicked there stays the same. A handler that still stands there panics when it
  -- goes on, and its batch is added to these.
  pub late_batches_lost :
      (h : Halting) (xs : List StopMove) (i : ℕ) (es : List LambdaEvent)
      (rest : List (List LambdaEvent))
      → h.system.processor.running ≡ false
      → h.accepting ≡ false
      → pick i (moves host p conf xs h).posting ≡ some (es, rest)
      → let g = moves host p conf xs h in
        (g.system.processor ≡ h.system.processor)
        × (unreceived g ≡ unreceived h)
        × ((move host p conf (hand_over i) g).crashed ≡ g.crashed ++ es ∷ [])
  late_batches_lost h xs i es rest off refusing at =
      let start : IsClosed h.system.processor (unreceived h) h = record {
        processor = refl;
        refusing = refusing;
        count = refl;
      } in
      let c = moves-IsClosed host p conf h.system.processor off (unreceived h) xs h start in
      (
        c.processor,
        c.count,
        hand_over-crashes i es rest (moves host p conf xs h)
            (ap (λ (q : ProcessorState). q.running) (c.processor) ∙ off) at,
      )
