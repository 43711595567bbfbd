-- ===== src/System/Stopping/Ends.antt =====
-- `Worker.Stop` between two invocations.
use edgedelta_lambda_extensi.Common.{
  ℕ, ◌≡◌, refl, true, false, List, [], ◌∷◌, arith, All, pos, subst, sym, ◌∙◌,
}
use edgedelta_lambda_extensi.Host.{Host}
use edgedelta_lambda_extensi.Processor.Types.{Globals}
use edgedelta_lambda_extensi.Processor.Loop.{
  Processor, Output as Sent, out, signal_runtime_done, stopped,
}
use edgedelta_lambda_extensi.Pusher.Loop.{Conf, is_running}
use edgedelta_lambda_extensi.System.Steps.{
  idle, Move, pass, to_pusher, push_input, pass_on, step, run,
}
use edgedelta_lambda_extensi.System.Calm.{signal_count, no_stop, Calm, initial, initial-Calm}
use edgedelta_lambda_extensi.System.Calm.Moves.{IsEarly, run-Calm}
use edgedelta_lambda_extensi.System.Stopping.{
  Stopper, not_called, sleeping, closing, stopping_processor, awaiting_processor, stopping_pusher,
  awaiting_pusher, ended, Halting, StopMove, inner, post, hand_over, call_stop, wake, server_down,
  enter_processor_stop, processor_down, enter_pusher_stop, pusher_down, send_stop_processor,
  send_stop_pusher, inner_step, take_stopped, close_server, stop_step, move, moves,
}
use edgedelta_lambda_extensi.System.Stopping.Runs.{NoCall}
use edgedelta_lambda_extensi.System.Stopping.Halts.{Halts, ends_stopped, Calm-Halts, moves-Halts}

-- The moves of `Worker.Stop` and the sends of the processor, which need nothing from outside but the
-- end of a timeout.
abbrev pub IsOwn : StopMove → Type 0
IsOwn (inner (pass ok)) = Unit
IsOwn (inner m) = ⊥
IsOwn (post es) = ⊥
IsOwn (hand_over i) = ⊥
IsOwn _ = Unit

module _ (host : Host) (p : Processor) (conf : Conf) where
  -- Such moves lead to the return of `Worker.Stop`.
  abbrev pub Ends : Halting → Type 0
  Ends h = (xs : List StopMove) × All IsOwn xs × ((moves host p conf xs h).stopper ≡ ended)

  ends_after : (x : StopMove) (h : Halting) → IsOwn x → Ends (move host p conf x h) → Ends h
  unfolding moves
  ends_after x h i (xs, is, e) = (x ∷ xs, (i, is), e)

module _ (host : Host) (p : Processor) (conf : Conf)
    (mode : conf.flush_at_next_invoke ≡ false) where
  keeps :
      (x : StopMove) (h : Halting)
      → NoCall x
      → Halts h.stopper h.system
      → let g = move host p conf x h in Halts g.stopper g.system
  unfolding moves
  keeps x h q c = moves-Halts host p conf mode (x ∷ []) h (q, tt) c

  -- The processor's next send.
  pass-next :
      (x : Sent) (os : List Sent) (h : Halting)
      → h.system.sending ≡ x ∷ os
      → h.system.telling ≡ []
      → is_running h.system.pusher.phase ≡ true
      → (x ≡ stopped → ⊥)
      → let g = move host p conf (inner (pass true)) h in
        (g.stopper ≡ h.stopper) × (g.system.sending ≡ os)
  unfolding move inner_step step pass_on to_pusher push_input
  pass-next (out b) os h e f r q = ground arith
  pass-next signal_runtime_done os h e f r q = ground arith
  pass-next stopped os h e f r q = absurd (q refl)

  pusher_down-next :
      (h : Halting)
      → h.stopper ≡ awaiting_pusher
      → Halts h.stopper h.system
      → (move host p conf pusher_down h).stopper ≡ ended
  unfolding move stop_step
  pusher_down-next h e c = ground arith

  enter_pusher_stop-next :
      (h : Halting)
      → h.stopper ≡ stopping_pusher
      → Halts h.stopper h.system
      → (move host p conf (enter_pusher_stop true) h).stopper ≡ awaiting_pusher
  unfolding move stop_step send_stop_pusher
  enter_pusher_stop-next h e c = ground arith

  processor_down-next :
      (h : Halting)
      → h.stopper ≡ awaiting_processor
      → h.system.sending ≡ stopped ∷ []
      → (move host p conf processor_down h).stopper ≡ stopping_pusher
  unfolding move stop_step take_stopped
  processor_down-next h e f = ground arith

  enter_processor_stop-next :
      (h : Halting)
      → h.stopper ≡ stopping_processor
      → h.system.sending ≡ []
      → Halts h.stopper h.system
      → (move host p conf enter_processor_stop h).stopper ≡ awaiting_processor
  unfolding move stop_step send_stop_processor
  enter_processor_stop-next h e f c = ground arith

  server_down-next :
      (h : Halting)
      → h.stopper ≡ closing
      → (move host p conf (server_down false) h).stopper ≡ stopping_processor
  unfolding move stop_step close_server
  server_down-next h e = ground arith

  wake-next : (h : Halting) → h.stopper ≡ sleeping → (move host p conf wake h).stopper ≡ closing
  unfolding move stop_step
  wake-next h e = ground arith

  call_stop-next :
      (h : Halting) → h.stopper ≡ not_called → (move host p conf call_stop h).stopper ≡ sleeping
  unfolding move stop_step
  call_stop-next h e = ground arith

  go_ended : (h : Halting) → h.stopper ≡ ended → Ends host p conf h
  unfolding moves
  go_ended h e = ([], tt, e)

  -- A move, and what follows it.
  go :
      (x : StopMove) (h : Halting)
      → IsOwn x
      → NoCall x
      → Halts h.stopper h.system
      → (Halts (move host p conf x h).stopper (move host p conf x h).system
          → Ends host p conf (move host p conf x h))
      → Ends host p conf h
  go x h i q c rest = ends_after host p conf x h i (rest (keeps x h q c))

  go_awaiting_pusher :
      (h : Halting) → h.stopper ≡ awaiting_pusher → Halts h.stopper h.system → Ends host p conf h
  go_awaiting_pusher h e c = go pusher_down h tt tt c (λ c'. go_ended _ (pusher_down-next h e c))

  go_stopping_pusher :
      (h : Halting) → h.stopper ≡ stopping_pusher → Halts h.stopper h.system → Ends host p conf h
  go_stopping_pusher h e c =
      go (enter_pusher_stop true) h tt tt c
        (λ c'. go_awaiting_pusher _ (enter_pusher_stop-next h e c) c')

  go_awaiting_processor :
      (os : List Sent) (h : Halting)
      → h.system.sending ≡ os
      → h.stopper ≡ awaiting_processor
      → Halts h.stopper h.system
      → Ends host p conf h
  unfolding ends_stopped signal_count
  go_awaiting_processor [] h f e c = absurd (ground arith)
  go_awaiting_processor (out b ∷ os) h f e c =
      let (e', f') = pass-next (out b) os h f (ground arith) (ground arith) (λ x. cc x) in
      go (inner (pass true)) h tt tt c (λ c'. go_awaiting_processor os _ f' (e' ∙ e) c')
  go_awaiting_processor (signal_runtime_done ∷ os) h f e c = absurd (ground arith)
  go_awaiting_processor (stopped ∷ os) h f e c =
      go processor_down h tt tt c
        (λ c'. go_stopping_pusher _ (processor_down-next h e (ground arith)) c')

  go_stopping_processor :
      (os : List Sent) (h : Halting)
      → h.system.sending ≡ os
      → h.stopper ≡ stopping_processor
      → Halts h.stopper h.system
      → Ends host p conf h
  unfolding no_stop signal_count
  go_stopping_processor [] h f e c =
      go enter_processor_stop h tt tt c
        (λ c'. go_awaiting_processor _ _ refl (enter_processor_stop-next h e f c) c')
  go_stopping_processor (out b ∷ os) h f e c =
      let (e', f') = pass-next (out b) os h f (ground arith) (ground arith) (λ x. cc x) in
      go (inner (pass true)) h tt tt c (λ c'. go_stopping_processor os _ f' (e' ∙ e) c')
  go_stopping_processor (signal_runtime_done ∷ os) h f e c = absurd (ground arith)
  go_stopping_processor (stopped ∷ os) h f e c = absurd (ground arith)

  go_closing : (h : Halting) → h.stopper ≡ closing → Halts h.stopper h.system → Ends host p conf h
  go_closing h e c =
      go (server_down false) h tt tt c
        (λ c'. go_stopping_processor _ _ refl (server_down-next h e) c')

  go_sleeping : (h : Halting) → h.stopper ≡ sleeping → Halts h.stopper h.system → Ends host p conf h
  go_sleeping h e c = go wake h tt tt c (λ c'. go_closing _ (wake-next h e) c')

  all_end :
      (t : Stopper) (h : Halting) → h.stopper ≡ t → Halts h.stopper h.system → Ends host p conf h
  all_end not_called h e c = go call_stop h tt tt c (λ c'. go_sleeping _ (call_stop-next h e) c')
  all_end sleeping h e c = go_sleeping h e c
  all_end closing h e c = go_closing h e c
  all_end stopping_processor h e c = go_stopping_processor _ h refl e c
  all_end awaiting_processor h e c = go_awaiting_processor _ h refl e c
  all_end stopping_pusher h e c = go_stopping_pusher h e c
  all_end awaiting_pusher h e c = go_awaiting_pusher h e c
  all_end ended h e c = go_ended h e

module _ (host : Host) (p : Processor) (conf : Conf) (k : ℕ)
    (mode : conf.flush_at_next_invoke ≡ false) (size : conf.buffer_size ≡ pos k) where
  -- In the mode that flushes at the end of the runtime, with a buffer size that is not negative:
  -- take any run of the program without a deadline, up to a moment at which the worker is between
  -- two invocations and `Worker.Stop` has not been called. Then whatever the parts, the network, the
  -- requests and the handlers do from there on, and however far the stop is, as long as no other
  -- invocation starts, moves of the stop and sends of the processor lead to the return of
  -- `Worker.Stop`.
  pub stop_returns :
      (g : Globals) (ms : List Move) (h : Halting) (xs : List StopMove)
      → g.faas.request_id ≡ []
      → All IsEarly ms
      → h.system ≡ run host p conf ms (initial g)
      → h.system.worker ≡ idle
      → h.stopper ≡ not_called
      → All NoCall xs
      → Ends host p conf (moves host p conf xs h)
  stop_returns g ms h xs q early at w t quiet =
      let calm =
        subst Calm (sym at)
          (run-Calm host p conf k mode size ms (initial g) early (initial-Calm g q)) in
      let c = subst (λ s. Halts s h.system) (sym t) (Calm-Halts h.system w calm) in
      all_end host p conf mode _ (moves host p conf xs h) refl
        (moves-Halts host p conf mode xs h quiet c)
