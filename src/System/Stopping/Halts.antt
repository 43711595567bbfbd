-- ===== src/System/Stopping/Halts.antt =====
-- What holds while `Worker.Stop` runs between two invocations.
use edgedelta_lambda_extensi.Common.{
  ℕ, ◌≤◌, ◌≡◌, refl, Bool, true, false, Option, none, some, List, [], ◌∷◌, arith, All, length,
  subst, sym,
}
use edgedelta_lambda_extensi.Text.Bytes.{Bytes}
use edgedelta_lambda_extensi.Host.{Host}
use edgedelta_lambda_extensi.Lambda.Events.{LambdaEvent}
use edgedelta_lambda_extensi.Processor.Loop.{
  Processor, Output as Sent, out, signal_runtime_done, stopped, step as step_processor, drain,
}
use edgedelta_lambda_extensi.Pusher.Loop.{
  Conf, State as PusherState, running, returned, pick, on_expire, step as step_pusher, on_input,
  signal_if_set, on_stop, on_ctx_done, push_buffer, ctx_done,
}
use edgedelta_lambda_extensi.System.Steps.{
  idle, System, Move, deliver, pass, call, enter_pusher, enter_processor, finish, deadline,
  see_deadline, respond, take_force, leave, is_nil, blocking, push_input, processor_input,
  to_pusher, pass_on, step_worker, finish_with, pass_deadline, step,
}
use edgedelta_lambda_extensi.System.Calm.{signal_count, no_stop, load, Calm}
use edgedelta_lambda_extensi.System.Calm.Parts.{deliver-load, chunk-load, respond-none}
use edgedelta_lambda_extensi.System.Stopping.{
  Stopper, not_called, sleeping, closing, stopping_processor, awaiting_processor, stopping_pusher,
  awaiting_pusher, ended, Halting, StopMove, inner, call_stop, wake, server_down,
  enter_processor_stop, processor_down, enter_pusher_stop, pusher_down, send_stop_processor,
  send_stop_pusher, inner_step, send_batch, take_stopped, close_server, stop_step, moves,
}
use edgedelta_lambda_extensi.System.Stopping.Runs.{NoCall, moves-keep}

-- The messages end with that of the stop, the only one.
unfoldable pub ends_stopped : List Sent → Bool
ends_stopped [] = false
ends_stopped (out b ∷ os) = ends_stopped os
ends_stopped (signal_runtime_done ∷ os) = false
ends_stopped (stopped ∷ os) = is_nil os

-- How far the two loops are.
abbrev pub Stage : Stopper → System → Type 0
Stage awaiting_processor s =
    (s.processor.running ≡ false) × (ends_stopped s.sending ≡ true) × (s.pusher.phase ≡ running)
Stage stopping_pusher s =
    (s.processor.running ≡ false) × (s.sending ≡ []) × (s.pusher.phase ≡ running)
Stage awaiting_pusher s =
    (s.processor.running ≡ false) × (s.sending ≡ []) × (s.pusher.phase ≡ returned)
Stage ended s = (s.processor.running ≡ false) × (s.sending ≡ []) × (s.pusher.phase ≡ returned)
Stage _ s = (s.processor.running ≡ true) × (no_stop s.sending ≡ true) × (s.pusher.phase ≡ running)

pub record Halts (t : Stopper) (s : System) : Type 0 where
  pub worker : s.worker ≡ idle
  pub quiet : load s ≤ 0
  pub untold : s.pusher.done_c ≡ none
  pub flag_clear : s.processor.runtime_done ≡ false
  pub not_forced : s.force_requested ≡ false
  pub stage : Stage t s

pub Calm-Halts : (s : System) → s.worker ≡ idle → Calm s → Halts not_called s
Calm-Halts s w c = ground arith

no_flights : (xs : List Bytes) (i : ℕ) → length xs ≤ 0 → pick i xs ≡ none
unfolding pick
no_flights [] i h = refl
no_flights (x ∷ xs) i h = absurd (omega arith)

-- A receive from a context that is done leaves the flights and the invocation.
ctx_done-keeps :
    (conf : Conf) (ok : Bool) (s : PusherState)
    → let r = step_pusher conf (ctx_done ok) s in
      (r.0.phase ≡ s.phase)
      × (r.0.flights ≡ s.flights)
      × (r.0.done_c ≡ s.done_c)
      × (blocking r.1 ≡ [])
unfolding step_pusher on_input on_ctx_done push_buffer blocking
ctx_done-keeps conf ok s = ground arith

module _ (host : Host) (p : Processor) (conf : Conf)
    (mode : conf.flush_at_next_invoke ≡ false) where
  pass-Halts :
      (ok : Bool) (os : List Sent) (t : Stopper) (s : System)
      → s.sending ≡ os
      → Halts t s
      → Halts t (pass_on host p conf ok os s)
  unfolding pass_on to_pusher push_input signal_count no_stop ends_stopped
  pass-Halts ok [] t s e c = c
  pass-Halts ok (out b ∷ rest) t s e c = ground (arith, chunk-load conf mode b s.pusher)
  pass-Halts ok (signal_runtime_done ∷ rest) t s e c = absurd (ground arith)
  pass-Halts ok (stopped ∷ rest) t s e c = c

  pub inner-Halts :
      (m : Move) (t : Stopper) (s : System)
      → NoCall (inner m)
      → Halts t s
      → Halts t (inner_step host p conf m s)
  unfolding inner_step step step_worker finish_with pass_deadline on_expire push_input blocking
  inner-Halts (deliver es) t s q c = c
  inner-Halts (pass ok) t s q c = pass-Halts ok s.sending t s refl c
  inner-Halts finish t s q c = ground arith
  inner-Halts deadline t s q c = ground arith
  inner-Halts (see_deadline ok) t s q c = ground (arith, ctx_done-keeps conf ok s.pusher)
  inner-Halts (respond i ok) t s q c =
      let r = respond-none conf mode i ok s.pusher (no_flights s.pusher.flights i (ground arith)) in
      ground arith
  inner-Halts (take_force ok) t s q c = ground arith
  inner-Halts (call j d) t s q c = absurd q
  inner-Halts enter_pusher t s q c = ground arith
  inner-Halts enter_processor t s q c = ground arith
  inner-Halts leave t s q c = ground arith

  pub send-Halts :
      (o : Option (List LambdaEvent × List (List LambdaEvent))) (h : Halting)
      → Halts h.stopper h.system
      → let g = send_batch host p conf o h in Halts g.stopper g.system
  unfolding send_batch step processor_input
  send-Halts none h c = c
  send-Halts (some (es, rest)) h c = ground (arith, deliver-load host p es h.system.processor)

  take-Halts :
      (os : List Sent) (h : Halting)
      → h.stopper ≡ awaiting_processor
      → h.system.sending ≡ os
      → Halts awaiting_processor h.system
      → let g = take_stopped host p conf os h in Halts g.stopper g.system
  unfolding take_stopped ends_stopped signal_count
  take-Halts [] h e f c = ground arith
  take-Halts (out b ∷ os) h e f c = ground arith
  take-Halts (signal_runtime_done ∷ os) h e f c = ground arith
  take-Halts (stopped ∷ os) h e f c = ground arith

  pub stop-Halts :
      (x : StopMove) (t : Stopper) (h : Halting)
      → h.stopper ≡ t
      → Halts t h.system
      → let g = stop_step host p conf x t h in Halts g.stopper g.system
  unfolding stop_step close_server send_stop_processor send_stop_pusher processor_input to_pusher
      push_input step_pusher on_input on_stop signal_if_set push_buffer blocking step_processor
      drain signal_count no_stop ends_stopped
  stop-Halts call_stop not_called h e c = ground arith
  stop-Halts wake sleeping h e c = ground arith
  stop-Halts (server_down false) closing h e c = ground arith
  stop-Halts (server_down true) closing h e c = ground arith
  stop-Halts enter_processor_stop stopping_processor h e c = ground arith
  stop-Halts processor_down awaiting_processor h e c = take-Halts h.system.sending h e refl c
  stop-Halts (enter_pusher_stop ok) stopping_pusher h e c = ground arith
  stop-Halts pusher_down awaiting_pusher h e c = ground arith
  stop-Halts _ t h e c = subst (λ t. Halts t h.system) (sym e) c

  pub moves-Halts :
      (xs : List StopMove) (h : Halting)
      → All NoCall xs
      → Halts h.stopper h.system
      → let g = moves host p conf xs h in Halts g.stopper g.system
  moves-Halts = moves-keep host p conf (λ t s. Halts t s) inner-Halts send-Halts stop-Halts
