-- ===== src/System/Stopping/Hangs.antt =====
-- `Worker.Stop` behind an invocation that reached its deadline.
use edgedelta_lambda_extensi.Common.{
  ℕ, ◌≡◌, ◌≢◌, ◌⊎◌, inl, inr, Bool, true, false, Option, none, some, List, [], ◌∷◌, arith, All,
  Option-cases, subst, sym,
}
use edgedelta_lambda_extensi.Host.{Host}
use edgedelta_lambda_extensi.Lambda.Events.{LambdaEvent}
use edgedelta_lambda_extensi.Processor.Loop.{
  Processor, Output as Sent, out, signal_runtime_done, stopped,
}
use edgedelta_lambda_extensi.Pusher.Loop.{
  Conf, State as PusherState, running, panicked, pick, on_expire, step as step_pusher, on_input,
  on_flush_resp, finish_flush, failed_flush, on_response, signal_if_set, on_stop, on_runtime_done,
  on_ctx_done, on_force_flush, push_buffer, stop as stop_pusher, Input, chunk, runtime_done, expire,
  invoke, Output, ctx_done, flush_resp, force_flush,
}
use edgedelta_lambda_extensi.Pusher.Flush.{dropped_bytes}
use edgedelta_lambda_extensi.System.Steps.{
  Worker, idle, waiting, forcing, System, Move, deliver, pass, call, enter_pusher, enter_processor,
  finish, deadline, see_deadline, respond, take_force, leave, blocking, push_input, processor_input,
  to_pusher, pass_on, step_worker, finish_with, pass_deadline, step,
}
use edgedelta_lambda_extensi.System.Stopping.Runs.{NoCall, moves-keep}
use edgedelta_lambda_extensi.System.Stopping.{
  Stopper, not_called, sleeping, closing, stopping_processor, awaiting_processor, stopping_pusher,
  awaiting_pusher, ended, Halting, StopMove, inner, call_stop, wake, server_down,
  enter_processor_stop, processor_down, enter_pusher_stop, pusher_down, send_stop_processor,
  send_stop_pusher, inner_step, send_batch, take_stopped, close_server, stop_step, move, moves,
}

-- The invocation's `select` is over.
abbrev Over : Worker → Type 0
Over idle = Unit
Over forcing = Unit
Over _ = ⊥

abbrev Before : Stopper → Type 0
Before awaiting_pusher = ⊥
Before ended = ⊥
Before _ = Unit

-- The pusher's loop has the invocation to tell, or will have it when it stops, or is gone.
record IsHung (n : ℕ) (t : Stopper) (s : System) : Type 0 where
  worker : Over s.worker
  unended : t ≢ ended
  pusher :
      (s.telling ≡ n ∷ [])
      ⊎ ((s.telling ≡ []) × (s.pusher.done_c ≡ some n) × (s.pusher.phase ≡ running) × Before t)
      ⊎ ((s.telling ≡ []) × (s.pusher.phase ≡ panicked) × Before t)

-- What a case of the pusher's loop leaves of an invocation to tell.
abbrev Kept : ℕ → PusherState × List Output → Type 0
Kept n r =
    ((r.0.done_c ≡ some n) × (r.0.phase ≡ running) × (blocking r.1 ≡ []))
    ⊎ ((r.0.phase ≡ panicked) × (blocking r.1 ≡ []))
    ⊎ (blocking r.1 ≡ n ∷ [])

abbrev Between : Input → Type 0
Between (invoke n) = ⊥
Between (stop_pusher ok) = ⊥
Between _ = Unit

module _ (conf : Conf) where
  response-Kept :
      (i : ℕ) (ok : Bool) (n : ℕ) (s : PusherState)
      → s.phase ≡ running
      → s.done_c ≡ some n
      → Kept n (step_pusher conf (flush_resp i ok) s)
  unfolding step_pusher on_input on_flush_resp finish_flush failed_flush on_response signal_if_set
      blocking
  response-Kept i ok n s h d = elim (Option-cases (pick i s.flights)) [
    | inl e ↦ ground arith
    | inr ((payload, rest), e) ↦ elim (Option-cases (dropped_bytes conf.buffer_size payload)) [
      | inl f ↦ ground arith
      | inr (m, f) ↦ ground arith
    ]
  ]

  step-Kept :
      (i : Input) (n : ℕ) (s : PusherState)
      → Between i
      → s.phase ≡ running
      → s.done_c ≡ some n
      → Kept n (step_pusher conf i s)
  unfolding step_pusher on_input on_runtime_done on_ctx_done on_force_flush push_buffer on_expire
      blocking
  step-Kept (chunk b) n s q h d = ground arith
  step-Kept (runtime_done ok) n s q h d = ground arith
  step-Kept expire n s q h d = ground arith
  step-Kept (ctx_done ok) n s q h d = ground arith
  step-Kept (flush_resp i ok) n s q h d = response-Kept i ok n s h d
  step-Kept (force_flush ok) n s q h d = ground arith
  step-Kept (invoke m) n s q h d = absurd q
  step-Kept (stop_pusher ok) n s q h d = absurd q

module _ (host : Host) (p : Processor) (conf : Conf) (n : ℕ) where
  push-IsHung :
      (i : Input) (t : Stopper) (s : System)
      → Between i
      → IsHung n t s
      → IsHung n t (push_input host p conf i s)
  unfolding push_input step_pusher blocking
  push-IsHung i t s q c = elim (c.pusher) [
    | inl e ↦ ground arith
    | inr (inl (e, d, r, b)) ↦ let k = step-Kept conf i n s.pusher q r d in ground arith
    | inr (inr (e, r, b)) ↦ ground arith
  ]

  pass-IsHung :
      (ok : Bool) (os : List Sent) (t : Stopper) (s : System)
      → IsHung n t s
      → IsHung n t (pass_on host p conf ok os s)
  unfolding pass_on to_pusher
  pass-IsHung ok [] t s c = c
  pass-IsHung ok (out b ∷ os) t s c =
      let c' : IsHung n t (record s { sending = os }) = ground arith in
      let r = push-IsHung (chunk b) t (record s { sending = os }) tt c' in ground arith
  pass-IsHung ok (signal_runtime_done ∷ os) t s c =
      let c' : IsHung n t (record s { sending = os }) = ground arith in
      let r = push-IsHung (runtime_done ok) t (record s { sending = os }) tt c' in ground arith
  pass-IsHung ok (stopped ∷ os) t s c = c

  inner-IsHung :
      (m : Move) (t : Stopper) (s : System)
      → NoCall (inner m)
      → IsHung n t s
      → IsHung n t (inner_step host p conf m s)
  unfolding inner_step step to_pusher step_worker finish_with pass_deadline processor_input
      on_expire
  inner-IsHung (deliver es) t s q c = c
  inner-IsHung (pass ok) t s q c = pass-IsHung ok s.sending t s c
  inner-IsHung finish t s q c = ground arith
  inner-IsHung deadline t s q c = ground arith
  inner-IsHung (see_deadline ok) t s q c = push-IsHung (ctx_done ok) t s tt c
  inner-IsHung (respond i ok) t s q c = push-IsHung (flush_resp i ok) t s tt c
  inner-IsHung (take_force ok) t s q c =
      let c' : IsHung n t (record s { force_requested = false }) = ground arith in
      let r = push-IsHung (force_flush ok) t (record s { force_requested = false }) tt c' in
      ground arith
  inner-IsHung (call j d) t s q c = absurd q
  inner-IsHung enter_pusher t s q c = ground arith
  inner-IsHung enter_processor t s q c = ground arith
  inner-IsHung leave t s q c = ground arith

  send-IsHung :
      (o : Option (List LambdaEvent × List (List LambdaEvent))) (h : Halting)
      → IsHung n h.stopper h.system
      → let g = send_batch host p conf o h in IsHung n g.stopper g.system
  unfolding send_batch step processor_input
  send-IsHung none h c = c
  send-IsHung (some (es, rest)) h c = ground arith

  take-IsHung :
      (os : List Sent) (h : Halting)
      → h.stopper ≡ awaiting_processor
      → IsHung n awaiting_processor h.system
      → let g = take_stopped host p conf os h in IsHung n g.stopper g.system
  unfolding take_stopped
  take-IsHung [] h e c = ground arith
  take-IsHung (out b ∷ os) h e c = ground arith
  take-IsHung (signal_runtime_done ∷ os) h e c = ground arith
  take-IsHung (stopped ∷ os) h e c = ground arith

  stop-IsHung :
      (x : StopMove) (t : Stopper) (h : Halting)
      → h.stopper ≡ t
      → IsHung n t h.system
      → let g = stop_step host p conf x t h in IsHung n g.stopper g.system
  unfolding stop_step close_server send_stop_processor send_stop_pusher processor_input to_pusher
      push_input step_pusher on_input on_stop signal_if_set push_buffer blocking
  stop-IsHung call_stop not_called h e c = ground arith
  stop-IsHung wake sleeping h e c = ground arith
  stop-IsHung (server_down false) closing h e c = ground arith
  stop-IsHung (server_down true) closing h e c = ground arith
  stop-IsHung enter_processor_stop stopping_processor h e c = ground arith
  stop-IsHung processor_down awaiting_processor h e c = take-IsHung h.system.sending h e c
  stop-IsHung (enter_pusher_stop ok) stopping_pusher h e c = ground arith
  stop-IsHung pusher_down awaiting_pusher h e c = ground arith
  stop-IsHung _ t h e c = subst (λ t. IsHung n t h.system) (sym e) c

  moves-IsHung :
      (xs : List StopMove) (h : Halting)
      → All NoCall xs
      → IsHung n h.stopper h.system
      → let g = moves host p conf xs h in IsHung n g.stopper g.system
  moves-IsHung = moves-keep host p conf (λ t s. IsHung n t s) inner-IsHung send-IsHung stop-IsHung

  deadline-IsHung :
      (h : Halting)
      → h.system.worker ≡ waiting n
      → h.system.telling ≡ []
      → h.system.pusher.done_c ≡ some n
      → h.system.pusher.phase ≡ running
      → h.stopper ≡ not_called
      → let g = move host p conf (inner deadline) h in IsHung n g.stopper g.system
  unfolding move inner_step step pass_deadline on_expire
  deadline-IsHung h w f d r t = ground arith

  -- Let the worker wait for the end of its invocation, the pusher's loop run with the invocation's
  -- channel and nothing to tell, and `Worker.Stop` not have been called. If the invocation reaches
  -- its deadline now, then `Worker.Stop` never returns from there on, whatever the parts, the
  -- network and the handlers do, as long as no other invocation starts.
  pub stop_hangs :
      (h : Halting) (xs : List StopMove)
      → h.system.worker ≡ waiting n
      → h.system.telling ≡ []
      → h.system.pusher.done_c ≡ some n
      → h.system.pusher.phase ≡ running
      → h.stopper ≡ not_called
      → All NoCall xs
      → (moves host p conf (inner deadline ∷ xs) h).stopper ≢ ended
  unfolding moves
  stop_hangs h xs w f d r t q =
      (moves-IsHung xs (move host p conf (inner deadline) h) q
        (deadline-IsHung h w f d r t)).unended
