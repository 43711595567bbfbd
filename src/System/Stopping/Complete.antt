-- ===== src/System/Stopping/Complete.antt =====
-- The records of the program through `Worker.Stop`.
use edgedelta_lambda_extensi.Common.{
  ℕ, ◌≡◌, refl, pos, true, false, Option, none, some, List, [], ◌∷◌, ◌++◌, arith, All, subst, sym,
  ◌∙◌, ap, append-nil, if_either, length-zero,
}
use edgedelta_lambda_extensi.Text.Bytes.{Bytes}
use edgedelta_lambda_extensi.Host.{Host}
use edgedelta_lambda_extensi.Lambda.Events.{LambdaEvent}
use edgedelta_lambda_extensi.Processor.Types.{Globals}
use edgedelta_lambda_extensi.Processor.Loop.{
  Processor, Output as Sent, out, signal_runtime_done, stopped, stop as stop_processor,
}
use edgedelta_lambda_extensi.Processor.Batches.{payloads}
use edgedelta_lambda_extensi.Pusher.Loop.{
  Conf, State as PusherState, Input, is_running, on_expire, returned, step as step_pusher, ctx_done,
  flush_resp,
}
use edgedelta_lambda_extensi.Pipeline.{chunks}
use edgedelta_lambda_extensi.System.Steps.{
  System, Move, deliver, is_nil, step, run, push_input, processor_input, idle, pass, call,
  enter_pusher, enter_processor, finish, deadline, see_deadline, respond, take_force, leave,
  step_worker, finish_with, pass_deadline, pass_on,
}
use edgedelta_lambda_extensi.System.Calm.{initial, initial-Calm, Calm}
use edgedelta_lambda_extensi.System.Calm.Moves.{IsEarly, run-Calm}
use edgedelta_lambda_extensi.System.Refines.Cases.{Traced}
use edgedelta_lambda_extensi.System.Refines.Moves.{
  arrive-Traced, step-Traced, run-Traced, initial-Traced,
}
use edgedelta_lambda_extensi.System.Stopping.{
  Stopper, not_called, sleeping, closing, stopping_processor, awaiting_processor, stopping_pusher,
  awaiting_pusher, ended, Halting, StopMove, inner, call_stop, wake, server_down,
  enter_processor_stop, processor_down, enter_pusher_stop, pusher_down, inner_step, send_batch,
  take_stopped, close_server, send_stop_processor, send_stop_pusher, stop_step, moves,
}
use edgedelta_lambda_extensi.System.Stopping.Runs.{NoCall, moves-keep}
use edgedelta_lambda_extensi.System.Stopping.Halts.{
  Halts, Calm-Halts, inner-Halts, send-Halts, stop-Halts,
}
use edgedelta_lambda_extensi.System.Stopping.Flushed.{IsFlushed, stop-IsFlushed}

module _ (w : Bytes → ℕ) (host : Host) (p : Processor) (conf : Conf) (k : ℕ)
    (mode : conf.flush_at_next_invoke ≡ false) (size : conf.buffer_size ≡ pos k) (g : Globals) where
  -- Both loops go on, or the pusher has stopped and all is out.
  abbrev Holds : Stopper → System → Type 0
  Holds awaiting_pusher s = IsFlushed w host p g s
  Holds ended s = IsFlushed w host p g s
  Holds _ s = Traced host p conf g s

  abbrev Invariant : Stopper → System → Type 0
  Invariant t s = Halts t s × Holds t s

  inner-Traced :
      (m : Move) (s : System)
      → Traced host p conf g s
      → Traced host p conf g (inner_step host p conf m s)
  unfolding inner_step
  inner-Traced (deliver es) s h = h
  inner-Traced m s h = step-Traced host p conf k size g m s h

  -- A loop that has returned has no further outputs.
  input-outputs :
      (i : Input) (s : PusherState) → s.phase ≡ returned → step_pusher conf i s ≡ (s, [])
  unfolding step_pusher
  input-outputs i s e = ground arith

  -- A move after both loops have returned.
  inner-IsFlushed :
      (m : Move) (t : Stopper) (s : System)
      → s.processor.running ≡ false
      → s.pusher.phase ≡ returned
      → Halts t s
      → IsFlushed w host p g s
      → IsFlushed w host p g (inner_step host p conf m s)
  unfolding inner_step step step_worker finish_with pass_deadline on_expire pass_on push_input
      processor_input
  inner-IsFlushed (deliver es) t s r e c q = q
  inner-IsFlushed (pass ok) t s r e c q = ground arith
  inner-IsFlushed finish t s r e c q = ground arith
  inner-IsFlushed deadline t s r e c q = ground arith
  inner-IsFlushed (see_deadline ok) t s r e c q =
      ground (arith, append-nil s.outputs, input-outputs (ctx_done ok) s.pusher e)
  inner-IsFlushed (respond i ok) t s r e c q =
      ground (arith, append-nil s.outputs, input-outputs (flush_resp i ok) s.pusher e)
  inner-IsFlushed (take_force ok) t s r e c q = ground arith
  inner-IsFlushed (call j d) t s r e c q = ground arith
  inner-IsFlushed enter_pusher t s r e c q = ground arith
  inner-IsFlushed enter_processor t s r e c q = ground arith
  inner-IsFlushed leave t s r e c q = ground arith

  inner-Holds :
      (m : Move) (t : Stopper) (s : System)
      → NoCall (inner m)
      → Halts t s
      → Holds t s
      → Holds t (inner_step host p conf m s)
  inner-Holds m awaiting_pusher s n c h =
      inner-IsFlushed m awaiting_pusher s (c.stage.0) (c.stage.2) c h
  inner-Holds m ended s n c h = inner-IsFlushed m ended s (c.stage.0) (c.stage.2) c h
  inner-Holds m _ s n c h = inner-Traced m s h

  deliver-Holds :
      (es : List LambdaEvent) (t : Stopper) (s : System)
      → s.processor.running ≡ true
      → Halts t s
      → Holds t s
      → Holds t (step host p conf (deliver es) s)
  deliver-Holds es awaiting_pusher s r c h = absurd (ground arith)
  deliver-Holds es ended s r c h = absurd (ground arith)
  deliver-Holds es _ s r c h = step-Traced host p conf k size g (deliver es) s h

  send-Holds :
      (o : Option (List LambdaEvent × List (List LambdaEvent))) (h : Halting)
      → Halts h.stopper h.system
      → Holds h.stopper h.system
      → Holds (send_batch host p conf o h).stopper (send_batch host p conf o h).system
  unfolding send_batch
  send-Holds none h c q = q
  send-Holds (some (es, rest)) h c q =
      if_either (λ (u : Halting). Holds u.stopper u.system) (h.system.processor.running) _ _
        (λ r.
          if_either (λ (u : Halting). Holds u.stopper u.system) (is_nil h.system.sending) _ _
            (λ _. deliver-Holds es h.stopper h.system r c q) (λ _. q))
        (λ _. q)

  take-Holds :
      (os : List Sent) (h : Halting)
      → h.stopper ≡ awaiting_processor
      → h.system.sending ≡ os
      → Traced host p conf g h.system
      → Holds (take_stopped host p conf os h).stopper (take_stopped host p conf os h).system
  unfolding take_stopped payloads
  take-Holds [] h e f q = subst (λ u. Holds u h.system) (sym e) q
  take-Holds (out b ∷ os) h e f q = subst (λ u. Holds u h.system) (sym e) q
  take-Holds (signal_runtime_done ∷ os) h e f q = subst (λ u. Holds u h.system) (sym e) q
  take-Holds (stopped ∷ os) h e f t = record {
    processor = t.processor;
    pusher = t.pusher;
    done = t.done;
    channel = t.channel ∙ ap (λ os. chunks h.system.inputs ++ payloads os) f;
    runs = t.runs;
  }

  stop-Holds :
      (x : StopMove) (t : Stopper) (h : Halting)
      → h.stopper ≡ t
      → Halts t h.system
      → Holds t h.system
      → Holds (stop_step host p conf x t h).stopper (stop_step host p conf x t h).system
  unfolding stop_step close_server send_stop_processor send_stop_pusher
  stop-Holds call_stop not_called h e c q = q
  stop-Holds wake sleeping h e c q = q
  stop-Holds (server_down false) closing h e c q = q
  stop-Holds (server_down true) closing h e c q =
      if_either (λ (u : Halting). Holds u.stopper u.system) (is_nil h.posting) _ _ (λ _. q)
        (λ _. subst (λ u. Holds u h.system) (sym e) q)
  stop-Holds enter_processor_stop stopping_processor h e c q =
      if_either (λ (u : Halting). Holds u.stopper u.system) (is_nil h.system.sending) _ _
        (λ _.
          if_either (λ (u : Halting). Holds u.stopper u.system) (h.system.processor.running) _ _
            (λ _. arrive-Traced host p conf k size g (stop_processor []) h.system q)
            (λ _. subst (λ u. Holds u h.system) (sym e) q))
        (λ _. subst (λ u. Holds u h.system) (sym e) q)
  stop-Holds processor_down awaiting_processor h e c q = take-Holds h.system.sending h e refl q
  stop-Holds (enter_pusher_stop ok) stopping_pusher h e c q =
      if_either (λ (u : Halting). Holds u.stopper u.system) (is_nil h.system.telling) _ _
        (λ _.
          if_either (λ (u : Halting). Holds u.stopper u.system) (is_running h.system.pusher.phase) _
            _
            (λ _.
              stop-IsFlushed w host p conf g ok h.system (c.stage.1) (ground arith)
                (length-zero h.system.pusher.flights (ground arith)) (c.untold) q)
            (λ _. subst (λ u. Holds u h.system) (sym e) q))
        (λ _. subst (λ u. Holds u h.system) (sym e) q)
  stop-Holds pusher_down awaiting_pusher h e c q =
      if_either (λ (u : Halting). Holds u.stopper u.system) (is_nil h.system.telling) _ _ (λ _. q)
        (λ _. subst (λ u. Holds u h.system) (sym e) q)
  stop-Holds _ t h e c q = subst (λ u. Holds u h.system) (sym e) q

  moves-Invariant :
      (xs : List StopMove) (h : Halting)
      → All NoCall xs
      → Invariant h.stopper h.system
      → Invariant (moves host p conf xs h).stopper (moves host p conf xs h).system
  moves-Invariant =
      moves-keep host p conf (λ t s. Invariant t s)
        (λ m t s q c. (inner-Halts host p conf mode m t s q c.0, inner-Holds m t s q c.0 c.1))
        (λ o h c. (send-Halts host p conf mode o h c.0, send-Holds o h c.0 c.1))
        (λ x t h e c. (stop-Halts host p conf mode x t h e c.0, stop-Holds x t h e c.0 c.1))

  -- In the mode that flushes at the end of the runtime, with a buffer size that is not negative:
  -- take any run of the program without a deadline, up to a moment at which the worker is between
  -- two invocations and `Worker.Stop` has not been called, and anything that the parts, the network,
  -- the requests and the handlers do from there on, without another invocation. If `Worker.Stop` has
  -- returned at the end, then the state of the processor is that of its loop after all batches that
  -- it has received, the pusher's loop has returned, no payload is on its way to it or in flight,
  -- and by any weight of the records, those of all payloads that the processor has sent for these
  -- batches are the ones that the pusher has delivered, and lost with a failed push or a drop of
  -- old logs.
  pub stop_flushes :
      (ms : List Move) (h : Halting) (xs : List StopMove)
      → g.faas.request_id ≡ []
      → All IsEarly ms
      → h.system ≡ run host p conf ms (initial g)
      → h.system.worker ≡ idle
      → h.stopper ≡ not_called
      → All NoCall xs
      → (moves host p conf xs h).stopper ≡ ended
      → IsFlushed w host p g (moves host p conf xs h).system
  stop_flushes ms h xs q early at i t quiet done =
      let calm =
        subst Calm (sym at)
          (run-Calm host p conf k mode size ms (initial g) early (initial-Calm g q)) in
      let traced =
        subst (Traced host p conf g) (sym at)
          (run-Traced host p conf k size g ms (initial g) (initial-Traced host p conf k size g)) in
      let before = subst (λ s. Invariant s h.system) (sym t) (Calm-Halts h.system i calm, traced) in
      subst (λ s. Holds s (moves host p conf xs h).system) done
        (moves-Invariant xs h quiet before).1
