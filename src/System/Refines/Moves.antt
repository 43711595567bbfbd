-- ===== src/System/Refines/Moves.antt =====
-- The moves of the composed system, as inputs of the two loops.
use edgedelta_lambda_extensi.Common.{
  append-nil, ℕ, ◌≡◌, refl, pos, Bool, true, false, List, [], ◌∷◌, ◌++◌, arith, sym, ◌∙◌, ap,
  if_either, ◌==◌,
}
use edgedelta_lambda_extensi.Host.{Host}
use edgedelta_lambda_extensi.Processor.Types.{Globals}
use edgedelta_lambda_extensi.Processor.Loop.{
  Processor, Input as Arrival, events, Output as Sent, out, signal_runtime_done, stopped,
  run as run_processor, invoke as set_invocation,
}
use edgedelta_lambda_extensi.Processor.Batches.{payloads}
use edgedelta_lambda_extensi.Pusher.Loop.{
  Conf, State as PusherState, Input, chunk, runtime_done, expire, ctx_done, flush_resp, invoke,
  force_flush, is_running, step as step_pusher, run as run_pusher, on_input, on_expire,
}
use edgedelta_lambda_extensi.Pipeline.{chunks}
use edgedelta_lambda_extensi.System.Steps.{
  Worker, idle, invoking_pusher, invoking_processor, waiting, forcing, System, Move, deliver, pass,
  call, enter_pusher, enter_processor, finish, deadline, see_deadline, respond, take_force, leave,
  is_nil, push_input, processor_input, to_pusher, pass_on, pass_deadline, step_worker, end_context,
  finish_with, step, run,
}
use edgedelta_lambda_extensi.Pusher.Loop.{start}
use edgedelta_lambda_extensi.System.Calm.{initial}
use edgedelta_lambda_extensi.System.Refines.Loops.{Goes, carried}
use edgedelta_lambda_extensi.System.Refines.Cases.{Traced, arrival-Traced, input-Traced}

-- The loops, and what has happened to them.
abbrev SameLoops : System → System → Type 0
SameLoops s t =
    (t.processor ≡ s.processor)
    × (t.arrivals ≡ s.arrivals)
    × (t.pusher ≡ s.pusher)
    × (t.inputs ≡ s.inputs)
    × (t.outputs ≡ s.outputs)

module _ (host : Host) (p : Processor) (conf : Conf) (k : ℕ) (size : conf.buffer_size ≡ pos k)
    (g : Globals) where
  -- A move of the worker alone.
  pub same-Traced :
      (s t : System)
      → SameLoops s t
      → t.sending ≡ s.sending
      → Traced host p conf g s
      → Traced host p conf g t
  same-Traced s t (a, l, b, n, o) c h =
      let before = (initial g).processor in
      record {
        processor = ap (λ ls. (run_processor host p ls before).0) l ∙ h.processor ∙ sym a;
        pusher = ap (λ is. (run_pusher conf is start).0) n ∙ h.pusher ∙ sym b;
        done = ap (λ is. (run_pusher conf is start).1) n ∙ h.done ∙ sym o;
        channel =
            ap (λ ls. payloads (run_processor host p ls before).1) l
            ∙ h.channel
            ∙ ap (λ is. chunks is ++ payloads s.sending) (sym n)
            ∙ ap (λ os. chunks t.inputs ++ payloads os) (sym c);
        runs = ap (λ (q : PusherState). q.phase) b ∙ h.runs;
      }

  pub arrive-Traced :
      (i : Arrival) (s : System)
      → Traced host p conf g s
      → Traced host p conf g (processor_input host p conf i s)
  unfolding processor_input
  arrive-Traced i s h =
      if_either (Traced host p conf g) (is_nil s.sending) _ s
        (λ e.
          arrival-Traced host p conf k size g i s _ (ground arith) refl refl refl refl refl refl h)
        (λ _. h)

  push-Traced :
      (i : Input) (s : System)
      → Goes i
      → carried i ≡ []
      → Traced host p conf g s
      → Traced host p conf g (push_input host p conf i s)
  unfolding push_input
  push-Traced i s q e h =
      if_either (Traced host p conf g) (is_nil s.telling) _ s
        (λ _.
          input-Traced host p conf k size g i s _ q (ap (λ l. l ++ payloads s.sending) (sym e)) refl
            refl refl refl refl h)
        (λ _. h)

  -- A receive of the pusher at its `select`.
  opened :
      (i : Input) (s : System)
      → is_nil s.telling ≡ true
      → let t = push_input host p conf i s in
        (t.processor ≡ s.processor)
        × (t.arrivals ≡ s.arrivals)
        × (t.pusher ≡ (step_pusher conf i s.pusher).0)
        × (t.inputs ≡ s.inputs ++ i ∷ [])
        × (t.outputs ≡ s.outputs ++ (step_pusher conf i s.pusher).1)
        × (t.sending ≡ s.sending)
  unfolding push_input
  opened i s e = rw (e, push_input) (refl, refl, refl, refl, refl, refl)

  send-Traced :
      (i : Input) (sent s : System)
      → Goes i
      → payloads s.sending ≡ carried i ++ payloads sent.sending
      → SameLoops s sent
      → sent.telling ≡ s.telling
      → Traced host p conf g s
      → Traced host p conf g (to_pusher host p conf i sent s)
  unfolding to_pusher push_input
  send-Traced i sent s q e (a, l, b, n, o) c h =
      if_either (Traced host p conf g) (is_nil s.telling) _ s
        (λ nil.
          if_either (Traced host p conf g) (is_running s.pusher.phase) _ s
            (λ _.
              let (x, m, y, u, v, z) = opened i sent (ap is_nil c ∙ nil) in
              input-Traced host p conf k size g i s _ q
                (e ∙ ap (λ os. carried i ++ payloads os) (sym z)) (x ∙ a) (m ∙ l)
                (y ∙ ap (λ q. (step_pusher conf i q).0) b) (u ∙ ap (λ is. is ++ i ∷ []) n)
                (v
                  ∙ ap (λ os. os ++ (step_pusher conf i sent.pusher).1) o
                  ∙ ap (λ q. s.outputs ++ (step_pusher conf i q).1) b)
                h)
            (λ _. h))
        (λ _. h)

  expire-Traced :
      (s t : System)
      → SameLoops (end_context host p conf s) t
      → t.sending ≡ s.sending
      → Traced host p conf g s
      → Traced host p conf g t
  unfolding step_pusher on_input on_expire
  expire-Traced s t (a, l, b, n, o) c h =
      let expired : step_pusher conf expire s.pusher ≡ ((on_expire s.pusher).0, []) =
        let r = h.runs in ground arith in
      input-Traced host p conf k size g expire s t tt (ap payloads (sym c)) a l
        (b ∙ ap (λ r. r.0) (sym expired)) n
        (o ∙ sym (append-nil s.outputs) ∙ ap (λ r. s.outputs ++ r.1) (sym expired)) h

  pass-Traced :
      (ok : Bool) (os : List Sent) (s : System)
      → s.sending ≡ os
      → Traced host p conf g s
      → Traced host p conf g (pass_on host p conf ok os s)
  unfolding pass_on payloads
  pass-Traced ok [] s e h = h
  pass-Traced ok (out b ∷ rest) s e h =
      send-Traced (chunk b) (record s { sending = rest }) s tt (ap payloads e)
        (refl, refl, refl, refl, refl) refl h
  pass-Traced ok (signal_runtime_done ∷ rest) s e h =
      send-Traced (runtime_done ok) (record s { sending = rest }) s tt (ap payloads e)
        (refl, refl, refl, refl, refl) refl h
  pass-Traced ok (stopped ∷ rest) s e h = h

  worker-Traced :
      (m : Move) (w : Worker) (s : System)
      → Traced host p conf g s
      → Traced host p conf g (step_worker host p conf m w s)
  unfolding step_worker
  worker-Traced (call n id) idle s h = same-Traced s _ (refl, refl, refl, refl, refl) refl h
  worker-Traced enter_pusher (invoking_pusher n id) s h =
      send-Traced (invoke n) (record s { worker = invoking_processor n id }) s tt refl
        (refl, refl, refl, refl, refl) refl h
  worker-Traced enter_processor (invoking_processor n id) s h =
      if_either (Traced host p conf g) (is_nil s.sending) _ s
        (λ _.
          if_either (Traced host p conf g) (s.processor.running) _ s
            (λ _.
              arrive-Traced (set_invocation id) _
                (same-Traced s _ (refl, refl, refl, refl, refl) refl h))
            (λ _. h))
        (λ _. h)
  worker-Traced leave forcing s h = expire-Traced s _ (refl, refl, refl, refl, refl) refl h
  worker-Traced _ _ s h = h

  finish-Traced :
      (w : Worker) (ts : List ℕ) (s : System)
      → Traced host p conf g s
      → Traced host p conf g (finish_with host p conf w ts s)
  unfolding finish_with
  finish-Traced (waiting n) (m ∷ rest) s h =
      if_either (Traced host p conf g) (m == n) _ s
        (λ _. expire-Traced s _ (refl, refl, refl, refl, refl) refl h) (λ _. h)
  finish-Traced _ _ s h = h

  deadline-Traced :
      (w : Worker) (s : System)
      → Traced host p conf g s
      → Traced host p conf g (pass_deadline host p conf w s)
  unfolding pass_deadline
  deadline-Traced (waiting n) s h = expire-Traced s _ (refl, refl, refl, refl, refl) refl h
  deadline-Traced _ s h = expire-Traced s _ (refl, refl, refl, refl, refl) refl h

  pub step-Traced :
      (m : Move) (s : System) → Traced host p conf g s → Traced host p conf g (step host p conf m s)
  unfolding step
  step-Traced (deliver es) s h = arrive-Traced (events es) s h
  step-Traced (pass ok) s h = pass-Traced ok s.sending s refl h
  step-Traced finish s h = finish-Traced s.worker s.telling s h
  step-Traced deadline s h = deadline-Traced s.worker s h
  step-Traced (see_deadline ok) s h = push-Traced (ctx_done ok) s tt refl h
  step-Traced (respond i ok) s h = push-Traced (flush_resp i ok) s tt refl h
  step-Traced (take_force ok) s h =
      if_either (Traced host p conf g) (s.force_requested) _ s
        (λ _.
          if_either (Traced host p conf g) (is_nil s.telling) _ s
            (λ _.
              push-Traced (force_flush ok) (record s { force_requested = false }) tt refl
                (same-Traced s _ (refl, refl, refl, refl, refl) refl h))
            (λ _. h))
        (λ _. h)
  step-Traced (call n id) s h = worker-Traced (call n id) s.worker s h
  step-Traced enter_pusher s h = worker-Traced enter_pusher s.worker s h
  step-Traced enter_processor s h = worker-Traced enter_processor s.worker s h
  step-Traced leave s h = worker-Traced leave s.worker s h

  pub run-Traced :
      (xs : List Move) (s : System)
      → Traced host p conf g s
      → Traced host p conf g (run host p conf xs s)
  unfolding run
  run-Traced [] s h = h
  run-Traced (x ∷ xs) s h = run-Traced xs (step host p conf x s) (step-Traced x s h)

  pub initial-Traced : Traced host p conf g (initial g)
  unfolding run_processor run_pusher payloads chunks
  initial-Traced = record {
    processor = refl;
    pusher = refl;
    done = refl;
    channel = refl;
    runs = refl;
  }
