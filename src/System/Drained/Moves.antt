-- ===== src/System/Drained/Moves.antt =====
-- Single moves of the parts, before a deadline.
use edgedelta_lambda_extensi.Common.{
  ℕ, ◌≡◌, refl, pos, Bool, false, List, [], ◌∷◌, arith, All, ◌≤◌, ◌∙◌, length, length-append,
}
use edgedelta_lambda_extensi.Text.Bytes.{Bytes}
use edgedelta_lambda_extensi.Host.{Host}
use edgedelta_lambda_extensi.Processor.Loop.{
  Processor, Output as Sent, out, signal_runtime_done, stopped,
}
use edgedelta_lambda_extensi.Pusher.Loop.{
  Conf, State as PusherState, runtime_done, step as step_pusher, on_input, on_runtime_done, pick,
  signal_if_set,
}
use edgedelta_lambda_extensi.System.Steps.{
  idle, invoking_pusher, invoking_processor, waiting, System, Move, pass, respond, blocking,
  enter_pusher, enter_processor, finish, push_input, processor_input, to_pusher, pass_on,
  step_worker, finish_with, step, run,
}
use edgedelta_lambda_extensi.System.Calm.{no_stop, Calm}
use edgedelta_lambda_extensi.System.Calm.Parts.{
  chunk-load, runtime_done-load, respond-load, enter-load, invoke-load,
}
use edgedelta_lambda_extensi.System.Calm.Moves.{step-Calm}
use edgedelta_lambda_extensi.System.Drained.Settled.{IsInternal, pending}

module _ (host : Host) (p : Processor) (conf : Conf) (k : ℕ)
    (mode : conf.flush_at_next_invoke ≡ false) (size : conf.buffer_size ≡ pos k) where
  runtime_done-flights :
      (ok : Bool) (s : PusherState)
      → length s.flights ≤ length (step_pusher conf (runtime_done ok) s).0.flights
  unfolding step_pusher on_input on_runtime_done
  runtime_done-flights ok s = ground (arith, length-append s.flights (s.buf ∷ []))

  pass-next :
      (ok : Bool) (x : Sent) (rest : List Sent) (s : System)
      → s.sending ≡ x ∷ rest
      → s.telling ≡ []
      → Calm s
      → let t = step host p conf (pass ok) s in
        (t.sending ≡ rest) × (t.telling ≡ []) × (t.worker ≡ s.worker) × (pending s ≤ pending t)
  unfolding step pass_on to_pusher push_input no_stop
  pass-next ok (out b) rest s e f c =
      let r = chunk-load conf mode b s.pusher (c.pusher_runs) in ground arith
  pass-next ok signal_runtime_done rest s e f c =
      let r = runtime_done-load conf mode ok s.pusher (c.pusher_runs) in
      let l = runtime_done-flights ok s.pusher in ground arith
  pass-next ok stopped rest s e f c = ground arith

  -- The processor's sends, all of them.
  pub drain_sending :
      (ok : Bool) (os : List Sent) (s : System)
      → s.sending ≡ os
      → s.telling ≡ []
      → Calm s
      → (let drained = λ (t : System).
            Calm t
            × (t.sending ≡ [])
            × (t.telling ≡ [])
            × (t.worker ≡ s.worker)
            × (pending s ≤ pending t) in
          (ms : List Move) × All (IsInternal ok) ms × drained (run host p conf ms s))
  unfolding run
  drain_sending ok [] s e f c = ([], tt, (c, e, f, refl, omega arith))
  drain_sending ok (x ∷ os) s e f c =
      let (e', f', w', le) = pass-next ok x os s e f c in
      let (ms, is, (c'', e'', f'', w'', le')) =
        drain_sending ok os (step host p conf (pass ok) s) e' f'
          (step-Calm host p conf k mode size (pass ok) s tt c) in
      (pass ok ∷ ms, (refl, is), (c'', e'', f'', w'' ∙ w', omega (arith, le, le')))

  pub enter-next :
      (n : ℕ) (id : Bytes) (s : System)
      → s.worker ≡ invoking_pusher n id
      → s.sending ≡ []
      → s.telling ≡ []
      → Calm s
      → let t = step host p conf enter_pusher s in
        (t.sending ≡ []) × (t.telling ≡ []) × (t.worker ≡ invoking_processor n id)
  unfolding step step_worker to_pusher push_input
  enter-next n id s w e f c =
      let r = invoke-load conf mode n s.pusher (c.pusher_runs) in ground arith

  pub wait-next :
      (n : ℕ) (id : Bytes) (s : System)
      → s.worker ≡ invoking_processor n id
      → s.sending ≡ []
      → s.telling ≡ []
      → Calm s
      → let t = step host p conf enter_processor s in
        (t.sending ≡ []) × (t.telling ≡ []) × (t.worker ≡ waiting n)
  unfolding step step_worker processor_input
  wait-next n id s w e f c =
      let r = enter-load host p id s.processor (c.processor_runs) in ground arith

  pub finish-next :
      (n : ℕ) (s : System)
      → s.worker ≡ waiting n
      → s.telling ≡ n ∷ []
      → Calm s
      → let t = step host p conf finish s in
        (t.telling ≡ []) × (t.worker ≡ idle) × (t.sending ≡ s.sending)
  unfolding step finish_with
  finish-next n s w e c = ground arith

  pub respond-next :
      (ok : Bool) (n : ℕ) (f : Bytes) (fs : List Bytes) (s : System)
      → s.worker ≡ waiting n
      → s.telling ≡ []
      → s.pusher.flights ≡ f ∷ fs
      → Calm s
      → let t = step host p conf (respond 0 ok) s in
        (t.telling ≡ n ∷ []) × (t.worker ≡ waiting n) × (t.sending ≡ s.sending)
  unfolding step push_input pick blocking signal_if_set
  respond-next ok n f fs s w e a c =
      let r =
        respond-load conf mode k 0 ok s.pusher f fs size (c.pusher_runs) (rw (a, pick) refl) in
      ground arith
