-- ===== src/System/Calm/Moves.antt =====
-- Every move but the deadline keeps the system calm.
use edgedelta_lambda_extensi.Common.{
  ℕ, ◌≡◌, inl, inr, refl, pos, Bool, false, some, List, [], ◌∷◌, arith, Option-cases, All,
}
use edgedelta_lambda_extensi.Text.Bytes.{Bytes}
use edgedelta_lambda_extensi.Host.{Host}
use edgedelta_lambda_extensi.Lambda.Events.{LambdaEvent}
use edgedelta_lambda_extensi.Processor.Loop.{
  Processor, Output as Sent, out, signal_runtime_done, stopped,
}
use edgedelta_lambda_extensi.Pusher.Loop.{Conf, pick, signal_if_set, on_expire}
use edgedelta_lambda_extensi.System.Steps.{
  Worker, idle, invoking_pusher, invoking_processor, waiting, forcing, System, Move, deliver, pass,
  call, enter_pusher, enter_processor, finish, deadline, see_deadline, respond, take_force, leave,
  blocking, push_input, processor_input, to_pusher, pass_on, step_worker, finish_with, step, run,
}
use edgedelta_lambda_extensi.System.Calm.{signal_count, no_stop, Calm}
use edgedelta_lambda_extensi.System.Calm.Parts.{
  deliver-load, pick-shorter, enter-load, chunk-load, runtime_done-load, ctx_done-load, invoke-load,
  respond-load, respond-none,
}

-- Not the deadline of an invocation.
abbrev pub IsEarly : Move → Type 0
IsEarly deadline = ⊥
IsEarly _ = Unit

module _ (host : Host) (p : Processor) (conf : Conf) (k : ℕ)
    (mode : conf.flush_at_next_invoke ≡ false) (size : conf.buffer_size ≡ pos k) where
  deliver-Calm :
      (es : List LambdaEvent) (s : System) → Calm s → Calm (step host p conf (deliver es) s)
  unfolding step processor_input
  deliver-Calm es s c =
      let d = deliver-load host p es s.processor (c.processor_runs) (c.flag_clear) in ground arith

  pass-Calm :
      (ok : Bool) (os : List Sent) (s : System)
      → s.sending ≡ os
      → Calm s
      → Calm (pass_on host p conf ok os s)
  unfolding pass_on to_pusher push_input signal_count no_stop
  pass-Calm ok [] s e c = c
  pass-Calm ok (out b ∷ rest) s e c =
      let r = chunk-load conf mode b s.pusher (c.pusher_runs) in ground arith
  pass-Calm ok (signal_runtime_done ∷ rest) s e c =
      let r = runtime_done-load conf mode ok s.pusher (c.pusher_runs) in ground arith
  pass-Calm ok (stopped ∷ rest) s e c = c

  see_deadline-Calm :
      (ok : Bool) (s : System) → Calm s → Calm (step host p conf (see_deadline ok) s)
  unfolding step push_input
  see_deadline-Calm ok s c =
      let r = ctx_done-load conf mode ok s.pusher (c.pusher_runs) in ground arith

  respond-some :
      (i : ℕ) (ok : Bool) (w : Worker) (s : System) (payload : Bytes) (rest : List Bytes)
      → s.worker ≡ w
      → pick i s.pusher.flights ≡ some (payload, rest)
      → Calm s
      → Calm (step host p conf (respond i ok) s)
  unfolding step push_input blocking signal_if_set
  respond-some i ok (waiting n) s payload rest e at c =
      let r = respond-load conf mode k i ok s.pusher payload rest size (c.pusher_runs) at in
      let l = pick-shorter i s.pusher.flights payload rest at in ground arith
  respond-some i ok _ s payload rest e at c =
      let l = pick-shorter i s.pusher.flights payload rest at in ground arith

  respond-Calm :
      (i : ℕ) (ok : Bool) (s : System) → Calm s → Calm (step host p conf (respond i ok) s)
  unfolding step push_input
  respond-Calm i ok s c = elim (Option-cases (pick i s.pusher.flights)) [
    | inl n ↦ let r = respond-none conf mode i ok s.pusher n in ground arith
    | inr ((payload, rest), at) ↦ respond-some i ok s.worker s payload rest refl at c
  ]

  finish-Calm :
      (w : Worker) (ts : List ℕ) (s : System)
      → s.worker ≡ w
      → s.telling ≡ ts
      → Calm s
      → Calm (finish_with host p conf w ts s)
  unfolding finish_with on_expire
  finish-Calm (waiting n) (m ∷ rest) s e f c = ground arith
  finish-Calm _ _ s e f c = c

  worker-Calm :
      (m : Move) (w : Worker) (s : System)
      → s.worker ≡ w
      → Calm s
      → Calm (step_worker host p conf m w s)
  unfolding step_worker to_pusher push_input processor_input signal_count
  worker-Calm (call n id) idle s e c = ground arith
  worker-Calm enter_pusher (invoking_pusher n id) s e c =
      let r = invoke-load conf mode n s.pusher (c.pusher_runs) in ground arith
  worker-Calm enter_processor (invoking_processor n id) s e c =
      let r = enter-load host p id s.processor (c.processor_runs) in ground arith
  worker-Calm leave forcing s e c = ground arith
  worker-Calm _ _ s e c = c

  pub step-Calm : (m : Move) (s : System) → IsEarly m → Calm s → Calm (step host p conf m s)
  unfolding step
  step-Calm (deliver es) s early c = deliver-Calm es s c
  step-Calm (pass ok) s early c = pass-Calm ok s.sending s refl c
  step-Calm finish s early c = finish-Calm s.worker s.telling s refl refl c
  step-Calm deadline s early c = absurd early
  step-Calm (see_deadline ok) s early c = see_deadline-Calm ok s c
  step-Calm (respond i ok) s early c = respond-Calm i ok s c
  step-Calm (take_force ok) s early c = ground arith
  step-Calm (call n id) s early c = worker-Calm (call n id) s.worker s refl c
  step-Calm enter_pusher s early c = worker-Calm enter_pusher s.worker s refl c
  step-Calm enter_processor s early c = worker-Calm enter_processor s.worker s refl c
  step-Calm leave s early c = worker-Calm leave s.worker s refl c

  pub run-Calm :
      (xs : List Move) (s : System) → All IsEarly xs → Calm s → Calm (run host p conf xs s)
  unfolding run
  run-Calm [] s early c = c
  run-Calm (x ∷ xs) s (early, later) c =
      run-Calm xs (step host p conf x s) later (step-Calm x s early c)
