-- ===== src/System/Ending.antt =====
-- How an invocation ends.
use edgedelta_lambda_extensi.Common.{
  length-zero, ℕ, ◌≤◌, ◌≡◌, refl, pos, Bool, true, false, Option, none, some, List, [], ◌∷◌, ◌++◌,
  arith, All,
}
use edgedelta_lambda_extensi.Text.Bytes.{Bytes, bytes_eq}
use edgedelta_lambda_extensi.Host.{Host}
use edgedelta_lambda_extensi.Lambda.Events.{LambdaEvent}
use edgedelta_lambda_extensi.Processor.Types.{Globals}
use edgedelta_lambda_extensi.Processor.Loop.{
  Processor, State as ProcessorState, events, handle_platform_event, Batch, run_batch,
  Output as Sent, out, signal_runtime_done, step as step_processor, finish_batch,
}
use edgedelta_lambda_extensi.Processor.Batches.{last_platform, flag, run_batch-flag}
use edgedelta_lambda_extensi.Pusher.Loop.{
  Conf, step as step_pusher, on_input, on_runtime_done, pick, signal_if_set,
}
use edgedelta_lambda_extensi.System.Steps.{
  idle, waiting, System, Move, deliver, pass, finish, respond, blocking, push_input,
  processor_input, to_pusher, pass_on, finish_with, step, run,
}
use edgedelta_lambda_extensi.System.Calm.{id_weight, Calm, initial, initial-Calm}
use edgedelta_lambda_extensi.System.Calm.Parts.{respond-load}
use edgedelta_lambda_extensi.System.Calm.Moves.{IsEarly, step-Calm, run-Calm}
use edgedelta_lambda_extensi.Pusher.Loop.{is_empty, live}

-- The payload that the processor sends next.
abbrev pub payload_of : List Sent → Bytes
payload_of (out b ∷ os) = b
payload_of _ = []

module _ (host : Host) (p : Processor) (conf : Conf) (k : ℕ)
    (mode : conf.flush_at_next_invoke ≡ false) (size : conf.buffer_size ≡ pos k) where
  -- The batch that ends the runtime is sent as a payload and a signal.
  batch_sends :
      (es : List LambdaEvent) (s : ProcessorState)
      → s.running ≡ true
      → s.runtime_done ≡ false
      → flag host p (last_platform es) s.globals.faas.request_id false ≡ true
      → (b : Bytes) × ((step_processor host p (events es) s).1 ≡ out b ∷ signal_runtime_done ∷ [])
  unfolding step_processor finish_batch
  batch_sends es s h f d =
      let b0 : Batch = record { buf = []; globals = s.globals; runtime_done = s.runtime_done } in
      ((run_batch host p es b0).buf, ground (arith, run_batch-flag host p es b0))

  -- What the pusher's loop holds for an invocation that is not answered yet.
  abbrev Serves : System → ℕ → Bytes → Type 0
  Serves s n b =
      (s.worker ≡ waiting n)
      × (s.telling ≡ [])
      × (s.pusher.ctx ≡ live)
      × (s.pusher.done_c ≡ some n)
      × (s.pusher.flights ≡ [])
      × (s.pusher.buf ≡ b)

  deliver-next :
      (es : List LambdaEvent) (s : System) (n : ℕ) (b : Bytes)
      → s.sending ≡ []
      → flag host p (last_platform es) s.processor.globals.faas.request_id false ≡ true
      → Calm s
      → Serves s n b
      → let t = step host p conf (deliver es) s in
        (t.sending ≡ out (payload_of t.sending) ∷ signal_runtime_done ∷ []) × Serves t n b
  unfolding step processor_input
  deliver-next es s n b e d c h =
      let (x, y) = batch_sends es s.processor (c.processor_runs) (c.flag_clear) d in ground arith

  chunk-next :
      (ok : Bool) (s : System) (n : ℕ) (b x : Bytes)
      → s.sending ≡ out x ∷ signal_runtime_done ∷ []
      → Calm s
      → Serves s n b
      → let t = step host p conf (pass ok) s in
        (t.sending ≡ signal_runtime_done ∷ []) × Serves t n (b ++ x)
  unfolding step pass_on to_pusher push_input step_pusher on_input blocking
  chunk-next ok s n b x e c h = let r = c.pusher_runs in ground arith

  signal-next :
      (ok : Bool) (s : System) (n : ℕ) (b : Bytes)
      → s.sending ≡ signal_runtime_done ∷ []
      → is_empty b ≡ false
      → Calm s
      → Serves s n b
      → let t = step host p conf (pass ok) s in
        (t.worker ≡ waiting n)
        × (t.telling ≡ [])
        × (t.sending ≡ [])
        × (t.pusher.done_c ≡ some n)
        × (t.pusher.flights ≡ b ∷ [])
  unfolding step pass_on to_pusher push_input step_pusher on_input on_runtime_done blocking
  signal-next ok s n b e some_bytes c h = let r = c.pusher_runs in ground arith

  respond-next :
      (ok : Bool) (s : System) (n : ℕ) (b : Bytes)
      → s.worker ≡ waiting n
      → s.telling ≡ []
      → s.sending ≡ []
      → s.pusher.done_c ≡ some n
      → s.pusher.flights ≡ b ∷ []
      → Calm s
      → let t = step host p conf (respond 0 ok) s in
        (t.worker ≡ waiting n) × (t.telling ≡ n ∷ []) × (t.sending ≡ [])
  unfolding step push_input blocking signal_if_set pick
  respond-next ok s n b w f e d at c =
      let at' : pick 0 s.pusher.flights ≡ some (b, []) = rw at refl in
      let r = respond-load conf mode k 0 ok s.pusher b [] size (c.pusher_runs) at' in ground arith

  finish-ends :
      (s : System) (n : ℕ)
      → s.worker ≡ waiting n
      → s.telling ≡ n ∷ []
      → s.sending ≡ []
      → Calm s
      → let t = step host p conf finish s in (t.worker ≡ idle) × (t.sending ≡ [])
  unfolding step finish_with
  finish-ends s n w f e c = ground arith

  id_weight-zero : (id : Bytes) → id_weight id ≤ 0 → id ≡ []
  id_weight-zero [] h = refl
  id_weight-zero (x ∷ id) h = absurd (ground arith)

  -- The end of the invocation is still to come: no flush is in flight.
  none_in_flight :
      (n : ℕ) (id : Bytes) (s : System)
      → s.worker ≡ waiting n
      → s.processor.globals.faas.request_id ≡ id
      → (id ≡ [] → ⊥)
      → Calm s
      → s.pusher.flights ≡ []
  none_in_flight n [] s w e h c = absurd (h refl)
  none_in_flight n (x ∷ id) s w e h c = length-zero s.pusher.flights (ground arith)

  -- At rest between two invocations.
  rests :
      (s : System)
      → s.worker ≡ idle
      → Calm s
      → (s.telling ≡ []) × (s.pusher.flights ≡ []) × (s.processor.globals.faas.request_id ≡ [])
  rests s w c = (
    length-zero s.telling (ground arith),
    length-zero s.pusher.flights (ground arith),
    id_weight-zero s.processor.globals.faas.request_id (ground arith),
  )

  -- A batch that ends the runtime meets a current request.
  flag-current : (e : Option LambdaEvent) (id : Bytes) → flag host p e id false ≡ true → id ≡ [] → ⊥
  unfolding handle_platform_event bytes_eq
  flag-current none id h e = ground arith
  flag-current (some v) [] h e = ground arith
  flag-current (some v) (c ∷ id) h e = ground arith

  calm : (m : Move) (s : System) → IsEarly m → Calm s → Calm (step host p conf m s)
  calm = step-Calm host p conf k mode size

  ends_after :
      (es : List LambdaEvent) (s : System) (n : ℕ) (x y ok : Bool)
      → Calm s
      → s.worker ≡ waiting n
      → s.sending ≡ []
      → s.telling ≡ []
      → s.pusher.ctx ≡ live
      → flag host p (last_platform es) s.processor.globals.faas.request_id false ≡ true
      → is_empty (s.pusher.buf ++ payload_of (step host p conf (deliver es) s).sending) ≡ false
      → let t = run host p conf (deliver es ∷ pass x ∷ pass y ∷ respond 0 ok ∷ finish ∷ []) s in
        (t.worker ≡ idle)
        × (t.sending ≡ [])
        × (t.telling ≡ [])
        × (t.pusher.flights ≡ [])
        × (t.processor.globals.faas.request_id ≡ [])
  unfolding run
  ends_after es s n x y ok c w e f live_ctx d some_bytes =
      let none =
        none_in_flight n s.processor.globals.faas.request_id s w refl
          (flag-current (last_platform es) s.processor.globals.faas.request_id d) c in
      let told : s.pusher.done_c ≡ some n = ground arith in
      let s1 = step host p conf (deliver es) s in
      let c1 = calm (deliver es) s tt c in
      let (e1, h1) = deliver-next es s n s.pusher.buf e d c (w, f, live_ctx, told, none, refl) in
      let s2 = step host p conf (pass x) s1 in
      let c2 = calm (pass x) s1 tt c1 in
      let (e2, h2) = chunk-next x s1 n s.pusher.buf (payload_of s1.sending) e1 c1 h1 in
      let s3 = step host p conf (pass y) s2 in
      let c3 = calm (pass y) s2 tt c2 in
      let (w3, f3, e3, d3, at3) =
        signal-next y s2 n (s.pusher.buf ++ payload_of s1.sending) e2 some_bytes c2 h2 in
      let s4 = step host p conf (respond 0 ok) s3 in
      let c4 = calm (respond 0 ok) s3 tt c3 in
      let (w4, f4, e4) =
        respond-next ok s3 n (s.pusher.buf ++ payload_of s1.sending) w3 f3 e3 d3 at3 c3 in
      let s5 = step host p conf finish s4 in
      let (w5, e5) = finish-ends s4 n w4 f4 e4 c4 in
      let (f5, at5, id5) = rests s5 w5 (calm finish s4 tt c4) in (w5, e5, f5, at5, id5)

  -- In the mode that flushes at the end of the runtime, with a buffer size that is not negative: whatever
  -- happened since the start of the program, as long as no invocation has reached its deadline, let the
  -- worker wait for the end of an invocation with the context live and nothing on its way to a loop. When
  -- a batch arrives whose last event is the end of the runtime of the current request, and there is
  -- something to push, then the processor's two sends, the response of the push, succeeded or not, and
  -- the worker's receive bring the worker back to the next `NextEvent`: nothing is in flight or on its
  -- way then, and no request is current.
  pub invocation_ends :
      (g : Globals) (xs : List Move) (es : List LambdaEvent) (n : ℕ) (x y ok : Bool)
      → g.faas.request_id ≡ []
      → All IsEarly xs
      → (run host p conf xs (initial g)).worker ≡ waiting n
      → (run host p conf xs (initial g)).sending ≡ []
      → (run host p conf xs (initial g)).telling ≡ []
      → (run host p conf xs (initial g)).pusher.ctx ≡ live
      → flag host p
          (last_platform es)
          (run host p conf xs (initial g)).processor.globals.faas.request_id
          false
        ≡ true
      → is_empty (
          (run host p conf xs (initial g)).pusher.buf
          ++ payload_of (step host p conf (deliver es) (run host p conf xs (initial g))).sending)
        ≡ false
      → let t =
          run host p conf
            (deliver es ∷ pass x ∷ pass y ∷ respond 0 ok ∷ finish ∷ [])
            (run host p conf xs (initial g)) in
        (t.worker ≡ idle)
        × (t.sending ≡ [])
        × (t.telling ≡ [])
        × (t.pusher.flights ≡ [])
        × (t.processor.globals.faas.request_id ≡ [])
  invocation_ends g xs es n x y ok h early =
      ends_after es (run host p conf xs (initial g)) n x y ok
        (run-Calm host p conf k mode size xs (initial g) early (initial-Calm g h))
