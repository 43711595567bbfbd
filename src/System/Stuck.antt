-- ===== src/System/Stuck.antt =====
-- Where the invocation of main.go, the processor and the pusher wait for each other.
use edgedelta_lambda_extensi.Common.{
  ℕ, ◌≡◌, refl, ◌∙◌, ap, pos, subst, sym, Bool, true, false, some, List, [], ◌∷◌, arith,
}
use edgedelta_lambda_extensi.Text.Bytes.{Bytes}
use edgedelta_lambda_extensi.Host.{Host}
use edgedelta_lambda_extensi.Lambda.Events.{LambdaEvent}
use edgedelta_lambda_extensi.Processor.Loop.{Processor, step as step_processor, finish_batch}
use edgedelta_lambda_extensi.Pusher.Loop.{
  Conf, on_expire, running, State as PusherState, step as step_pusher, on_input, on_invoke, pick,
  on_flush_resp, finish_flush, failed_flush, on_response, signal_if_set,
}
use edgedelta_lambda_extensi.Pusher.Failures.{dropped_bytes-some}
use edgedelta_lambda_extensi.System.Steps.{
  Worker, idle, invoking_pusher, invoking_processor, waiting, forcing, System, Move, deliver, pass,
  call, enter_pusher, enter_processor, finish, deadline, see_deadline, respond, take_force, leave,
  is_nil, blocking, push_input, processor_input, to_pusher, pass_on, step_worker, finish_with,
  pass_deadline, step, run,
}

-- The worker hands its invocation to the processor, which sends to the pusher, which tells the worker.
pub record IsStuck (s : System) (n : ℕ) (id : Bytes) : Type 0 where
  pub worker : s.worker ≡ invoking_processor n id
  pub sending : is_nil s.sending ≡ false
  pub telling : is_nil s.telling ≡ false

module _ (host : Host) (p : Processor) (conf : Conf) where
  step-IsStuck :
      (x : Move) (s : System) (n : ℕ) (id : Bytes)
      → IsStuck s n id
      → IsStuck (step host p conf x s) n id
  unfolding step processor_input push_input to_pusher pass_on step_worker finish_with pass_deadline
  step-IsStuck (deliver es) s n id h = ground arith
  step-IsStuck (pass ok) s n id h = ground arith
  step-IsStuck finish s n id h = ground arith
  step-IsStuck deadline s n id h = ground arith
  step-IsStuck (see_deadline ok) s n id h = ground arith
  step-IsStuck (respond i ok) s n id h = ground arith
  step-IsStuck (take_force ok) s n id h = ground arith
  step-IsStuck (call j d) s n id h = ground arith
  step-IsStuck enter_pusher s n id h = ground arith
  step-IsStuck enter_processor s n id h = ground arith
  step-IsStuck leave s n id h = ground arith

  run-IsStuck :
      (xs : List Move) (s : System) (n : ℕ) (id : Bytes)
      → IsStuck s n id
      → IsStuck (run host p conf xs s) n id
  unfolding run
  run-IsStuck [] s n id h = h
  run-IsStuck (x ∷ xs) s n id h =
      run-IsStuck xs (step host p conf x s) n id (step-IsStuck x s n id h)

  call-keeps :
      (s : System) (n : ℕ) (id : Bytes)
      → s.worker ≡ idle
      → let t = step host p conf (call n id) s in
        (t.worker ≡ invoking_pusher n id)
        × (t.processor.running ≡ s.processor.running)
        × (t.sending ≡ s.sending)
        × (t.pusher ≡ s.pusher)
        × (t.telling ≡ s.telling)
  unfolding step step_worker
  call-keeps s n id w = ground arith

  deliver-sends :
      (s : System) (es : List LambdaEvent)
      → s.processor.running ≡ true
      → s.sending ≡ []
      → let t = step host p conf (deliver es) s in
        (t.worker ≡ s.worker)
        × (is_nil t.sending ≡ false)
        × (t.telling ≡ s.telling)
        × (t.pusher ≡ s.pusher)
  unfolding step processor_input step_processor finish_batch
  deliver-sends s es pr se = ground arith

  enter-IsStuck :
      (s : System) (n : ℕ) (id : Bytes)
      → conf.flush_at_next_invoke ≡ true
      → s.worker ≡ invoking_pusher n id
      → is_nil s.sending ≡ false
      → s.telling ≡ []
      → s.pusher.phase ≡ running
      → s.pusher.buf ≡ []
      → IsStuck (step host p conf enter_pusher s) n id
  unfolding step step_worker to_pusher push_input step_pusher on_input on_invoke blocking
  enter-IsStuck s n id mode w se te ph b = ground arith

  -- With the flush at the next invoke, an idle worker, both loops at their select and an empty buffer: if
  -- an invocation is announced, a batch reaches the processor, and the pusher then receives the
  -- invocation before the batch's payload, the invocation never ends, whatever happens afterwards: its
  -- deadline has no effect either.
  pub flush_at_next_invoke_deadlock :
      (s : System) (n : ℕ) (id : Bytes) (es : List LambdaEvent) (xs : List Move)
      → conf.flush_at_next_invoke ≡ true
      → s.worker ≡ idle
      → s.processor.running ≡ true
      → s.sending ≡ []
      → s.pusher.phase ≡ running
      → s.pusher.buf ≡ []
      → s.telling ≡ []
      → (run host p conf (call n id ∷ deliver es ∷ enter_pusher ∷ xs) s).worker
        ≡ invoking_processor n id
  unfolding run
  flush_at_next_invoke_deadlock s n id es xs mode w pr se ph b te =
      let s1 = step host p conf (call n id) s in
      let (w1, pr1, se1, pu1, te1) = call-keeps s n id w in
      let (w2, se2, te2, pu2) = deliver-sends s1 es (pr1 ∙ pr) (se1 ∙ se) in
      let stuck =
        enter-IsStuck (step host p conf (deliver es) s1) n id mode (w2 ∙ w1) se2 (te2 ∙ te1 ∙ te)
          (ap (λ (q : PusherState). q.phase) (pu2 ∙ pu1) ∙ ph)
          (ap (λ (q : PusherState). q.buf) (pu2 ∙ pu1) ∙ b) in
      (run-IsStuck xs _ n id stuck).worker

-- Nobody listens to the pusher, which has an invocation to tell.
abbrev Away : Worker → Type 0
Away (invoking_processor n id) = ⊥
Away (waiting n) = ⊥
Away _ = Unit

record IsDeaf (s : System) (k : ℕ) (ks : List ℕ) : Type 0 where
  worker : Away s.worker
  telling : s.telling ≡ k ∷ ks

module _ (host : Host) (p : Processor) (conf : Conf) where
  step_worker-IsDeaf :
      (x : Move) (w : Worker) (s : System) (k : ℕ) (ks : List ℕ)
      → s.worker ≡ w
      → IsDeaf s k ks
      → IsDeaf (step_worker host p conf x w s) k ks
  unfolding step_worker to_pusher push_input
  step_worker-IsDeaf (call n id) idle s k ks e h = ground arith
  step_worker-IsDeaf enter_pusher (invoking_pusher n id) s k ks e h = ground arith
  step_worker-IsDeaf enter_processor (invoking_processor n id) s k ks e h = ground arith
  step_worker-IsDeaf leave forcing s k ks e h = ground arith
  step_worker-IsDeaf _ _ s k ks e h = h

  step-IsDeaf :
      (x : Move) (s : System) (k : ℕ) (ks : List ℕ)
      → IsDeaf s k ks
      → IsDeaf (step host p conf x s) k ks
  unfolding step processor_input push_input to_pusher pass_on finish_with pass_deadline
  step-IsDeaf (deliver es) s k ks h = ground arith
  step-IsDeaf (pass ok) s k ks h = ground arith
  step-IsDeaf finish s k ks h = ground arith
  step-IsDeaf deadline s k ks h = ground arith
  step-IsDeaf (see_deadline ok) s k ks h = ground arith
  step-IsDeaf (respond i ok) s k ks h = ground arith
  step-IsDeaf (take_force ok) s k ks h = ground arith
  step-IsDeaf (call n id) s k ks h = step_worker-IsDeaf (call n id) s.worker s k ks refl h
  step-IsDeaf enter_pusher s k ks h = step_worker-IsDeaf enter_pusher s.worker s k ks refl h
  step-IsDeaf enter_processor s k ks h = step_worker-IsDeaf enter_processor s.worker s k ks refl h
  step-IsDeaf leave s k ks h = step_worker-IsDeaf leave s.worker s k ks refl h

  run-IsDeaf :
      (xs : List Move) (s : System) (k : ℕ) (ks : List ℕ)
      → IsDeaf s k ks
      → IsDeaf (run host p conf xs s) k ks
  unfolding run
  run-IsDeaf [] s k ks h = h
  run-IsDeaf (x ∷ xs) s k ks h = run-IsDeaf xs (step host p conf x s) k ks (step-IsDeaf x s k ks h)

  deadline-keeps :
      (s : System) (n : ℕ)
      → s.worker ≡ waiting n
      → let t = step host p conf deadline s in
        (t.worker ≡ forcing)
        × (t.telling ≡ s.telling)
        × (t.pusher.phase ≡ s.pusher.phase)
        × (t.pusher.done_c ≡ s.pusher.done_c)
        × (t.pusher.flights ≡ s.pusher.flights)
  unfolding step pass_deadline on_expire
  deadline-keeps s n w = ground arith

  respond-tells :
      (s : System) (n i k : ℕ) (ok : Bool) (payload : Bytes) (rest : List Bytes)
      → conf.buffer_size ≡ pos k
      → s.pusher.phase ≡ running
      → s.pusher.done_c ≡ some n
      → pick i s.pusher.flights ≡ some (payload, rest)
      → s.telling ≡ []
      → let t = step host p conf (respond i ok) s in (t.worker ≡ s.worker) × (t.telling ≡ n ∷ [])
  unfolding step push_input step_pusher on_input on_flush_resp finish_flush failed_flush on_response
      signal_if_set blocking
  respond-tells s n i k ok payload rest size ph done flight te =
      let (m, at) = dropped_bytes-some k payload in ground arith

  -- With a buffer size that is not negative: if an invocation reaches its deadline while it waits, and a
  -- flush in flight responds right afterwards, whether its push succeeded or not, then the pusher's loop has the invocation to tell and nobody listens:
  -- whatever happens from then on, the loop does not get back to its select, so no payload is received
  -- and no flush is started any more.
  pub late_response_deadlock :
      (s : System) (n i k : ℕ) (ok : Bool) (payload : Bytes) (rest : List Bytes) (xs : List Move)
      → conf.buffer_size ≡ pos k
      → s.worker ≡ waiting n
      → s.pusher.phase ≡ running
      → s.pusher.done_c ≡ some n
      → pick i s.pusher.flights ≡ some (payload, rest)
      → s.telling ≡ []
      → (run host p conf (deadline ∷ respond i ok ∷ xs) s).telling ≡ n ∷ []
  unfolding run
  late_response_deadlock s n i k ok payload rest xs size w ph done flight te =
      let s1 = step host p conf deadline s in
      let (w1, te1, ph1, done1, fl1) = deadline-keeps s n w in
      let (w2, te2) =
        respond-tells s1 n i k ok payload rest size (ph1 ∙ ph) (done1 ∙ done)
          (ap (pick i) fl1 ∙ flight) (te1 ∙ te) in
      let away = subst Away (sym (w2 ∙ w1)) tt in
      (run-IsDeaf xs (step host p conf (respond i ok) s1) n []
        (record { worker = away; telling = te2 })).telling
