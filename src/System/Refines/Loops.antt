-- ===== src/System/Refines/Loops.antt =====
-- Runs of the loops of pushers/processor.go and pushers/pusher.go with one more input.
use edgedelta_lambda_extensi.Common.{
  append_assoc, ℕ, ◌≡◌, inl, inr, refl, pos, Bool, List, [], ◌∷◌, ◌++◌, arith, Option-cases, sym,
  ◌∙◌, ap, append-nil,
}
use edgedelta_lambda_extensi.Text.Bytes.{Bytes}
use edgedelta_lambda_extensi.Host.{Host}
use edgedelta_lambda_extensi.Processor.Loop.{
  Processor, State as ProcessorState, Input as Arrival, step as step_processor,
  run as run_processor,
}
use edgedelta_lambda_extensi.Processor.Batches.{payloads}
use edgedelta_lambda_extensi.Processor.Stream.{payloads-append}
use edgedelta_lambda_extensi.Pusher.Loop.{
  Conf, State as PusherState, Input, chunk, runtime_done, expire, ctx_done, flush_resp, invoke,
  stop, force_flush, running, step as step_pusher, run as run_pusher, on_input, on_expire,
  on_runtime_done, on_ctx_done, on_invoke, on_force_flush, on_flush_resp, finish_flush,
  failed_flush, on_response, pick,
}
use edgedelta_lambda_extensi.Pusher.Failures.{dropped_bytes-some}
use edgedelta_lambda_extensi.Pipeline.{chunks}

module _ (host : Host) (p : Processor) where
  -- One more input at the end.
  pub run_processor-state :
      (is : List Arrival) (i : Arrival) (s : ProcessorState)
      → (run_processor host p (is ++ i ∷ []) s).0
        ≡ (step_processor host p i (run_processor host p is s).0).0
  unfolding run_processor
  run_processor-state [] i s = refl
  run_processor-state (j ∷ is) i s = run_processor-state is i (step_processor host p j s).0

  pub run_processor-payloads :
      (is : List Arrival) (i : Arrival) (s : ProcessorState)
      → let r = run_processor host p is s in
        payloads (run_processor host p (is ++ i ∷ []) s).1
        ≡ payloads r.1 ++ payloads (step_processor host p i r.0).1
  unfolding run_processor payloads
  run_processor-payloads [] i s = ap payloads (append-nil (step_processor host p i s).1)
  run_processor-payloads (j ∷ is) i s =
      let r = run_processor host p is (step_processor host p j s).0 in
      payloads-append (step_processor host p j s).1 _
      ∙ ap (λ l. payloads (step_processor host p j s).1 ++ l)
          (run_processor-payloads is i (step_processor host p j s).0)
      ∙ sym (append_assoc (payloads (step_processor host p j s).1) (payloads r.1) _)
      ∙ ap (λ l. l ++ payloads (step_processor host p i r.0).1)
          (sym (payloads-append (step_processor host p j s).1 r.1))

pub run_pusher-snoc :
    (conf : Conf) (is : List Input) (i : Input) (s : PusherState)
    → let r = run_pusher conf is s in
      (run_pusher conf (is ++ i ∷ []) s).0 ≡ (step_pusher conf i r.0).0
unfolding run_pusher
run_pusher-snoc conf [] i s = refl
run_pusher-snoc conf (j ∷ is) i s = run_pusher-snoc conf is i (step_pusher conf j s).0

pub run_pusher-outputs :
    (conf : Conf) (is : List Input) (i : Input) (s : PusherState)
    → let r = run_pusher conf is s in
      (run_pusher conf (is ++ i ∷ []) s).1 ≡ r.1 ++ (step_pusher conf i r.0).1
unfolding run_pusher
run_pusher-outputs conf [] i s = append-nil (step_pusher conf i s).1
run_pusher-outputs conf (j ∷ is) i s =
    ap (λ l. (step_pusher conf j s).1 ++ l) (run_pusher-outputs conf is i (step_pusher conf j s).0)
    ∙ sym (append_assoc (step_pusher conf j s).1 (run_pusher conf is (step_pusher conf j s).0).1 _)

pub chunks-append : (is js : List Input) → chunks (is ++ js) ≡ chunks is ++ chunks js
unfolding chunks
chunks-append [] js = refl
chunks-append (chunk b ∷ is) js = ap (λ l. b ∷ l) (chunks-append is js)
chunks-append (runtime_done ok ∷ is) js = chunks-append is js
chunks-append (expire ∷ is) js = chunks-append is js
chunks-append (ctx_done ok ∷ is) js = chunks-append is js
chunks-append (invoke n ∷ is) js = chunks-append is js
chunks-append (flush_resp i ok ∷ is) js = chunks-append is js
chunks-append (stop ok ∷ is) js = chunks-append is js
chunks-append (force_flush ok ∷ is) js = chunks-append is js

-- Not the stop of the pusher.
abbrev pub Goes : Input → Type 0
Goes (stop ok) = ⊥
Goes _ = Unit

-- What an input carries.
abbrev pub carried : Input → List Bytes
carried (chunk b) = b ∷ []
carried _ = []

pub chunks-carried : (i : Input) → chunks (i ∷ []) ≡ carried i
unfolding chunks
chunks-carried (chunk b) = refl
chunks-carried (runtime_done ok) = refl
chunks-carried expire = refl
chunks-carried (ctx_done ok) = refl
chunks-carried (invoke n) = refl
chunks-carried (flush_resp i ok) = refl
chunks-carried (stop ok) = refl
chunks-carried (force_flush ok) = refl

module _ (conf : Conf) (k : ℕ) (size : conf.buffer_size ≡ pos k) where
  respond-running :
      (i : ℕ) (ok : Bool) (s : PusherState)
      → s.phase ≡ running
      → (step_pusher conf (flush_resp i ok) s).0.phase ≡ running
  unfolding step_pusher on_input on_flush_resp finish_flush failed_flush on_response
  respond-running i ok s h = elim (Option-cases (pick i s.flights)) [
    | inl e ↦ ground arith
    | inr ((payload, rest), e) ↦ let (m, at) = dropped_bytes-some k payload in ground arith
  ]

  pub step-running :
      (i : Input) (s : PusherState)
      → Goes i
      → s.phase ≡ running
      → (step_pusher conf i s).0.phase ≡ running
  unfolding step_pusher on_input on_runtime_done on_ctx_done on_invoke on_force_flush on_expire
  step-running (chunk b) s g h = ground arith
  step-running (runtime_done ok) s g h = ground arith
  step-running expire s g h = ground arith
  step-running (ctx_done ok) s g h = ground arith
  step-running (invoke n) s g h = ground arith
  step-running (flush_resp i ok) s g h = respond-running i ok s h
  step-running (stop ok) s g h = absurd g
  step-running (force_flush ok) s g h = ground arith
