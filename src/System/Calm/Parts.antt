-- ===== src/System/Calm/Parts.antt =====
-- What a case of each loop does to the ends of invocations that are on their way.
use edgedelta_lambda_extensi.Common.{
  ℕ, zero, suc, ◌+◌, ◌≤◌, ◌≡◌, inl, inr, refl, pos, Bool, true, false, Option, none, some, List, [],
  ◌∷◌, arith, length, length-append, Option-cases,
}
use edgedelta_lambda_extensi.Text.Bytes.{Bytes, bytes_eq}
use edgedelta_lambda_extensi.Host.{Host}
use edgedelta_lambda_extensi.Lambda.Events.{LambdaEvent}
use edgedelta_lambda_extensi.Processor.Loop.{
  Processor, State as ProcessorState, events, handle_platform_event, Batch, step as step_processor,
  invoke as set_invocation, finish_batch, set_request_id,
}
use edgedelta_lambda_extensi.Processor.Batches.{last_platform, flag, run_batch-flag, run_batch-faas}
use edgedelta_lambda_extensi.Pusher.Loop.{
  Conf, State as PusherState, chunk, runtime_done, ctx_done, flush_resp, invoke, running,
  step as step_pusher, on_input, on_runtime_done, on_ctx_done, on_invoke, on_flush_resp, pick,
  finish_flush, failed_flush, on_response, signal_if_set, push_buffer,
}
use edgedelta_lambda_extensi.Pusher.Failures.{dropped_bytes-some}
use edgedelta_lambda_extensi.System.Steps.{blocking}
use edgedelta_lambda_extensi.System.Calm.{id_weight, signal_count, no_stop}

platform_event-none : (e : LambdaEvent) → handle_platform_event e [] ≡ false
unfolding handle_platform_event bytes_eq
platform_event-none e = refl

module _ (host : Host) (p : Processor) where
  flag-none : (o : Option LambdaEvent) → flag host p o [] false ≡ false
  flag-none none = refl
  flag-none (some e) = platform_event-none e

  flag-le : (o : Option LambdaEvent) (id : Bytes) → flag host p o id false ≡ true → id_weight id ≡ 1
  flag-le o [] h = absurd (cc (flag-none o))
  flag-le o (c ∷ s) h = refl

  pub deliver-load :
      (es : List LambdaEvent) (s : ProcessorState)
      → s.running ≡ true
      → s.runtime_done ≡ false
      → let r = step_processor host p (events es) s in
        (r.0.running ≡ true)
        × (r.0.runtime_done ≡ false)
        × (id_weight r.0.globals.faas.request_id + signal_count r.1
            ≤ id_weight s.globals.faas.request_id)
        × (no_stop r.1 ≡ true)
  unfolding step_processor finish_batch signal_count no_stop set_request_id
  deliver-load es s h f =
      let b0 : Batch = record { buf = []; globals = s.globals; runtime_done = s.runtime_done } in
      ground (
        arith,
        run_batch-flag host p es b0,
        run_batch-faas host p es b0,
        flag-le (last_platform es) s.globals.faas.request_id,
      )

module _ (host : Host) (p : Processor) where
  pub enter-load :
      (id : Bytes) (s : ProcessorState)
      → s.running ≡ true
      → let r = step_processor host p (set_invocation id) s in
        (r.0.running ≡ true)
        × (r.0.runtime_done ≡ s.runtime_done)
        × (id_weight r.0.globals.faas.request_id ≤ 1)
        × (r.1 ≡ [])
  unfolding step_processor set_request_id
  enter-load [] s h = ground arith
  enter-load (c ∷ id) s h = ground arith

pub pick-shorter :
    {A : Type 0}
    → (i : ℕ) (xs : List A) (x : A) (rest : List A) → pick i xs ≡ some (x, rest)
    → suc (length rest) ≡ length xs
unfolding pick
pick-shorter i [] x rest h = absurd (cc h)
pick-shorter zero (y ∷ xs) x rest h = ground arith
pick-shorter {A} (suc i) (y ∷ xs) x rest h = elim (Option-cases (pick i xs)) [
  | inl n ↦ cc (rw (n, pick) at h)
  | inr ((z, others), e) ↦
      let l = pick-shorter i xs z others e in
      let same : ◌≡◌ {A = Option (A × List A)} (some (z, y ∷ others)) (some (x, rest)) =
        rw (e, pick) at h in
      ground arith
]

module _ (conf : Conf) (mode : conf.flush_at_next_invoke ≡ false) where
  pub runtime_done-load :
      (ok : Bool) (s : PusherState)
      → s.phase ≡ running
      → let r = step_pusher conf (runtime_done ok) s in
        (r.0.phase ≡ running)
        × (length r.0.flights ≤ suc (length s.flights))
        × (r.0.done_c ≡ s.done_c)
        × (blocking r.1 ≡ [])
  unfolding step_pusher on_input on_runtime_done push_buffer blocking
  runtime_done-load ok s h = ground (arith, length-append s.flights (s.buf ∷ []))

  pub chunk-load :
      (b : Bytes) (s : PusherState)
      → s.phase ≡ running
      → let r = step_pusher conf (chunk b) s in
        (r.0.phase ≡ running)
        × (r.0.flights ≡ s.flights)
        × (r.0.done_c ≡ s.done_c)
        × (blocking r.1 ≡ [])
  unfolding step_pusher on_input blocking
  chunk-load b s h = ground arith

  pub ctx_done-load :
      (ok : Bool) (s : PusherState)
      → s.phase ≡ running
      → let r = step_pusher conf (ctx_done ok) s in
        (r.0.phase ≡ running)
        × (r.0.flights ≡ s.flights)
        × (r.0.done_c ≡ s.done_c)
        × (blocking r.1 ≡ [])
  unfolding step_pusher on_input on_ctx_done push_buffer blocking
  ctx_done-load ok s h = ground arith

  pub invoke-load :
      (n : ℕ) (s : PusherState)
      → s.phase ≡ running
      → let r = step_pusher conf (invoke n) s in
        (r.0.phase ≡ running)
        × (r.0.flights ≡ s.flights)
        × (r.0.done_c ≡ some n)
        × (blocking r.1 ≡ [])
  unfolding step_pusher on_input on_invoke blocking
  invoke-load n s h = ground arith

  -- A response that is there answers the invocation, if there is one.
  pub respond-load :
      (k i : ℕ) (ok : Bool) (s : PusherState) (payload : Bytes) (rest : List Bytes)
      → conf.buffer_size ≡ pos k
      → s.phase ≡ running
      → pick i s.flights ≡ some (payload, rest)
      → let r = step_pusher conf (flush_resp i ok) s in
        (r.0.phase ≡ running)
        × (r.0.flights ≡ rest)
        × (r.0.done_c ≡ none)
        × (blocking r.1 ≡ blocking (signal_if_set s.done_c))
  unfolding step_pusher on_input on_flush_resp finish_flush failed_flush on_response signal_if_set
      blocking
  respond-load k i ok s payload rest size h at =
      let (m, d) = dropped_bytes-some k payload in ground arith

  pub respond-none :
      (i : ℕ) (ok : Bool) (s : PusherState)
      → pick i s.flights ≡ none
      → step_pusher conf (flush_resp i ok) s ≡ (s, [])
  unfolding step_pusher on_input on_flush_resp
  respond-none i ok s at = ground arith
