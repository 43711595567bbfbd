-- ===== src/Pusher/Signals.antt =====
-- When the pusher of pushers/pusher.go tells an invocation that it is done.
use edgedelta_lambda_extensi.Common.{
  ℕ, ◌+◌, ◌≤◌, ◌≡◌, refl, Bool, true, false, Option, none, some, List, [], ◌∷◌, ◌++◌, arith, ◌==◌,
  if◌then◌else◌, if_either, Option-cases, inl, inr,
}
use edgedelta_lambda_extensi.Text.Bytes.{Bytes}
use edgedelta_lambda_extensi.Pusher.Loop.{
  failed_flush, finish_flush, Conf, Phase, running, State, Input, chunk, runtime_done, expire,
  ctx_done, invoke, flush_resp, stop, force_flush, Output, signal_done, push_buffer, signal_if_set,
  on_runtime_done, on_ctx_done, on_invoke, pick, on_response, on_flush_resp, on_stop,
  on_force_flush, on_expire, on_input, is_running, step, run, start,
}

module _ (n : ℕ) where
  -- How often invocation `n` is told.
  unfoldable pub told : List Output → ℕ
  told [] = 0
  told (signal_done m ∷ os) = (if m == n then 1 else 0) + told os
  told (_ ∷ os) = told os

  -- How often invocation `n` hands over its channel.
  unfoldable pub asked : Input → ℕ
  asked (invoke m) = if m == n then 1 else 0
  asked _ = 0

  unfoldable pub asked_all : List Input → ℕ
  asked_all [] = 0
  asked_all (i ∷ is) = asked i + asked_all is

  -- Whether the loop still has the channel.
  unfoldable pub waiting : Option ℕ → ℕ
  waiting none = 0
  waiting (some m) = if m == n then 1 else 0

  waiting-none : waiting none ≡ 0
  unfolding waiting
  waiting-none = refl

  told-append : (a b : List Output) → told (a ++ b) ≡ told a + told b
  unfolding told
  told-append [] b = omega arith
  told-append (signal_done m ∷ a) b = omega (arith, told-append a b)
  told-append (_ ∷ a) b = told-append a b

  told-signal_if_set : (o : Option ℕ) → told (signal_if_set o) ≡ waiting o
  unfolding told waiting signal_if_set
  told-signal_if_set none = refl
  told-signal_if_set (some m) = ground arith

  told-push_buffer : (b : Bytes) (ok : Bool) → told (push_buffer b ok) ≡ 0
  unfolding told push_buffer
  told-push_buffer b ok = ground arith

  -- The channel is gone when the loop has ended.
  abbrev pending : Phase → Option ℕ → ℕ
  pending running o = waiting o
  pending _ o = 0

  -- A case tells no more than it is asked for and has still to tell.
  abbrev Keeps : ℕ → State → State × List Output → Type 0
  Keeps k s r = told r.1 + pending r.0.phase r.0.done_c ≤ k + pending s.phase s.done_c

  module _ (conf : Conf) where
    failed_flush-Keeps :
        (o : Option ℕ) (payload : Bytes) (rest : List Bytes) (s : State)
        → s.phase ≡ running
        → Keeps 0 s (failed_flush o payload rest s)
    unfolding failed_flush on_response told
    failed_flush-Keeps none payload rest s h = ground arith
    failed_flush-Keeps (some k) payload rest s h =
        ground (arith, told-signal_if_set s.done_c, waiting-none)

    finish_flush-Keeps :
        (ok : Bool) (payload : Bytes) (rest : List Bytes) (s : State)
        → s.phase ≡ running
        → Keeps 0 s (finish_flush conf ok payload rest s)
    unfolding finish_flush
    finish_flush-Keeps true payload rest s h =
        unfold on_response told in ground (arith, told-signal_if_set s.done_c, waiting-none)
    finish_flush-Keeps false payload rest s h = failed_flush-Keeps _ payload rest s h

    on_flush_resp-Keeps :
        (i : ℕ) (ok : Bool) (s : State) → s.phase ≡ running → Keeps 0 s (on_flush_resp conf i ok s)
    unfolding on_flush_resp
    on_flush_resp-Keeps i ok s h = elim (Option-cases (pick i s.flights)) [
      | inl e ↦ rw (e, on_flush_resp) (unfold told in omega arith)
      | inr ((payload, rest), e) ↦ rw (e, on_flush_resp) (finish_flush-Keeps ok payload rest s h)
    ]

    on_input-Keeps :
        (i : Input) (s : State) → s.phase ≡ running → Keeps (asked i) s (on_input conf i s)
    unfolding on_input asked told
    on_input-Keeps (chunk b) s h = omega arith
    on_input-Keeps (runtime_done ok) s h = unfold on_runtime_done push_buffer in ground arith
    on_input-Keeps expire s h = unfold on_expire in ground arith
    on_input-Keeps (ctx_done ok) s h = unfold on_ctx_done push_buffer in ground arith
    on_input-Keeps (invoke m) s h = unfold on_invoke waiting in ground arith
    on_input-Keeps (flush_resp i ok) s h = on_flush_resp-Keeps i ok s h
    on_input-Keeps (stop ok) s h = unfold on_stop waiting push_buffer signal_if_set in ground arith
    on_input-Keeps (force_flush ok) s h = unfold on_force_flush push_buffer in ground arith

    step-Keeps : (i : Input) (s : State) → Keeps (asked i) s (step conf i s)
    unfolding step
    step-Keeps i s =
        if_either (λ (r : State × List Output). Keeps (asked i) s r) (is_running s.phase)
          (on_input conf i s) (s, []) (λ e. on_input-Keeps i s (ground arith))
          (λ e. unfold told in omega arith)

    run-Keeps : (is : List Input) (s : State) → Keeps (asked_all is) s (run conf is s)
    unfolding run asked_all
    run-Keeps [] s = unfold told in omega arith
    run-Keeps (i ∷ is) s =
        let (s', sent) = step conf i s in
        let (s'', more) = run conf is s' in
        omega (arith, step-Keeps i s, run-Keeps is s', told-append sent more)

    -- Whatever happens, an invocation is told that the pusher is done at most as often as it handed
    -- over its channel.
    pub told-le-asked : (is : List Input) → told (run conf is start).1 ≤ asked_all is
    told-le-asked is = omega (arith, run-Keeps is start, waiting-none)
