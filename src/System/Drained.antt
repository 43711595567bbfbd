-- ===== src/System/Drained.antt =====
-- No deadlock before a deadline.
pub mod Settled
pub mod Moves
use edgedelta_lambda_extensi.Common.{
  ◌++◌, subst, sym, ℕ, ◌≡◌, ◌⊎◌, inl, inr, refl, pos, Bool, false, some, List, [], ◌∷◌, arith, All,
  ◌+◌, ◌≤◌, ◌∙◌, length, length-append, length-zero,
}
use edgedelta_lambda_extensi.Text.Bytes.{Bytes}
use edgedelta_lambda_extensi.Host.{Host}
use edgedelta_lambda_extensi.Processor.Types.{Globals}
use edgedelta_lambda_extensi.Processor.Loop.{
  Processor, Output as Sent, out, signal_runtime_done, stopped,
}
use edgedelta_lambda_extensi.Pusher.Loop.{
  Conf, State as PusherState, runtime_done, step as step_pusher, on_input, on_runtime_done, pick,
  signal_if_set,
}
use edgedelta_lambda_extensi.System.Steps.{
  Worker, idle, invoking_pusher, invoking_processor, waiting, forcing, System, Move, pass, respond,
  blocking, enter_pusher, enter_processor, finish, push_input, processor_input, to_pusher, pass_on,
  step_worker, finish_with, step, run,
}
use edgedelta_lambda_extensi.System.Calm.{no_stop, Calm, initial, initial-Calm}
use edgedelta_lambda_extensi.System.Calm.Parts.{
  chunk-load, runtime_done-load, respond-load, enter-load, invoke-load,
}
use edgedelta_lambda_extensi.System.Calm.Moves.{IsEarly, step-Calm, run-Calm}
use edgedelta_lambda_extensi.System.Drained.Settled.{
  IsInternal, pending, Settles, settle_after, settle_run, idle_after,
}
use edgedelta_lambda_extensi.System.Drained.Moves.{
  drain_sending, enter-next, wait-next, finish-next, respond-next,
}

module _ (host : Host) (p : Processor) (conf : Conf) (k : ℕ)
    (mode : conf.flush_at_next_invoke ≡ false) (size : conf.buffer_size ≡ pos k) where
  -- Without an invocation, and nothing to answer.
  settle_idle :
      (ok : Bool) (s : System)
      → s.worker ≡ idle
      → s.telling ≡ []
      → Calm s
      → (ms : List Move) × All (IsInternal ok) ms
        × (let t = run host p conf ms s in
            (t.sending ≡ []) × (t.telling ≡ []) × (t.pusher.flights ≡ []) × (t.worker ≡ idle))
  settle_idle ok s w f c =
      let (ms, is, (c', e', f', w', le)) =
        drain_sending host p conf k mode size ok s.sending s refl f c in
      (ms, is, (e', f', length-zero _ (ground arith), w' ∙ w))

  settle_telling :
      (ok : Bool) (n : ℕ) (s : System)
      → s.worker ≡ waiting n
      → s.telling ≡ n ∷ []
      → Calm s
      → Settles host p conf ok s
  settle_telling ok n s w e c =
      let (f', w', e') = finish-next host p conf k mode size n s w e c in
      idle_after host p conf ok finish s tt (
        settle_idle ok (step host p conf finish s) w' f'
          (step-Calm host p conf k mode size finish s tt c))

  settle_waiting :
      (ok : Bool) (n : ℕ) (fs : List Bytes) (s : System)
      → s.worker ≡ waiting n
      → s.pusher.flights ≡ fs
      → s.sending ≡ []
      → s.telling ≡ []
      → Calm s
      → Settles host p conf ok s
  unfolding run
  settle_waiting ok n [] s w a e f c = ([], tt, (e, f, a, inr (n, w, ground arith, ground arith)))
  settle_waiting ok n (b ∷ fs) s w a e f c =
      let (f', w', e') = respond-next host p conf k mode size ok n b fs s w f a c in
      settle_after host p conf ok (respond 0 ok) s refl (ground arith) (
        settle_telling ok n (step host p conf (respond 0 ok) s) w' f'
          (step-Calm host p conf k mode size (respond 0 ok) s tt c))

  settle_entered :
      (ok : Bool) (n : ℕ) (s : System)
      → s.worker ≡ waiting n
      → s.telling ≡ []
      → Calm s
      → Settles host p conf ok s
  settle_entered ok n s w f c =
      let (ms, is, (c', e', f', w', le)) =
        drain_sending host p conf k mode size ok s.sending s refl f c in
      settle_run host p conf ok ms s is le
        (settle_waiting ok n _ (run host p conf ms s) (w' ∙ w) refl e' f' c')

  settle_invoking_processor :
      (ok : Bool) (n : ℕ) (id : Bytes) (s : System)
      → s.worker ≡ invoking_processor n id
      → s.sending ≡ []
      → s.telling ≡ []
      → Calm s
      → Settles host p conf ok s
  settle_invoking_processor ok n id s w e f c =
      let (e', f', w') = wait-next host p conf k mode size n id s w e f c in
      settle_after host p conf ok enter_processor s tt (ground arith) (
        settle_entered ok n (step host p conf enter_processor s) w' f'
          (step-Calm host p conf k mode size enter_processor s tt c))

  settle_invoking_pusher :
      (ok : Bool) (n : ℕ) (id : Bytes) (s : System)
      → s.worker ≡ invoking_pusher n id
      → s.sending ≡ []
      → s.telling ≡ []
      → Calm s
      → Settles host p conf ok s
  settle_invoking_pusher ok n id s w e f c =
      let (e', f', w') = enter-next host p conf k mode size n id s w e f c in
      settle_after host p conf ok enter_pusher s tt (ground arith) (
        settle_invoking_processor ok n id (step host p conf enter_pusher s) w' e' f'
          (step-Calm host p conf k mode size enter_pusher s tt c))

  settle_worker :
      (ok : Bool) (w : Worker) (ts : List ℕ) (s : System)
      → s.worker ≡ w
      → s.telling ≡ ts
      → Calm s
      → Settles host p conf ok s
  settle_worker ok forcing ts s w f c = absurd (ground arith)
  settle_worker ok idle [] s w f c =
      let (ms, is, (e, g, a, i)) = settle_idle ok s w f c in (ms, is, (e, g, a, inl i))
  settle_worker ok (waiting n) [] s w f c = settle_entered ok n s w f c
  settle_worker ok (waiting n) (t ∷ ts) s w f c = settle_telling ok n s w (ground arith) c
  settle_worker ok (invoking_processor n id) [] s w f c =
      let (ms, is, (c', e', f', w', le)) =
        drain_sending host p conf k mode size ok s.sending s refl f c in
      settle_run host p conf ok ms s is le
        (settle_invoking_processor ok n id (run host p conf ms s) (w' ∙ w) e' f' c')
  settle_worker ok (invoking_pusher n id) [] s w f c =
      let (ms, is, (c', e', f', w', le)) =
        drain_sending host p conf k mode size ok s.sending s refl f c in
      settle_run host p conf ok ms s is le
        (settle_invoking_pusher ok n id (run host p conf ms s) (w' ∙ w) e' f' c')
  settle_worker ok _ (t ∷ ts) s w f c = absurd (ground arith)

  -- In the mode that flushes at the end of the runtime, with a buffer size that is not negative:
  -- from the start of the program, whatever events are posted, invocations arrive and pushes come
  -- to, and in whatever order the parts move, as long as no invocation has reached its deadline,
  -- some moves of the parts alone and responses of the flushes in flight, whether all pushes from
  -- there on succeed or all fail, lead to a state in which the processor and the pusher are at their
  -- selects with nothing left to send, no flush is in flight, and the worker is between two
  -- invocations, or waits in one for which no flush was in flight and no answer on its way where
  -- these moves began, and whose channel the pusher still has.
  pub no_early_deadlock :
      (ok : Bool) (g : Globals) (xs : List Move)
      → g.faas.request_id ≡ []
      → All IsEarly xs
      → Settles host p conf ok (run host p conf xs (initial g))
  no_early_deadlock ok g xs h early =
      let s = run host p conf xs (initial g) in
      settle_worker ok s.worker s.telling s refl refl
        (run-Calm host p conf k mode size xs (initial g) early (initial-Calm g h))
