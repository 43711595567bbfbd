-- ===== src/System/Stopping/Flushed.antt =====
-- What becomes of the records when `Worker.Stop` has returned.
use edgedelta_lambda_extensi.Common.{ℕ, ◌+◌, ◌≡◌, Bool, none, [], arith}
use edgedelta_lambda_extensi.Text.Bytes.{Bytes}
use edgedelta_lambda_extensi.Host.{Host}
use edgedelta_lambda_extensi.Processor.Types.{Globals}
use edgedelta_lambda_extensi.Processor.Loop.{Processor, run as run_processor}
use edgedelta_lambda_extensi.Processor.Batches.{payloads}
use edgedelta_lambda_extensi.Pusher.Loop.{
  Conf, State as PusherState, stop, running, step as step_pusher, on_input, on_stop, returned,
  push_buffer, signal_if_set,
}
use edgedelta_lambda_extensi.Pusher.Ledger.{
  weigh_all, delivered, lost, held, delivered-append, lost-append, weigh-nil,
}
use edgedelta_lambda_extensi.System.Steps.{System, to_pusher, push_input}
use edgedelta_lambda_extensi.System.Calm.{initial}
use edgedelta_lambda_extensi.System.Refines.Records.{Traced-Accounted}
use edgedelta_lambda_extensi.System.Refines.Cases.{Traced}

-- The pusher's loop has ended, nothing is on its way to it or in flight, and by a weight of the records,
-- those of all payloads that the processor has sent are delivered, or lost with a failed push or a drop of
-- old logs.
pub record IsFlushed (w : Bytes → ℕ) (host : Host) (p : Processor) (g : Globals) (s : System)
    : Type 0 where
  pub processor : (run_processor host p s.arrivals (initial g).processor).0 ≡ s.processor
  pub ended : s.pusher.phase ≡ returned
  pub none_sent : s.sending ≡ []
  pub none_flying : s.pusher.flights ≡ []
  pub out_of_hand :
      weigh_all w (payloads (run_processor host p s.arrivals (initial g).processor).1)
      ≡ delivered w s.outputs + lost w s.outputs

module _ (w : Bytes → ℕ) (host : Host) (p : Processor) (conf : Conf) (g : Globals) where
  -- What the last push does to the buffer.
  stop-weight :
      (ok : Bool) (s : PusherState)
      → s.phase ≡ running
      → s.flights ≡ []
      → s.done_c ≡ none
      → let r = step_pusher conf (stop ok) s in
        (r.0.phase ≡ returned) × (r.0.flights ≡ []) × (delivered w r.1 + lost w r.1 ≡ held w s)
  unfolding step_pusher on_input on_stop push_buffer signal_if_set delivered lost held weigh_all
  stop-weight ok s h f d = ground (arith, weigh-nil w)

  -- The stop of the pusher, when nothing is on its way to it and nothing in flight.
  pub stop-IsFlushed :
      (ok : Bool) (s : System)
      → s.sending ≡ []
      → s.telling ≡ []
      → s.pusher.flights ≡ []
      → s.pusher.done_c ≡ none
      → Traced host p conf g s
      → IsFlushed w host p g (to_pusher host p conf (stop ok) s s)
  unfolding to_pusher push_input payloads weigh_all
  stop-IsFlushed ok s e f a d t =
      let (kept, whole) = Traced-Accounted w host p conf g s t in
      let r = stop-weight ok s.pusher (t.runs) a d in
      let o = (step_pusher conf (stop ok) s.pusher).1 in
      let pr = t.processor in
      let run = t.runs in ground (arith, delivered-append w s.outputs o, lost-append w s.outputs o)
