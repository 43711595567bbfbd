-- ===== src/System/Refines/Cases.antt =====
-- A case of one of the two loops, as an input more of its run.
use edgedelta_lambda_extensi.Common.{
  append_assoc, ℕ, ◌≡◌, pos, [], ◌∷◌, ◌++◌, sym, ◌∙◌, ap, append-nil,
}
use edgedelta_lambda_extensi.Host.{Host}
use edgedelta_lambda_extensi.Processor.Types.{Globals}
use edgedelta_lambda_extensi.Processor.Loop.{
  Processor, Input as Arrival, step as step_processor, run as run_processor,
}
use edgedelta_lambda_extensi.Processor.Batches.{payloads}
use edgedelta_lambda_extensi.Pusher.Loop.{
  Conf, State as PusherState, Input, running, step as step_pusher, run as run_pusher, start,
}
use edgedelta_lambda_extensi.Pipeline.{chunks}
use edgedelta_lambda_extensi.System.Steps.{System}
use edgedelta_lambda_extensi.System.Calm.{initial}
use edgedelta_lambda_extensi.System.Refines.Loops.{
  run_processor-state, run_processor-payloads, run_pusher-snoc, run_pusher-outputs, chunks-append,
  Goes, carried, chunks-carried, step-running,
}

-- What a state says has happened is a run of each loop, and the payloads that the processor sent are
-- those that the pusher took, and those that are still on their way.
pub record Traced (host : Host) (p : Processor) (conf : Conf) (g : Globals) (s : System)
    : Type 0 where
  pub processor : (run_processor host p s.arrivals (initial g).processor).0 ≡ s.processor
  pub pusher : (run_pusher conf s.inputs start).0 ≡ s.pusher
  pub done : (run_pusher conf s.inputs start).1 ≡ s.outputs
  pub channel :
      payloads (run_processor host p s.arrivals (initial g).processor).1
      ≡ chunks s.inputs ++ payloads s.sending
  pub runs : s.pusher.phase ≡ running

module _ (host : Host) (p : Processor) (conf : Conf) (k : ℕ) (size : conf.buffer_size ≡ pos k)
    (g : Globals) where
  -- A case of the processor's loop.
  pub arrival-Traced :
      (i : Arrival) (s t : System)
      → s.sending ≡ []
      → t.processor ≡ (step_processor host p i s.processor).0
      → t.sending ≡ (step_processor host p i s.processor).1
      → t.arrivals ≡ s.arrivals ++ i ∷ []
      → t.pusher ≡ s.pusher
      → t.inputs ≡ s.inputs
      → t.outputs ≡ s.outputs
      → Traced host p conf g s
      → Traced host p conf g t
  unfolding payloads
  arrival-Traced i s t e a b l c n o h =
      let before = (initial g).processor in
      let sent =
        ap (λ q. payloads (step_processor host p i q).1) (h.processor) ∙ ap payloads (sym b) in
      let taken =
        h.channel ∙ ap (λ os. chunks s.inputs ++ payloads os) e ∙ append-nil (chunks s.inputs) in
      record {
        processor =
            ap (λ ls. (run_processor host p ls before).0) l
            ∙ run_processor-state host p s.arrivals i before
            ∙ ap (λ q. (step_processor host p i q).0) (h.processor)
            ∙ sym a;
        pusher = ap (λ is. (run_pusher conf is start).0) n ∙ h.pusher ∙ sym c;
        done = ap (λ is. (run_pusher conf is start).1) n ∙ h.done ∙ sym o;
        channel =
            ap (λ ls. payloads (run_processor host p ls before).1) l
            ∙ run_processor-payloads host p s.arrivals i before
            ∙ ap
                (λ l.
                  l
                  ++ payloads
                      (step_processor host p i (run_processor host p s.arrivals before).0).1)
                taken
            ∙ ap (λ l. chunks s.inputs ++ l) sent
            ∙ ap (λ is. chunks is ++ payloads t.sending) (sym n);
        runs = ap (λ (q : PusherState). q.phase) c ∙ h.runs;
      }

  -- A case of the pusher's loop, with the payload that it takes from the channel.
  pub input-Traced :
      (i : Input) (s t : System)
      → Goes i
      → payloads s.sending ≡ carried i ++ payloads t.sending
      → t.processor ≡ s.processor
      → t.arrivals ≡ s.arrivals
      → t.pusher ≡ (step_pusher conf i s.pusher).0
      → t.inputs ≡ s.inputs ++ i ∷ []
      → t.outputs ≡ s.outputs ++ (step_pusher conf i s.pusher).1
      → Traced host p conf g s
      → Traced host p conf g t
  input-Traced i s t q e a l b n o h =
      let before = (initial g).processor in
      let more =
        ap chunks n
        ∙ chunks-append s.inputs (i ∷ [])
        ∙ ap (λ l. chunks s.inputs ++ l) (chunks-carried i) in
      record {
        processor = ap (λ ls. (run_processor host p ls before).0) l ∙ h.processor ∙ sym a;
        pusher =
            ap (λ is. (run_pusher conf is start).0) n
            ∙ run_pusher-snoc conf s.inputs i start
            ∙ ap (λ q. (step_pusher conf i q).0) (h.pusher)
            ∙ sym b;
        done =
            ap (λ is. (run_pusher conf is start).1) n
            ∙ run_pusher-outputs conf s.inputs i start
            ∙ ap (λ q. (run_pusher conf s.inputs start).1 ++ (step_pusher conf i q).1) (h.pusher)
            ∙ ap (λ l. l ++ (step_pusher conf i s.pusher).1) (h.done)
            ∙ sym o;
        channel =
            ap (λ ls. payloads (run_processor host p ls before).1) l
            ∙ h.channel
            ∙ ap (λ l. chunks s.inputs ++ l) e
            ∙ sym (append_assoc (chunks s.inputs) (carried i) (payloads t.sending))
            ∙ ap (λ l. l ++ payloads t.sending) (sym more);
        runs = ap (λ (q : PusherState). q.phase) b ∙ step-running conf k size i s.pusher q (h.runs);
      }
