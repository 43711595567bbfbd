-- ===== src/System/Refines/Records.antt =====
-- Where the records of the composed system are.
use edgedelta_lambda_extensi.Common.{
  ℕ, ◌+◌, ◌≡◌, inl, inr, refl, true, false, List, [], ◌∷◌, ◌++◌, arith, All, subst, ◌∙◌, ap,
  Bool-cases,
}
use edgedelta_lambda_extensi.Text.Bytes.{Bytes}
use edgedelta_lambda_extensi.Text.Records.{IsFramed}
use edgedelta_lambda_extensi.Host.{Host}
use edgedelta_lambda_extensi.Processor.Types.{Globals}
use edgedelta_lambda_extensi.Processor.Loop.{Processor, run as run_processor}
use edgedelta_lambda_extensi.Processor.Batches.{payloads}
use edgedelta_lambda_extensi.Processor.Stream.{run-payloads-IsFramed}
use edgedelta_lambda_extensi.Pusher.Loop.{
  Conf, State as PusherState, Input, chunk, runtime_done, expire, ctx_done, flush_resp, invoke,
  stop, force_flush, running, is_running, step as step_pusher, run as run_pusher, start,
}
use edgedelta_lambda_extensi.Pusher.Whole.{IsWhole}
use edgedelta_lambda_extensi.Pusher.Ledger.{
  received, weigh_all, received_all, delivered, lost, held, records_conserved,
}
use edgedelta_lambda_extensi.Pipeline.{chunks, chunks-framed}
use edgedelta_lambda_extensi.System.Steps.{System}
use edgedelta_lambda_extensi.System.Calm.{initial}
use edgedelta_lambda_extensi.System.Refines.Cases.{Traced}

module _ (w : Bytes → ℕ) (conf : Conf) where
  run-ended :
      (is : List Input) (s : PusherState)
      → is_running s.phase ≡ false
      → (run_pusher conf is s).0 ≡ s
  unfolding run_pusher step_pusher
  run-ended [] s e = refl
  run-ended (i ∷ is) s e = rw e (run-ended is s e)

  received-running :
      (i : Input) (is : List Input) (s : PusherState) (rest : ℕ)
      → is_running s.phase ≡ true
      → rest ≡ weigh_all w (chunks is)
      → received w i s + rest ≡ weigh_all w (chunks (i ∷ is))
  unfolding received chunks weigh_all
  received-running (chunk b) is s rest e h = ground arith
  received-running (runtime_done ok) is s rest e h = ground arith
  received-running expire is s rest e h = ground arith
  received-running (ctx_done ok) is s rest e h = ground arith
  received-running (invoke n) is s rest e h = ground arith
  received-running (flush_resp j ok) is s rest e h = ground arith
  received-running (stop ok) is s rest e h = ground arith
  received-running (force_flush ok) is s rest e h = ground arith

  -- A loop that runs at the end has received everything.
  received_all-chunks :
      (is : List Input) (s : PusherState)
      → (run_pusher conf is s).0.phase ≡ running
      → received_all w conf is s ≡ weigh_all w (chunks is)
  unfolding received_all received chunks weigh_all run_pusher
  received_all-chunks [] s h = refl
  received_all-chunks (i ∷ is) s h = elim (Bool-cases (is_running s.phase)) [
    | inl e ↦ received-running i is s _ e (received_all-chunks is (step_pusher conf i s).0 h)
    | inr e ↦
        let same = ap (λ (q : PusherState). q.phase) (run-ended (i ∷ is) s e) in
        absurd (ground arith)
  ]

  weigh_all-append : (xs bs : List Bytes) → weigh_all w (xs ++ bs) ≡ weigh_all w xs + weigh_all w bs
  unfolding weigh_all
  weigh_all-append [] bs = omega arith
  weigh_all-append (a ∷ xs) bs = omega (arith, weigh_all-append xs bs)

All-prefix : (xs ys : List Bytes) → All IsFramed (xs ++ ys) → All IsFramed xs
All-prefix [] ys h = tt
All-prefix (x ∷ xs) ys (h, hs) = (h, All-prefix xs ys hs)

-- By a weight of the records, those of the payloads that the processor has sent are delivered, lost with a
-- failed push or a drop of old logs, held by the pusher, or on their way to it.
abbrev pub Accounted : (Bytes → ℕ) → Host → Processor → Globals → System → Type 0
Accounted w host p g s =
    weigh_all w (payloads (run_processor host p s.arrivals (initial g).processor).1)
    ≡ delivered w s.outputs
      + (lost w s.outputs + (held w s.pusher + weigh_all w (payloads s.sending)))

pub Traced-Accounted :
    (w : Bytes → ℕ) (host : Host) (p : Processor) (conf : Conf) (g : Globals) (s : System)
    → Traced host p conf g s
    → Accounted w host p g s × IsWhole s.pusher
Traced-Accounted w host p conf g s t =
    let sent = payloads (run_processor host p s.arrivals (initial g).processor).1 in
    let framed = All-prefix (chunks s.inputs) (payloads s.sending) (
      subst (All IsFramed) (t.channel)
        (run-payloads-IsFramed host p s.arrivals (initial g).processor)) in
    let (kept, whole) = records_conserved w conf s.inputs (chunks-framed s.inputs framed) in
    let all =
      received_all-chunks w conf s.inputs start
        (ap (λ (q : PusherState). q.phase) (t.pusher) ∙ t.runs) in
    let there =
      ap
        (λ q.
          delivered w (run_pusher conf s.inputs start).1
          + (lost w (run_pusher conf s.inputs start).1 + held w q))
        (t.pusher)
      ∙ ap (λ os. delivered w os + (lost w os + held w s.pusher)) (t.done) in
    let parts =
      ap (weigh_all w) (t.channel)
      ∙ weigh_all-append w conf (chunks s.inputs) (payloads s.sending) in
    (omega (arith, kept, all, there, parts), subst IsWhole (t.pusher) whole)
