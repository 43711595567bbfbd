-- ===== src/Pipeline.antt =====
-- The processor of pushers/processor.go and the pusher of pushers/pusher.go behind it: `bufferC` of
-- main.go carries the payloads of the one to the other, in order.
mod Examples
use edgedelta_lambda_extensi.Common.{ℕ, ◌+◌, ◌≡◌, List, [], ◌∷◌, ◌++◌, All, subst, sym}
use edgedelta_lambda_extensi.Text.Bytes.{Bytes}
use edgedelta_lambda_extensi.Text.Records.{IsFramed}
use edgedelta_lambda_extensi.Host.{Host}
use edgedelta_lambda_extensi.Processor.Loop.{
  Processor, Input as Arrival, State as ProcessorState, run as run_processor,
}
use edgedelta_lambda_extensi.Processor.Batches.{payloads}
use edgedelta_lambda_extensi.Processor.Stream.{run-payloads-IsFramed}
use edgedelta_lambda_extensi.Pusher.Loop.{
  Conf, Input, chunk, runtime_done, expire, ctx_done, invoke, flush_resp, stop, force_flush, start,
  run,
}
use edgedelta_lambda_extensi.Pusher.Whole.{IsWhole, IsFramedInput}
use edgedelta_lambda_extensi.Pusher.Ledger.{received_all, delivered, lost, held, records_conserved}

-- The payloads that arrive on `inC`, in order.
unfoldable pub chunks : List Input → List Bytes
chunks [] = []
chunks (chunk b ∷ is) = b ∷ chunks is
chunks (_ ∷ is) = chunks is

pub chunks-framed : (is : List Input) → All IsFramed (chunks is) → All IsFramedInput is
unfolding chunks
chunks-framed [] h = tt
chunks-framed (chunk b ∷ is) (hb, h) = (hb, chunks-framed is h)
chunks-framed (runtime_done ok ∷ is) h = (tt, chunks-framed is h)
chunks-framed (expire ∷ is) h = (tt, chunks-framed is h)
chunks-framed (ctx_done ok ∷ is) h = (tt, chunks-framed is h)
chunks-framed (invoke n ∷ is) h = (tt, chunks-framed is h)
chunks-framed (flush_resp i ok ∷ is) h = (tt, chunks-framed is h)
chunks-framed (stop ok ∷ is) h = (tt, chunks-framed is h)
chunks-framed (force_flush ok ∷ is) h = (tt, chunks-framed is h)

-- Whatever the two loops go through, if the payloads that reach the pusher are those that the
-- processor sends, in order: the weight of the records received is that of the records delivered,
-- lost with a failed push or a drop of old logs, and still held, and what is held is framed. The
-- weight is arbitrary, so this counts each record by itself.
pub pipeline_conserves :
    (w : Bytes → ℕ) (host : Host) (p : Processor) (ps : List Arrival) (s : ProcessorState)
    (conf : Conf) (is : List Input)
    → chunks is ≡ payloads (run_processor host p ps s).1
    → let r = run conf is start in
      (received_all w conf is start ≡ delivered w r.1 + (lost w r.1 + held w r.0)) × IsWhole r.0
pipeline_conserves w host p ps s conf is h =
    records_conserved w conf is
      (chunks-framed is (subst (All IsFramed) (sym h) (run-payloads-IsFramed host p ps s)))
