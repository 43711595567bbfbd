-- ===== src/Pipeline/Examples.antt =====
-- The pipeline of main.go at a batch of one log line.
use edgedelta_lambda_extensi.Common.{◌+◌, ◌≡◌, refl, true, false, List, [], ◌∷◌, pos}
use edgedelta_lambda_extensi.Text.Bytes.{Bytes}
use edgedelta_lambda_extensi.Processor.Loop.{
  events, run_batch, Input as Arrival, run as run_processor, step as step_processor, finish_batch,
  batch_event,
}
use edgedelta_lambda_extensi.Processor.Batches.{payloads}
use edgedelta_lambda_extensi.Processor.Examples.{host, p, globals, listening, log_line}
use edgedelta_lambda_extensi.Pusher.Loop.{
  Conf, Input, chunk, invoke, runtime_done, flush_resp, start, run,
}
use edgedelta_lambda_extensi.Pusher.Whole.{IsWhole}
use edgedelta_lambda_extensi.Pusher.Ledger.{received_all, delivered, lost, held}
use edgedelta_lambda_extensi.Pipeline.{chunks, pipeline_conserves}

abbrev conf : Conf
conf = record { flush_at_next_invoke = false; buffer_size = pos 8 }

abbrev arrivals : List Arrival
arrivals = events (log_line ∷ []) ∷ []

abbrev payload : Bytes
payload =
    (run_batch host p (log_line ∷ [])
      (record { buf = []; globals = globals; runtime_done = false })).buf

abbrev happenings : List Input
happenings = invoke 7 ∷ chunk payload ∷ runtime_done true ∷ flush_resp 0 true ∷ []

pipeline_conserves_example :
    let r = run conf happenings start in
    (received_all (λ b. 1) conf happenings start
      ≡ delivered (λ b. 1) r.1 + (lost (λ b. 1) r.1 + held (λ b. 1) r.0))
    × IsWhole r.0
unfolding chunks payloads run_processor step_processor finish_batch run_batch batch_event
pipeline_conserves_example =
    pipeline_conserves (λ b. 1) host p arrivals listening conf happenings refl
