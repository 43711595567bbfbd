-- ===== src/Processor/Frame.antt =====
-- What processing one event leaves alone in the package's variables of pushers/processor.go.
use edgedelta_lambda_extensi.Common.{◌≡◌, refl, false, Option, arith, ℤ, ok, err}
use edgedelta_lambda_extensi.Text.Bytes.{Bytes, bytes_eq}
use edgedelta_lambda_extensi.Text.Table.{Table, lookup, lookup-insert, table_laws}
use edgedelta_lambda_extensi.Host.{Host}
use edgedelta_lambda_extensi.Json.Value.{Float64}
use edgedelta_lambda_extensi.Lambda.Events.{
  EventType, LambdaEvent, function, platform_start, platform_report, platform_runtime_done,
}
use edgedelta_lambda_extensi.Processor.Types.{RequestDuration, Globals, Cloud}
use edgedelta_lambda_extensi.Processor.Events.{
  Outcome, some_line, dispatch, process, process_start_event, process_lambda_function_event,
  process_platform_report_event, process_runtime_done_event, end_request, set_end, forget_reported,
}
use edgedelta_lambda_extensi.Processor.Loop.{names_request}

module _ (host : Host) (cloud : Cloud) (host_arch process_runtime : Bytes) (e : LambdaEvent)
    (g : Globals) where
  end_request-faas :
      (id : Bytes) {g' : Globals}
      → end_request host cloud host_arch process_runtime id e g ≡ ok g'
      → g'.faas ≡ g.faas
  unfolding end_request
  end_request-faas id h = ground arith

  dispatch-faas :
      (t : EventType) → (dispatch host cloud host_arch process_runtime t e g).1.faas ≡ g.faas
  unfolding dispatch process_start_event process_lambda_function_event process_platform_report_event
      process_runtime_done_event end_request
  dispatch-faas platform_start = ground arith
  dispatch-faas function = ground arith
  dispatch-faas platform_report = ground arith
  dispatch-faas platform_runtime_done = ground arith
  dispatch-faas _ = refl

  -- No event changes `faasObj`.
  pub process-faas : (process host cloud host_arch process_runtime e g).1.faas ≡ g.faas
  unfolding process
  process-faas = dispatch-faas e.event_type

pub some_line-globals : (r : Outcome) → (some_line r).1 ≡ r.1
some_line-globals (ok b, g) = refl
some_line-globals (err x, g) = refl

lookup-set_end :
    (id j : Bytes) (stop : ℤ) (m : Table RequestDuration)
    → bytes_eq id j ≡ false
    → lookup j (set_end id stop m) ≡ lookup j m
unfolding set_end
lookup-set_end id j stop m h = grind (arith, table_laws)

lookup-forget_reported :
    (x : Option Float64) (id j : Bytes) (m : Table RequestDuration)
    → bytes_eq id j ≡ false
    → lookup j (forget_reported x id m) ≡ lookup j m
unfolding forget_reported
lookup-forget_reported x id j m h = grind (arith, table_laws)

module _ (host : Host) (cloud : Cloud) (host_arch process_runtime : Bytes) (e : LambdaEvent)
    (g : Globals) (id : Bytes) (other : names_request e id ≡ false) where
  start-frame :
      lookup id (process_start_event host cloud host_arch process_runtime e g).1.durations
      ≡ lookup id g.durations
  unfolding process_start_event names_request
  start-frame = grind (arith, lookup-insert)

  report-frame :
      lookup id (process_platform_report_event host cloud host_arch process_runtime e g).1.durations
      ≡ lookup id g.durations
  unfolding process_platform_report_event names_request
  report-frame = grind (arith, lookup-forget_reported)

  runtime_done-frame :
      lookup id (process_runtime_done_event host cloud host_arch process_runtime e g).1.durations
      ≡ lookup id g.durations
  unfolding process_runtime_done_event names_request end_request
  runtime_done-frame = grind (arith, lookup-set_end)

  dispatch-frame :
      (t : EventType)
      → lookup id (dispatch host cloud host_arch process_runtime t e g).1.durations
        ≡ lookup id g.durations
  unfolding dispatch
  dispatch-frame platform_start = rw some_line-globals start-frame
  dispatch-frame function = unfold process_lambda_function_event in ground arith
  dispatch-frame platform_report = rw some_line-globals report-frame
  dispatch-frame platform_runtime_done = rw some_line-globals runtime_done-frame
  dispatch-frame _ = refl

  -- An event that does not name a request leaves the entry of that request.
  pub process-frame :
      lookup id (process host cloud host_arch process_runtime e g).1.durations
      ≡ lookup id g.durations
  unfolding process
  process-frame = dispatch-frame e.event_type
