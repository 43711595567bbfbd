-- ===== src/Processor/Printable.antt =====
-- The characters of the records that the handlers of pushers/processor.go write.
use edgedelta_lambda_extensi.Common.{
  Option, none, some, List, [], ◌∷◌, ◌++◌, Result, ok, err, All-append, arith, Bool-cases, inl, inr,
  AllOk,
}
use edgedelta_lambda_extensi.Text.Bytes.{Bytes, codes}
use edgedelta_lambda_extensi.Json.Value.{Float64}
use edgedelta_lambda_extensi.Json.Quote.{IsPrintable, quote-IsPrintable}
use edgedelta_lambda_extensi.Json.Encode.{
  Member, ArePrintable, encode_object, encode_object-IsPrintable, omit_empty_string,
  omit_empty_string-ArePrintable, omit_empty_map-ArePrintable,
}
use edgedelta_lambda_extensi.Host.{Host, PrintsFloats, is_special}
use edgedelta_lambda_extensi.Lambda.Events.{
  EventType, LambdaEvent, event_type_text, platform_start, platform_report, platform_runtime_done,
  function,
}
use edgedelta_lambda_extensi.Processor.Types.{
  Faas, Globals, Cloud, Common, EdLog, EdMetric, EventError, marshal_faas, marshal_cloud,
  common_members, marshal_log, float_member, float_members, metric_fields, marshal_metric,
}
use edgedelta_lambda_extensi.Processor.Events.{
  Outcome, settle, process, dispatch, process_start_event, process_lambda_function_event,
  process_platform_report_event, process_runtime_done_event, some_line,
}

Members-append : (ms ns : List Member) → ArePrintable ms → ArePrintable ns → ArePrintable (ms ++ ns)
Members-append ms ns = All-append _ ms ns

marshal_faas-IsPrintable : (f : Faas) → IsPrintable (marshal_faas f)
unfolding marshal_faas
marshal_faas-IsPrintable f = encode_object-IsPrintable _ (
  quote-IsPrintable f.name,
  (
    quote-IsPrintable f.version,
    (
      quote-IsPrintable f.request_id,
      Members-append (omit_empty_string (codes "memory_size") f.memory_size) _
          (omit_empty_string-ArePrintable _ _)
          (Members-append (omit_empty_string (codes "step") f.step) _
            (omit_empty_string-ArePrintable _ _) (omit_empty_map-ArePrintable _ _)),
    ),
  ),
)

marshal_cloud-IsPrintable : (c : Cloud) → IsPrintable (marshal_cloud c)
unfolding marshal_cloud
marshal_cloud-IsPrintable c = encode_object-IsPrintable _ (
  quote-IsPrintable c.resource_id,
  (quote-IsPrintable c.account_id, (quote-IsPrintable c.region, tt)),
)

common_members-ArePrintable : (c : Common) → ArePrintable (common_members c)
unfolding common_members
common_members-ArePrintable c = (
  marshal_cloud-IsPrintable c.cloud,
  (
    marshal_faas-IsPrintable c.faas,
    (
      quote-IsPrintable c.timestamp,
      (
        quote-IsPrintable (event_type_text c.log_type),
        Members-append (omit_empty_string (codes "host.arch") c.host_architecture) _
            (omit_empty_string-ArePrintable _ _)
            (Members-append
              (omit_empty_string (codes "process.runtime.name") c.process_runtime_name) _
              (omit_empty_string-ArePrintable _ _) (omit_empty_string-ArePrintable _ _)),
      ),
    ),
  ),
)

pub marshal_log-IsPrintable : (l : EdLog) → IsPrintable (marshal_log l)
unfolding marshal_log
marshal_log-IsPrintable l = encode_object-IsPrintable _ (
    Members-append (common_members l.common) _ (common_members-ArePrintable l.common)
      (quote-IsPrintable l.message, tt))

module _ (host : Host) (prints : PrintsFloats host) where
  float_member-ArePrintable :
      (name : Bytes) (x : Option Float64) → AllOk ArePrintable (float_member host name x)
  unfolding float_member
  float_member-ArePrintable name none = tt
  float_member-ArePrintable name (some x) = elim (Bool-cases (is_special x)) [
    | inl e ↦ rw e tt
    | inr e ↦ rw e (prints x, tt)
  ]

  float_members-ArePrintable :
      (fs : List (Bytes × Option Float64)) → AllOk ArePrintable (float_members host fs)
  unfolding float_members
  float_members-ArePrintable [] = tt
  float_members-ArePrintable ((name, x) ∷ fs) =
      both (float_member host name x) (float_members host fs) (float_member-ArePrintable name x)
        (float_members-ArePrintable fs)
    where
      both :
          (a b : Result EventError (List Member))
          → AllOk ArePrintable a
          → AllOk ArePrintable b
          → AllOk ArePrintable
              (elim a [ err e ↦ err e | ok ms ↦ elim b [ err e ↦ err e | ok ns ↦ ok (ms ++ ns) ] ])
      both (err e) b ha hb = tt
      both (ok ms) (err e) ha hb = tt
      both (ok ms) (ok ns) ha hb = Members-append ms ns ha hb

  marshal_metric-IsPrintable : (m : EdMetric) → AllOk IsPrintable (marshal_metric host m)
  unfolding marshal_metric
  marshal_metric-IsPrintable m =
      encoded (float_members host (metric_fields host m))
        (float_members-ArePrintable (metric_fields host m))
    where
      encoded :
          (r : Result EventError (List Member))
          → AllOk ArePrintable r
          → AllOk IsPrintable (elim r [
            | err e ↦ err e
            | ok ms ↦ ok (encode_object (common_members m.common ++ ms))
          ])
      encoded (err e) h = tt
      encoded (ok ms) h =
          encode_object-IsPrintable _
            (Members-append (common_members m.common) ms (common_members-ArePrintable m.common) h)

abbrev Prints : Outcome → Type 0
Prints r = AllOk IsPrintable r.0

settle-Prints : (g : Globals) (r : Result EventError Outcome) → AllOk Prints r → Prints (settle g r)
settle-Prints g (ok r) h = h
settle-Prints g (err e) h = tt

abbrev pub LinePrints : Result EventError (Option Bytes) → Type 0
LinePrints (ok (some b)) = IsPrintable b
LinePrints _ = Unit

some_line-LinePrints : (r : Outcome) → Prints r → LinePrints (some_line r).0
some_line-LinePrints (ok b, g) h = h
some_line-LinePrints (err e, g) h = tt

module _ (host : Host) (prints : PrintsFloats host) (cloud : Cloud)
    (host_arch process_runtime : Bytes) (e : LambdaEvent) (g : Globals) where
  start-Prints : Prints (process_start_event host cloud host_arch process_runtime e g)
  unfolding process_start_event
  start-Prints = grind (arith, marshal_log-IsPrintable)

  function-Prints : Prints (process_lambda_function_event host cloud host_arch process_runtime e g)
  unfolding process_lambda_function_event
  function-Prints = grind (arith, marshal_log-IsPrintable)

  report-Prints : Prints (process_platform_report_event host cloud host_arch process_runtime e g)
  unfolding process_platform_report_event
  report-Prints = grind (arith, marshal_metric-IsPrintable host prints)

  runtime_done-Prints : Prints (process_runtime_done_event host cloud host_arch process_runtime e g)
  unfolding process_runtime_done_event
  runtime_done-Prints = grind (arith, marshal_log-IsPrintable)

  dispatch-LinePrints :
      (t : EventType) → LinePrints (dispatch host cloud host_arch process_runtime t e g).0
  unfolding dispatch
  dispatch-LinePrints platform_start = some_line-LinePrints _ start-Prints
  dispatch-LinePrints function = some_line-LinePrints _ function-Prints
  dispatch-LinePrints platform_report = some_line-LinePrints _ report-Prints
  dispatch-LinePrints platform_runtime_done = some_line-LinePrints _ runtime_done-Prints
  dispatch-LinePrints _ = tt

  -- A record that an event gives holds no control character.
  pub process-LinePrints : LinePrints (process host cloud host_arch process_runtime e g).0
  unfolding process
  process-LinePrints = dispatch-LinePrints e.event_type
