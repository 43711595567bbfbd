-- ===== src/Processor/Lifecycle.antt =====
-- The durations that a platform.report record carries, from the request's events before it
-- (pushers/processor.go, `requestDurations`).
use edgedelta_lambda_extensi.Common.{
  ◌≡◌, refl, true, false, none, some, List, [], ◌∷◌, ◌++◌, arith, ℤ, Result, ok, err, All, get_or,
}
use edgedelta_lambda_extensi.Common.{◌∙◌}
use edgedelta_lambda_extensi.Text.Bytes.{Bytes, codes, bytes_eq_iff, bytes_eq_refl}
use edgedelta_lambda_extensi.Text.Table.{lookup, lookup-insert, lookup-delete}
use edgedelta_lambda_extensi.Host.{Host}
use edgedelta_lambda_extensi.Json.Value.{Float64, Fields, find, as_map}
use edgedelta_lambda_extensi.Lambda.Events.{
  LambdaEvent, platform_start, platform_report, platform_runtime_done,
}
use edgedelta_lambda_extensi.Processor.Types.{
  RequestDuration, Globals, EdMetric, EventError, marshal_metric,
}
use edgedelta_lambda_extensi.Processor.Events.{
  some_line, dispatch, process, process_start_event, process_platform_report_event,
  process_runtime_done_event, request_id_of, end_request, set_end, forget_reported, report_metric,
  post_runtime, runtime_duration, float_at, milliseconds, runtime_duration, sub_time,
}
use edgedelta_lambda_extensi.Processor.Loop.{
  Processor, Batch, names_request, run_batch, batch_event,
}
use edgedelta_lambda_extensi.Processor.Frame.{process-frame, some_line-globals}

some_line-result :
    (r : Result EventError Bytes) (g h : Globals) → (some_line (r, g)).0 ≡ (some_line (r, h)).0
some_line-result (ok b) g h = refl
some_line-result (err x) g h = refl

module _ (host : Host) (p : Processor) where
  abbrev after : LambdaEvent → Globals → Globals
  after e g = (process host p.cloud p.host_arch p.process_runtime e g).1

  -- The variables after a sequence of events.
  pub process_all : List LambdaEvent → Globals → Globals
  process_all [] g = g
  process_all (e ∷ es) g = process_all es (after e g)

  -- A batch leaves the variables that its events leave one after the other.
  pub run_batch-globals :
      (es : List LambdaEvent) (b : Batch)
      → (run_batch host p es b).globals ≡ process_all es b.globals
  unfolding run_batch batch_event process_all
  run_batch-globals [] b = refl
  run_batch-globals (e ∷ es) b = run_batch-globals es (batch_event host p e b)

  process_all-append :
      (es fs : List LambdaEvent) (g : Globals)
      → process_all (es ++ fs) g ≡ process_all fs (process_all es g)
  unfolding process_all
  process_all-append [] fs g = refl
  process_all-append (e ∷ es) fs g = process_all-append es fs (after e g)

  process_all-frame :
      (es : List LambdaEvent) (g : Globals) (id : Bytes)
      → All (λ e. names_request e id ≡ false) es
      → lookup id (process_all es g).durations ≡ lookup id g.durations
  unfolding process_all
  process_all-frame [] g id h = refl
  process_all-frame (e ∷ es) g id (h, hs) =
      process_all-frame es (after e g) id hs
      ∙ process-frame host p.cloud p.host_arch p.process_runtime e g id h

  after-start :
      (e : LambdaEvent) (g : Globals) (id : Bytes) (t : ℤ)
      → e.event_type ≡ platform_start
      → names_request e id ≡ true
      → host.parse_time e.event_time ≡ some t
      → lookup id (after e g).durations ≡ some (record { start = t; stop = ℤ.pos 0 })
  unfolding process dispatch names_request process_start_event
  after-start e g id t type named time = rw type (grind (arith, lookup-insert, bytes_eq_iff))

  after-runtime_done :
      (e : LambdaEvent) (g : Globals) (id : Bytes) (t : ℤ) (d : RequestDuration)
      → e.event_type ≡ platform_runtime_done
      → names_request e id ≡ true
      → host.parse_time e.event_time ≡ some t
      → lookup id g.durations ≡ some d
      → lookup id (after e g).durations ≡ some (record d { stop = t })
  unfolding process dispatch names_request process_runtime_done_event end_request set_end
  after-runtime_done e g id t d type named time there =
      rw type (grind (arith, lookup-insert, bytes_eq_iff))

  -- What a request's start and its end leave in `requestDurations`.
  lookup-lifecycle :
      (es fs : List LambdaEvent) (start done : LambdaEvent) (g : Globals) (id : Bytes) (t0 t1 : ℤ)
      → start.event_type ≡ platform_start
      → names_request start id ≡ true
      → host.parse_time start.event_time ≡ some t0
      → done.event_type ≡ platform_runtime_done
      → names_request done id ≡ true
      → host.parse_time done.event_time ≡ some t1
      → All (λ e. names_request e id ≡ false) es
      → All (λ e. names_request e id ≡ false) fs
      → lookup id (process_all (start ∷ (es ++ done ∷ fs)) g).durations
        ≡ some (record { start = t0; stop = t1 })
  unfolding process_all
  lookup-lifecycle es fs start done g id t0 t1 ts ns ps td nd pd he hf =
      let g1 = after start g in
      let g2 = process_all es g1 in
      let began = process_all-frame es g1 id he ∙ after-start start g id t0 ts ns ps in
      rw (process_all-append es (done ∷ fs) g1) (
        process_all-frame fs (after done g2) id hf
        ∙ after-runtime_done done g2 id t1 _ td nd pd began)

  -- The metric of a report whose request has a start and an end.
  abbrev pub lifecycle_metric : LambdaEvent → Globals → Bytes → Fields → ℤ → ℤ → EdMetric
  lifecycle_metric e g id metric t0 t1 =
      report_metric host p.cloud p.host_arch p.process_runtime e g id metric
        (some (record { start = t0; stop = t1 }))

  report_lem :
      (e : LambdaEvent) (g : Globals) (id : Bytes) (content metric : Fields) (t0 t1 : ℤ)
      (duration : Float64)
      → e.event_type ≡ platform_report
      → as_map e.content ≡ some content
      → as_map (find (codes "metrics") content) ≡ some metric
      → request_id_of content ≡ some id
      → float_at (codes "durationMs") metric ≡ some duration
      → lookup id g.durations ≡ some (record { start = t0; stop = t1 })
      → let r = process host p.cloud p.host_arch p.process_runtime e g in
        let m = lifecycle_metric e g id metric t0 t1 in
        (r.0 ≡ (some_line (marshal_metric host m, g)).0) × (lookup id r.1.durations ≡ none)
  unfolding process dispatch process_platform_report_event
  report_lem e g id content metric t0 t1 duration type c m i d there =
      let e' = record e { event_type = platform_report } in
      rw type (
        simp (c, m, i, there)
          (
            some_line-result (marshal_metric host (lifecycle_metric e' g id metric t0 t1)) _ g,
            rw some_line-globals (
                unfold report_metric post_runtime forget_reported in
                simp (d, lookup-delete, bytes_eq_refl)),
          ))

  -- For a request with a platform.start at time t0, a platform.runtimeDone at t1 and a platform.report
  -- with a duration, in this order, and any events that do not name the request between them: the
  -- report's result is that of the metric whose post-runtime duration is the duration less the whole
  -- milliseconds from t0 to t1, whose runtime duration is the billed duration less that, and the
  -- request's entry in `requestDurations` is gone.
  pub report_after_lifecycle :
      (es fs : List LambdaEvent) (start done report : LambdaEvent) (g : Globals) (id : Bytes)
      (t0 t1 : ℤ) (content metric : Fields) (duration : Float64)
      → start.event_type ≡ platform_start
      → names_request start id ≡ true
      → host.parse_time start.event_time ≡ some t0
      → done.event_type ≡ platform_runtime_done
      → names_request done id ≡ true
      → host.parse_time done.event_time ≡ some t1
      → All (λ e. names_request e id ≡ false) es
      → All (λ e. names_request e id ≡ false) fs
      → report.event_type ≡ platform_report
      → as_map report.content ≡ some content
      → as_map (find (codes "metrics") content) ≡ some metric
      → request_id_of content ≡ some id
      → float_at (codes "durationMs") metric ≡ some duration
      → let h = process_all (start ∷ (es ++ done ∷ fs)) g in
        let r = process host p.cloud p.host_arch p.process_runtime report h in
        let m = lifecycle_metric report h id metric t0 t1 in
        let post = host.sub duration (host.from_int64 (milliseconds (sub_time t1 t0))) in
        let billed = get_or (float_at (codes "billedDurationMs") metric) 0 in
        (r.0 ≡ (some_line (marshal_metric host m, h)).0)
        × (m.post_runtime_duration_ms ≡ some post)
        × (m.runtime_duration_ms ≡ some (host.sub billed post))
        × (lookup id r.1.durations ≡ none)
  unfolding report_metric post_runtime runtime_duration
  report_after_lifecycle es fs start done report g id t0 t1 content metric duration ts ns ps td nd
        pd he hf rt c m i d =
      let there = lookup-lifecycle es fs start done g id t0 t1 ts ns ps td nd pd he hf in
      let (result, gone) = report_lem report _ id content metric t0 t1 duration rt c m i d there in
      (result, rw d, rw d, gone)
