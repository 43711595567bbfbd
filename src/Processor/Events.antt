-- ===== src/Processor/Events.antt =====
-- pushers/processor.go: one telemetry event. A handler returns its result and the package's
-- variables as it leaves them.
use edgedelta_lambda_extensi.Common.{
  ◌-◌, ◌^◌, Option, none, some, [], ◌++◌, ltb, ℤ, pos, negsuc, ◌-ℤ◌, quot_ℤ, if◌then◌else◌, Result,
  ok, err, ◌>>=◌, or_fail, get_or,
}
use edgedelta_lambda_extensi.Text.Bytes.{Bytes, codes}
use edgedelta_lambda_extensi.Text.Table.{Table, lookup, insert, delete}
use edgedelta_lambda_extensi.Text.Trim.{trim_space}
use edgedelta_lambda_extensi.Json.Value.{Float64, Fields, find, as_map, as_string, as_float64}
use edgedelta_lambda_extensi.Host.{Host, hundred, is_zero}
use edgedelta_lambda_extensi.Lambda.Events.{
  EventType, LambdaEvent, platform_start, function, platform_report, platform_runtime_done,
}
use edgedelta_lambda_extensi.Processor.Types.{
  Faas, RequestDuration, Globals, Cloud, Common, EdMetric, EventError, not_a_map, no_request_id,
  no_metrics, bad_timestamp, not_a_string, marshal_log, marshal_metric,
}

abbrev pub Outcome : Type 0
Outcome = Result EventError Bytes × Globals

-- An early return leaves the variables as they were.
abbrev pub settle : Globals → Result EventError Outcome → Outcome
settle g (ok r) = r
settle g (err e) = (err e, g)

-- `nil, nil` is `ok none`.
abbrev pub some_line : Outcome → Result EventError (Option Bytes) × Globals
some_line (ok line, g) = (ok (some line), g)
some_line (err e, g) = (err e, g)

-- `content["requestId"].(string)`
unfoldable pub request_id_of : Fields → Option Bytes
request_id_of content = as_string (find (codes "requestId") content)

-- `&faas{…}` of the platform events.
unfoldable pub event_faas : Globals → Bytes → Bytes → Faas
event_faas g request_id step = record g.faas { request_id = request_id; step = step }

unfoldable pub start_step : Bytes
start_step = codes "START"

unfoldable pub end_step : Bytes
end_step = codes "END"

-- `t.Sub(u)` stops at the ends of the range of a `time.Duration`.
unfoldable pub sub_time : ℤ → ℤ → ℤ
sub_time t u = elim (t -ℤ u) [
  | pos n ↦ if ltb n (2 ^ 63) then pos n else pos (2 ^ 63 - 1)
  | negsuc n ↦ if ltb n (2 ^ 63) then negsuc n else negsuc (2 ^ 63 - 1)
]

unfoldable pub milliseconds : ℤ → ℤ
milliseconds d = quot_ℤ d 1_000_000

-- `utils.GetPointerIfNotDefaultValue` at float64
unfoldable pub get_pointer_if_not_default_value : Float64 → Option Float64
get_pointer_if_not_default_value v = if is_zero v then none else some v

unfoldable pub float_at : Bytes → Fields → Option Float64
float_at k metric = as_float64 (find k metric)

-- `requestDurations[id].End = end`, if the key is there.
unfoldable pub set_end : Bytes → ℤ → Table RequestDuration → Table RequestDuration
set_end id stop durations = elim (lookup id durations) [
  | none ↦ durations
  | some d ↦ insert id (record d { stop = stop }) durations
]

module _ (host : Host) where
  -- The duration of a report less what the runtime took.
  unfoldable pub post_runtime : Option RequestDuration → Option Float64 → Option Float64
  unfolding milliseconds sub_time
  post_runtime (some d) (some duration) =
      some (host.sub duration (host.from_int64 (milliseconds (sub_time d.stop d.start))))
  post_runtime _ _ = none

  unfoldable pub memory_left : Option Float64 → Option Float64 → Option Float64
  memory_left (some used) (some size) = some (host.sub size used)
  memory_left _ _ = none

  unfoldable pub memory_percent : Option Float64 → Option Float64 → Option Float64
  memory_percent (some used) (some size) =
      some (host.mul (host.div (host.sub size used) size) hundred)
  memory_percent _ _ = none

  unfoldable pub runtime_duration : Option Float64 → Float64 → Option Float64 → Option Float64
  runtime_duration (some duration) billed (some post) = some (host.sub billed post)
  runtime_duration _ _ _ = none

-- `delete(requestDurations, id)` where the report's post-runtime duration was computed.
unfoldable pub forget_reported :
    Option Float64 → Bytes → Table RequestDuration → Table RequestDuration
forget_reported none id durations = durations
forget_reported (some _) id durations = delete id durations

module _ (host : Host) (cloud : Cloud) (host_arch process_runtime : Bytes) where
  unfoldable pub event_common : LambdaEvent → Faas → EventType → Bytes → Common
  event_common e faas log_type status = record {
    cloud = cloud;
    faas = faas;
    timestamp = e.event_time;
    log_type = log_type;
    host_architecture = host_arch;
    process_runtime_name = process_runtime;
    status = status;
  }

  unfoldable pub process_start_event : LambdaEvent → Globals → Outcome
  unfolding event_common event_faas start_step
  process_start_event e g = settle g (do
    content ← or_fail (as_map e.content) not_a_map
    request_id ← or_fail (request_id_of content) no_request_id
    start ← or_fail (host.parse_time e.event_time) bad_timestamp
    ok (
      ok (
          marshal_log (record {
            common = event_common e (event_faas g request_id start_step) platform_start [];
            message = codes "START RequestID: " ++ request_id;
          })),
      record g {
        durations = insert request_id (record { start = start; stop = pos 0 }) g.durations;
      },
    ))

  unfoldable pub process_lambda_function_event : LambdaEvent → Globals → Outcome
  unfolding event_common
  process_lambda_function_event e g = settle g (do
    content ← or_fail (as_string e.content) not_a_string
    ok (
      ok (
          marshal_log
            (record { common = event_common e g.faas function []; message = trim_space content })),
      g,
    ))

  -- The metric of a report, from its request's entry in `requestDurations`.
  unfoldable pub report_metric :
      LambdaEvent → Globals → Bytes → Fields → Option RequestDuration → EdMetric
  unfolding event_common event_faas
  report_metric e g request_id metric times =
      let max_used = float_at (codes "maxMemoryUsedMB") metric in
      let size = float_at (codes "memorySizeMB") metric in
      let duration = float_at (codes "durationMs") metric in
      let billed = get_or (float_at (codes "billedDurationMs") metric) 0 in
      let init = get_or (float_at (codes "initDurationMs") metric) 0 in
      let post = post_runtime host times duration in
      record {
        common = event_common e (event_faas g request_id []) platform_report [];
        billed_duration_ms = get_pointer_if_not_default_value billed;
        init_duration_ms = get_pointer_if_not_default_value init;
        runtime_duration_ms = runtime_duration host duration billed post;
        duration_ms = get_pointer_if_not_default_value (get_or duration 0);
        post_runtime_duration_ms = post;
        max_memory_used = get_pointer_if_not_default_value (get_or max_used 0);
        memory_left = memory_left host max_used size;
        memory_percent = memory_percent host max_used size;
      }

  unfoldable pub process_platform_report_event : LambdaEvent → Globals → Outcome
  process_platform_report_event e g = settle g (do
    content ← or_fail (as_map e.content) not_a_map
    metric ← or_fail (as_map (find (codes "metrics") content)) no_metrics
    request_id ← or_fail (request_id_of content) no_request_id
    let times = lookup request_id g.durations
    let m = report_metric e g request_id metric times
    ok (
      marshal_metric host m,
      record g { durations = forget_reported m.post_runtime_duration_ms request_id g.durations },
    ))

  -- The end of the entry that is there already; the time is read only then.
  unfoldable pub end_request : Bytes → LambdaEvent → Globals → Result EventError Globals
  unfolding set_end
  end_request id e g = elim (lookup id g.durations) [
    | none ↦ ok g
    | some _ ↦ do
      stop ← or_fail (host.parse_time e.event_time) bad_timestamp
      ok (record g { durations = set_end id stop g.durations })
  ]

  unfoldable pub process_runtime_done_event : LambdaEvent → Globals → Outcome
  unfolding event_common event_faas end_step
  process_runtime_done_event e g = settle g (do
    content ← or_fail (as_map e.content) not_a_map
    request_id ← or_fail (request_id_of content) no_request_id
    g' ← end_request request_id e g
    let status = get_or (as_string (find (codes "status") content)) []
    ok (
      ok (
          marshal_log (record {
            common = event_common e (event_faas g request_id end_step) platform_runtime_done status;
            message = codes "END RequestID: " ++ g.faas.request_id;
          })),
      g',
    ))

  unfoldable pub dispatch :
      EventType → LambdaEvent → Globals → Result EventError (Option Bytes) × Globals
  dispatch platform_start e g = some_line (process_start_event e g)
  dispatch function e g = some_line (process_lambda_function_event e g)
  dispatch platform_report e g = some_line (process_platform_report_event e g)
  dispatch platform_runtime_done e g = some_line (process_runtime_done_event e g)
  dispatch _ e g = (ok none, g)

  unfoldable pub process : LambdaEvent → Globals → Result EventError (Option Bytes) × Globals
  unfolding dispatch
  process e g = dispatch e.event_type e g
