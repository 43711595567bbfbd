-- ===== src/Processor/Examples.antt =====
-- The theorems on pushers/processor.go at concrete events.
use edgedelta_lambda_extensi.Common.{
  ◌-◌, ◌≡◌, refl, true, false, some, none, [], ◌∷◌, ◌++◌, arith, pos, negsuc, length, err,
  if◌then◌else◌, get_or,
}
use edgedelta_lambda_extensi.Text.Bytes.{Bytes, codes, bytes_eq}
use edgedelta_lambda_extensi.Text.Table.{lookup}
use edgedelta_lambda_extensi.Text.Records.{records}
use edgedelta_lambda_extensi.Json.Value.{Fields, end, field, text, number, object, find}
use edgedelta_lambda_extensi.Host.{Host, PrintsFloats, is_zero, is_special}
use edgedelta_lambda_extensi.Lambda.Events.{
  LambdaEvent, function, platform_start, platform_report, platform_runtime_done,
}
use edgedelta_lambda_extensi.Processor.Types.{Globals, marshal_metric, unsupported_value}
use edgedelta_lambda_extensi.Processor.Events.{
  process, request_id_of, float_at, some_line, milliseconds, sub_time,
}
use edgedelta_lambda_extensi.Processor.Loop.{Processor, State, events, names_request, step}
use edgedelta_lambda_extensi.Processor.Lifecycle.{
  process_all, lifecycle_metric, report_after_lifecycle,
}
use edgedelta_lambda_extensi.Processor.Rejected.{IsIeee, zero_memory_rejected}
use edgedelta_lambda_extensi.Processor.Batches.{
  emitted, payloads, signals, batch_payload, batch_hides_done,
}

-- A host whose floats are whole numbers, whose times are lengths, and whose quotients by zero are NaN.
abbrev pub host : Host
host = record {
  sub = λ x y. x - y;
  div = λ x y. if is_zero y then 0x7ff8_0000_0000_0000 else x;
  mul = λ x y. x;
  from_int64 = λ n. elim n [ pos k ↦ k | negsuc k ↦ 0 ];
  format_float = λ x. codes "0";
  parse_time = λ s. some (pos (length s));
}

host-PrintsFloats : PrintsFloats host
host-PrintsFloats = λ x. omega arith

host-IsIeee : IsIeee host
unfolding is_special is_zero
host-IsIeee = record { div_zero = λ x z h. rw h refl; mul_hundred = λ x h. h }

abbrev pub p : Processor
p = record {
  tags = [];
  cloud = record { resource_id = codes "arn"; account_id = codes "1"; region = codes "r" };
  host_arch = [];
  process_runtime = codes "go1.x";
  memory_size = codes "128";
}

abbrev pub globals : Globals
globals = record {
  faas = record {
    name = codes "f";
    version = codes "1";
    request_id = codes "r1";
    memory_size = codes "128";
    step = [];
    tags = [];
  };
  durations = [];
}

abbrev pub listening : State
listening = record { globals = globals; runtime_done = false; running = true }

abbrev names : Bytes → Fields
names id = field (codes "requestId") (text id) end

abbrev started : LambdaEvent
started = record {
  event_time = codes "1";
  event_type = platform_start;
  content = object (names (codes "r1"));
}

abbrev pub log_line : LambdaEvent
log_line = record {
  event_time = codes "2";
  event_type = function;
  content = text (codes " hello\n");
}

abbrev pub done : LambdaEvent
done = record {
  event_time = codes "333";
  event_type = platform_runtime_done;
  content = object (names (codes "r1"));
}

abbrev other_started : LambdaEvent
other_started = record {
  event_time = codes "4";
  event_type = platform_start;
  content = object (names (codes "r2"));
}

abbrev metrics : Fields
metrics =
    field (codes "durationMs") (number 20)
      (field (codes "maxMemoryUsedMB") (number 70) (field (codes "memorySizeMB") (number 0) end))

abbrev report_content : Fields
report_content =
    field (codes "requestId") (text (codes "r1")) (field (codes "metrics") (object metrics) end)

abbrev report : LambdaEvent
report = record {
  event_time = codes "5";
  event_type = platform_report;
  content = object report_content;
}

report_after_lifecycle_example :
    let h = process_all host p (started ∷ ((log_line ∷ []) ++ done ∷ other_started ∷ [])) globals in
    let r = process host p.cloud p.host_arch p.process_runtime report h in
    let m = lifecycle_metric host p report h (codes "r1") metrics (pos 1) (pos 3) in
    let post = host.sub 20 (host.from_int64 (milliseconds (sub_time (pos 3) (pos 1)))) in
    let billed = get_or (float_at (codes "billedDurationMs") metrics) 0 in
    (r.0 ≡ (some_line (marshal_metric host m, h)).0)
    × (m.post_runtime_duration_ms ≡ some post)
    × (m.runtime_duration_ms ≡ some (host.sub billed post))
    × (lookup (codes "r1") r.1.durations ≡ none)
unfolding names_request request_id_of find bytes_eq float_at
report_after_lifecycle_example =
    report_after_lifecycle host p (log_line ∷ []) (other_started ∷ []) started done report globals
      (codes "r1") (pos 1) (pos 3) report_content metrics 20 refl refl refl refl refl refl
      (refl, tt) (refl, tt) refl refl refl refl refl

zero_memory_rejected_example :
    (process host p.cloud p.host_arch p.process_runtime report globals).0 ≡ err unsupported_value
unfolding request_id_of find bytes_eq float_at is_zero
zero_memory_rejected_example =
    zero_memory_rejected host p report globals (codes "r1") report_content metrics 70 0 host-IsIeee
      refl refl refl refl refl refl refl

batch_payload_example :
    let es = started ∷ log_line ∷ done ∷ [] in
    (b : Bytes) × (payloads (step host p (events es) listening).1 ≡ b ∷ [])
    × (records b ≡ emitted host p es globals)
batch_payload_example =
    batch_payload host p host-PrintsFloats (started ∷ log_line ∷ done ∷ []) listening refl

batch_hides_done_example :
    let r = step host p (events ((started ∷ done ∷ []) ++ report ∷ [])) listening in
    (signals r.1 ≡ false) × (r.0.globals.faas.request_id ≡ codes "r1")
batch_hides_done_example =
    batch_hides_done host p (started ∷ done ∷ []) report listening refl refl refl refl
