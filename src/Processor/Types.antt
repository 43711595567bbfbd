-- ===== src/Processor/Types.antt =====
-- The structs of pushers/processor.go, the package's variables, and their JSON.
use edgedelta_lambda_extensi.Common.{
  Option, none, some, List, [], ◌∷◌, ◌++◌, ℤ, if◌then◌else◌, Result, ok, err,
}
use edgedelta_lambda_extensi.Text.Bytes.{Bytes, codes}
use edgedelta_lambda_extensi.Text.Table.{Table}
use edgedelta_lambda_extensi.Json.Value.{Float64}
use edgedelta_lambda_extensi.Json.Quote.{quote}
use edgedelta_lambda_extensi.Json.Encode.{Member, encode_object, omit_empty_string, omit_empty_map}
use edgedelta_lambda_extensi.Host.{Host, is_special}
use edgedelta_lambda_extensi.Lambda.Events.{EventType, event_type_text}

pub record Faas : Type 0 where
  pub name : Bytes
  pub version : Bytes
  pub request_id : Bytes
  pub memory_size : Bytes
  pub step : Bytes
  pub tags : Table Bytes

-- Nanoseconds since the zero `time.Time`, which is `pos 0`.
pub record RequestDuration : Type 0 where
  pub start : ℤ
  pub stop : ℤ

-- The package's variables `faasObj` and `requestDurations`.
pub record Globals : Type 0 where
  pub faas : Faas
  pub durations : Table RequestDuration

pub record Cloud : Type 0 where
  pub resource_id : Bytes
  pub account_id : Bytes
  pub region : Bytes

pub record Common : Type 0 where
  pub cloud : Cloud
  pub faas : Faas
  pub timestamp : Bytes
  pub log_type : EventType
  pub host_architecture : Bytes
  pub process_runtime_name : Bytes
  pub status : Bytes

pub record EdLog : Type 0 where
  pub common : Common
  pub message : Bytes

pub record EdMetric : Type 0 where
  pub common : Common
  pub billed_duration_ms : Option Float64
  pub init_duration_ms : Option Float64
  pub runtime_duration_ms : Option Float64
  pub duration_ms : Option Float64
  pub post_runtime_duration_ms : Option Float64
  pub max_memory_used : Option Float64
  pub memory_left : Option Float64
  pub memory_percent : Option Float64

-- Why `process` returns an error: the code's messages.
pub data EventError : Type 0 where
  not_a_map no_request_id no_metrics bad_timestamp not_a_string unsupported_value : EventError

unfoldable pub marshal_faas : Faas → Bytes
marshal_faas f = encode_object (
    (codes "name", quote f.name)
    ∷ (codes "version", quote f.version)
    ∷ (codes "request_id", quote f.request_id)
    ∷ (omit_empty_string (codes "memory_size") f.memory_size
        ++ (omit_empty_string (codes "step") f.step ++ omit_empty_map (codes "tags") f.tags)))

unfoldable pub marshal_cloud : Cloud → Bytes
marshal_cloud c = encode_object (
    (codes "resource_id", quote c.resource_id)
    ∷ (codes "account_id", quote c.account_id)
    ∷ (codes "region", quote c.region)
    ∷ [])

-- The fields of the embedded struct stand first in a record.
unfoldable pub common_members : Common → List Member
unfolding marshal_cloud marshal_faas
common_members c =
    (codes "cloud", marshal_cloud c.cloud)
    ∷ (codes "faas", marshal_faas c.faas)
    ∷ (codes "timestamp", quote c.timestamp)
    ∷ (codes "log_type", quote (event_type_text c.log_type))
    ∷ (omit_empty_string (codes "host.arch") c.host_architecture
        ++ (omit_empty_string (codes "process.runtime.name") c.process_runtime_name
            ++ omit_empty_string (codes "status") c.status))

-- `json.Marshal` of an `edLog`, which cannot fail.
unfoldable pub marshal_log : EdLog → Bytes
unfolding common_members
marshal_log l = encode_object (common_members l.common ++ (codes "message", quote l.message) ∷ [])

module _ (host : Host) where
  -- A `*float64` with `omitempty`: a NaN or an infinity is refused.
  unfoldable pub float_member : Bytes → Option Float64 → Result EventError (List Member)
  float_member name none = ok []
  float_member name (some x) =
      if is_special x then err unsupported_value else ok ((name, host.format_float x) ∷ [])

  unfoldable pub float_members : List (Bytes × Option Float64) → Result EventError (List Member)
  unfolding float_member
  float_members [] = ok []
  float_members ((name, x) ∷ rest) = elim (float_member name x) [
    | err e ↦ err e
    | ok ms ↦ elim (float_members rest) [ err e ↦ err e | ok ns ↦ ok (ms ++ ns) ]
  ]

  abbrev pub metric_fields : EdMetric → List (Bytes × Option Float64)
  metric_fields m =
      (codes "faas.billed_duration_ms", m.billed_duration_ms)
      ∷ (codes "faas.init_duration_ms", m.init_duration_ms)
      ∷ (codes "faas.runtime_duration_ms", m.runtime_duration_ms)
      ∷ (codes "faas.duration_ms", m.duration_ms)
      ∷ (codes "faas.post_runtime_duration_ms", m.post_runtime_duration_ms)
      ∷ (codes "faas.max_memory_used", m.max_memory_used)
      ∷ (codes "faas.memory_left", m.memory_left)
      ∷ (codes "faas.memory_percent", m.memory_percent)
      ∷ []

  -- `json.Marshal` of an `edMetric`.
  unfoldable pub marshal_metric : EdMetric → Result EventError Bytes
  unfolding common_members float_members
  marshal_metric m = elim (float_members (metric_fields m)) [
    | err e ↦ err e
    | ok ms ↦ ok (encode_object (common_members m.common ++ ms))
  ]
