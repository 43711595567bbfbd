-- ===== src/Lambda/Events.antt =====
-- lambda/types.go: the telemetry events.
use edgedelta_lambda_extensi.Text.Bytes.{Bytes, codes}
use edgedelta_lambda_extensi.Json.Value.{Value}

-- `EventType`, a string with constants; `other` is a text that is none of them.
pub data EventType : Type 0 where
  platform_init_start platform_init_runtime_done platform_init_report : EventType
  platform_start platform_runtime_done platform_report : EventType
  platform_restore_start platform_restore_runtime_done platform_restore_report : EventType
  platform_telemetry_subscription platform_logs_dropped : EventType
  function extension : EventType
  other : Bytes → EventType

unfoldable pub event_type_text : EventType → Bytes
event_type_text platform_init_start = codes "platform.initStart"
event_type_text platform_init_runtime_done = codes "platform.initRuntimeDone"
event_type_text platform_init_report = codes "platform.initReport"
event_type_text platform_start = codes "platform.start"
event_type_text platform_runtime_done = codes "platform.runtimeDone"
event_type_text platform_report = codes "platform.report"
event_type_text platform_restore_start = codes "platform.restoreStart"
event_type_text platform_restore_runtime_done = codes "platform.restoreRuntimeDone"
event_type_text platform_restore_report = codes "platform.restoreReport"
event_type_text platform_telemetry_subscription = codes "platform.telemetrySubscription"
event_type_text platform_logs_dropped = codes "platform.logsDropped"
event_type_text function = codes "function"
event_type_text extension = codes "extension"
event_type_text (other s) = s

pub record LambdaEvent : Type 0 where
  pub event_time : Bytes
  pub event_type : EventType
  -- `Record interface{}`
  pub content : Value
