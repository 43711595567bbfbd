-- ===== src/Producer/Handle.antt =====
-- handlers/producer.go: `handleLogs`. The events stand in a slice of pointers, where `none` is nil.
use edgedelta_lambda_extensi.Common.{ℕ, Option, none, some, List, [], ◌∷◌, if◌then◌else◌, get_or}
use edgedelta_lambda_extensi.Text.Bytes.{Bytes, codes}
use edgedelta_lambda_extensi.Text.Table.{Table, lookup}
use edgedelta_lambda_extensi.Json.Value.{Float64, Value}
use edgedelta_lambda_extensi.Json.Value as value
use edgedelta_lambda_extensi.Json.Tree.{Tree, Trees, null, array, no_trees, tree}
use edgedelta_lambda_extensi.Json.Parse.{parse}
use edgedelta_lambda_extensi.Json.Decode.{folds_to, decode_string, decode_struct, decode_any}
use edgedelta_lambda_extensi.Lambda.Events.{
  EventType, LambdaEvent, platform_init_start, platform_init_runtime_done, platform_init_report,
  platform_start, platform_runtime_done, platform_report, platform_restore_start,
  platform_restore_runtime_done, platform_restore_report, platform_telemetry_subscription,
  platform_logs_dropped, function, extension, other, event_type_text,
}
use edgedelta_lambda_extensi.Lambda.Responses.{put, unmarshal}

-- The constants of `EventType` by their texts.
abbrev pub event_types : Table EventType
event_types =
    (codes "platform.initStart", platform_init_start)
    ∷ (codes "platform.initRuntimeDone", platform_init_runtime_done)
    ∷ (codes "platform.initReport", platform_init_report)
    ∷ (codes "platform.start", platform_start)
    ∷ (codes "platform.runtimeDone", platform_runtime_done)
    ∷ (codes "platform.report", platform_report)
    ∷ (codes "platform.restoreStart", platform_restore_start)
    ∷ (codes "platform.restoreRuntimeDone", platform_restore_runtime_done)
    ∷ (codes "platform.restoreReport", platform_restore_report)
    ∷ (codes "platform.telemetrySubscription", platform_telemetry_subscription)
    ∷ (codes "platform.logsDropped", platform_logs_dropped)
    ∷ (codes "function", function)
    ∷ (codes "extension", extension)
    ∷ []

unfoldable pub event_type_of : Bytes → EventType
event_type_of s = get_or (lookup s event_types) (other s)

-- The zero value of a `LambdaEvent`.
abbrev pub no_event : LambdaEvent
no_event = record { event_time = []; event_type = other []; content = value.null }

-- What the handler answers, and the batch that it sends to the processor, if it sends one.
pub record Handled : Type 0 where
  pub status : ℕ
  pub sent : Option (List (Option LambdaEvent))

module _ (parse_float : Bytes → Option Float64) where
  unfoldable pub set_event : Bytes → Tree → LambdaEvent → Option LambdaEvent
  unfolding event_type_of
  set_event k t e =
      if folds_to k (codes "time")
      then put (decode_string t e.event_time) (λ v. record e { event_time = v })
      else if folds_to k (codes "type")
      then put (decode_string t (event_type_text e.event_type))
          (λ v. record e { event_type = event_type_of v })
      else if folds_to k (codes "record")
      then put (decode_any parse_float t) (λ v. record e { content = v })
      else some e

  -- An element of the slice: a null is a nil pointer.
  unfoldable pub decode_event : Tree → Option (Option LambdaEvent)
  unfolding set_event
  decode_event null = some none
  decode_event t = put (decode_struct set_event t no_event) some

  unfoldable pub decode_each : Trees → Option (List (Option LambdaEvent))
  decode_each no_trees = some []
  decode_each (tree t ts) = elim (decode_event t) [
    | none ↦ none
    | some e ↦ put (decode_each ts) (λ es. e ∷ es)
  ]

  -- A null leaves the slice nil, which is no error.
  unfoldable pub decode_events : Tree → Option (List (Option LambdaEvent))
  unfolding decode_each
  decode_events (array ts) = decode_each ts
  decode_events null = some []
  decode_events _ = none

  -- What `io.ReadAll` returns of the request's body; `none` is an error.
  unfoldable pub handle_logs : Option Bytes → Handled
  unfolding decode_events
  handle_logs none = record { status = 400; sent = none }
  handle_logs (some body) = elim (unmarshal decode_events (parse body)) [
    | none ↦ record { status = 400; sent = none }
    | some events ↦ record { status = 200; sent = some events }
  ]

-- The events that the processor ranges over; `none` is a nil pointer that it follows, which ends the
-- process.
unfoldable pub receive : List (Option LambdaEvent) → Option (List LambdaEvent)
receive [] = some []
receive (none ∷ es) = none
receive (some e ∷ es) = put (receive es) (λ rest. e ∷ rest)
