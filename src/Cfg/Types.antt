-- ===== src/Cfg/Types.antt =====
-- The structs of cfg/config.go, with the buffering configuration of lambda/types.go.
use edgedelta_lambda_extensi.Common.{ℕ, Bool, List, ℤ}
use edgedelta_lambda_extensi.Text.Bytes.{Bytes, codes}
use edgedelta_lambda_extensi.Text.Table.{Table}
use edgedelta_lambda_extensi.Text.ParseInt.{NumError}

abbrev pub http_pusher : Bytes
http_pusher = codes "http"

abbrev pub kinesis_pusher : Bytes
kinesis_pusher = codes "kinesis"

-- The fields are uint32.
pub record BufferingCfg : Type 0 where
  pub max_items : ℕ
  pub max_bytes : ℕ
  pub timeout_ms : ℕ

-- An `int` and a `time.Duration` have 64 bits; a duration counts nanoseconds.
pub record Config : Type 0 where
  pub ed_endpoint : Bytes
  pub kinesis_endpoint : Bytes
  pub pusher_mode : Bytes
  pub forward_tags : Bool
  pub log_types : List Bytes
  pub bfg_config : BufferingCfg
  pub push_timeout : ℤ
  pub retry_interval : ℤ
  pub tags : Table Bytes
  pub account_id : Bytes
  pub region : Bytes
  pub function_arn : Bytes
  pub process_runtime_name : Bytes
  pub host_architecture : Bytes
  pub memory_size : Bytes
  pub buffer_size : ℤ
  pub flush_at_next_invoke : Bool
  pub tag_prefix : Bytes

-- The messages that are collected in `multiErr`.
pub data ConfigError : Type 0 where
  invalid_pusher_mode : Bytes → ConfigError
  bad_buffer_size bad_push_timeout bad_retry_interval : NumError → ConfigError
  bad_max_items bad_max_bytes bad_timeout_ms : NumError → ConfigError
  invalid_log_type : Bytes → ConfigError

-- `nil, err`: an endpoint is missing; or the configuration with the messages of `multiErr`, where no
-- message stands for the nil error.
pub data Outcome : Type 0 where
  no_ed_endpoint no_kinesis_endpoint : Outcome
  loaded : Config → List ConfigError → Outcome
