-- ===== src/Processor/Readable/Examples.antt =====
-- A log record and a metric record, printed and parsed.
use edgedelta_lambda_extensi.Common.{◌≡◌, refl, none, some, [], ◌∷◌, ◌>>=◌}
use edgedelta_lambda_extensi.Text.Bytes.{codes}
use edgedelta_lambda_extensi.Text.Utf8.{valid_from}
use edgedelta_lambda_extensi.Json.Parse.{parse}
use edgedelta_lambda_extensi.Host.{Host}
use edgedelta_lambda_extensi.Lambda.Events.{function, event_type_text}
use edgedelta_lambda_extensi.Processor.Types.{Common, EdLog, EdMetric, marshal_log}
use edgedelta_lambda_extensi.Processor.Readable.{log_tree, IsReadable, parse-marshal_log}

abbrev host : Host
host = record {
  sub = λ x y. 0;
  div = λ x y. 0;
  mul = λ x y. 0;
  from_int64 = λ n. 0;
  format_float = λ x. codes "1.5";
  parse_time = λ s. none;
}

abbrev common : Common
common = record {
  cloud = record { resource_id = codes "arn"; account_id = codes "42"; region = codes "us-east-1" };
  faas = record {
    name = codes "f";
    version = codes "1";
    request_id = codes "r1";
    memory_size = codes "128";
    step = [];
    tags = (codes "ed_team", codes "logs") ∷ [];
  };
  timestamp = codes "2024-01-01T00:00:00Z";
  log_type = function;
  host_architecture = codes "arm64";
  process_runtime_name = [];
  status = [];
}

abbrev log_record : EdLog
log_record = record { common = common; message = codes "say \"<hi>\"\n" }

abbrev metric : EdMetric
metric = record {
  common = common;
  billed_duration_ms = some 1;
  init_duration_ms = none;
  runtime_duration_ms = none;
  duration_ms = some 2;
  post_runtime_duration_ms = none;
  max_memory_used = none;
  memory_left = none;
  memory_percent = none;
}

parse-marshal_log_example : parse (marshal_log log_record) ≡ some (log_tree log_record)
unfolding valid_from event_type_text IsReadable
parse-marshal_log_example =
    parse-marshal_log log_record
      (
        (refl, refl, refl),
        (refl, refl, refl),
        (refl, refl, ((refl, refl), tt)),
        (refl, refl, refl),
        (refl, refl),
      )
      refl
