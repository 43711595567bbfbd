-- ===== src/Extension/Wiring.antt =====
-- The constructors that `NewWorker` of main.go calls: `NewPusher` of pushers/pusher.go and
-- `NewProcessor` of pushers/processor.go. The channels they make are not part of the model.
use edgedelta_lambda_extensi.Common.{
  ◌≡◌, ◌≢◌, ◌⊎◌, Option, none, some, [], arith, ok, pos, ℤ, if◌then◌else◌, false,
}
use edgedelta_lambda_extensi.Text.Bytes.{Bytes, codes, bytes_eq, bytes_eq_iff}
use edgedelta_lambda_extensi.Cfg.Types.{Config, kinesis_pusher, http_pusher}
use edgedelta_lambda_extensi.Cfg.Endpoints.{loaded_mode}
use edgedelta_lambda_extensi.Pusher.Loop.{Conf}
use edgedelta_lambda_extensi.Processor.Loop.{Processor}
use edgedelta_lambda_extensi.Extension.Types.{FunctionConfiguration, Replies, started}
use edgedelta_lambda_extensi.Extension.Start.{
  identify, complete, forward, describe, start_extension,
}
use edgedelta_lambda_extensi.Extension.Started.{begin-config}

-- Which of `makeHTTPRequest` and `makeKinesisRequest` is `makeRequestFunc`.
pub data Request : Type 0 where
  http_request kinesis_request : Request

pub record NewPusher : Type 0 where
  pub name : Bytes
  pub endpoint : Bytes
  pub make_request : Request
  pub conf : Conf
  pub retry_interval : ℤ
  pub push_timeout : ℤ

-- The fields of the default configuration that `NewPusher` reads.
record Settings : Type 0 where
  mode : Bytes
  ed_endpoint : Bytes
  kinesis_endpoint : Bytes
  loop : Conf
  retry : ℤ
  push : ℤ

settings_of : Option Config → Settings
settings_of none = record {
  mode = http_pusher;
  ed_endpoint = [];
  kinesis_endpoint = [];
  loop = record { flush_at_next_invoke = false; buffer_size = pos 20_000_000 };
  retry = pos 100_000_000;
  push = pos 5_000_000_000;
}
settings_of (some c) = record {
  mode = c.pusher_mode;
  ed_endpoint = c.ed_endpoint;
  kinesis_endpoint = c.kinesis_endpoint;
  loop = record { flush_at_next_invoke = c.flush_at_next_invoke; buffer_size = c.buffer_size };
  retry = c.retry_interval;
  push = c.push_timeout;
}

-- A nil configuration is replaced by a default one.
unfoldable pub new_pusher : Option Config → NewPusher
unfolding settings_of
new_pusher conf =
    let s = settings_of conf in
    if bytes_eq s.mode kinesis_pusher
    then record {
      name = codes "Kinesis-Pusher";
      endpoint = s.kinesis_endpoint;
      make_request = kinesis_request;
      conf = s.loop;
      retry_interval = s.retry;
      push_timeout = s.push;
    }
    else record {
      name = codes "HostedEnv-Pusher";
      endpoint = s.ed_endpoint;
      make_request = http_request;
      conf = s.loop;
      retry_interval = s.retry;
      push_timeout = s.push;
    }

unfoldable pub new_processor : Config → Processor
new_processor c = record {
  tags = c.tags;
  cloud = record { resource_id = c.function_arn; account_id = c.account_id; region = c.region };
  host_arch = c.host_architecture;
  process_runtime = c.process_runtime_name;
  memory_size = c.memory_size;
}

-- What of the configuration the start leaves alone.
abbrev SameEndpoints : Config → Config → Type 0
SameEndpoints c d =
    (d.pusher_mode ≡ c.pusher_mode)
    × (d.ed_endpoint ≡ c.ed_endpoint)
    × (d.kinesis_endpoint ≡ c.kinesis_endpoint)

describe-endpoints :
    (f : Option FunctionConfiguration) (c d : Config) → describe f c ≡ some d → SameEndpoints c d
unfolding describe
describe-endpoints none c d h = ground arith
describe-endpoints (some f) c d h = ground arith

complete-endpoints : (r : Replies) (c d : Config) → complete r c ≡ ok d → SameEndpoints c d
unfolding complete forward
complete-endpoints r c d h = grind (arith, describe-endpoints)

-- The pusher of an extension that starts has an endpoint: that of the configured mode, which is http or
-- kinesis.
pub started_endpoint :
    (env : Bytes → Bytes) (r : Replies) (c : Config) (id : Bytes)
    → (start_extension env r).0 ≡ started c id
    → let p = new_pusher (some c) in
      (p.endpoint ≢ [])
      × (((p.make_request ≡ http_request) × (c.pusher_mode ≡ http_pusher))
          ⊎ ((p.make_request ≡ kinesis_request) × (c.pusher_mode ≡ kinesis_pusher)))
unfolding start_extension new_pusher identify
started_endpoint env r c id h =
    let ((d, response, valid, completed), _) = begin-config env r r.register c id h in
    ground (
      arith,
      loaded_mode env d [] valid,
      complete-endpoints r (identify response d) c completed,
      bytes_eq_iff c.pusher_mode kinesis_pusher,
    )
