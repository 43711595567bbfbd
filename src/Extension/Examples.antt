-- ===== src/Extension/Examples.antt =====
-- The theorems on main.go at a function with one tag.
use edgedelta_lambda_extensi.Common.{
  map_option, ℕ, ◌+◌, ◌*◌, ◌≤◌, ◌≡◌, ◌≢◌, ◌⊎◌, refl, false, Option, none, some, [], ◌∷◌, ◌++◌,
  arith, pos, ok, err, if◌then◌else◌,
}
use edgedelta_lambda_extensi.Text.Bytes.{Bytes, codes, bytes_eq}
use edgedelta_lambda_extensi.Text.Table.{lookup, insert, delete}
use edgedelta_lambda_extensi.Text.Trim.{trim_space}
use edgedelta_lambda_extensi.Cfg.Types.{Config, http_pusher, kinesis_pusher}
use edgedelta_lambda_extensi.Cfg.Load.{
  settings, get_config_and_validate, pusher_mode_of, messages, buffer_size_setting, number_of,
  push_timeout_setting, retry_interval_setting, max_items_setting, max_bytes_setting,
  timeout_ms_setting, log_types_of, tag_prefix_setting,
}
use edgedelta_lambda_extensi.Cfg.Accepted.{IsValidEnv}
use edgedelta_lambda_extensi.Extension.Types.{
  RegisterResponse, FunctionConfiguration, FunctionOutput, Replies, start_worker, started,
}
use edgedelta_lambda_extensi.Extension.Start.{
  dereferenced, prefix_tags, build_function_arn, start_extension,
}
use edgedelta_lambda_extensi.Extension.Started.{
  reported, is_failed, start_reports, start_extension_lem, started_tags,
}
use edgedelta_lambda_extensi.Extension.Wiring.{
  new_pusher, http_request, kinesis_request, started_endpoint,
}
use edgedelta_lambda_extensi.Extension.Invocations.{
  InvokeEvent, ShutdownEvent, sleep, shutdown_producer, stop_processor, stop_pusher, stop_all,
  stop_once,
}

abbrev env : Bytes → Bytes
env name =
    if bytes_eq name (codes "ED_ENDPOINT")
    then codes "https://example.com"
    else if bytes_eq name (codes "ED_FORWARD_LAMBDA_TAGS")
    then codes "true"
    else if bytes_eq name (codes "ED_TAG_PREFIX")
    then codes "ed_"
    else []

abbrev response : RegisterResponse
response = record {
  function_name = codes "f";
  function_version = codes "1";
  handler = codes "main";
  account_id = codes "42";
}

abbrev configuration : Option Bytes → FunctionConfiguration
configuration runtime = record {
  architectures = some (codes "arm64") ∷ [];
  runtime = runtime;
  memory_size = some (pos 128);
}

abbrev function : Option Bytes → FunctionOutput
function runtime = record {
  tags = (codes "team", some (codes "logs")) ∷ [];
  configuration = some (configuration runtime);
}

-- Every call succeeds; the argument is the function's runtime.
abbrev replies : Option Bytes → Replies
replies runtime = record {
  register = ok (codes "id", response);
  new_client = λ region. ok tt;
  get_function = λ arn. ok (some (function runtime));
  subscribe = λ types limits id. ok tt;
}

-- The configuration that the extension starts with.
abbrev config : Config
config = record (settings env http_pusher) {
  account_id = codes "42";
  function_arn = build_function_arn response [];
  tags = (codes "ed_team", codes "logs") ∷ [];
  host_architecture = codes "arm64";
  process_runtime_name = codes "go1.x";
  memory_size = codes "128";
}

starts : (start_extension env (replies (some (codes "go1.x")))).0 ≡ started config (codes "id")
unfolding start_extension get_config_and_validate bytes_eq pusher_mode_of messages
    buffer_size_setting number_of push_timeout_setting retry_interval_setting max_items_setting
    max_bytes_setting timeout_ms_setting log_types_of settings insert dereferenced prefix_tags
    tag_prefix_setting delete trim_space
starts = refl

start_reports_example :
    let s = start_extension env (record (replies none) { register = err (codes "timeout") }) in
    reported s.1 ≡ (if is_failed s.0 then 1 else 0)
start_reports_example =
    start_reports env (record (replies none) { register = err (codes "timeout") })

start_extension_lem_example :
    IsValidEnv env
    × ((start_extension env (replies (some (codes "go1.x")))).1
        ≡ start_worker config (codes "id") ∷ [])
start_extension_lem_example =
    start_extension_lem env (replies (some (codes "go1.x"))) config (codes "id") starts

started_tags_example :
    lookup (codes "team") ((codes "team", some (codes "logs")) ∷ [])
    ≡ map_option some (lookup (config.tag_prefix ++ codes "team") config.tags)
unfolding settings bytes_eq
started_tags_example =
    started_tags env (replies (some (codes "go1.x"))) config (codes "id") (codes "team")
      (function (some (codes "go1.x"))) starts refl refl

started_endpoint_example :
    let p = new_pusher (some config) in
    (p.endpoint ≢ [])
    × (((p.make_request ≡ http_request) × (config.pusher_mode ≡ http_pusher))
        ⊎ ((p.make_request ≡ kinesis_request) × (config.pusher_mode ≡ kinesis_pusher)))
started_endpoint_example =
    started_endpoint env (replies (some (codes "go1.x"))) config (codes "id") starts

abbrev invoked : InvokeEvent
invoked = record {
  deadline_ms = pos 3000;
  request_id = codes "r1";
  invoked_function_arn = codes "arn";
  tracing = record { type = codes "X-Amzn-Trace-Id"; value = codes "Root=1" };
}

abbrev last : ShutdownEvent
last = record { deadline_ms = pos 5000; shutdown_reason = codes "spindown" }

stop_once_example :
    (slept : ℕ) × (closing : ℕ) × (left : ℕ) × (stop_all
        (pos 2_000_000_000 ∷ pos 100_000_000 ∷ [])
        false
      ≡ (sleep (pos slept)
          ∷ shutdown_producer (pos closing)
          ∷ stop_processor
          ∷ stop_pusher (pos left)
          ∷ [])
        ∷ [])
    × (left + 20_000_000 ≡ 2_000_000_000)
    × ((slept + closing) * 12 ≤ left * 7)
stop_once_example = stop_once 2_000_000_000 (pos 100_000_000 ∷ []) (omega arith)
