-- ===== src/Cfg/Load.antt =====
-- cfg/config.go: `GetConfigAndValidate`. The environment is the argument `env`, as `os.Getenv` reads
-- it: a variable that is not set is empty.
use edgedelta_lambda_extensi.Common.{
  ℕ, Bool, true, false, ◌&&◌, ◌||◌, List, [], ◌∷◌, ◌++◌, ℤ, pos, mul_int64, uint32, if◌then◌else◌,
  Result, ok, err,
}
use edgedelta_lambda_extensi.Text.Bytes.{Bytes, codes, bytes_eq}
use edgedelta_lambda_extensi.Text.Split.{split}
use edgedelta_lambda_extensi.Text.Trim.{trim_space}
use edgedelta_lambda_extensi.Text.ParseInt.{NumError, parse_int}
use edgedelta_lambda_extensi.Cfg.Types.{
  http_pusher, kinesis_pusher, Config, ConfigError, invalid_pusher_mode, bad_buffer_size,
  bad_push_timeout, bad_retry_interval, bad_max_items, bad_max_bytes, bad_timeout_ms,
  invalid_log_type, Outcome, no_ed_endpoint, no_kinesis_endpoint, loaded,
}

-- A value, and the messages of its stanza.
abbrev pub Checked {ℓ} : Type ℓ → Type ℓ
Checked A = A × List ConfigError

abbrev pub is_empty : Bytes → Bool
is_empty [] = true
is_empty (c ∷ s) = false

-- The two stanzas on `config.PusherMode`.
unfoldable pub pusher_mode_of : Bytes → Checked Bytes
pusher_mode_of value =
    let mode = if is_empty value then http_pusher else value in
    if bytes_eq mode http_pusher || bytes_eq mode kinesis_pusher
    then (mode, [])
    else (http_pusher, invalid_pusher_mode mode ∷ [])

-- What is made of a number, or the field as it was and a message.
abbrev pub from_number {ℓ} :
    {A : Type ℓ} → Result NumError ℤ → A → (ℤ → A) → (NumError → ConfigError) → Checked A
from_number (ok i) unset make message = (make i, [])
from_number (err e) unset make message = (unset, message e ∷ [])

-- A numeric variable; there is a default for the empty one.
unfoldable pub number_of {ℓ} :
    {A : Type ℓ} → Bytes → A → A → (ℤ → A) → (NumError → ConfigError) → Checked A
number_of value default unset make message =
    if is_empty value then (default, []) else from_number (parse_int value) unset make message

-- `validLogTypes[lg]`
unfoldable pub is_log_type : Bytes → Bool
is_log_type lg =
    bytes_eq lg (codes "function")
    || (bytes_eq lg (codes "platform") || bytes_eq lg (codes "extension"))

-- The loop over the log types.
unfoldable pub usable_log_types : List Bytes → Checked (List Bytes)
usable_log_types [] = ([], [])
usable_log_types (lg ∷ rest) =
    let (usable, messages) = usable_log_types rest in
    if is_log_type lg then (lg ∷ usable, messages) else (usable, invalid_log_type lg ∷ messages)

unfoldable pub log_types_of : Bytes → Checked (List Bytes)
unfolding usable_log_types is_log_type
log_types_of value =
    if is_empty value
    then (codes "platform" ∷ codes "function" ∷ [], [])
    else usable_log_types (split value b',')

abbrev pub second : ℕ
second = 1_000_000_000

abbrev pub millisecond : ℕ
millisecond = 1_000_000

module _ (env : Bytes → Bytes) where
  unfoldable pub buffer_size_setting : Checked ℤ
  buffer_size_setting =
      number_of (env (codes "ED_BUFFER_SIZE_MB")) (pos 20_000_000) (pos 0)
        (λ i. mul_int64 (mul_int64 i 1000) 1000) bad_buffer_size

  unfoldable pub push_timeout_setting : Checked ℤ
  push_timeout_setting =
      number_of (env (codes "ED_PUSH_TIMEOUT_SEC")) (pos 5_000_000_000) (pos 0)
        (λ i. mul_int64 i second) bad_push_timeout

  unfoldable pub retry_interval_setting : Checked ℤ
  retry_interval_setting =
      number_of (env (codes "ED_RETRY_INTERVAL_MS")) (pos 100_000_000) (pos 0)
        (λ i. mul_int64 i millisecond) bad_retry_interval

  unfoldable pub max_items_setting : Checked ℕ
  max_items_setting = number_of (env (codes "ED_LAMBDA_MAX_ITEMS")) 1000 1000 uint32 bad_max_items

  unfoldable pub max_bytes_setting : Checked ℕ
  max_bytes_setting =
      number_of (env (codes "ED_LAMBDA_MAX_BYTES")) 262144 262144 uint32 bad_max_bytes

  unfoldable pub timeout_ms_setting : Checked ℕ
  timeout_ms_setting =
      number_of (env (codes "ED_LAMBDA_TIMEOUT_MS")) 1000 1000 uint32 bad_timeout_ms

  unfoldable pub tag_prefix_setting : Bytes
  tag_prefix_setting =
      let value = env (codes "ED_TAG_PREFIX") in if is_empty value then [] else trim_space value

  -- The configuration behind the checks of the endpoints.
  unfoldable pub settings : Bytes → Config
  settings mode = record {
    ed_endpoint = env (codes "ED_ENDPOINT");
    kinesis_endpoint = env (codes "KINESIS_ENDPOINT");
    pusher_mode = mode;
    forward_tags = bytes_eq (env (codes "ED_FORWARD_LAMBDA_TAGS")) (codes "true");
    log_types = (log_types_of (env (codes "ED_LAMBDA_LOG_TYPES"))).0;
    bfg_config = record {
      max_items = max_items_setting.0;
      max_bytes = max_bytes_setting.0;
      timeout_ms = timeout_ms_setting.0;
    };
    push_timeout = push_timeout_setting.0;
    retry_interval = retry_interval_setting.0;
    tags = [];
    account_id = [];
    region = env (codes "AWS_REGION");
    function_arn = [];
    process_runtime_name = [];
    host_architecture = [];
    memory_size = [];
    buffer_size = buffer_size_setting.0;
    flush_at_next_invoke = bytes_eq (env (codes "ED_FLUSH_AT_NEXT_INVOKE")) (codes "true");
    tag_prefix = tag_prefix_setting;
  }

  -- The messages of the stanzas behind those checks, in order.
  unfoldable pub messages : List ConfigError
  messages =
      buffer_size_setting.1
      ++ (push_timeout_setting.1
          ++ (retry_interval_setting.1
              ++ (max_items_setting.1
                  ++ (max_bytes_setting.1
                      ++ (timeout_ms_setting.1
                          ++ (log_types_of (env (codes "ED_LAMBDA_LOG_TYPES"))).1)))))

  unfoldable pub get_config_and_validate : Outcome
  get_config_and_validate =
      let (mode, mode_messages) = pusher_mode_of (env (codes "PUSHER_MODE")) in
      if is_empty (env (codes "ED_ENDPOINT")) && bytes_eq mode http_pusher
      then no_ed_endpoint
      else if is_empty (env (codes "KINESIS_ENDPOINT")) && bytes_eq mode kinesis_pusher
      then no_kinesis_endpoint
      else loaded (settings mode) (mode_messages ++ messages)
