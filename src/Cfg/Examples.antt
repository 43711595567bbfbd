-- ===== src/Cfg/Examples.antt =====
-- The theorems on cfg/config.go at concrete environments.
use edgedelta_lambda_extensi.Common.{inl, ◌≡◌, ◌↔◌, refl, none, [], ◌∷◌, arith, pos, if◌then◌else◌}
use edgedelta_lambda_extensi.Text.Bytes.{Bytes, codes, bytes_eq}
use edgedelta_lambda_extensi.Text.ParseInt.{parse_int}
use edgedelta_lambda_extensi.Text.Split.{split}
use edgedelta_lambda_extensi.Cfg.Types.{Config, invalid_log_type, http_pusher, loaded}
use edgedelta_lambda_extensi.Cfg.Load.{
  settings, get_config_and_validate, pusher_mode_of, messages, buffer_size_setting, number_of,
  push_timeout_setting, retry_interval_setting, max_items_setting, max_bytes_setting,
  timeout_ms_setting, log_types_of,
}
use edgedelta_lambda_extensi.Cfg.Accepted.{IsValidEnv, accepted_iff}
use edgedelta_lambda_extensi.Cfg.Sizes.{buffer_size_exact, negative_megabytes_panic}
use edgedelta_lambda_extensi.Pusher.Flush.{dropped_bytes}

-- An environment of three variables: the endpoint, the buffer size and the log types.
abbrev env : Bytes → Bytes → Bytes → Bytes
env size log_types name =
    if bytes_eq name (codes "ED_ENDPOINT")
    then codes "https://example.com"
    else if bytes_eq name (codes "ED_BUFFER_SIZE_MB")
    then size
    else if bytes_eq name (codes "ED_LAMBDA_LOG_TYPES")
    then log_types
    else []

abbrev odd_types : Bytes → Bytes
odd_types = env (codes "3") (codes "function,logs")

abbrev odd_config : Config
odd_config = settings odd_types http_pusher

odd_types_load :
    get_config_and_validate odd_types ≡ loaded odd_config (invalid_log_type (codes "logs") ∷ [])
unfolding get_config_and_validate bytes_eq pusher_mode_of messages buffer_size_setting number_of
    parse_int push_timeout_setting retry_interval_setting max_items_setting max_bytes_setting
    timeout_ms_setting log_types_of split
odd_types_load = refl

accepted_iff_example : ((invalid_log_type (codes "logs") ∷ []) ≡ []) ↔ IsValidEnv odd_types
accepted_iff_example =
    accepted_iff odd_types odd_config (invalid_log_type (codes "logs") ∷ []) odd_types_load

buffer_size_exact_example : odd_config.buffer_size ≡ pos 3_000_000
unfolding parse_int bytes_eq
buffer_size_exact_example =
    buffer_size_exact odd_types odd_config (invalid_log_type (codes "logs") ∷ []) odd_types_load 3
      refl (omega arith)

abbrev negative : Bytes → Bytes
negative = env (codes "-1") []

negative_load : get_config_and_validate negative ≡ loaded (settings negative http_pusher) []
unfolding get_config_and_validate bytes_eq pusher_mode_of messages buffer_size_setting number_of
    parse_int push_timeout_setting retry_interval_setting max_items_setting max_bytes_setting
    timeout_ms_setting log_types_of
negative_load = refl

negative_megabytes_panic_example :
    (c : Config) × (get_config_and_validate negative ≡ loaded c [])
    × ((payload : Bytes) → dropped_bytes c.buffer_size payload ≡ none)
unfolding parse_int bytes_eq
negative_megabytes_panic_example =
    negative_megabytes_panic negative 0
      ((accepted_iff negative (settings negative http_pusher) [] negative_load).0 refl)
      (inl (λ e. cc, λ e. cc)) refl (omega arith)
