-- ===== src/Cfg/Sizes.antt =====
-- The buffer size that cfg/config.go makes of ED_BUFFER_SIZE_MB, and what the pusher of
-- pushers/pusher.go does with it.
use edgedelta_lambda_extensi.Common.{
  ◌++◌, ◌⊎◌, inl, inr, ap, ◌≢◌, ℕ, suc, ◌-◌, ◌*◌, ◌^◌, ◌≤◌, ◌<◌, ◌≡◌, refl, ◌∙◌, false, none, List,
  [], ◌∷◌, arith, ℤ, pos, negsuc, mul_int64, ok,
}
use edgedelta_lambda_extensi.Text.Bytes.{Bytes, codes, bytes_eq, bytes_eq_iff}
use edgedelta_lambda_extensi.Text.ParseInt.{parse_int}
use edgedelta_lambda_extensi.Cfg.Types.{kinesis_pusher, http_pusher, Config, ConfigError, loaded}
use edgedelta_lambda_extensi.Cfg.Load.{
  is_empty, number_of, settings, buffer_size_setting, get_config_and_validate, pusher_mode_of,
  messages,
}
use edgedelta_lambda_extensi.Cfg.Accepted.{IsValidEnv, accepted_iff}
use edgedelta_lambda_extensi.Cfg.Endpoints.{loaded_settings}
use edgedelta_lambda_extensi.Pusher.Flush.{dropped_bytes}
use edgedelta_lambda_extensi.Pusher.Failures.{negative_buffer_panics}

not_empty : (value : Bytes) (i : ℤ) → parse_int value ≡ ok i → is_empty value ≡ false
unfolding parse_int
not_empty [] i h = cc
not_empty (c ∷ s) i h = refl

-- A million times a small negative number.
negative_megabytes :
    (m : ℕ)
    → suc m * 1_000_000 ≤ 2 ^ 63
    → mul_int64 (mul_int64 (negsuc m) 1000) 1000 ≡ negsuc (suc m * 1_000_000 - 1)
unfolding mul_int64
negative_megabytes m h = ground arith

megabytes :
    (n : ℕ) → n * 1_000_000 < 2 ^ 63 → mul_int64 (mul_int64 (pos n) 1000) 1000 ≡ pos (n * 1_000_000)
unfolding mul_int64
megabytes n h = ground arith

module _ (env : Bytes → Bytes) (c : Config) (errs : List ConfigError)
    (load : get_config_and_validate env ≡ loaded c errs) where
  -- The buffer size, where the variable holds a number.
  buffer_size_of :
      (i : ℤ)
      → parse_int (env (codes "ED_BUFFER_SIZE_MB")) ≡ ok i
      → c.buffer_size ≡ mul_int64 (mul_int64 i 1000) 1000
  unfolding settings buffer_size_setting number_of
  buffer_size_of i h = rw (← loaded_settings env c errs load, not_empty _ i h, h)

  -- A configuration that is returned for a variable of n megabytes has a buffer of n million bytes,
  -- if that is an int.
  pub buffer_size_exact :
      (n : ℕ)
      → parse_int (env (codes "ED_BUFFER_SIZE_MB")) ≡ ok (pos n)
      → n * 1_000_000 < 2 ^ 63
      → c.buffer_size ≡ pos (n * 1_000_000)
  buffer_size_exact n h fits = buffer_size_of (pos n) h ∙ megabytes n fits

-- The endpoint of the mode that is asked for is set.
abbrev pub HasEndpoint : (Bytes → Bytes) → Type 0
HasEndpoint env =
    ((env (codes "PUSHER_MODE") ≢ kinesis_pusher) × (env (codes "ED_ENDPOINT") ≢ []))
    ⊎ ((env (codes "PUSHER_MODE") ≡ kinesis_pusher) × (env (codes "KINESIS_ENDPOINT") ≢ []))

nil_is_empty : (s : Bytes) → s ≢ [] → is_empty s ≡ false
nil_is_empty [] h = absurd (h refl)
nil_is_empty (c ∷ s) h = refl

http_mode : (v : Bytes) → v ≢ kinesis_pusher → (pusher_mode_of v).0 ≡ http_pusher
unfolding pusher_mode_of
http_mode v h = ground (arith, bytes_eq_iff v kinesis_pusher, bytes_eq_iff v http_pusher)

-- A configuration is returned where the endpoint of the mode is set.
returned_with_endpoint :
    (env : Bytes → Bytes)
    → HasEndpoint env
    → (c : Config) × (errs : List ConfigError) × (get_config_and_validate env ≡ loaded c errs)
unfolding get_config_and_validate pusher_mode_of bytes_eq
returned_with_endpoint env (inl (m, e)) = (
  settings env http_pusher,
  (pusher_mode_of (env (codes "PUSHER_MODE"))).1 ++ messages env,
  ground
      (arith, http_mode (env (codes "PUSHER_MODE")) m, nil_is_empty (env (codes "ED_ENDPOINT")) e),
)
returned_with_endpoint env (inr (m, e)) = (
  settings env kinesis_pusher,
  messages env,
  ground (arith, nil_is_empty (env (codes "KINESIS_ENDPOINT")) e),
)

-- In an environment whose variables are all valid, with the endpoint of its mode, and a negative
-- number of megabytes, if that many million bytes are an int: the configuration is returned without
-- an error, and with it the handling of every failed flush panics, whatever its payload.
pub negative_megabytes_panic :
    (env : Bytes → Bytes) (m : ℕ)
    → IsValidEnv env
    → HasEndpoint env
    → parse_int (env (codes "ED_BUFFER_SIZE_MB")) ≡ ok (negsuc m)
    → suc m * 1_000_000 ≤ 2 ^ 63
    → (c : Config) × (get_config_and_validate env ≡ loaded c [])
      × ((payload : Bytes) → dropped_bytes c.buffer_size payload ≡ none)
negative_megabytes_panic env m valid endpoint h fits =
    let (c, errs, load) = returned_with_endpoint env endpoint in
    (
      c,
      load ∙ ap (loaded c) ((accepted_iff env c errs load).1 valid),
      λ payload.
          rw (buffer_size_of env c errs load (negsuc m) h, negative_megabytes m fits)
            (negative_buffer_panics _ payload (omega arith)),
    )
