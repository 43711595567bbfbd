-- ===== src/Cfg/Accepted.antt =====
-- Which environments `GetConfigAndValidate` of cfg/config.go accepts.
use edgedelta_lambda_extensi.Common.{
  ◌≡◌, ◌↔◌, ◌⊎◌, inl, inr, refl, true, false, List, [], ◌∷◌, ◌++◌, arith, ℤ, Result, ok, err, All,
  Bool-cases,
}
use edgedelta_lambda_extensi.Text.Bytes.{Bytes, codes, bytes_eq, bytes_eq_iff}
use edgedelta_lambda_extensi.Common.{subst}
use edgedelta_lambda_extensi.Cfg.Load.{from_number}
use edgedelta_lambda_extensi.Text.Split.{split}
use edgedelta_lambda_extensi.Text.ParseInt.{NumError, parse_int}
use edgedelta_lambda_extensi.Cfg.Types.{http_pusher, kinesis_pusher, Config, ConfigError, loaded}
use edgedelta_lambda_extensi.Cfg.Load.{
  is_empty, pusher_mode_of, number_of, is_log_type, usable_log_types, log_types_of, messages,
  get_config_and_validate, buffer_size_setting, push_timeout_setting, retry_interval_setting,
  max_items_setting, max_bytes_setting, timeout_ms_setting,
}
use edgedelta_lambda_extensi.Cfg.Endpoints.{pusher_mode_cases, checked_endpoints}

-- A numeric variable that is empty or holds an `int`.
abbrev pub IsNumber : Bytes → Type 0
IsNumber value = (value ≡ []) ⊎ ((i : ℤ) × (parse_int value ≡ ok i))

abbrev pub IsLogType : Bytes → Type 0
IsLogType lg = (lg ≡ codes "function") ⊎ ((lg ≡ codes "platform") ⊎ (lg ≡ codes "extension"))

is_log_type_iff : (lg : Bytes) → (is_log_type lg ≡ true) ↔ IsLogType lg
unfolding is_log_type
is_log_type_iff lg = ground (
  arith,
  bytes_eq_iff lg (codes "function"),
  bytes_eq_iff lg (codes "platform"),
  bytes_eq_iff lg (codes "extension"),
)

empty_iff : (s : Bytes) → (is_empty s ≡ true) ↔ (s ≡ [])
empty_iff [] = (λ _. refl, λ _. refl)
empty_iff (c ∷ s) = (λ h. cc, λ h. cc)

from_number_iff {ℓ} :
    {A : Type ℓ} (r : Result NumError ℤ) (u : A) (f : ℤ → A) (m : NumError → ConfigError)
    → ((from_number r u f m).1 ≡ []) ↔ ((i : ℤ) × (r ≡ ok i))
from_number_iff (ok i) u f m = (λ _. (i, refl), λ _. refl)
from_number_iff (err e) u f m = (λ h. cc, λ (i, h). cc)

number_of_iff {ℓ} :
    {A : Type ℓ} (value : Bytes) (d u : A) (f : ℤ → A) (m : NumError → ConfigError)
    → ((number_of value d u f m).1 ≡ []) ↔ IsNumber value
unfolding number_of
number_of_iff value d u f m = elim (Bool-cases (is_empty value)) [
  | inl e ↦ (λ _. inl ((empty_iff value).0 e), λ _. rw e)
  | inr e ↦
      let (fore, back) = from_number_iff (parse_int value) u f m in
      (λ h. inr (fore (rw e at h)), λ h. rw e (back (nonempty e h)))
]
  where
    nonempty : is_empty value ≡ false → IsNumber value → (i : ℤ) × (parse_int value ≡ ok i)
    nonempty e (inl z) = cc (e, (empty_iff value).1 z)
    nonempty e (inr p) = p

usable_iff : (lgs : List Bytes) → ((usable_log_types lgs).1 ≡ []) ↔ All IsLogType lgs
unfolding usable_log_types
usable_iff [] = ((λ _. tt), (λ _. refl))
usable_iff (lg ∷ rest) = ground (arith, is_log_type_iff lg, usable_iff rest)

log_types_iff :
    (value : Bytes)
    → ((log_types_of value).1 ≡ []) ↔ ((value ≡ []) ⊎ All IsLogType (split value b','))
unfolding log_types_of
log_types_iff value = ground (arith, empty_iff value, usable_iff (split value b','))

mode_iff :
    (v : Bytes)
    → ((pusher_mode_of v).1 ≡ []) ↔ ((v ≡ []) ⊎ ((v ≡ http_pusher) ⊎ (v ≡ kinesis_pusher)))
unfolding pusher_mode_of
mode_iff [] = (λ _. inl refl, λ _. unfold bytes_eq in refl)
mode_iff (c ∷ v) =
    ground (arith, bytes_eq_iff (c ∷ v) http_pusher, bytes_eq_iff (c ∷ v) kinesis_pusher)

append_nil_iff {ℓ} : {A : Type ℓ} (xs ys : List A) → ((xs ++ ys) ≡ []) ↔ ((xs ≡ []) × (ys ≡ []))
append_nil_iff [] ys = (λ h. (refl, h), λ h. h.1)
append_nil_iff (x ∷ xs) ys = (λ h. cc, λ h. cc (h.0))

module _ (env : Bytes → Bytes) where
  buffer_size_iff : ((buffer_size_setting env).1 ≡ []) ↔ IsNumber (env (codes "ED_BUFFER_SIZE_MB"))
  unfolding buffer_size_setting
  buffer_size_iff = number_of_iff _ _ _ _ _

  push_timeout_iff :
      ((push_timeout_setting env).1 ≡ []) ↔ IsNumber (env (codes "ED_PUSH_TIMEOUT_SEC"))
  unfolding push_timeout_setting
  push_timeout_iff = number_of_iff _ _ _ _ _

  retry_interval_iff :
      ((retry_interval_setting env).1 ≡ []) ↔ IsNumber (env (codes "ED_RETRY_INTERVAL_MS"))
  unfolding retry_interval_setting
  retry_interval_iff = number_of_iff _ _ _ _ _

  max_items_iff : ((max_items_setting env).1 ≡ []) ↔ IsNumber (env (codes "ED_LAMBDA_MAX_ITEMS"))
  unfolding max_items_setting
  max_items_iff = number_of_iff _ _ _ _ _

  max_bytes_iff : ((max_bytes_setting env).1 ≡ []) ↔ IsNumber (env (codes "ED_LAMBDA_MAX_BYTES"))
  unfolding max_bytes_setting
  max_bytes_iff = number_of_iff _ _ _ _ _

  timeout_ms_iff : ((timeout_ms_setting env).1 ≡ []) ↔ IsNumber (env (codes "ED_LAMBDA_TIMEOUT_MS"))
  unfolding timeout_ms_setting
  timeout_ms_iff = number_of_iff _ _ _ _ _

-- An environment with which nothing is wrong but, maybe, a missing endpoint.
pub record IsValidEnv (env : Bytes → Bytes) : Type 0 where
  pub mode :
      let v = env (codes "PUSHER_MODE") in (v ≡ []) ⊎ ((v ≡ http_pusher) ⊎ (v ≡ kinesis_pusher))
  pub buffer_size : IsNumber (env (codes "ED_BUFFER_SIZE_MB"))
  pub push_timeout : IsNumber (env (codes "ED_PUSH_TIMEOUT_SEC"))
  pub retry_interval : IsNumber (env (codes "ED_RETRY_INTERVAL_MS"))
  pub max_items : IsNumber (env (codes "ED_LAMBDA_MAX_ITEMS"))
  pub max_bytes : IsNumber (env (codes "ED_LAMBDA_MAX_BYTES"))
  pub timeout_ms : IsNumber (env (codes "ED_LAMBDA_TIMEOUT_MS"))
  pub log_types :
      let v = env (codes "ED_LAMBDA_LOG_TYPES") in (v ≡ []) ⊎ All IsLogType (split v b',')

all_messages_iff :
    (env : Bytes → Bytes)
    → ((pusher_mode_of (env (codes "PUSHER_MODE"))).1 ++ messages env ≡ []) ↔ IsValidEnv env
unfolding messages
all_messages_iff env =
    let a = mode_iff (env (codes "PUSHER_MODE")) in
    let b = buffer_size_iff env in
    let c = push_timeout_iff env in
    let d = retry_interval_iff env in
    let e = max_items_iff env in
    let f = max_bytes_iff env in
    let g = timeout_ms_iff env in
    let h = log_types_iff (env (codes "ED_LAMBDA_LOG_TYPES")) in
    (
      λ n.
          let (n1, m1) = (append_nil_iff (pusher_mode_of (env (codes "PUSHER_MODE"))).1 _).0 n in
          let (n2, m2) = (append_nil_iff (buffer_size_setting env).1 _).0 m1 in
          let (n3, m3) = (append_nil_iff (push_timeout_setting env).1 _).0 m2 in
          let (n4, m4) = (append_nil_iff (retry_interval_setting env).1 _).0 m3 in
          let (n5, m5) = (append_nil_iff (max_items_setting env).1 _).0 m4 in
          let (n6, m6) = (append_nil_iff (max_bytes_setting env).1 _).0 m5 in
          let (n7, n8) = (append_nil_iff (timeout_ms_setting env).1 _).0 m6 in
          record {
            mode = a.0 n1;
            buffer_size = b.0 n2;
            push_timeout = c.0 n3;
            retry_interval = d.0 n4;
            max_items = e.0 n5;
            max_bytes = f.0 n6;
            timeout_ms = g.0 n7;
            log_types = h.0 n8;
          },
      λ v. rw (
        a.1 v.mode,
        b.1 v.buffer_size,
        c.1 v.push_timeout,
        d.1 v.retry_interval,
        e.1 v.max_items,
        f.1 v.max_bytes,
        g.1 v.timeout_ms,
        h.1 v.log_types,
      ),
    )

-- A configuration that is returned comes without an error exactly if the pusher mode is empty or
-- known, the numeric variables are each empty or an int, and the log types are empty or all known.
pub accepted_iff :
    (env : Bytes → Bytes) (c : Config) (errs : List ConfigError)
    → get_config_and_validate env ≡ loaded c errs
    → (errs ≡ []) ↔ IsValidEnv env
unfolding get_config_and_validate
accepted_iff env c errs h =
    let v = env (codes "PUSHER_MODE") in
    let (same, _) =
      checked_endpoints (env (codes "ED_ENDPOINT")) (env (codes "KINESIS_ENDPOINT"))
        (pusher_mode_of v).0 _ c errs (pusher_mode_cases v) h in
    let e : (pusher_mode_of v).1 ++ messages env ≡ errs = cc same in
    subst (λ (l : List ConfigError). (l ≡ []) ↔ IsValidEnv env) e (all_messages_iff env)
