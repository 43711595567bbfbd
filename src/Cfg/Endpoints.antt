-- ===== src/Cfg/Endpoints.antt =====
-- The pusher mode of cfg/config.go, and the checks of the endpoints.
use edgedelta_lambda_extensi.Common.{
  ◌≡◌, ◌≢◌, ◌⊎◌, inl, refl, false, ◌&&◌, ◌||◌, List, [], ◌∷◌, arith, if◌then◌else◌, if_either,
}
use edgedelta_lambda_extensi.Text.Bytes.{Bytes, codes, bytes_eq, bytes_eq_iff}
use edgedelta_lambda_extensi.Common.{subst}
use edgedelta_lambda_extensi.Cfg.Types.{
  http_pusher, kinesis_pusher, Config, ConfigError, Outcome, no_ed_endpoint, no_kinesis_endpoint,
  loaded,
}
use edgedelta_lambda_extensi.Cfg.Load.{is_empty, pusher_mode_of, settings, get_config_and_validate}

pub pusher_mode_cases :
    (v : Bytes) → ((pusher_mode_of v).0 ≡ http_pusher) ⊎ ((pusher_mode_of v).0 ≡ kinesis_pusher)
unfolding pusher_mode_of
pusher_mode_cases v =
    let mode = if is_empty v then http_pusher else v in
    if_either (λ (r : Bytes × List ConfigError). (r.0 ≡ http_pusher) ⊎ (r.0 ≡ kinesis_pusher))
      (bytes_eq mode http_pusher || bytes_eq mode kinesis_pusher) (mode, []) (http_pusher, _)
      (λ e. ground (arith, bytes_eq_iff mode http_pusher, bytes_eq_iff mode kinesis_pusher))
      (λ e. inl refl)

is_empty_nil : (s : Bytes) → is_empty s ≡ false → s ≢ []
is_empty_nil [] h = cc
is_empty_nil (c ∷ s) h = λ e. cc

-- What the checks of the endpoints let through.
pub checked_endpoints :
    (ed kinesis mode : Bytes) (o : Outcome) (c : Config) (errs : List ConfigError)
    → (mode ≡ http_pusher) ⊎ (mode ≡ kinesis_pusher)
    → (if is_empty ed && bytes_eq mode http_pusher
        then no_ed_endpoint
        else if is_empty kinesis && bytes_eq mode kinesis_pusher
        then no_kinesis_endpoint
        else o)
      ≡ loaded c errs
    → (o ≡ loaded c errs)
      × (((mode ≡ http_pusher) × (ed ≢ [])) ⊎ ((mode ≡ kinesis_pusher) × (kinesis ≢ [])))
checked_endpoints ed kinesis mode o c errs cases h = ground (
  arith,
  bytes_eq_iff mode http_pusher,
  bytes_eq_iff mode kinesis_pusher,
  is_empty_nil ed,
  is_empty_nil kinesis,
)

-- The configuration that is returned is that of the stanzas.
pub loaded_settings :
    (env : Bytes → Bytes) (c : Config) (errs : List ConfigError)
    → get_config_and_validate env ≡ loaded c errs
    → settings env (pusher_mode_of (env (codes "PUSHER_MODE"))).0 ≡ c
unfolding get_config_and_validate
loaded_settings env c errs h =
    let v = env (codes "PUSHER_MODE") in
    let (same, _) =
      checked_endpoints (env (codes "ED_ENDPOINT")) (env (codes "KINESIS_ENDPOINT"))
        (pusher_mode_of v).0 _ c errs (pusher_mode_cases v) h in
    cc same

-- A configuration that is returned, with messages or not, has one of the two modes, and the endpoint
-- of that mode is set.
pub loaded_mode :
    (env : Bytes → Bytes) (c : Config) (errs : List ConfigError)
    → get_config_and_validate env ≡ loaded c errs
    → ((c.pusher_mode ≡ http_pusher) × (c.ed_endpoint ≢ []))
      ⊎ ((c.pusher_mode ≡ kinesis_pusher) × (c.kinesis_endpoint ≢ []))
unfolding get_config_and_validate
loaded_mode env c errs h =
    let v = env (codes "PUSHER_MODE") in
    let (same, set) =
      checked_endpoints (env (codes "ED_ENDPOINT")) (env (codes "KINESIS_ENDPOINT"))
        (pusher_mode_of v).0 _ c errs (pusher_mode_cases v) h in
    let e : settings env (pusher_mode_of v).0 ≡ c = cc same in
    subst
      (λ (d : Config).
        ((d.pusher_mode ≡ http_pusher) × (d.ed_endpoint ≢ []))
        ⊎ ((d.pusher_mode ≡ kinesis_pusher) × (d.kinesis_endpoint ≢ [])))
      e (unfold settings in set)
