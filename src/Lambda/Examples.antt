-- ===== src/Lambda/Examples.antt =====
-- Calls of the Lambda APIs at concrete answers.
use edgedelta_lambda_extensi.Common.{◌≡◌, refl, none, [], ok}
use edgedelta_lambda_extensi.Text.Bytes.{Bytes, codes}
use edgedelta_lambda_extensi.Cfg.Types.{BufferingCfg}
use edgedelta_lambda_extensi.Extension.Types.{config_error}
use edgedelta_lambda_extensi.Lambda.Requests.{
  Response, Http, register_request, next_event_request, init_error_request,
}
use edgedelta_lambda_extensi.Lambda.Client.{register, next_event, init_error}
use edgedelta_lambda_extensi.Lambda.Calls.{answered_acts, body_open}

abbrev refusal : Response
refusal = record {
  status_code = 403;
  status = codes "403 Forbidden";
  header = λ name. [];
  body = ok (codes "no");
}

abbrev http : Http
http = record { reject_url = λ u. none; exchange = λ r. ok refusal }

abbrev base : Bytes
base = codes "http://127.0.0.1:9001"

abbrev buffering : BufferingCfg
buffering = record { max_items = 1000; max_bytes = 262144; timeout_ms = 1000 }

body_open_example :
    ((register http base (codes "ed")).1 ≡ answered_acts (register_request base (codes "ed")) 403)
    × ((next_event http base (codes "id")).1
        ≡ answered_acts (next_event_request base (codes "id")) 403)
    × ((init_error http base (codes "id") config_error (codes "bad") (codes "ConfigError")).1
        ≡ answered_acts
            (init_error_request base (codes "id") config_error (codes "bad") (codes "ConfigError"))
            403)
body_open_example =
    body_open http base (codes "ed") (codes "id") config_error (codes "bad") (codes "ConfigError")
      refusal (λ r. refl) (λ r. refl)
