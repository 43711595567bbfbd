-- ===== src/Extension/Session/Examples.antt =====
-- A session with one invocation.
use edgedelta_lambda_extensi.Common.{◌≡◌, refl, none, [], ◌∷◌, ◌++◌, arith, pos, ok, map, List}
use edgedelta_lambda_extensi.Text.Bytes.{Bytes, codes}
use edgedelta_lambda_extensi.Text.Utf8.{valid_from}
use edgedelta_lambda_extensi.Json.Tree.{emit}
use edgedelta_lambda_extensi.Lambda.Answers.{response_tree, invoke_tree, shutdown_tree}
use edgedelta_lambda_extensi.Lambda.Requests.{Response, Http}
use edgedelta_lambda_extensi.Lambda.Client.{register}
use edgedelta_lambda_extensi.Extension.Types.{RegisterResponse}
use edgedelta_lambda_extensi.Extension.Invocations.{
  InvokeEvent, ShutdownEvent, invoke_worker, stop_worker, send_stop, until_deadline,
}
use edgedelta_lambda_extensi.Extension.Received.{serve, Invoked}
use edgedelta_lambda_extensi.Extension.Session.{session_lem}

-- An API that answers every request in the same way.
abbrev answer : Bytes → Response
answer body = record {
  status_code = 200;
  status = codes "200 OK";
  header = λ name. codes "id-1";
  body = ok body;
}

abbrev api : Bytes → Http
api body = record { reject_url = λ u. none; exchange = λ r. ok (answer body) }

abbrev registration : RegisterResponse
registration = record {
  function_name = codes "f";
  function_version = codes "1";
  handler = codes "main";
  account_id = codes "42";
}

abbrev invocation : InvokeEvent
invocation = record {
  deadline_ms = pos 5_000;
  request_id = codes "r1";
  invoked_function_arn = codes "arn:aws:lambda:us-east-1:42:function:f";
  tracing = record { type = codes "X-Amzn-Trace-Id"; value = codes "Root=1" };
}

abbrev ending : ShutdownEvent
ending = record { deadline_ms = pos 7_000; shutdown_reason = codes "spindown" }

abbrev base : Bytes
base = codes "http://127.0.0.1:9001"

abbrev rounds : List (Invoked base (codes "id-1"))
rounds = ((api (emit (invoke_tree invocation)), pos 1_000), invocation) ∷ []

session_lem_example :
    ((register (api (emit (response_tree registration))) base (codes "ed")).0
      ≡ ok (codes "id-1", registration))
    × (serve base
          (codes "id-1")
          (map (λ i. i.0) rounds ++ (api (emit (shutdown_tree ending)), pos 6_000) ∷ [])
        ≡ map (λ i. invoke_worker i.1) rounds
          ++ stop_worker (until_deadline ending (pos 6_000)) ∷ send_stop ∷ [])
unfolding valid_from
session_lem_example =
    session_lem base (codes "ed") (api (emit (response_tree registration)))
      (answer (emit (response_tree registration))) registration rounds
      (api (emit (shutdown_tree ending))) (pos 6_000) ending [] refl refl refl refl
      ((refl, refl), (refl, refl))
      (
        (
          (refl, (answer (emit (invoke_tree invocation)), refl, refl, refl)),
          (omega arith, (refl, refl), (refl, refl)),
        ),
        tt,
      )
      (refl, (answer (emit (shutdown_tree ending)), refl, refl, refl)) (omega arith, refl)
