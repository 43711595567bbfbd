-- ===== src/Extension/Session.antt =====
-- main.go and package `lambda`: from the registration to the shutdown, over the Extensions API.
mod Examples
use edgedelta_lambda_extensi.Common.{◌≡◌, ap, none, List, [], ◌∷◌, ◌++◌, map, All, ℤ, ok}
use edgedelta_lambda_extensi.Text.Bytes.{Bytes}
use edgedelta_lambda_extensi.Json.Tree.{emit}
use edgedelta_lambda_extensi.Lambda.Answers.{
  response_tree, shutdown_tree, ResponseIsUtf8, ShutdownIsPrintable,
}
use edgedelta_lambda_extensi.Lambda.Requests.{Response, Http, identifier_header, register_request}
use edgedelta_lambda_extensi.Lambda.Client.{register}
use edgedelta_lambda_extensi.Lambda.Calls.{register_lem}
use edgedelta_lambda_extensi.Extension.Types.{RegisterResponse}
use edgedelta_lambda_extensi.Extension.Invocations.{
  ShutdownEvent, invoke_worker, stop_worker, send_stop, until_deadline,
}
use edgedelta_lambda_extensi.Extension.Received.{serve, Answers, Invoked, IsInvoked, serve_lem}

-- Suppose that the Extensions API takes the registration and answers it with the status 200, the names,
-- the version and the account as a compact JSON object, and an identifier in its header, that it answers
-- the calls of `NextEvent` under this identifier first with some invocations and then with a shutdown,
-- again with the status 200 and a compact JSON object of their fields, and that the texts are valid
-- UTF-8 and the deadlines fit an int64. Then `Register` returns exactly the identifier and the fields
-- of the answer, and under this identifier the worker is invoked once for each invocation, in order,
-- with exactly its fields, is stopped with the time that the shutdown leaves, the end is signalled, and
-- nothing follows, whatever the API would answer next.
pub session_lem :
    (base filename : Bytes) (api : Http) (response : Response) (r : RegisterResponse)
    (rounds : List (Invoked base (response.header identifier_header))) (http : Http) (now : ℤ)
    (e : ShutdownEvent) (after : List (Http × ℤ))
    → api.reject_url (register_request base filename).url ≡ none
    → api.exchange (register_request base filename) ≡ ok response
    → response.status_code ≡ 200
    → response.body ≡ ok (emit (response_tree r))
    → ResponseIsUtf8 r
    → All (IsInvoked base (response.header identifier_header)) rounds
    → Answers base (response.header identifier_header) http (emit (shutdown_tree e))
    → ShutdownIsPrintable e
    → ((register api base filename).0 ≡ ok (response.header identifier_header, r))
      × (serve base
            (response.header identifier_header)
            (map (λ i. i.0) rounds ++ (http, now) ∷ after)
          ≡ map (λ i. invoke_worker i.1) rounds
            ++ stop_worker (until_deadline e now) ∷ send_stop ∷ [])
session_lem base filename api response r rounds http now e after u x s b h invoked answers p = (
  ap (λ o. o.0) ((register_lem api base filename response r u x s b h).1),
  serve_lem base (response.header identifier_header) rounds http now e after invoked answers p,
)
