-- ===== src/Lambda/Client.antt =====
-- lambda/extension_api.go and lambda/telemetry_api.go: the calls of the Lambda APIs.
use edgedelta_lambda_extensi.Common.{
  ℕ, Option, none, some, List, [], ◌∷◌, ◌==◌, if◌then◌else◌, Result, ok, err,
}
use edgedelta_lambda_extensi.Text.Bytes.{Bytes}
use edgedelta_lambda_extensi.Json.Tree.{Tree}
use edgedelta_lambda_extensi.Json.Parse.{parse}
use edgedelta_lambda_extensi.Cfg.Types.{BufferingCfg}
use edgedelta_lambda_extensi.Extension.Types.{RegisterResponse, FunctionErrorType}
use edgedelta_lambda_extensi.Lambda.Responses.{unmarshal, decode_response, decode_next_event}
use edgedelta_lambda_extensi.Lambda.Requests.{
  Request, Response, Http, identifier_header, register_request, next_event_request,
  init_error_request, subscribe_request,
}

pub data ClientError : Type 0 where
  bad_request exchange_failed unreadable_body : Bytes → ClientError
  undecodable_body : ClientError
  -- "request failed with status …"
  failed_status : Bytes → ClientError
  -- "… failed: …", with the URL, the status and the body, where it can be read
  refused : Bytes → ℕ → Bytes → Option Bytes → ClientError

-- What a call does to the outside.
pub data Act : Type 0 where
  request_sent : Request → Act
  body_closed : Act

-- A call's result, and what it did.
abbrev pub Exchange : Type 0 → Type 0
Exchange A = Result ClientError A × List Act

abbrev pub status_ok : ℕ
status_ok = 200

-- `io.ReadAll` and `json.Unmarshal`
unfoldable pub read_response :
    {A : Type 0} → (Tree → Option A) → Result Bytes Bytes → Result ClientError A
read_response decode (err e) = err (unreadable_body e)
read_response decode (ok body) = elim (unmarshal decode (parse body)) [
  | none ↦ err undecodable_body
  | some a ↦ ok a
]

-- The calls of the Extensions API: the body is closed by the `defer` behind the test of the status.
unfoldable pub answered :
    {A : Type 0} → Request → (Response → Result ClientError A) → Response → Exchange A
answered r use_response response =
    if response.status_code == status_ok
    then (use_response response, request_sent r ∷ body_closed ∷ [])
    else (err (failed_status response.status), request_sent r ∷ [])

unfoldable pub register_response : Response → Result ClientError (Bytes × RegisterResponse)
unfolding read_response
register_response response = elim (read_response decode_response response.body) [
  | err e ↦ err e
  | ok r ↦ ok (response.header identifier_header, r)
]

-- The type of the event, with the body.
unfoldable pub next_event_response : Response → Result ClientError (Bytes × Bytes)
next_event_response response = elim (response.body) [
  | err e ↦ err (unreadable_body e)
  | ok body ↦ elim (unmarshal decode_next_event (parse body)) [
    | none ↦ err undecodable_body
    | some type ↦ ok (type, body)
  ]
]

-- The body is closed whatever the status.
unfoldable pub subscribe_answered : Request → Response → Exchange Unit
subscribe_answered r response =
    if response.status_code == status_ok
    then (ok tt, request_sent r ∷ body_closed ∷ [])
    else elim (response.body) [
      | err e ↦ (
        err (refused r.url response.status_code response.status none),
        request_sent r ∷ body_closed ∷ [],
      )
      | ok body ↦ (
        err (refused r.url response.status_code response.status (some body)),
        request_sent r ∷ body_closed ∷ [],
      )
    ]

module _ (http : Http) where
  -- `NewRequestWithContext` and `Do`.
  unfoldable pub call : {A : Type 0} → Request → (Response → Exchange A) → Exchange A
  call r handle = elim (http.reject_url r.url) [
    | some e ↦ (err (bad_request e), [])
    | none ↦ elim (http.exchange r) [
      | err e ↦ (err (exchange_failed e), request_sent r ∷ [])
      | ok response ↦ handle response
    ]
  ]

  unfoldable pub register : Bytes → Bytes → Exchange (Bytes × RegisterResponse)
  unfolding call answered register_response register_request
  register base filename =
      let r = register_request base filename in call r (answered r register_response)

  unfoldable pub next_event : Bytes → Bytes → Exchange (Bytes × Bytes)
  unfolding call answered next_event_response next_event_request
  next_event base extension_id =
      let r = next_event_request base extension_id in call r (answered r next_event_response)

  unfoldable pub init_error : Bytes → Bytes → FunctionErrorType → Bytes → Bytes → Exchange Unit
  unfolding call answered init_error_request
  init_error base extension_id error_type message type =
      let r = init_error_request base extension_id error_type message type in
      call r (answered r (λ response. ok tt))

  unfoldable pub subscribe : Bytes → List Bytes → BufferingCfg → Bytes → Exchange Unit
  unfolding call subscribe_answered subscribe_request
  subscribe base log_types buffering extension_id =
      let r = subscribe_request base log_types buffering extension_id in
      call r (subscribe_answered r)
