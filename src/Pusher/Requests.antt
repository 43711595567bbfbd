-- ===== src/Pusher/Requests.antt =====
-- pushers/pusher.go: how a payload is sent, and `ForceFlush`; utils/helpers.go: the retries.
use edgedelta_lambda_extensi.Common.{
  ℕ, Bool, false, ◌||◌, Option, none, some, List, [], ◌∷◌, ltb, ℤ, Result, ok, err, if◌then◌else◌,
}
use edgedelta_lambda_extensi.Text.Bytes.{Bytes, codes}
use edgedelta_lambda_extensi.Text.Table.{insert}
use edgedelta_lambda_extensi.Json.Value.{Float64}
use edgedelta_lambda_extensi.Lambda.Requests.{Request, Response, Http, post}
use edgedelta_lambda_extensi.Lambda.Client.{Act, request_sent, body_closed}

-- Why a request fails, without the words around it.
pub data PushError : Type 0 where
  bad_endpoint not_sent unreadable_body kinesis_failed : Bytes → PushError
  -- the status, with the body where there is one
  unexpected_status : ℕ → Option Bytes → PushError

abbrev pub Pushed : Type 0
Pushed = Result PushError Unit

unfoldable pub post_request : Bytes → Bytes → Request
post_request endpoint payload = record {
  method = post;
  url = endpoint;
  headers = insert (codes "Content-Type") (codes "application/json") [];
  body = payload;
}

-- The result for a response.
unfoldable pub judge : Response → Pushed
judge response =
    if ltb response.status_code 200 || ltb 299 response.status_code
    then elim (response.body) [
      | err e ↦ err (unreadable_body e)
      | ok [] ↦ err (unexpected_status response.status_code none)
      | ok (c ∷ s) ↦ err (unexpected_status response.status_code (some (c ∷ s)))
    ]
    else ok tt

module _ (http : Http) where
  unfoldable pub send_with_caring_response_code : Request → Pushed × List Act
  unfolding judge
  send_with_caring_response_code r = elim (http.exchange r) [
    | err e ↦ (err (not_sent e), request_sent r ∷ [])
    | ok response ↦ (judge response, request_sent r ∷ body_closed ∷ [])
  ]

  unfoldable pub make_http_request : Bytes → Bytes → Pushed × List Act
  unfolding send_with_caring_response_code post_request
  make_http_request endpoint payload = elim (http.reject_url endpoint) [
    | some e ↦ (err (bad_endpoint e), [])
    | none ↦ send_with_caring_response_code (post_request endpoint payload)
  ]

-- `PutRecordWithContext` for a stream and the data of a record, an error with its text.
abbrev pub Kinesis : Type 0
Kinesis = Bytes → Bytes → Result Bytes Unit

unfoldable pub make_kinesis_request : Kinesis → Bytes → Bytes → Pushed
make_kinesis_request kinesis endpoint payload = elim (kinesis endpoint payload) [
  | err e ↦ err (kinesis_failed e)
  | ok _ ↦ ok tt
]

-- The fields that are set of an `ExponentialBackOff`, times in nanoseconds.
pub record Backoff : Type 0 where
  pub randomization_factor : Float64
  pub max_elapsed_time : ℤ
  pub initial_interval : ℤ

-- 0.5
abbrev pub default_randomization_factor : Float64
default_randomization_factor = 0x3FE0_0000_0000_0000

-- `backoff.Retry` with the context: what becomes of a function from the results that its calls would
-- have, one behind the other.
abbrev pub Retry : Type 0
Retry = Backoff → (ℕ → Pushed) → Pushed

unfoldable pub do_with_exp_backoff : Retry → (ℕ → Pushed) → ℤ → ℤ → Pushed
do_with_exp_backoff retry f initial_interval timeout =
    retry
      (record {
        randomization_factor = default_randomization_factor;
        max_elapsed_time = timeout;
        initial_interval = initial_interval;
      })
      f

-- The pusher's `makeRequestFunc` and `endpoint`, with the service as each attempt finds it. An attempt
-- that outlasts the push timeout is an error of the service.
pub data Target : Type 0 where
  http_target : (ℕ → Http) → Bytes → Target
  kinesis_target : (ℕ → Kinesis) → Bytes → Target

unfoldable pub make_request : Target → Bytes → ℕ → Pushed
unfolding make_http_request make_kinesis_request
make_request (http_target network endpoint) payload n =
    (make_http_request (network n) endpoint payload).0
make_request (kinesis_target service stream) payload n =
    make_kinesis_request (service n) stream payload

unfoldable pub push : Retry → Target → ℤ → Bytes → ℤ → Pushed
unfolding do_with_exp_backoff make_request
push retry target retry_interval payload timeout =
    do_with_exp_backoff retry (make_request target payload) retry_interval timeout

-- The first `select` of `ForceFlush` takes the request or finds the context done, and so does the
-- second one with the answer of the pusher.
pub data ForceFlushing : Type 0 where
  not_accepted not_answered : ForceFlushing
  answered : Bool → ForceFlushing

unfoldable pub force_flush : ForceFlushing → Bool
force_flush not_accepted = false
force_flush not_answered = false
force_flush (answered success) = success
