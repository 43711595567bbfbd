-- ===== src/Pusher/Sent.antt =====
-- pushers/pusher.go: what the result of a push says of the requests.
mod Examples
use edgedelta_lambda_extensi.Common.{
  ℕ, ◌≡◌, ◌≤◌, ◌<◌, ◌↔◌, refl, Option, none, some, List, [], ◌∷◌, arith, ℤ, ltb, inl, inr, sym, ◌∙◌,
  Option-cases, Result-cases, Result, ok, err,
}
use edgedelta_lambda_extensi.Text.Bytes.{Bytes}
use edgedelta_lambda_extensi.Lambda.Requests.{Request, Response, Http}
use edgedelta_lambda_extensi.Pusher.Requests.{
  PushError, Pushed, post_request, judge, send_with_caring_response_code, make_http_request,
  make_kinesis_request, make_request, Kinesis, Target, http_target, kinesis_target, Backoff, Retry,
  do_with_exp_backoff, push,
}

abbrev pub Failed : Pushed → Type 0
Failed r = (e : PushError) × (r ≡ err e)

-- `backoff.Retry` calls the function until it succeeds or the time is up: it has the result of the
-- last call, and the calls in front of that one failed.
abbrev pub IsRetry : Retry → Type 0
IsRetry retry =
    (b : Backoff) (f : ℕ → Pushed)
    → (last : ℕ) × (retry b f ≡ f last) × ((n : ℕ) → n < last → Failed (f n))

-- The endpoint is a valid URL, and the payload posted to it is answered with a status from 200 to 299.
abbrev pub Delivers : Http → Bytes → Bytes → Type 0
Delivers http endpoint payload =
    (http.reject_url endpoint ≡ none)
    × ((response : Response) × (http.exchange (post_request endpoint payload) ≡ ok response)
        × ((200 ≤ response.status_code) × (response.status_code ≤ 299)))

judge-ok :
    (response : Response)
    → (judge response ≡ ok tt) ↔ ((200 ≤ response.status_code) × (response.status_code ≤ 299))
unfolding judge
judge-ok response = ground arith

-- An answer from 200 to 299.
abbrev Accepts : Http → Request → Type 0
Accepts http r =
    (response : Response) × (http.exchange r ≡ ok response)
    × ((200 ≤ response.status_code) × (response.status_code ≤ 299))

send-Accepts :
    (http : Http) (r : Request) → (send_with_caring_response_code http r).0 ≡ ok tt → Accepts http r
unfolding send_with_caring_response_code
send-Accepts http r k = elim (Result-cases (http.exchange r)) [
  | inl (e, h) ↦ cc (rw (h, send_with_caring_response_code) at k)
  | inr (response, h) ↦
      let judged : judge response ≡ ok tt = rw (h, send_with_caring_response_code) at k in
      (response, h, (judge-ok response).0 judged)
]

Accepts-send :
    (http : Http) (r : Request) → Accepts http r → (send_with_caring_response_code http r).0 ≡ ok tt
unfolding send_with_caring_response_code
Accepts-send http r (response, h, within) =
    rw (h, send_with_caring_response_code) ((judge-ok response).1 within)

make-Delivers :
    (http : Http) (endpoint payload : Bytes)
    → (make_http_request http endpoint payload).0 ≡ ok tt
    → Delivers http endpoint payload
unfolding make_http_request
make-Delivers http endpoint payload k = elim (Option-cases (http.reject_url endpoint)) [
  | inl h ↦ (h, send-Accepts http (post_request endpoint payload) (rw (h, make_http_request) at k))
  | inr (e, h) ↦ cc (rw (h, make_http_request) at k)
]

Delivers-make :
    (http : Http) (endpoint payload : Bytes)
    → Delivers http endpoint payload
    → (make_http_request http endpoint payload).0 ≡ ok tt
unfolding make_http_request
Delivers-make http endpoint payload (h, accepted) =
    rw (h, make_http_request) (Accepts-send http (post_request endpoint payload) accepted)

kinesis-ok :
    (kinesis : Kinesis) (stream payload : Bytes)
    → (make_kinesis_request kinesis stream payload ≡ ok tt) ↔ (kinesis stream payload ≡ ok tt)
unfolding make_kinesis_request
kinesis-ok kinesis stream payload = ground arith

-- An attempt delivers the payload.
abbrev pub AttemptDelivers : Target → Bytes → ℕ → Type 0
AttemptDelivers (http_target network endpoint) payload n = Delivers (network n) endpoint payload
AttemptDelivers (kinesis_target service stream) payload n = service n stream payload ≡ ok tt

make_request-ok :
    (target : Target) (payload : Bytes) (n : ℕ)
    → (make_request target payload n ≡ ok tt) ↔ AttemptDelivers target payload n
unfolding make_request
make_request-ok (http_target network endpoint) payload n =
    (make-Delivers (network n) endpoint payload, Delivers-make (network n) endpoint payload)
make_request-ok (kinesis_target service stream) payload n = kinesis-ok (service n) stream payload

-- A push makes attempts up to a last one, of which none in front of the last delivers, and it succeeds
-- exactly if the last one delivers. In the mode HTTP that is: the endpoint is a valid URL and answers
-- the payload, posted whole, with a status from 200 to 299; in the mode Kinesis: the service takes the
-- payload as a record of the stream. It relies on the retries of the backoff library to end with the
-- result of the last call, behind calls that failed.
pub push_lem :
    (retry : Retry) (target : Target) (interval : ℤ) (payload : Bytes) (timeout : ℤ)
    → IsRetry retry
    → (last : ℕ) × ((push retry target interval payload timeout ≡ ok tt)
        ↔ AttemptDelivers target payload last)
      × ((n : ℕ) → n < last → ¬ AttemptDelivers target payload n)
unfolding push do_with_exp_backoff
push_lem retry target interval payload timeout h =
    let (last, same, before) = h _ (make_request target payload) in
    let at_last = make_request-ok target payload last in
    (
      last,
      ((λ k. at_last.0 (sym same ∙ k)), (λ d. same ∙ at_last.1 d)),
      (λ n less d.
          let made = (make_request-ok target payload n).1 d in
          let failed = before n less in cc (sym (failed.1) ∙ made)),
    )
