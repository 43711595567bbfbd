-- ===== src/Lambda/Calls.antt =====
-- The calls of the Lambda APIs: what is sent, what comes back, and whether the body is closed.
use edgedelta_lambda_extensi.Common.{
  ℕ, ◌≡◌, ◌<◌, ◌^◌, refl, ◌∙◌, none, some, List, [], ◌∷◌, arith, ◌==◌, if◌then◌else◌, pos, Result,
  ok,
}
use edgedelta_lambda_extensi.Text.Bytes.{Bytes, codes}
use edgedelta_lambda_extensi.Text.Decimal.{print_int}
use edgedelta_lambda_extensi.Text.Utf8.{valid_from}
use edgedelta_lambda_extensi.Json.Tree.{
  Tree, Trees, text, number, array, object, pair, no_pairs, tree, no_trees, emit, IsWellFormed,
}
use edgedelta_lambda_extensi.Json.Parse.{parse}
use edgedelta_lambda_extensi.Json.RoundTrip.{parse-emit}
use edgedelta_lambda_extensi.Cfg.Types.{BufferingCfg}
use edgedelta_lambda_extensi.Extension.Types.{RegisterResponse, FunctionErrorType}
use edgedelta_lambda_extensi.Lambda.Answers.{response_tree, ResponseIsUtf8, unmarshal-response}
use edgedelta_lambda_extensi.Lambda.Requests.{
  Request, Response, Http, identifier_header, text_trees, register_tree, register_request,
  next_event_request, init_error_request,
}
use edgedelta_lambda_extensi.Lambda.Client.{
  ClientError, Act, request_sent, body_closed, read_response, answered, call, register_response,
  register, next_event_response, next_event, init_error,
}

-- Strings, in JSON.
unfoldable pub strings : List Bytes → Trees
strings [] = no_trees
strings (s ∷ rest) = tree (text s) (strings rest)

-- What the Telemetry API of Lambda documents for the body of a subscription.
abbrev pub subscription : List Bytes → BufferingCfg → Tree
subscription types b = object (
    pair (codes "schemaVersion") (text (codes "2022-07-01")) (
      pair (codes "types") (array (strings types)) (
        pair (codes "buffering")
          (object (
            pair (codes "maxItems") (number (print_int (pos b.max_items))) (
              pair (codes "maxBytes") (number (print_int (pos b.max_bytes)))
                (pair (codes "timeoutMs") (number (print_int (pos b.timeout_ms))) no_pairs))))
          (pair (codes "destination")
            (object (
              pair (codes "protocol") (text (codes "HTTP"))
                (pair (codes "URI") (text (codes "http://sandbox:6060")) no_pairs)))
            no_pairs))))

-- The settings of the buffer are uint32.
abbrev pub BufferingIsUint32 : BufferingCfg → Type 0
BufferingIsUint32 b = (b.max_items < 2 ^ 32) × (b.max_bytes < 2 ^ 32) × (b.timeout_ms < 2 ^ 32)

register_tree-IsWellFormed : IsWellFormed register_tree
unfolding register_tree text_trees IsWellFormed valid_from
register_tree-IsWellFormed = (refl, (refl, (refl, tt)), tt)

pub answered_ok :
    {A : Type 0} (r : Request) (use_response : Response → Result ClientError A)
    (response : Response) (a : A)
    → response.status_code ≡ 200
    → use_response response ≡ ok a
    → answered r use_response response ≡ (ok a, request_sent r ∷ body_closed ∷ [])
unfolding answered
answered_ok r use_response response a s h = ground arith

registered :
    (response : Response) (r : RegisterResponse)
    → response.body ≡ ok (emit (response_tree r))
    → ResponseIsUtf8 r
    → register_response response ≡ ok (response.header identifier_header, r)
unfolding register_response read_response
registered response r b h = let p = unmarshal-response r h in ground arith

-- What a call of the Extensions API does when it is answered.
abbrev pub answered_acts : Request → ℕ → List Act
answered_acts r code =
    if code == 200 then request_sent r ∷ body_closed ∷ [] else request_sent r ∷ []

answered-acts :
    {A : Type 0} (r : Request) (use_response : Response → Result ClientError A)
    (response : Response)
    → (answered r use_response response).1 ≡ answered_acts r response.status_code
unfolding answered
answered-acts r use_response response = ground arith

module _ (http : Http) where
  pub call-handled :
      {A : Type 0} (r : Request) (handle : Response → Result ClientError A × List Act)
      (response : Response)
      → http.reject_url r.url ≡ none
      → http.exchange r ≡ ok response
      → call http r handle ≡ handle response
  unfolding call
  call-handled r handle response u e = rw (call, u, e)

  -- If the request of `Register` is a valid one that is answered with the status 200 and a compact JSON
  -- object of the names, the version and the account, all valid UTF-8, then `Register` returns exactly these
  -- with the identifier of the response's header and closes the body; the body it sent asks for the
  -- events INVOKE and SHUTDOWN.
  pub register_lem :
      (base filename : Bytes) (response : Response) (r : RegisterResponse)
      → http.reject_url (register_request base filename).url ≡ none
      → http.exchange (register_request base filename) ≡ ok response
      → response.status_code ≡ 200
      → response.body ≡ ok (emit (response_tree r))
      → ResponseIsUtf8 r
      → (parse (register_request base filename).body ≡ some register_tree)
        × (register http base filename ≡ (
          ok (response.header identifier_header, r),
          request_sent (register_request base filename) ∷ body_closed ∷ [],
        ))
  unfolding register register_request
  register_lem base filename response r u e s b h =
      let q = register_request base filename in
      (
        parse-emit register_tree register_tree-IsWellFormed,
        call-handled q (answered q register_response) response u e
            ∙ answered_ok q register_response response _ s (registered response r b h),
      )

  call-acts :
      {A : Type 0} (r : Request) (use_response : Response → Result ClientError A)
      (response : Response)
      → ((q : Request) → http.reject_url q.url ≡ none)
      → ((q : Request) → http.exchange q ≡ ok response)
      → (call http r (answered r use_response)).1 ≡ answered_acts r response.status_code
  call-acts r use_response response u e =
      rw (call-handled r (answered r use_response) response (u r) (e r))
        (answered-acts r use_response response)

  -- When their requests are valid and answered, `Register`, `NextEvent` and `InitError` each send one
  -- request and close the response's body exactly when the status is 200: behind any other status
  -- the body is left open.
  pub body_open :
      (base filename id : Bytes) (type : FunctionErrorType) (message name : Bytes)
      (response : Response)
      → ((r : Request) → http.reject_url r.url ≡ none)
      → ((r : Request) → http.exchange r ≡ ok response)
      → ((register http base filename).1
          ≡ answered_acts (register_request base filename) response.status_code)
        × ((next_event http base id).1
            ≡ answered_acts (next_event_request base id) response.status_code)
        × ((init_error http base id type message name).1
            ≡ answered_acts (init_error_request base id type message name) response.status_code)
  unfolding register next_event init_error
  body_open base filename id type message name response u e = (
    call-acts (register_request base filename) register_response response u e,
    call-acts (next_event_request base id) next_event_response response u e,
    call-acts (init_error_request base id type message name) (λ _. ok tt) response u e,
  )
