-- ===== src/Extension/Received.antt =====
-- main.go: what `handleInvocations` makes of the answers of `NextEvent`.
use edgedelta_lambda_extensi.Common.{
  ◌≡◌, refl, ap, ◌∙◌, ◌++◌, map, All, none, some, List, [], ◌∷◌, arith, ℤ, Result, ok, err,
  if◌then◌else◌,
}
use edgedelta_lambda_extensi.Text.Bytes.{Bytes, codes, bytes_eq}
use edgedelta_lambda_extensi.Json.Tree.{emit}
use edgedelta_lambda_extensi.Json.Parse.{parse}
use edgedelta_lambda_extensi.Lambda.Responses.{
  unmarshal, decode_next_event, get_invoke_event, get_shutdown_event,
}
use edgedelta_lambda_extensi.Lambda.Answers.{
  invoke_tree, shutdown_tree, InvokeIsPrintable, ShutdownIsPrintable, unmarshal-invoke,
  unmarshal-shutdown,
}
use edgedelta_lambda_extensi.Lambda.Requests.{Response, Http, next_event_request}
use edgedelta_lambda_extensi.Lambda.Client.{ClientError, answered, next_event, next_event_response}
use edgedelta_lambda_extensi.Lambda.Calls.{call-handled, answered_ok}
use edgedelta_lambda_extensi.Extension.Invocations.{
  InvokeEvent, ShutdownEvent, Next, no_event, invoke, shutdown, unexpected, Call, invoke_worker,
  stop_worker, send_stop, until_deadline, handle_invocations,
}

-- The switch on the event's type; `now` is the clock, in milliseconds.
unfoldable pub received : Result ClientError (Bytes × Bytes) → ℤ → Next
received (err e) now = no_event
received (ok (type, body)) now =
    if bytes_eq type (codes "INVOKE")
    then invoke (get_invoke_event body)
    else if bytes_eq type (codes "SHUTDOWN")
    then shutdown (get_shutdown_event body) now
    else unexpected

event_response :
    (response : Response) (type body : Bytes)
    → response.body ≡ ok body
    → unmarshal decode_next_event (parse body) ≡ some type
    → next_event_response response ≡ ok (type, body)
unfolding next_event_response
event_response response type body b p = ground arith

take_invoke :
    (body : Bytes) (now : ℤ) (e : InvokeEvent)
    → get_invoke_event body ≡ some e
    → received (ok (codes "INVOKE", body)) now ≡ invoke (some e)
unfolding received bytes_eq
take_invoke body now e h = ap invoke h

take_shutdown :
    (body : Bytes) (now : ℤ) (e : ShutdownEvent)
    → get_shutdown_event body ≡ some e
    → received (ok (codes "SHUTDOWN", body)) now ≡ shutdown (some e) now
unfolding received bytes_eq
take_shutdown body now e h = ap (λ o. shutdown o now) h

module _ (base id : Bytes) where
  -- One call of `NextEvent` for each state in which the API is then, with the clock behind it.
  unfoldable pub next_events : List (Http × ℤ) → List Next
  unfolding received
  next_events [] = []
  next_events ((http, now) ∷ rest) = received (next_event http base id).0 now ∷ next_events rest

  -- The loop of `handleInvocations` over the API.
  unfoldable pub serve : List (Http × ℤ) → List Call
  unfolding next_events handle_invocations
  serve rounds = handle_invocations (next_events rounds)

  -- The API answers the next call with the status 200 and a text.
  abbrev pub Answers : Http → Bytes → Type 0
  Answers http body =
      (http.reject_url (next_event_request base id).url ≡ none)
      × ((response : Response) × (http.exchange (next_event_request base id) ≡ ok response)
          × (response.status_code ≡ 200)
          × (response.body ≡ ok body))

  -- The rounds in which the API answers with some invocations.
  abbrev pub Invoked : Type 0
  Invoked = (Http × ℤ) × InvokeEvent

  abbrev pub IsInvoked : Invoked → Type 0
  IsInvoked r = Answers r.0.0 (emit (invoke_tree r.1)) × InvokeIsPrintable r.1

  next_event-answered :
      (http : Http) (type body : Bytes)
      → Answers http body
      → unmarshal decode_next_event (parse body) ≡ some type
      → (next_event http base id).0 ≡ ok (type, body)
  unfolding next_event
  next_event-answered http type body (u, (response, e, s, b)) p =
      let q = next_event_request base id in
      ap (λ x. x.0)
        (call-handled http q (answered q next_event_response) response u e
          ∙ answered_ok q next_event_response response (type, body) s
              (event_response response type body b p))

  received-invoke :
      (http : Http) (now : ℤ) (e : InvokeEvent)
      → Answers http (emit (invoke_tree e))
      → InvokeIsPrintable e
      → received (next_event http base id).0 now ≡ invoke (some e)
  received-invoke http now e a h =
      let p = unmarshal-invoke e h in
      ap (λ r. received r now) (next_event-answered http (codes "INVOKE") _ a (p.0))
      ∙ take_invoke _ now e (p.1)

  received-shutdown :
      (http : Http) (now : ℤ) (e : ShutdownEvent)
      → Answers http (emit (shutdown_tree e))
      → ShutdownIsPrintable e
      → received (next_event http base id).0 now ≡ shutdown (some e) now
  received-shutdown http now e a h =
      let p = unmarshal-shutdown e h in
      ap (λ r. received r now) (next_event-answered http (codes "SHUTDOWN") _ a (p.0))
      ∙ take_shutdown _ now e (p.1)

  -- If the API answers some calls of `NextEvent` with invocations and the next one with a shutdown,
  -- each with the status 200 and as a compact JSON object of its fields, whose texts are valid UTF-8 and whose
  -- deadlines fit an int64, then the worker is invoked once for each invocation, in order, with exactly
  -- its fields, is stopped with the time that the shutdown leaves, the end is signalled, and nothing
  -- follows, whatever the API would answer next.
  pub serve_lem :
      (rounds : List Invoked) (http : Http) (now : ℤ) (e : ShutdownEvent) (after : List (Http × ℤ))
      → All IsInvoked rounds
      → Answers http (emit (shutdown_tree e))
      → ShutdownIsPrintable e
      → serve (map (λ r. r.0) rounds ++ (http, now) ∷ after)
        ≡ map (λ r. invoke_worker r.1) rounds ++ stop_worker (until_deadline e now) ∷ send_stop ∷ []
  unfolding serve next_events handle_invocations
  serve_lem [] http now e after h a p = rw (received-shutdown http now e a p) refl
  serve_lem (((api, t), i) ∷ rounds) http now e after ((b, q), hs) a p =
      rw (received-invoke api t i b q)
        (ap (λ (c : List Call). invoke_worker i ∷ c) (serve_lem rounds http now e after hs a p))
