-- ===== src/Lambda/Answers.antt =====
-- What the Lambda APIs print for a registration and for an event, and that it is decoded back.
use edgedelta_lambda_extensi.Common.{arith, ◌≡◌, refl, some}
use edgedelta_lambda_extensi.Text.Bytes.{codes, bytes_eq}
use edgedelta_lambda_extensi.Text.Utf8.{IsUtf8, valid_from}
use edgedelta_lambda_extensi.Text.Decimal.{print_int}
use edgedelta_lambda_extensi.Text.Numeral.{IsInt64, parse_int-print_int}
use edgedelta_lambda_extensi.Json.Integers.{is_number-print_int}
use edgedelta_lambda_extensi.Json.Tree.{
  Tree, number, text, object, no_pairs, pair, emit, IsWellFormed,
}
use edgedelta_lambda_extensi.Json.Parse.{parse}
use edgedelta_lambda_extensi.Json.RoundTrip.{parse-emit}
use edgedelta_lambda_extensi.Json.Decode.{folds_to, decode_string, decode_int64, decode_struct}
use edgedelta_lambda_extensi.Extension.Types.{RegisterResponse}
use edgedelta_lambda_extensi.Extension.Invocations.{InvokeEvent, ShutdownEvent}
use edgedelta_lambda_extensi.Lambda.Responses.{
  unmarshal, decode_response, decode_next_event, decode_invoke, decode_shutdown, get_invoke_event,
  get_shutdown_event,
}

unfoldable pub response_tree : RegisterResponse → Tree
response_tree r = object (
    pair (codes "functionName") (text r.function_name) (
      pair (codes "functionVersion") (text r.function_version) (
        pair (codes "handler") (text r.handler)
          (pair (codes "accountId") (text r.account_id) no_pairs))))

unfoldable pub invoke_tree : InvokeEvent → Tree
invoke_tree e = object (
    pair (codes "eventType") (text (codes "INVOKE")) (
      pair (codes "deadlineMs") (number (print_int e.deadline_ms)) (
        pair (codes "requestId") (text e.request_id) (
          pair (codes "invokedFunctionArn") (text e.invoked_function_arn) (
            pair (codes "tracing")
              (object (
                pair (codes "type") (text e.tracing.type)
                  (pair (codes "value") (text e.tracing.value) no_pairs)))
              no_pairs)))))

unfoldable pub shutdown_tree : ShutdownEvent → Tree
shutdown_tree e = object (
    pair (codes "eventType") (text (codes "SHUTDOWN")) (
      pair (codes "shutdownReason") (text e.shutdown_reason)
        (pair (codes "deadlineMs") (number (print_int e.deadline_ms)) no_pairs)))

abbrev pub ResponseIsUtf8 : RegisterResponse → Type 0
ResponseIsUtf8 r =
    (IsUtf8 r.function_name × IsUtf8 r.function_version) × (IsUtf8 r.handler × IsUtf8 r.account_id)

abbrev pub InvokeIsPrintable : InvokeEvent → Type 0
InvokeIsPrintable e =
    IsInt64 e.deadline_ms
    × (IsUtf8 e.request_id × IsUtf8 e.invoked_function_arn)
    × (IsUtf8 e.tracing.type × IsUtf8 e.tracing.value)

abbrev pub ShutdownIsPrintable : ShutdownEvent → Type 0
ShutdownIsPrintable e = IsInt64 e.deadline_ms × IsUtf8 e.shutdown_reason

response_tree-IsWellFormed :
    (r : RegisterResponse) → ResponseIsUtf8 r → IsWellFormed (response_tree r)
unfolding response_tree IsWellFormed valid_from
response_tree-IsWellFormed r ((a, b), (c, d)) = (refl, a, (refl, b, (refl, c, (refl, d, tt))))

invoke_tree-IsWellFormed : (e : InvokeEvent) → InvokeIsPrintable e → IsWellFormed (invoke_tree e)
unfolding invoke_tree IsWellFormed valid_from
invoke_tree-IsWellFormed e (z, (a, b), (c, d)) = (
  refl,
  refl,
  (
    refl,
    is_number-print_int e.deadline_ms z,
    (refl, a, (refl, b, (refl, (refl, c, (refl, d, tt)), tt))),
  ),
)

shutdown_tree-IsWellFormed :
    (e : ShutdownEvent) → ShutdownIsPrintable e → IsWellFormed (shutdown_tree e)
unfolding shutdown_tree IsWellFormed valid_from
shutdown_tree-IsWellFormed e (z, a) =
    (refl, refl, (refl, a, (refl, is_number-print_int e.deadline_ms z, tt)))

decode-response_tree : (r : RegisterResponse) → decode_response (response_tree r) ≡ some r
unfolding decode_response response_tree decode_struct folds_to bytes_eq decode_string
decode-response_tree r = refl

decode-invoke_tree :
    (e : InvokeEvent) → IsInt64 e.deadline_ms → decode_invoke (invoke_tree e) ≡ some e
unfolding decode_invoke invoke_tree decode_struct folds_to bytes_eq decode_string decode_int64
decode-invoke_tree e z = let p = parse_int-print_int e.deadline_ms z in ground arith

decode-shutdown_tree :
    (e : ShutdownEvent) → IsInt64 e.deadline_ms → decode_shutdown (shutdown_tree e) ≡ some e
unfolding decode_shutdown shutdown_tree decode_struct folds_to bytes_eq decode_string decode_int64
decode-shutdown_tree e z = let p = parse_int-print_int e.deadline_ms z in ground arith

invoke_tree-type : (e : InvokeEvent) → decode_next_event (invoke_tree e) ≡ some (codes "INVOKE")
unfolding decode_next_event invoke_tree decode_struct folds_to bytes_eq decode_string
invoke_tree-type e = refl

shutdown_tree-type :
    (e : ShutdownEvent) → decode_next_event (shutdown_tree e) ≡ some (codes "SHUTDOWN")
unfolding decode_next_event shutdown_tree decode_struct folds_to bytes_eq decode_string
shutdown_tree-type e = refl

-- Each is parsed and decoded from its print.
pub unmarshal-response :
    (r : RegisterResponse)
    → ResponseIsUtf8 r
    → unmarshal decode_response (parse (emit (response_tree r))) ≡ some r
unmarshal-response r h =
    rw (parse-emit (response_tree r) (response_tree-IsWellFormed r h)) (decode-response_tree r)

pub unmarshal-invoke :
    (e : InvokeEvent)
    → InvokeIsPrintable e
    → (unmarshal decode_next_event (parse (emit (invoke_tree e))) ≡ some (codes "INVOKE"))
      × (get_invoke_event (emit (invoke_tree e)) ≡ some e)
unfolding get_invoke_event
unmarshal-invoke e h =
    let p = parse-emit (invoke_tree e) (invoke_tree-IsWellFormed e h) in
    (rw p (invoke_tree-type e), rw p (decode-invoke_tree e (h.0)))

pub unmarshal-shutdown :
    (e : ShutdownEvent)
    → ShutdownIsPrintable e
    → (unmarshal decode_next_event (parse (emit (shutdown_tree e))) ≡ some (codes "SHUTDOWN"))
      × (get_shutdown_event (emit (shutdown_tree e)) ≡ some e)
unfolding get_shutdown_event
unmarshal-shutdown e h =
    let p = parse-emit (shutdown_tree e) (shutdown_tree-IsWellFormed e h) in
    (rw p (shutdown_tree-type e), rw p (decode-shutdown_tree e (h.0)))
