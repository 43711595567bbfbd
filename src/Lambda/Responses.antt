-- ===== src/Lambda/Responses.antt =====
-- lambda/types.go, and the parsers at the end of lambda/extension_api.go: what the Lambda APIs answer
-- and how it is decoded. `none` is an error of `json.Unmarshal`.
use edgedelta_lambda_extensi.Common.{Option, none, some, [], if◌then◌else◌, pos, ◌≡◌, refl}
use edgedelta_lambda_extensi.Text.Bytes.{Bytes, codes, bytes_eq}
use edgedelta_lambda_extensi.Text.ParseInt.{parse_int}
use edgedelta_lambda_extensi.Json.Number.{scan_number}
use edgedelta_lambda_extensi.Json.Unquote.{read_string}
use edgedelta_lambda_extensi.Json.Tree.{Tree}
use edgedelta_lambda_extensi.Json.Parse.{parse}
use edgedelta_lambda_extensi.Json.Decode.{folds_to, decode_string, decode_int64, decode_struct}
use edgedelta_lambda_extensi.Extension.Types.{RegisterResponse}
use edgedelta_lambda_extensi.Extension.Invocations.{Tracing, InvokeEvent, ShutdownEvent}

-- The value that a field was set to, put into its struct.
abbrev pub put {ℓ κ} : {V : Type ℓ} {S : Type κ} → Option V → (V → S) → Option S
put none f = none
put (some v) f = some (f v)

-- `json.Unmarshal(body, &res)`
abbrev pub unmarshal {ℓ} : {S : Type ℓ} → (Tree → Option S) → Option Tree → Option S
unmarshal decode none = none
unmarshal decode (some t) = decode t

unfoldable pub set_response : Bytes → Tree → RegisterResponse → Option RegisterResponse
set_response k t r =
    if folds_to k (codes "functionName")
    then put (decode_string t r.function_name) (λ v. record r { function_name = v })
    else if folds_to k (codes "functionVersion")
    then put (decode_string t r.function_version) (λ v. record r { function_version = v })
    else if folds_to k (codes "handler")
    then put (decode_string t r.handler) (λ v. record r { handler = v })
    else if folds_to k (codes "accountId")
    then put (decode_string t r.account_id) (λ v. record r { account_id = v })
    else some r

abbrev pub no_response : RegisterResponse
no_response = record { function_name = []; function_version = []; handler = []; account_id = [] }

unfoldable pub decode_response : Tree → Option RegisterResponse
unfolding set_response
decode_response t = decode_struct set_response t no_response

-- The `eventType` of a `NextEvent`.
unfoldable pub set_event_type : Bytes → Tree → Bytes → Option Bytes
set_event_type k t type = if folds_to k (codes "eventType") then decode_string t type else some type

unfoldable pub decode_next_event : Tree → Option Bytes
unfolding set_event_type
decode_next_event t = decode_struct set_event_type t []

unfoldable pub set_tracing : Bytes → Tree → Tracing → Option Tracing
set_tracing k t r =
    if folds_to k (codes "type")
    then put (decode_string t r.type) (λ v. record r { type = v })
    else if folds_to k (codes "value")
    then put (decode_string t r.value) (λ v. record r { value = v })
    else some r

unfoldable pub set_invoke : Bytes → Tree → InvokeEvent → Option InvokeEvent
unfolding set_tracing
set_invoke k t e =
    if folds_to k (codes "deadlineMs")
    then put (decode_int64 t e.deadline_ms) (λ v. record e { deadline_ms = v })
    else if folds_to k (codes "requestId")
    then put (decode_string t e.request_id) (λ v. record e { request_id = v })
    else if folds_to k (codes "invokedFunctionArn")
    then put (decode_string t e.invoked_function_arn) (λ v. record e { invoked_function_arn = v })
    else if folds_to k (codes "tracing")
    then put (decode_struct set_tracing t e.tracing) (λ v. record e { tracing = v })
    else some e

abbrev pub no_invoke : InvokeEvent
no_invoke = record {
  deadline_ms = pos 0;
  request_id = [];
  invoked_function_arn = [];
  tracing = record { type = []; value = [] };
}

unfoldable pub decode_invoke : Tree → Option InvokeEvent
unfolding set_invoke
decode_invoke t = decode_struct set_invoke t no_invoke

unfoldable pub get_invoke_event : Bytes → Option InvokeEvent
unfolding decode_invoke
get_invoke_event body = unmarshal decode_invoke (parse body)

unfoldable pub set_shutdown : Bytes → Tree → ShutdownEvent → Option ShutdownEvent
set_shutdown k t e =
    if folds_to k (codes "deadlineMs")
    then put (decode_int64 t e.deadline_ms) (λ v. record e { deadline_ms = v })
    else if folds_to k (codes "shutdownReason")
    then put (decode_string t e.shutdown_reason) (λ v. record e { shutdown_reason = v })
    else some e

abbrev pub no_shutdown : ShutdownEvent
no_shutdown = record { deadline_ms = pos 0; shutdown_reason = [] }

unfoldable pub decode_shutdown : Tree → Option ShutdownEvent
unfolding set_shutdown
decode_shutdown t = decode_struct set_shutdown t no_shutdown

unfoldable pub get_shutdown_event : Bytes → Option ShutdownEvent
unfolding decode_shutdown
get_shutdown_event body = unmarshal decode_shutdown (parse body)

shutdown_test :
    get_shutdown_event
      (codes "{\"eventType\":\"SHUTDOWN\",\"DEADLINEms\":17,\"shutdownReason\":null}")
    ≡ some (record { deadline_ms = pos 17; shutdown_reason = [] })
unfolding get_shutdown_event parse read_string scan_number decode_struct folds_to bytes_eq
    decode_int64 parse_int decode_string
shutdown_test = refl
