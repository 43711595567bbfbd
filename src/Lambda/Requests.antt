-- ===== src/Lambda/Requests.antt =====
-- lambda/types.go, lambda/extension_api.go and lambda/telemetry_api.go: the requests to the Lambda APIs.
use edgedelta_lambda_extensi.Common.{ℕ, Option, List, [], ◌∷◌, ◌++◌, pos, Result}
use edgedelta_lambda_extensi.Text.Bytes.{Bytes, codes}
use edgedelta_lambda_extensi.Text.Decimal.{print_int}
use edgedelta_lambda_extensi.Text.Table.{Table, insert}
use edgedelta_lambda_extensi.Json.Tree.{
  Tree, Trees, number, text, array, object, no_trees, tree, no_pairs, pair, emit,
}
use edgedelta_lambda_extensi.Cfg.Types.{BufferingCfg}
use edgedelta_lambda_extensi.Extension.Types.{
  FunctionErrorType, subscribe_error, register_error, config_error, client_error,
}

pub data Method : Type 0 where
  get post put : Method

pub record Request : Type 0 where
  pub method : Method
  pub url : Bytes
  pub headers : Table Bytes
  pub body : Bytes

pub record Response : Type 0 where
  pub status_code : ℕ
  pub status : Bytes
  -- `Header.Get`
  pub header : Bytes → Bytes
  -- what `io.ReadAll` returns of the body
  pub body : Result Bytes Bytes

-- Package `net/http`, errors as their texts.
pub record Http : Type 0 where
  -- the error of `http.NewRequestWithContext` for a URL, if it has one
  pub reject_url : Bytes → Option Bytes
  -- `httpClient.Do`
  pub exchange : Request → Result Bytes Response

-- The client's `baseUrl`.
unfoldable pub new_client : Bytes → Bytes
new_client runtime_api = codes "http://" ++ runtime_api

-- `fmt.Sprintf("%s/%s/%s", e.baseUrl, LambdaExtensionEndpoint, action)`
unfoldable pub extension_url : Bytes → Bytes → Bytes
extension_url base action = base ++ (codes "/2020-01-01/extension/" ++ action)

unfoldable pub error_type_text : FunctionErrorType → Bytes
error_type_text subscribe_error = codes "Extension.SubscribeError"
error_type_text register_error = codes "Extension.RegisterError"
error_type_text config_error = codes "Extension.ConfigError"
error_type_text client_error = codes "Extension.ClientError"

unfoldable pub text_trees : List Bytes → Trees
text_trees [] = no_trees
text_trees (s ∷ rest) = tree (text s) (text_trees rest)

-- The body of `Register`.
unfoldable pub register_tree : Tree
unfolding text_trees
register_tree =
    object
      (pair (codes "events") (array (text_trees (codes "INVOKE" ∷ codes "SHUTDOWN" ∷ []))) no_pairs)

-- The body of `InitError`: a `LambdaError`, its message and its type.
unfoldable pub error_tree : Bytes → Bytes → Tree
error_tree message type =
    object
      (pair (codes "errorMessage") (text message) (pair (codes "errorType") (text type) no_pairs))

unfoldable pub number_tree : ℕ → Tree
unfolding print_int
number_tree n = number (print_int (pos n))

unfoldable pub buffering_tree : BufferingCfg → Tree
unfolding number_tree
buffering_tree b = object (
    pair (codes "maxItems") (number_tree b.max_items) (
      pair (codes "maxBytes") (number_tree b.max_bytes)
        (pair (codes "timeoutMs") (number_tree b.timeout_ms) no_pairs)))

-- The package's variable `destination`.
unfoldable pub destination_tree : Tree
destination_tree = object (
    pair (codes "protocol") (text (codes "HTTP"))
      (pair (codes "URI") (text (codes "http://sandbox:6060")) no_pairs))

-- A `SubscribeRequest`.
unfoldable pub subscribe_tree : List Bytes → BufferingCfg → Tree
unfolding text_trees buffering_tree destination_tree
subscribe_tree log_types buffering = object (
    pair (codes "schemaVersion") (text (codes "2022-07-01")) (
      pair (codes "types") (array (text_trees log_types)) (
        pair (codes "buffering") (buffering_tree buffering)
          (pair (codes "destination") destination_tree no_pairs))))

abbrev pub identifier_header : Bytes
identifier_header = codes "Lambda-Extension-Identifier"

unfoldable pub register_request : Bytes → Bytes → Request
unfolding register_tree extension_url
register_request base filename = record {
  method = post;
  url = extension_url base (codes "register");
  headers =
      insert (codes "Lambda-Extension-Accept-Feature") (codes "accountId")
        (insert (codes "Lambda-Extension-Name") filename []);
  body = emit register_tree;
}

unfoldable pub next_event_request : Bytes → Bytes → Request
unfolding extension_url
next_event_request base extension_id = record {
  method = get;
  url = extension_url base (codes "event/next");
  headers = insert identifier_header extension_id [];
  body = [];
}

unfoldable pub init_error_request : Bytes → Bytes → FunctionErrorType → Bytes → Bytes → Request
unfolding error_tree extension_url error_type_text
init_error_request base extension_id error_type message type = record {
  method = get;
  url = extension_url base (codes "init/error");
  headers =
      insert (codes "Lambda-Extension-Function-Error-Type") (error_type_text error_type)
        (insert identifier_header extension_id []);
  body = emit (error_tree message type);
}

unfoldable pub subscribe_request : Bytes → List Bytes → BufferingCfg → Bytes → Request
unfolding subscribe_tree
subscribe_request base log_types buffering extension_id = record {
  method = put;
  url = base ++ codes "/2022-07-01/telemetry";
  headers =
      insert identifier_header extension_id
        (insert (codes "Content-Type") (codes "application/json") []);
  body = emit (subscribe_tree log_types buffering);
}
