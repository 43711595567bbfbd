-- ===== src/Lambda/Aws.antt =====
-- lambda/client.go: the client of the AWS SDK, as `startExtension` of main.go uses it.
use edgedelta_lambda_extensi.Common.{◌≡◌, refl, true, Option, [], ◌∷◌, ◌++◌, Result, ok, err}
use edgedelta_lambda_extensi.Text.Bytes.{Bytes, codes}
use edgedelta_lambda_extensi.Cfg.Types.{Config, loaded}
use edgedelta_lambda_extensi.Cfg.Load.{get_config_and_validate}
use edgedelta_lambda_extensi.Extension.Types.{
  RegisterResponse, FunctionOutput, Replies, client_error, create_client_error, init_error, failed,
}
use edgedelta_lambda_extensi.Extension.Start.{
  start_extension, after_register, prepare, accept, complete, forward, identify, begin,
}

-- The SDK, an error with its text. A service is one for a region.
pub record Sdk : Type 0 where
  -- `session.NewSession`
  pub new_session : Bytes → Result Bytes Unit
  -- `svc.GetFunction` of a region's service for a function's name
  pub get_function : Bytes → Bytes → Result Bytes (Option FunctionOutput)

pub record DefaultClient : Type 0 where
  pub region : Bytes

unfoldable pub new_aws_client : Sdk → Bytes → Result Bytes DefaultClient
new_aws_client sdk region = elim (sdk.new_session region) [
  | err e ↦ err (codes "failed to initialize AWS Lambda client, err: " ++ e)
  | ok _ ↦ ok (record { region = region })
]

unfoldable pub get_function : Sdk → DefaultClient → Bytes → Result Bytes (Option FunctionOutput)
get_function sdk c arn = elim (sdk.get_function c.region arn) [ err e ↦ err e | ok f ↦ ok f ]

-- What `startExtension` sees of the SDK, for a region.
unfoldable pub with_sdk : Sdk → Bytes → Replies → Replies
unfolding new_aws_client get_function
with_sdk sdk region r = record r {
  new_client = λ reg. elim (new_aws_client sdk reg) [ err e ↦ err e | ok c ↦ ok tt ];
  get_function = λ arn. get_function sdk (record { region = region }) arn;
}

-- If the session cannot be made, the start fails, and what it reports carries the error of the SDK
-- behind the words of `NewAWSClient`.
pub session_failure_reported :
    (env : Bytes → Bytes) (r : Replies) (sdk : Sdk) (c : Config) (id e : Bytes)
    (response : RegisterResponse)
    → r.register ≡ ok (id, response)
    → get_config_and_validate env ≡ loaded c []
    → c.forward_tags ≡ true
    → sdk.new_session c.region ≡ err e
    → start_extension env (with_sdk sdk c.region r) ≡ (
      failed,
      init_error id client_error
            (create_client_error (codes "failed to initialize AWS Lambda client, err: " ++ e))
          ∷ [],
    )
unfolding start_extension after_register with_sdk prepare accept complete forward identify begin
session_failure_reported env r sdk c id e response h valid tags bad =
    rw h (rw valid (rw tags (rw bad refl)))
