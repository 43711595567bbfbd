-- ===== src/Extension/Types.antt =====
-- What main.go and lambda/types.go declare for the start of the extension, and what it gets from the
-- Lambda APIs.
use edgedelta_lambda_extensi.Common.{ℕ, Option, List, ℤ, Result}
use edgedelta_lambda_extensi.Text.Bytes.{Bytes}
use edgedelta_lambda_extensi.Text.Table.{Table}
use edgedelta_lambda_extensi.Cfg.Types.{BufferingCfg, Config, Outcome as Loaded}

pub record RegisterResponse : Type 0 where
  pub function_name : Bytes
  pub function_version : Bytes
  pub handler : Bytes
  pub account_id : Bytes

pub data FunctionErrorType : Type 0 where
  subscribe_error register_error config_error client_error : FunctionErrorType

-- The `LambdaError` of a report: its type, with what its message is made of. A text is that of an
-- error of the Lambda APIs.
pub data LambdaError : Type 0 where
  registration_error : Bytes → LambdaError
  invalid_config : Loaded → LambdaError
  create_client_error : Bytes → LambdaError
  get_function_error : Bytes → LambdaError
  function_not_found : Bytes → LambdaError
  subscription_error : Bytes → LambdaError

-- What `startExtension` reads of a `FunctionConfiguration` of the AWS SDK. A pointer may be nil: a
-- function that is a container image has no runtime.
pub record FunctionConfiguration : Type 0 where
  pub architectures : List (Option Bytes)
  pub runtime : Option Bytes
  pub memory_size : Option ℤ

pub record FunctionOutput : Type 0 where
  pub tags : Table (Option Bytes)
  pub configuration : Option FunctionConfiguration

-- What the calls of the Lambda APIs come to, an error with its text.
pub record Replies : Type 0 where
  pub register : Result Bytes (Bytes × RegisterResponse)
  pub new_client : Bytes → Result Bytes Unit
  pub get_function : Bytes → Result Bytes (Option FunctionOutput)
  pub subscribe : List Bytes → BufferingCfg → Bytes → Result Bytes Unit

-- What the start does to the outside.
pub data Action : Type 0 where
  -- `lambdaClient.InitError`
  init_error : Bytes → FunctionErrorType → LambdaError → Action
  -- `worker.Start`
  start_worker : Config → Bytes → Action
  -- `worker.Stop`, with its timeout in nanoseconds
  stop_worker : ℕ → Action

-- `panicked`: a nil pointer is followed, which ends the process.
pub data Ending : Type 0 where
  started : Config → Bytes → Ending
  failed panicked : Ending

-- Why there is no configuration to start with.
pub data Abort : Type 0 where
  refused : FunctionErrorType → LambdaError → Abort
  crash : Abort
