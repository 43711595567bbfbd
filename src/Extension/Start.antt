-- ===== src/Extension/Start.antt =====
-- main.go: `startExtension`.
use edgedelta_lambda_extensi.Common.{
  ℕ, Option, none, some, List, [], ◌∷◌, ◌++◌, Result, ok, err, ◌>>=◌, or_fail, if◌then◌else◌,
}
use edgedelta_lambda_extensi.Text.Bytes.{Bytes, codes}
use edgedelta_lambda_extensi.Text.Decimal.{print_int}
use edgedelta_lambda_extensi.Text.Table.{Table, insert}
use edgedelta_lambda_extensi.Cfg.Types.{Config, loaded, Outcome as Loaded}
use edgedelta_lambda_extensi.Cfg.Load.{get_config_and_validate}
use edgedelta_lambda_extensi.Extension.Types.{
  RegisterResponse, subscribe_error, register_error, config_error, client_error, LambdaError,
  registration_error, invalid_config, create_client_error, get_function_error, function_not_found,
  subscription_error, FunctionConfiguration, Replies, Action, init_error, start_worker, stop_worker,
  Ending, started, failed, panicked, Abort, refused, crash,
}

-- 100 ms, in nanoseconds.
abbrev pub kill_timeout : ℕ
kill_timeout = 100_000_000

unfoldable pub build_function_arn : RegisterResponse → Bytes → Bytes
build_function_arn r region =
    codes "arn:aws:lambda:"
    ++ (region ++ (b':' ∷ (r.account_id ++ (codes ":function:" ++ r.function_name))))

-- `strings.Join(parts, ",")`
unfoldable pub join : List Bytes → Bytes
join [] = []
join (x ∷ []) = x
join (x ∷ y ∷ rest) = x ++ b',' ∷ join (y ∷ rest)

-- What pointers point to; `none` is a nil pointer that is followed.
unfoldable pub dereferenced : List (Option Bytes) → Option (List Bytes)
dereferenced [] = some []
dereferenced (none ∷ ps) = none
dereferenced (some b ∷ ps) = elim (dereferenced ps) [ none ↦ none | some bs ↦ some (b ∷ bs) ]

-- The loop over the tags; `none` is a nil pointer that is followed.
unfoldable pub prefix_tags : Bytes → Table (Option Bytes) → Option (Table Bytes)
prefix_tags before [] = some []
prefix_tags before ((k, none) ∷ tags) = none
prefix_tags before ((k, some v) ∷ tags) = elim (prefix_tags before tags) [
  | none ↦ none
  | some m ↦ some (insert (before ++ k) v m)
]

-- What the configuration takes from the function; `none` is a nil pointer that is followed.
unfoldable pub describe : Option FunctionConfiguration → Config → Option Config
unfolding join print_int dereferenced
describe none c = some c
describe (some f) c = elim (dereferenced f.architectures) [
  | none ↦ none
  | some architectures ↦ elim f.runtime [
    | none ↦ none
    | some runtime ↦ elim f.memory_size [
      | none ↦ none
      | some size ↦ some (record c {
        host_architecture = join architectures;
        process_runtime_name = runtime;
        memory_size = print_int size;
      })
    ]
  ]
]

-- An error of a call, as the start reports it.
abbrev pub failing : {A : Type 0} → Result Bytes A → (Bytes → LambdaError) → Result Abort A
failing (ok a) report = ok a
failing (err e) report = err (refused client_error (report e))

-- The body of `if config.ForwardTags { … }`.
unfoldable pub forward : Replies → Config → Result Abort Config
unfolding describe prefix_tags
forward r c = do
  _ ← failing (r.new_client c.region) create_client_error
  found ← failing (r.get_function c.function_arn) get_function_error
  function ← or_fail found (refused client_error (function_not_found c.function_arn))
  tags ← or_fail (prefix_tags c.tag_prefix function.tags) crash
  or_fail (describe function.configuration (record c { tags = tags })) crash

-- The configuration with which `GetConfigAndValidate` returns no error.
unfoldable pub accept : Loaded → Result Abort Config
accept (loaded c []) = ok c
accept o = err (refused config_error (invalid_config o))

-- What the configuration takes from the registration.
unfoldable pub identify : RegisterResponse → Config → Config
unfolding build_function_arn
identify response c = record c {
  account_id = response.account_id;
  function_arn = build_function_arn response c.region;
}

-- `if config.ForwardTags { … }`
unfoldable pub complete : Replies → Config → Result Abort Config
unfolding forward
complete r c = if c.forward_tags then forward r c else ok c

-- From the configuration to `NewWorker`.
unfoldable pub prepare : (Bytes → Bytes) → Replies → RegisterResponse → Result Abort Config
unfolding accept complete identify
prepare env r response = do
  config ← accept (get_config_and_validate env)
  complete r (identify response config)

-- From `NewWorker` on.
unfoldable pub subscribe_worker : Replies → Bytes → Config → Ending × List Action
subscribe_worker r id c = elim (r.subscribe c.log_types c.bfg_config id) [
  | ok _ ↦ (started c id, start_worker c id ∷ [])
  | err e ↦ (
    failed,
    start_worker c id
        ∷ stop_worker kill_timeout
        ∷ init_error id subscribe_error (subscription_error e)
        ∷ [],
  )
]

unfoldable pub begin : Replies → Bytes → Result Abort Config → Ending × List Action
unfolding subscribe_worker
begin r id (ok c) = subscribe_worker r id c
begin r id (err (refused type error)) = (failed, init_error id type error ∷ [])
begin r id (err crash) = (panicked, [])

-- What follows the registration; one that failed gives no identifier.
unfoldable pub after_register :
    (Bytes → Bytes) → Replies → Result Bytes (Bytes × RegisterResponse) → Ending × List Action
unfolding begin prepare
after_register env r (err e) = (failed, init_error [] register_error (registration_error e) ∷ [])
after_register env r (ok (id, response)) = begin r id (prepare env r response)

unfoldable pub start_extension : (Bytes → Bytes) → Replies → Ending × List Action
unfolding after_register
start_extension env r = after_register env r r.register
