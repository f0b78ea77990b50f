-- ===== src/Cli/Start.antt =====
-- `start_command` of tunstrap/cli.py: what it prints, and its exit code. The documents are kept as
-- values: that `json.dumps` prints them is left out.
pub mod Reported
pub mod Wired
use garuda_tunnel.Base.{
  ℕ, Bool, true, false, not, ◌&&◌, ◌||◌, List, [], ◌∷◌, Option, none, some, Text, text, text_eq,
  ◌==◌, is_empty, is_some, if◌then◌else◌, Result, ok, err, ◌>>=◌, ◌>>◌, raise_if, map_err,
}
use garuda_tunnel.Str.{strip}
use garuda_tunnel.Value.{Value, str, Fields, end, field, get}
use garuda_tunnel.Schemas.{InputSchema, OutputSchema, SchemaError}
use garuda_tunnel.Exceptions.{ErrorClass, schema_validation_error, daemon_error, exit_code_for}
use garuda_tunnel.EnvRender.{EnvError, render_env, format_exports}
use garuda_tunnel.CliInput.{InputError, undecodable_key}
use garuda_tunnel.Daemon.{
  Loaded, value, bad_json, bad_utf8, SpawnError, uncaught, Spawner, spawn_daemon,
}
use garuda_tunnel.Cli.Options.{
  Options, Inputs, FlagError, bad_options, bad_input, conn_flags_present, schema_from_flags,
}

pub data UsageError : Type 0 where
  extra_arguments flags_without_connection stdin_conflict : UsageError

-- Whatever a command raises: a usage error, an error of the program, and the others, which are a
-- `ValidationError`, a `ValueError`, a `KeyError` and a `UnicodeDecodeError`.
pub data Failure : Type 0 where
  usage : UsageError → Failure
  from_flags : FlagError → Failure
  no_input : Failure
  not_json : ℕ → Failure
  contract : Value → Failure
  not_spawned : SpawnError → Failure
  output_invalid : Failure
  not_rendered : EnvError → Failure
  no_payload : Failure
  not_text : Failure

-- What the command asks others for: `json.loads` of its input, `InputSchema.model_validate` with the
-- errors that it lists, the worker, `OutputSchema.model_validate`, and `str.upper`.
pub record Services : Type 0 where
  pub loads : Text → Loaded
  pub model_validate : Value → Result Value InputSchema
  pub spawner : Spawner
  pub output_schema : Value → Option OutputSchema
  pub upper_wide : ℕ → Text

-- The class of an error that is a `TunstrapError`.
unfoldable pub error_class : Failure → Option ErrorClass
error_class (usage e) = none
error_class (from_flags (bad_options e)) = none
error_class (from_flags (bad_input (undecodable_key path))) = none
error_class (from_flags (bad_input _)) = some schema_validation_error
error_class no_input = some schema_validation_error
error_class (not_json position) = some schema_validation_error
error_class (contract errors) = some schema_validation_error
error_class (not_spawned uncaught) = none
error_class (not_spawned _) = some daemon_error
error_class output_invalid = none
error_class (not_rendered e) = none
error_class no_payload = none
error_class not_text = none

-- What is printed: a payload, the `export` lines, or the document of an error of a class. Nothing is
-- the message that click prints.
pub data Printed : Type 0 where
  nothing : Printed
  payload : Value → Printed
  exports : Text → Printed
  problem : ErrorClass → Failure → Printed

pub record Exit : Type 0 where
  pub printed : Printed
  pub code : ℕ

-- The handlers, and `_UsageExit64` around them.
unfoldable pub handled : Option ErrorClass → Failure → Exit
handled _ (usage e) = record { printed = nothing; code = 64 }
handled (some class) failure = record {
  printed = problem class failure;
  code = exit_code_for class;
}
handled none failure = record { printed = problem daemon_error failure; code = 4 }

unfoldable pub finish : Result Failure Exit → Exit
finish (ok exit) = exit
finish (err failure) = handled (error_class failure) failure

-- `message["payload"]`
unfoldable pub find_item : Text → Fields → Option Value
find_item k end = none
find_item k (field j v d) = if k == j then some v else find_item k d

unfoldable pub find_payload : Fields → Result Failure Value
find_payload message = elim (find_item (text "payload") message) [
  | none ↦ err no_payload
  | some v ↦ ok v
]

-- `kind == name`
unfoldable pub is_text : Value → Text → Bool
is_text (str s) name = s == name
is_text _ name = false

unfoldable pub code_of : Value → ℕ
code_of kind =
    if is_text kind (text "required_failure")
    then 2
    else if is_text kind (text "daemon_error")
    then 4
    else if is_text kind (text "session_active")
    then 3
    else 0

unfoldable pub validated : Services → Value → Result Failure OutputSchema
validated s v = elim (s.output_schema v) [ none ↦ err output_invalid | some out ↦ ok out ]

-- Whether the message is a success that is printed as `export` lines.
unfoldable pub print_message : Services → Bool → Fields → Result Failure Printed
print_message s true message = do
  found ← find_payload message
  out ← validated s found
  env ← map_err not_rendered (render_env s.upper_wide out)
  ok (exports (format_exports env))
print_message s false message = do found ← find_payload message; ok (payload found)

unfoldable pub report_message : Services → Bool → Fields → Result Failure Exit
report_message s env message = do
  let kind = get (text "kind") message
  printed ← print_message s (is_text kind (text "success") && env) message
  ok (record { printed = printed; code = code_of kind })

unfoldable pub load_schema : Services → Loaded → Result Failure InputSchema
load_schema s bad_utf8 = err not_text
load_schema s (bad_json position) = err (not_json position)
load_schema s (value v) = map_err contract (s.model_validate v)

unfoldable pub schema_from_stdin : Services → Text → Result Failure InputSchema
schema_from_stdin s raw = do raise_if (is_empty (strip raw)) no_input; load_schema s (s.loads raw)

-- The input is read at once, unless a password is to be read from it.
unfoldable pub schema_from_connection : Inputs → Text → Options → Bool → Result Failure InputSchema
schema_from_connection i connection o env = do
  let stdin_peek = if o.ssh_password_stdin then [] else i.stdin
  raise_if (not (is_empty (strip stdin_peek))) (usage stdin_conflict)
  map_err from_flags (schema_from_flags i connection o env)

module _ (s : Services) (i : Inputs) where
  unfoldable pub start_schema :
      Option Text → List Text → Options → Bool → Result Failure InputSchema
  start_schema connection extra o env = do
    raise_if (not (is_empty extra)) (usage extra_arguments)
    raise_if (not (is_some connection) && conn_flags_present o) (usage flags_without_connection)
    elim connection [
      | some endpoint ↦ schema_from_connection i endpoint o env
      | none ↦ schema_from_stdin s i.stdin
    ]

  unfoldable pub start_body : Option Text → List Text → Options → Bool → Result Failure Exit
  start_body connection extra o env = do
    schema ← start_schema connection extra o env
    message ← map_err not_spawned (spawn_daemon s.spawner schema)
    report_message s env message

  -- `env` is whether `--output env` is given.
  unfoldable pub start_command : Option Text → List Text → Options → Bool → Exit
  start_command connection extra o env = finish (start_body connection extra o env)
