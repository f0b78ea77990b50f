-- ===== src/Cli/Run.antt =====
-- `run_command` of tunstrap/cli.py: the daemon, the child in its environment, and the teardown. The
-- forwarding of signals to the child is left out.
pub mod TornDown
use garuda_tunnel.Base.{
  ℕ, Bool, true, false, not, List, [], ◌∷◌, Option, none, some, Text, text, text_eq, ◌==◌,
  if◌then◌else◌, ℤ, pos, Result, ok, err, ◌>>=◌, ◌>>◌, map_err,
}
use garuda_tunnel.Base.Dict.{Dict, insert}
use garuda_tunnel.Value.{Value, Fields, get}
use garuda_tunnel.Schemas.{OutputSchema}
use garuda_tunnel.Exceptions.{ErrorClass, exit_code_for}
use garuda_tunnel.EnvRender.{render_env}
use garuda_tunnel.Session.{Disk}
use garuda_tunnel.Daemon.{spawn_daemon}
use garuda_tunnel.Cli.Options.{Options, Inputs, schema_from_flags}
use garuda_tunnel.Cli.Start.{
  Failure, from_flags, not_spawned, not_rendered, Services, error_class, Printed, nothing, payload,
  problem, is_text, find_payload, validated,
}
use garuda_tunnel.Cli.Stop.{Surroundings, Stopping, teardown_run}

-- The system that a child runs in: the variables, what `Popen` of the child answers, which is an
-- `OSError` or the return code, and the disk of the session of a
-- directory with its surroundings.
pub record System : Type 0 where
  pub environ : Dict Text Text
  pub child : List Text → Dict Text Text → Result (Unit {0}) ℤ
  pub surroundings : Surroundings
  pub disk : Text → Disk

-- The end of the process: `sys.exit`, or an exception that nobody catches.
pub data Outcome : Type 0 where
  exits : ℤ → Outcome
  crashes : Outcome

-- What a run did: what it printed on standard error, the environment that its child was started in,
-- the teardown, and its end.
pub record Ran : Type 0 where
  pub printed : Printed
  pub child_env : Option (Dict Text Text)
  pub teardown : Option Stopping
  pub outcome : Outcome

-- `{**left, **right}`
unfoldable pub merge : Dict Text Text → Dict Text Text → Dict Text Text
merge left [] = left
merge left ((name, value) ∷ right) = merge (insert name value left) right

-- A leading `--` is taken off.
unfoldable pub child_command : List Text → List Text
child_command [] = []
child_command (word ∷ words) = if word == text "--" then words else word ∷ words

unfoldable pub return_code : Result (Unit {0}) ℤ → ℤ
return_code (ok code) = code
return_code (err _) = pos 127

-- A teardown that raises replaces the exit.
unfoldable pub exit_after : Stopping → ℤ → Outcome
exit_after stopping code = if stopping.returns then exits code else crashes

unfoldable pub ended_early : Printed → Outcome → Ran
ended_early printed outcome = record {
  printed = printed;
  child_env = none;
  teardown = none;
  outcome = outcome;
}

unfoldable pub failed_with : Option ErrorClass → Failure → Ran
failed_with (some class) failure =
    ended_early (problem class failure) (exits (pos (exit_code_for class)))
failed_with none failure = ended_early nothing crashes

unfoldable pub refusal_code : Value → ℤ
refusal_code kind =
    if is_text kind (text "required_failure")
    then pos 2
    else if is_text kind (text "session_active")
    then pos 3
    else pos 4

-- The output of a success.
unfoldable pub child_output : Services → Fields → Result Failure OutputSchema
child_output s message = do found ← find_payload message; validated s found

-- The environment of the child, from a success.
unfoldable pub child_environ : Services → Dict Text Text → Fields → Result Failure (Dict Text Text)
child_environ s environ message = do
  found ← find_payload message
  out ← validated s found
  env ← map_err not_rendered (render_env s.upper_wide out)
  ok (merge environ env)

-- The session that is torn down is that of the output. The line about a child that cannot be launched
-- is left out.
unfoldable pub run_child : System → List Text → ℤ → Text → Dict Text Text → Ran
run_child y command grace_seconds session_dir env =
    let stopping = teardown_run y.surroundings grace_seconds (y.disk session_dir) in
    record {
      printed = nothing;
      child_env = some env;
      teardown = some stopping;
      outcome = exit_after stopping (return_code (y.child command env));
    }

module _ (s : Services) (i : Inputs) (y : System) where
  unfoldable pub run_message : List Text → ℤ → Fields → Ran
  run_message command grace_seconds message =
      if is_text (get (text "kind") message) (text "success")
      then elim (child_output s message) [
        | err failure ↦ ended_early nothing crashes
        | ok out ↦ elim (child_environ s y.environ message) [
          | err failure ↦ ended_early nothing crashes
          | ok env ↦ run_child y command grace_seconds out.session_dir env
        ]
      ]
      else elim (find_payload message) [
        | err failure ↦ ended_early nothing crashes
        | ok found ↦ ended_early (payload found) (exits (refusal_code (get (text "kind") message)))
      ]

  unfoldable pub run_spawn : Text → Options → Result Failure Fields
  run_spawn connection o = do
    schema ← map_err from_flags (schema_from_flags i connection o true)
    map_err not_spawned (spawn_daemon s.spawner schema)

  unfoldable pub run_checked : Text → Options → ℤ → List Text → Ran
  run_checked connection o grace_seconds [] = ended_early nothing (exits (pos 64))
  run_checked connection o grace_seconds (word ∷ words) = elim (run_spawn connection o) [
    | err failure ↦ failed_with (error_class failure) failure
    | ok message ↦ run_message (word ∷ words) grace_seconds message
  ]

  unfoldable pub run_command : Text → Options → ℤ → List Text → Ran
  run_command connection o grace_seconds command =
      run_checked connection o grace_seconds (child_command command)
