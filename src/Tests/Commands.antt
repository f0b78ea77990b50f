-- ===== src/Tests/Commands.antt =====
-- The command `run`, and a connection.
use garuda_tunnel.Tests.Kills.{disk, surroundings}
use garuda_tunnel.Base.{
  ℕ, zero, suc, ◌+◌, ◌*◌, ◌≡◌, ◌≢◌, ◌↔◌, ◌⊎◌, refl, inl, inr, ◌≤◌, Bool, true, false, List, [], ◌∷◌,
  Option, none, some, Text, text, text_eq, nat_eq, ℕ_discrete, arith, Result, ok, err, ◌>>=◌, ℤ,
  pos, max_zero,
}
use garuda_tunnel.Base.Dict.{Dict, lookup, insert}
use garuda_tunnel.Value.{dict, Fields, end, get}
use garuda_tunnel.Schemas.{OutputSchema, NodeInput, default_ssh_options}
use garuda_tunnel.EnvRender.{render_env}
use garuda_tunnel.Daemon.{Loaded, value}
use garuda_tunnel.Daemon.Handshake.{message_fields}
use garuda_tunnel.Cli.Options.{Options, Inputs}
use garuda_tunnel.Cli.Start.{Services, validated, find_payload}
use garuda_tunnel.Cli.Run.{System, Ran, crashes, child_environ, run_message, run_command}
use garuda_tunnel.Cli.Run.TornDown.{or_else, child_environ-lookup, ChildRun, run_command-child}
use garuda_tunnel.Ssh.{Asyncssh}
use garuda_tunnel.Ssh.Credentials.{Tried, open_connection-credentials}
use garuda_tunnel.Tests.Workers.{inputs, no_options}

abbrev out : Dict Text ℕ → OutputSchema
out ports = record {
  connections = (text "node", record { ports = ports; fetch_files = []; kube_targets = [] }) ∷ [];
  pid = 5;
  session_dir = text "/s";
  started_at = text "now";
  warnings = [];
}

abbrev success : Fields
success = message_fields (text "success") (dict end)

abbrev services : Dict Text ℕ → Services
services ports = record {
  loads = λ raw. value (dict end);
  model_validate = λ v. err v;
  spawner = record {
    opens_log = λ path. true;
    popen = ok (λ input. ok (text "{m}"));
    model_dump_json = λ schema. text "{}";
    loads = λ raw. value (dict success);
  };
  output_schema = λ v. some (out ports);
  upper_wide = λ c. [];
}

abbrev environ : Dict Text Text
environ = (text "TUNSTRAP_PID", text "1") ∷ (text "A", text "a") ∷ []

abbrev env : Dict Text Text
env =
    (text "TUNSTRAP_PID", text "5")
    ∷ (text "A", text "a")
    ∷ (text "TUNSTRAP_SESSION_DIR", text "/s")
    ∷ []

renders : child_environ (services []) environ success ≡ ok env
unfolding child_environ find_payload garuda_tunnel.Cli.Start.find_item text_eq text ℕ_discrete
    validated render_env garuda_tunnel.EnvRender.render_connections
    garuda_tunnel.EnvRender.render_node garuda_tunnel.EnvRender.render_ports
    garuda_tunnel.EnvRender.render_kube garuda_tunnel.EnvRender.put_kubeconfig
    garuda_tunnel.Cli.Run.merge garuda_tunnel.EnvRender.session_entries insert
    garuda_tunnel.Str.Number.show_nat garuda_tunnel.Base.Dict.has_key
    garuda_tunnel.EnvRender.ascii_upper garuda_tunnel.EnvRender.is_upper_alnum
    garuda_tunnel.EnvRender.key garuda_tunnel.EnvRender.kube_entries
    garuda_tunnel.EnvRender.port_entries garuda_tunnel.EnvRender.put garuda_tunnel.EnvRender.put_all
    garuda_tunnel.EnvRender.sanitised garuda_tunnel.EnvRender.upper
    garuda_tunnel.Str.Number.show_fuel garuda_tunnel.Str.join
renders = refl

child_environ-lookup_example :
    (output : OutputSchema) × (rendered : Dict Text Text) × ((find_payload success
        >>= validated (services []))
      ≡ ok output)
    × (render_env (services []).upper_wide output ≡ ok rendered)
    × ((name : Text) → lookup name env ≡ or_else (lookup name rendered) (lookup name environ))
child_environ-lookup_example = child_environ-lookup (services []) environ success env renders

-- A child that cannot be launched.
abbrev system : System
system = record {
  environ = environ;
  child = λ command env. err tt;
  surroundings = surroundings;
  disk = λ dir. disk;
}

abbrev one_target : Options
one_target = record no_options { targets = text "t=i:80" ∷ [] }

abbrev ran : Ran
ran =
    run_command (services []) (inputs []) system (text "u@h") one_target (pos 1)
      (text "--" ∷ text "ls" ∷ [])

starts_child : ran.child_env ≡ some env
unfolding run_command garuda_tunnel.Cli.Run.run_checked garuda_tunnel.Cli.Run.child_command text_eq
    text ℕ_discrete garuda_tunnel.Cli.Run.run_spawn garuda_tunnel.Cli.Options.schema_from_flags
    garuda_tunnel.Schemas.daemon_options garuda_tunnel.Schemas.idle_in_range
    garuda_tunnel.CliInput.build_single_node_schema garuda_tunnel.CliInput.parse_endpoint
    garuda_tunnel.Str.cut_first garuda_tunnel.Cli.Options.flags_of nat_eq
    garuda_tunnel.CliInput.split_host_port garuda_tunnel.Str.starts_with
    garuda_tunnel.CliInput.split_plain garuda_tunnel.Str.cut_last
    garuda_tunnel.CliInput.with_default_port garuda_tunnel.CliInput.read_key
    garuda_tunnel.CliInput.parse_named garuda_tunnel.CliInput.parse_named_from
    garuda_tunnel.CliInput.parse_item garuda_tunnel.Base.Dict.has_key
    garuda_tunnel.Schemas.input_schema garuda_tunnel.Schemas.validate_nodes
    garuda_tunnel.Schemas.validate_node garuda_tunnel.Schemas.validate_remote_targets
    garuda_tunnel.CliInput.flags_node garuda_tunnel.CliInput.raw_targets insert
    garuda_tunnel.Schemas.parse_targets garuda_tunnel.Schemas.check_handle
    garuda_tunnel.Schemas.matches_key garuda_tunnel.Schemas.parse_target
    garuda_tunnel.Schemas.parse_host_port garuda_tunnel.Schemas.split_plain
    garuda_tunnel.Str.cut_pair garuda_tunnel.Schemas.check_parts
    garuda_tunnel.Schemas.parse_port_str garuda_tunnel.Str.Number.int_of
    garuda_tunnel.Str.Number.signed garuda_tunnel.Str.strip_by garuda_tunnel.Str.Number.is_int_space
    garuda_tunnel.Str.Number.unsigned garuda_tunnel.Str.Number.digits_value
    garuda_tunnel.Str.Number.digit_value garuda_tunnel.Str.Number.max_int_digits
    garuda_tunnel.Base.in_range garuda_tunnel.Schemas.remote_target
    garuda_tunnel.Schemas.build_optional garuda_tunnel.Schemas.validate_named
    garuda_tunnel.Schemas.validate_node_does_something garuda_tunnel.Schemas.validate_auth
    garuda_tunnel.Schemas.validate_identifier_key garuda_tunnel.Schemas.unset
    garuda_tunnel.Daemon.spawn_daemon garuda_tunnel.Daemon.open_log_target
    garuda_tunnel.Daemon.read_ipc_response garuda_tunnel.Daemon.parse_response
    garuda_tunnel.Daemon.check_message garuda_tunnel.Daemon.check_kind garuda_tunnel.Daemon.is_kind
    get garuda_tunnel.Daemon.message_kinds run_message garuda_tunnel.Cli.Start.is_text child_environ
    find_payload garuda_tunnel.Cli.Start.find_item validated render_env
    garuda_tunnel.EnvRender.render_connections garuda_tunnel.EnvRender.render_node
    garuda_tunnel.EnvRender.render_ports garuda_tunnel.EnvRender.render_kube
    garuda_tunnel.EnvRender.put_kubeconfig garuda_tunnel.Cli.Run.run_child
    garuda_tunnel.Cli.Run.merge garuda_tunnel.EnvRender.session_entries
    garuda_tunnel.Str.Number.show_nat garuda_tunnel.CliInput.with_port
    garuda_tunnel.CliInput.parse_port garuda_tunnel.CliInput.after_bracket
    garuda_tunnel.CliInput.raw_fetch garuda_tunnel.CliInput.raw_kube
    garuda_tunnel.CliInput.split_bracketed garuda_tunnel.Schemas.split_bracketed
    garuda_tunnel.Schemas.is_key_char garuda_tunnel.Schemas.is_key_start
    garuda_tunnel.Schemas.matches_rest garuda_tunnel.Schemas.build_values
    garuda_tunnel.Schemas.check_names garuda_tunnel.Schemas.no_entries
    garuda_tunnel.Schemas.file_spec garuda_tunnel.Schemas.kube_target
    garuda_tunnel.Schemas.validate_absolute garuda_tunnel.Str.Number.digit_from
    garuda_tunnel.Str.count_char garuda_tunnel.Str.drop_blank garuda_tunnel.Str.drop_blank_end
    garuda_tunnel.Str.is_space garuda_tunnel.Cli.Run.child_output
starts_child = refl

run_command-child_example :
    ChildRun
      (services [])
      (inputs [])
      system
      (text "u@h")
      one_target
      (pos 1)
      (text "ls" ∷ [])
      env
      ran
unfolding garuda_tunnel.Cli.Run.child_command text_eq text ℕ_discrete
run_command-child_example =
    run_command-child (services []) (inputs []) system (text "u@h") one_target (pos 1)
      (text "--" ∷ text "ls" ∷ []) env starts_child

-- Two targets whose names become one variable: the daemon runs, and is not torn down.
abbrev clash : Dict Text ℕ
clash = (text "a", 1) ∷ (text "A", 2) ∷ []

is_left_running :
    (let left = run_message (services clash) (inputs []) system (text "ls" ∷ []) (pos 1) success in
      (left.teardown ≡ none) × (left.outcome ≡ crashes))
unfolding run_message garuda_tunnel.Cli.Start.is_text get text_eq text ℕ_discrete child_environ
    find_payload garuda_tunnel.Cli.Start.find_item validated render_env
    garuda_tunnel.EnvRender.render_connections garuda_tunnel.EnvRender.render_node
    garuda_tunnel.EnvRender.render_ports garuda_tunnel.EnvRender.put_all
    garuda_tunnel.EnvRender.port_entries garuda_tunnel.EnvRender.put garuda_tunnel.Base.Dict.has_key
    garuda_tunnel.EnvRender.session_entries garuda_tunnel.EnvRender.key
    garuda_tunnel.EnvRender.upper garuda_tunnel.EnvRender.sanitised
    garuda_tunnel.EnvRender.is_upper_alnum garuda_tunnel.EnvRender.ascii_upper insert
    garuda_tunnel.Cli.Run.ended_early garuda_tunnel.Cli.Run.child_output
is_left_running = (refl, refl)

abbrev node : NodeInput
node = record {
  host = text "h";
  port = pos 22;
  user = text "u";
  ssh_pkey = none;
  ssh_password = some (text "p");
  ssh_pkey_passphrase = none;
  remote_targets = [];
  ssh_options = default_ssh_options;
  required = true;
  fetch_files = none;
  kube_targets = none;
}

abbrev asyncssh : Asyncssh ℕ
asyncssh = record { import_private_key = λ pem passphrase. ok 1; connect = λ kwargs. ok 7 }

open_connection-credentials_example : Tried asyncssh none node
unfolding garuda_tunnel.Schemas.unset text
open_connection-credentials_example =
    open_connection-credentials asyncssh none node (inr (inl refl))

-- `--auto-stop-idle-seconds 0` ends a run without a report.
is_uncaught :
    (run_command
      (services [])
      (inputs [])
      system
      (text "u@h")
      (record no_options { auto_stop_idle_seconds = some (pos 0) })
      (pos 1)
      (text "ls" ∷ [])).outcome
    ≡ crashes
unfolding run_command garuda_tunnel.Cli.Run.run_checked garuda_tunnel.Cli.Run.child_command text_eq
    text ℕ_discrete garuda_tunnel.Cli.Run.run_spawn garuda_tunnel.Cli.Options.schema_from_flags
    garuda_tunnel.Schemas.daemon_options garuda_tunnel.Schemas.idle_in_range
    garuda_tunnel.Cli.Run.failed_with garuda_tunnel.Cli.Start.error_class
    garuda_tunnel.Cli.Run.ended_early garuda_tunnel.Cli.Run.child_output
    garuda_tunnel.Cli.Run.child_environ garuda_tunnel.Cli.Start.find_payload
is_uncaught = refl
