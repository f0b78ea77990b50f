-- ===== src/Tests/Workers.antt =====
-- A worker that reports a success, into a pipe that takes a byte at a time, and its command.
use garuda_tunnel.Base.{
  ℕ, ◌≡◌, ◌≢◌, ◌⊎◌, refl, true, false, [], ◌++◌, none, some, Text, text, text_eq, nat_eq,
  ℕ_discrete, arith, ltb, length, if◌then◌else◌, Result, ok, err, pos,
}
use garuda_tunnel.Str.{strip}
use garuda_tunnel.Value.{Value, str, dict, Fields, end, get}
use garuda_tunnel.Schemas.{InputSchema, OutputSchema}
use garuda_tunnel.Manager.Output.{output}
use garuda_tunnel.Daemon.{Loaded, value, Spawner, spawn_daemon, open_log_target}
use garuda_tunnel.Worker.Ipc.{WriteError, stuck, OsWrite, write_message, line, frame}
use garuda_tunnel.Worker.Ipc.Whole.{write_message-taken, IsOpen}
use garuda_tunnel.Worker.Life.{World, main}
use garuda_tunnel.Worker.Verdict.{verdict}
use garuda_tunnel.Worker.Refinement.{Meets, main-verdict}
use garuda_tunnel.Cli.Options.{Options, Inputs}
use garuda_tunnel.Cli.Start.{Services, payload, Exit, start_schema, start_command}
use garuda_tunnel.Cli.Start.Wired.{start_command-verdict}
use garuda_tunnel.Cli.Start.Reported.{start_command-zero}
use garuda_tunnel.CliInput.{KeyFile, content}

abbrev pub schema : InputSchema
schema = record {
  nodes = [];
  daemon = record {
    log_file = none;
    shutdown_grace_seconds = pos 10;
    auto_stop_idle_seconds = none;
    materialize = false;
  };
}

abbrev dumps : Value → Text
dumps v = text "{m}"

abbrev byte_write : OsWrite
byte_write bytes = ok 1

byte_write-IsOpen : IsOpen byte_write
byte_write-IsOpen bytes more = (1, λ e. ground arith, refl)

abbrev world : World
world = record {
  create_session = ok tt;
  write_identity = ok tt;
  stdin = text "{}";
  validate = λ raw. ok schema;
  start_all = λ schema. ok (output [] []);
  model_dump = λ report. dict end;
  dumps = dumps;
  os_write = byte_write;
  closes = true;
}

main-verdict_example : Meets world (verdict world) (main world)
main-verdict_example = main-verdict world (byte_write-IsOpen, refl)

-- A pipe whose reader goes away.
abbrev failing_write : OsWrite
failing_write bytes = if ltb 2 (length bytes) then ok 2 else err tt

write_message-taken_example :
    (let w = write_message dumps failing_write (dict end) in
      ((w.outcome ≡ ok tt) × (w.taken ≡ line dumps (dict end)))
      ⊎ ((rest : Text) × (e : WriteError) × (rest ≢ [])
          × (line dumps (dict end) ≡ w.taken ++ rest)
          × (w.outcome ≡ err e)
          × (e ≢ stuck)))
write_message-taken_example = write_message-taken dumps failing_write (dict end)

abbrev loads : Text → Loaded
loads raw = value (frame (text "success") (dict end))

abbrev worker : Text → Result ℕ Text
worker input = ok (main world).piped

abbrev pub no_key : Text → KeyFile
no_key path = content []

abbrev pub inputs : Text → Inputs
inputs stdin = record {
  stdin = stdin;
  read_text = no_key;
  coerce = λ d. none;
  agent = some (text "/a");
}

abbrev services : Services
services = record {
  loads = λ raw. value (dict end);
  model_validate = λ v. ok schema;
  spawner = record {
    opens_log = λ path. true;
    popen = ok worker;
    model_dump_json = λ schema. text "{}";
    loads = loads;
  };
  output_schema = λ v. none;
  upper_wide = λ c. [];
}

abbrev pub no_options : Options
no_options = record {
  ssh_key = none;
  ssh_key_passphrase = none;
  ssh_password_stdin = false;
  targets = [];
  kube = [];
  fetch = [];
  auto_stop_idle_seconds = none;
  materialize = false;
  log_file = none;
}

accepts : start_schema services (inputs (text "{}")) none [] no_options false ≡ ok schema
unfolding start_schema garuda_tunnel.Cli.Options.conn_flags_present garuda_tunnel.Schemas.unset
    garuda_tunnel.Cli.Start.schema_from_stdin strip text nat_eq ℕ_discrete
    garuda_tunnel.Cli.Start.load_schema
accepts = refl

start_command-verdict_example :
    (let v = verdict world in
      start_command services (inputs (text "{}")) none [] no_options false
      ≡ record { printed = payload v.payload; code = v.code })
unfolding open_log_target verdict text garuda_tunnel.Worker.Verdict.verdict_created
    garuda_tunnel.Worker.Verdict.verdict_identified garuda_tunnel.Worker.Verdict.verdict_read
    garuda_tunnel.Worker.Life.read_schema garuda_tunnel.Worker.Life.schema_max_bytes
    garuda_tunnel.Worker.Verdict.verdict_of
start_command-verdict_example =
    start_command-verdict services (inputs (text "{}")) world (byte_write-IsOpen, refl) none []
      no_options schema worker accepts refl refl refl refl

exits_with_zero : (start_command services (inputs (text "{}")) none [] no_options false).code ≡ 0
unfolding start_command garuda_tunnel.Cli.Start.finish garuda_tunnel.Cli.Start.start_body
    start_schema garuda_tunnel.Cli.Options.conn_flags_present garuda_tunnel.Schemas.unset
    garuda_tunnel.Cli.Start.schema_from_stdin strip text nat_eq ℕ_discrete
    garuda_tunnel.Cli.Start.load_schema spawn_daemon open_log_target
    garuda_tunnel.Daemon.read_ipc_response garuda_tunnel.Daemon.parse_response main
    garuda_tunnel.Worker.Life.main_created garuda_tunnel.Worker.Life.run_identified
    garuda_tunnel.Worker.Life.run garuda_tunnel.Worker.Life.run_read
    garuda_tunnel.Worker.Life.read_schema garuda_tunnel.Worker.Life.schema_max_bytes
    garuda_tunnel.Worker.Life.serve garuda_tunnel.Worker.Life.ended write_message
    garuda_tunnel.Worker.Ipc.write_all line garuda_tunnel.Worker.Ipc.drop
    garuda_tunnel.Worker.Ipc.take garuda_tunnel.Daemon.check_message frame
    garuda_tunnel.Daemon.check_kind garuda_tunnel.Daemon.is_kind get text_eq
    garuda_tunnel.Daemon.message_kinds garuda_tunnel.Cli.Start.report_message
    garuda_tunnel.Cli.Start.print_message garuda_tunnel.Cli.Start.is_text
    garuda_tunnel.Cli.Start.find_payload garuda_tunnel.Cli.Start.find_item
    garuda_tunnel.Cli.Start.code_of garuda_tunnel.Worker.Ipc.closing
exits_with_zero = refl

start_command-zero_example :
    (accepted : InputSchema) × (message : Fields) × (start_schema services
        (inputs (text "{}"))
        none
        []
        no_options
        false
      ≡ ok accepted)
    × (spawn_daemon services.spawner accepted ≡ ok message)
    × (get (text "kind") message ≡ str (text "success"))
start_command-zero_example =
    start_command-zero services (inputs (text "{}")) none [] no_options false exits_with_zero

-- `--auto-stop-idle-seconds 0` is reported as an unexpected failure.
is_unexpected :
    (start_command services
      (inputs [])
      (some (text "u@h"))
      []
      (record no_options { auto_stop_idle_seconds = some (pos 0) })
      false).code
    ≡ 4
unfolding start_command garuda_tunnel.Cli.Start.finish garuda_tunnel.Cli.Start.start_body
    start_schema garuda_tunnel.Cli.Start.schema_from_connection strip
    garuda_tunnel.Cli.Options.schema_from_flags garuda_tunnel.Schemas.daemon_options
    garuda_tunnel.Schemas.idle_in_range garuda_tunnel.Cli.Start.handled
    garuda_tunnel.Cli.Start.error_class
is_unexpected = refl

-- A worker whose parent has gone leaves its session behind.
is_left_behind : (main (record world { os_write = λ bytes. err tt })).cleaned ≡ false
unfolding main garuda_tunnel.Worker.Life.main_created garuda_tunnel.Worker.Life.run_identified
    garuda_tunnel.Worker.Life.run garuda_tunnel.Worker.Life.run_read
    garuda_tunnel.Worker.Life.read_schema garuda_tunnel.Worker.Life.schema_max_bytes text
    garuda_tunnel.Worker.Life.serve garuda_tunnel.Worker.Life.ended write_message
    garuda_tunnel.Worker.Ipc.write_all line garuda_tunnel.Worker.Ipc.closing
is_left_behind = refl
