-- ===== src/Cli/Start/Wired.antt =====
-- `start_command` of tunstrap/cli.py and the worker of tunstrap/_worker.py, end to end.
use garuda_tunnel.Base.{
  ℕ, ◌≡◌, refl, Bool, true, false, ◌&&◌, List, Option, Text, text, text_eq, nat_eq, ℕ_discrete,
  ◌==◌, arith, Result, ok, err,
}
use garuda_tunnel.Value.{Value, str, Fields, get}
use garuda_tunnel.Schemas.{InputSchema}
use garuda_tunnel.Daemon.{value, Spawner, open_log_target, spawn_daemon, read_ipc_response}
use garuda_tunnel.Daemon.Handshake.{message_fields, read_ipc_response-main}
use garuda_tunnel.Manager.Output.{Report, error_output, output}
use garuda_tunnel.Worker.Ipc.{Failure, line, frame}
use garuda_tunnel.Worker.Life.{Refusal, active, refused, World, read_schema, main}
use garuda_tunnel.Worker.Verdict.{
  Verdict, verdict_of, verdict_read, verdict_identified, verdict_created, verdict,
}
use garuda_tunnel.Worker.Refinement.{HasReader}
use garuda_tunnel.Cli.Options.{Options, Inputs}
use garuda_tunnel.Cli.Start.{
  Services, payload, finish, find_item, find_payload, is_text, code_of, print_message,
  report_message, start_schema, start_body, start_command,
}

abbrev IsPaired : Verdict → Type 0
IsPaired v = code_of (str v.kind) ≡ v.code

verdict_of-IsPaired : (w : World) (report : Result Text Report) → IsPaired (verdict_of w report)
unfolding verdict_of code_of is_text text_eq text ℕ_discrete
verdict_of-IsPaired w (err name) = refl
verdict_of-IsPaired w (ok (error_output nodes)) = refl
verdict_of-IsPaired w (ok (output connections warnings)) = refl

verdict_read-IsPaired :
    (w : World) (read : Result Failure InputSchema) → IsPaired (verdict_read w read)
unfolding verdict_read code_of is_text text_eq text ℕ_discrete
verdict_read-IsPaired w (err failure) = refl
verdict_read-IsPaired w (ok schema) = verdict_of-IsPaired w (w.start_all schema)

verdict_identified-IsPaired :
    (w : World) (identity : Result Text (Unit {0})) → IsPaired (verdict_identified w identity)
unfolding verdict_identified code_of is_text text_eq text ℕ_discrete
verdict_identified-IsPaired w (err name) = refl
verdict_identified-IsPaired w (ok _) = verdict_read-IsPaired w (read_schema w)

verdict_created-IsPaired :
    (w : World) (session : Result Refusal (Unit {0})) → IsPaired (verdict_created w session)
unfolding verdict_created code_of is_text text_eq text ℕ_discrete
verdict_created-IsPaired w (err (active dir)) = refl
verdict_created-IsPaired w (err (refused name)) = refl
verdict_created-IsPaired w (ok _) = verdict_identified-IsPaired w w.write_identity

verdict-IsPaired : (w : World) → IsPaired (verdict w)
unfolding verdict
verdict-IsPaired w = verdict_created-IsPaired w w.create_session

&&-false : (b : Bool) → (b && false) ≡ false
&&-false true = refl
&&-false false = refl

-- A message of two entries is printed as its payload.
report_message-fields :
    (s : Services) (kind : Text) (v : Value)
    → report_message s false (message_fields kind v)
      ≡ ok (record { printed = payload v; code = code_of (str kind) })
unfolding report_message print_message find_payload find_item get text_eq text ℕ_discrete is_text
report_message-fields s kind v = rw (&&-false (kind == text "success")) refl

spawn_daemon-answered :
    (s : Spawner) (schema : InputSchema) (worker : Text → Result ℕ Text) (raw : Text)
    (message : Fields)
    → open_log_target s schema.daemon.log_file ≡ true
    → s.popen ≡ ok worker
    → worker (s.model_dump_json schema) ≡ ok raw
    → read_ipc_response s.loads (ok raw) ≡ ok message
    → spawn_daemon s schema ≡ ok message
unfolding spawn_daemon
spawn_daemon-answered s schema worker raw message opens made wired answered =
    ground (arith, opens, made, wired, answered)

module _ (s : Services) (i : Inputs) (w : World) (pipe : HasReader w) where
  -- A start with JSON output whose worker process is `w`: it prints the payload of the worker's
  -- verdict and exits with its code, if the input is accepted, the log opens, the process can be
  -- made, its pipe is read to its end and can be closed, and `json.loads` reads back what
  -- `json.dumps` printed of the message.
  pub start_command-verdict :
      (connection : Option Text) (extra : List Text) (o : Options) (schema : InputSchema)
      (worker : Text → Result ℕ Text)
      → start_schema s i connection extra o false ≡ ok schema
      → open_log_target s.spawner schema.daemon.log_file ≡ true
      → s.spawner.popen ≡ ok worker
      → worker (s.spawner.model_dump_json schema) ≡ ok (main w).piped
      → (let v = verdict w in
          let message = frame v.kind v.payload in
          s.spawner.loads (line w.dumps message) ≡ value message)
      → (let v = verdict w in
          start_command s i connection extra o false
          ≡ record { printed = payload v.payload; code = v.code })
  unfolding start_command start_body finish
  start_command-verdict connection extra o schema worker accepted opens made wired read =
      let v = verdict w in
      let (answered, _) = read_ipc_response-main w pipe s.spawner.loads read in
      let reported = report_message-fields s v.kind v.payload in
      let paired = verdict-IsPaired w in
      let spawned = spawn_daemon-answered s.spawner schema worker _ _ opens made wired answered in
      rw (accepted, spawned, reported, paired) refl
