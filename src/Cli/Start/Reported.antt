-- ===== src/Cli/Start/Reported.antt =====
-- When `start_command` of tunstrap/cli.py reports success, and what it reports of a worker.
use garuda_tunnel.Base.{
  ◌≡◌, ◌≢◌, refl, sym, ap, ◌∙◌, Bool, true, ◌&&◌, List, Option, none, some, Text, text, text_eq,
  nat_eq, contains, arith, Result, ok, err, ◌>>=◌, map_err, >>=-eq-ok, map_err-eq-ok,
}
use garuda_tunnel.Value.{str, Fields, get}
use garuda_tunnel.Schemas.{InputSchema}
use garuda_tunnel.Exceptions.{ErrorClass, exit_code_for}
use garuda_tunnel.Daemon.{message_kinds, spawn_daemon}
use garuda_tunnel.Daemon.Known.{spawn_daemon-IsMessage}
use garuda_tunnel.Cli.Options.{Options, Inputs}
use garuda_tunnel.Cli.Start.{
  Failure, usage, from_flags, no_input, not_json, contract, not_spawned, output_invalid,
  not_rendered, no_payload, not_text, Services, error_class, Printed, Exit, handled, finish,
  is_text, code_of, print_message, report_message, start_schema, start_body, start_command,
}

exit_code_for-positive : (class : ErrorClass) → exit_code_for class ≢ 0
unfolding exit_code_for
exit_code_for-positive class h = ground arith

some-positive : (class : ErrorClass) (failure : Failure) → (handled (some class) failure).code ≢ 0
unfolding handled
some-positive class (usage e) h = cc
some-positive class (from_flags e) h = exit_code_for-positive class h
some-positive class no_input h = exit_code_for-positive class h
some-positive class (not_json position) h = exit_code_for-positive class h
some-positive class (contract errors) h = exit_code_for-positive class h
some-positive class (not_spawned e) h = exit_code_for-positive class h
some-positive class output_invalid h = exit_code_for-positive class h
some-positive class (not_rendered e) h = exit_code_for-positive class h
some-positive class no_payload h = exit_code_for-positive class h
some-positive class not_text h = exit_code_for-positive class h

handled-positive :
    (class : Option ErrorClass) (failure : Failure) → (handled class failure).code ≢ 0
unfolding handled
handled-positive (some class) failure h = some-positive class failure h
handled-positive none failure h = ground arith

finish-zero :
    (done : Result Failure Exit)
    → (finish done).code ≡ 0
    → (exit : Exit) × (done ≡ ok exit) × (exit.code ≡ 0)
unfolding finish
finish-zero (ok exit) h = (exit, refl, h)
finish-zero (err failure) h = absurd (handled-positive (error_class failure) failure h)

-- Of the four kinds, only a success has the code 0.
code_of-zero :
    (kind : Text)
    → contains message_kinds kind ≡ true
    → code_of (str kind) ≡ 0
    → kind ≡ text "success"
unfolding code_of is_text message_kinds
code_of-zero kind known h = ground (arith, known, h)

report_message-code :
    (s : Services) (env : Bool) (message : Fields) (exit : Exit)
    → report_message s env message ≡ ok exit
    → exit.code ≡ code_of (get (text "kind") message)
unfolding report_message
report_message-code s env message exit h =
    let kind = get (text "kind") message in
    let next : Printed → Result Failure Exit =
      λ printed. ok (record { printed = printed; code = code_of kind }) in
    let (printed, _, same) =
      >>=-eq-ok (print_message s (is_text kind (text "success") && env) message) next h in
    ground (arith, same)

module _ (s : Services) (i : Inputs) where
  -- The exit code is 0 only if the input was accepted, and the worker that was spawned for it answered
  -- with a success.
  pub start_command-zero :
      (connection : Option Text) (extra : List Text) (o : Options) (env : Bool)
      → (start_command s i connection extra o env).code ≡ 0
      → (schema : InputSchema) × (message : Fields) × (start_schema s i connection extra o env
          ≡ ok schema)
        × (spawn_daemon s.spawner schema ≡ ok message)
        × (get (text "kind") message ≡ str (text "success"))
  unfolding start_command start_body
  start_command-zero connection extra o env h =
      let (exit, done, zero) = finish-zero _ h in
      let answer = λ (schema : InputSchema). map_err not_spawned (spawn_daemon s.spawner schema) in
      let (schema, accepted, rest) =
        >>=-eq-ok (start_schema s i connection extra o env)
          (λ schema. answer schema >>= report_message s env) done in
      let (message, answered, reported) = >>=-eq-ok (answer schema) (report_message s env) rest in
      let spawned = map_err-eq-ok not_spawned (spawn_daemon s.spawner schema) answered in
      let m = spawn_daemon-IsMessage s.spawner schema message spawned in
      let code : code_of (str m.kind) ≡ 0 =
        ap code_of (sym m.holds) ∙ sym (report_message-code s env message exit reported) ∙ zero in
      (schema, message, accepted, spawned, m.holds ∙ ap str (code_of-zero m.kind m.known code))
