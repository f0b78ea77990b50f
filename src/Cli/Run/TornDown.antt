-- ===== src/Cli/Run/TornDown.antt =====
-- The environment of a child of `run_command` in tunstrap/cli.py, and what is left after the run.
use garuda_tunnel.Base.{
  ℕ, ◌≡◌, ◌≢◌, refl, ap, subst, ◌∙◌, ◌⊎◌, inl, inr, Bool, true, false, List, [], ◌∷◌, Option, none,
  some, Text, text, text_eq, ◌==◌, ==→eq, arith, ℤ, pos, Result, ok, err, ◌>>=◌, map_err,
  Result-cases, Bool-cases, Option-cases, >>=-eq-ok, map_err-eq-ok,
}
use garuda_tunnel.Base.Dict.{Dict, lookup, insert, lookup-insert, NodupKeys}
use garuda_tunnel.Value.{Value, null, int, str, scalar, dict, Fields, get}
use garuda_tunnel.Schemas.{InputSchema, OutputSchema, NodeOutput}
use garuda_tunnel.EnvRender.{render_env, render_connections}
use garuda_tunnel.EnvRender.Entries.{render_env-node_entries}
use garuda_tunnel.Session.{
  SessionFailure, Slot, vacant, other_file, directory, foreign_directory, symlink, Disk,
  read_identity, remove_slot, cleanup_path,
}
use garuda_tunnel.Daemon.{spawn_daemon}
use garuda_tunnel.Cli.Kill.{
  Ending, returned, not_allowed, out_of_rounds, Killed, kill_with_identity,
}
use garuda_tunnel.Cli.Options.{Options, Inputs, schema_from_flags}
use garuda_tunnel.Cli.Start.{
  Failure, from_flags, not_spawned, not_rendered, Services, error_class, is_text, find_item,
  find_payload, validated,
}
use garuda_tunnel.Cli.Stop.{Surroundings, Stopping, clean_after, kill_and_clean, teardown_run}
use garuda_tunnel.Cli.Run.{
  System, Outcome, exits, crashes, Ran, merge, child_command, return_code, exit_after, ended_early,
  failed_with, child_output, child_environ, run_child, run_message, run_spawn, run_checked,
  run_command,
}

-- The value in the second dict, or else in the first.
unfoldable pub or_else : Option Text → Option Text → Option Text
or_else (some value) before = some value
or_else none before = before

merge-lookup :
    (left right : Dict Text Text) (name : Text)
    → NodupKeys right
    → lookup name (merge left right) ≡ or_else (lookup name right) (lookup name left)
unfolding merge lookup or_else
merge-lookup left [] name h = refl
merge-lookup left ((k, v) ∷ right) name h =
    let rest = merge-lookup (insert k v left) right name h.1 in
    let found = lookup-insert name k v left in
    elim (Bool-cases (name == k)) [
      | inl same ↦
          let absent : lookup name right ≡ none = rw (==→eq name k same) (h.0) in
          ground (arith, rest, found, same, absent)
      | inr other ↦ ground (arith, rest, found, other)
    ]

-- What is rendered has no name twice.
render_env-NodupKeys :
    (upper_wide : ℕ → Text) (output : OutputSchema) (connections : Dict Text NodeOutput)
    (env : Dict Text Text)
    → output.connections ≡ connections
    → render_env upper_wide output ≡ ok env
    → NodupKeys env
unfolding render_env render_connections
render_env-NodupKeys upper_wide output [] env one h = absurd (ground (arith, one, h))
render_env-NodupKeys upper_wide output ((name, node) ∷ []) env one h =
    let (paths, _, _, distinct) =
      (render_env-node_entries upper_wide output name node env one).0 h in
    distinct
render_env-NodupKeys upper_wide output (first ∷ second ∷ rest) env one h =
    absurd (ground (arith, one, h))

-- A child's environment is the rendering of the output over the variables of the command: a rendered
-- name has its rendered value, and every other name the value that it had.
pub child_environ-lookup :
    (s : Services) (environ : Dict Text Text) (message : Fields) (env : Dict Text Text)
    → child_environ s environ message ≡ ok env
    → (out : OutputSchema) × (rendered : Dict Text Text) × ((find_payload message >>= validated s)
        ≡ ok out)
      × (render_env s.upper_wide out ≡ ok rendered)
      × ((name : Text) → lookup name env ≡ or_else (lookup name rendered) (lookup name environ))
unfolding child_environ
child_environ-lookup s environ message env h =
    let render = λ (out : OutputSchema). map_err not_rendered (render_env s.upper_wide out) in
    let join : Dict Text Text → Result Failure (Dict Text Text) = λ env. ok (merge environ env) in
    let (found, has, checked) =
      >>=-eq-ok (find_payload message) (λ found. validated s found >>= λ out. render out >>= join)
        h in
    let (out, valid, rest) = >>=-eq-ok (validated s found) (λ out. render out >>= join) checked in
    let (rendered, done, same) = >>=-eq-ok (render out) join rest in
    let plain = map_err-eq-ok not_rendered (render_env s.upper_wide out) done in
    let distinct = render_env-NodupKeys s.upper_wide out out.connections rendered refl plain in
    (
      out,
      rendered,
      ap (λ r. r >>= validated s) has ∙ valid,
      plain,
      λ name.
          subst (λ e. lookup name e ≡ or_else (lookup name rendered) (lookup name environ))
            (ground (arith, same)) (merge-lookup environ rendered name distinct),
    )

failed_with-none : (class : _) (failure : Failure) → ((failed_with class failure).child_env ≡ none)
unfolding failed_with ended_early
failed_with-none (some class) failure = refl
failed_with-none none failure = refl

-- What is left of a session once its slot is cleaned up: no directory of this user.
pub record IsCleared (before after : Disk) : Type 0 where
  pub no_directory : (files : Dict Text Text) → after.slot ≢ directory files
  pub kept : (after.slot ≡ vacant) ⊎ (after.slot ≡ before.slot)

-- A session is torn down: without a recorded process id it is only cleaned up; otherwise the kill by
-- force is run on that id, and the session is cleaned up behind it, unless the kill raises.
pub data IsTornDown (y : Surroundings) (grace_seconds : ℤ) (before : Disk) (t : Stopping)
    : Type 0 where
  unrecorded :
      (e : SessionFailure)
      → read_identity before ≡ err e
      → t.events ≡ []
      → t.returns ≡ true
      → IsCleared before t.disk
      → IsTornDown y grace_seconds before t
  killed :
      (pid : ℤ) (value : Bool)
      → read_identity before ≡ ok pid
      → (kill_with_identity y.daemon pid grace_seconds true).ending ≡ returned value
      → t.events ≡ (kill_with_identity y.daemon pid grace_seconds true).events
      → t.returns ≡ true
      → IsCleared (y.meanwhile before) t.disk
      → IsTornDown y grace_seconds before t
  unfinished :
      (pid : ℤ)
      → read_identity before ≡ ok pid
      → ((value : Bool)
          → (kill_with_identity y.daemon pid grace_seconds true).ending ≢ returned value)
      → t.events ≡ (kill_with_identity y.daemon pid grace_seconds true).events
      → t.returns ≡ false
      → IsTornDown y grace_seconds before t

-- The end of a run, by what the child did and whether the teardown returned.
pub data IsEnded (child : Result (Unit {0}) ℤ) (returns : Bool) (outcome : Outcome) : Type 0 where
  finished :
      (code : ℤ)
      → child ≡ ok code
      → returns ≡ true
      → outcome ≡ exits code
      → IsEnded child returns outcome
  unlaunched :
      child ≡ err tt → returns ≡ true → outcome ≡ exits (pos 127) → IsEnded child returns outcome
  raised : returns ≡ false → outcome ≡ crashes → IsEnded child returns outcome

remove_slot-directory : (slot : Slot) (files : Dict Text Text) → remove_slot slot ≢ directory files
unfolding remove_slot
remove_slot-directory vacant files h = absurd (ground (arith, h))
remove_slot-directory other_file files h = absurd (ground (arith, h))
remove_slot-directory (directory held) files h = absurd (ground (arith, h))
remove_slot-directory (foreign_directory held) files h = absurd (ground (arith, h))
remove_slot-directory (symlink held) files h = absurd (ground (arith, h))

remove_slot-cases : (slot : Slot) → (remove_slot slot ≡ vacant) ⊎ (remove_slot slot ≡ slot)
unfolding remove_slot
remove_slot-cases vacant = inl refl
remove_slot-cases other_file = inr refl
remove_slot-cases (directory files) = inl refl
remove_slot-cases (foreign_directory files) = inr refl
remove_slot-cases (symlink files) = inr refl

cleanup_path-IsCleared : (d : Disk) → IsCleared d (cleanup_path d)
unfolding cleanup_path
cleanup_path-IsCleared d = record {
  no_directory = remove_slot-directory d.slot;
  kept = remove_slot-cases d.slot;
}

-- A kill, with what is done behind it.
clean_after-IsTornDown :
    (y : Surroundings) (grace_seconds : ℤ) (before : Disk) (pid : ℤ) (k : Killed)
    → read_identity before ≡ ok pid
    → kill_with_identity y.daemon pid grace_seconds true ≡ k
    → IsTornDown y grace_seconds before (clean_after k (y.meanwhile before))
unfolding clean_after
clean_after-IsTornDown y grace_seconds before pid k recorded same = cases k.ending refl
  where
    cases :
        (ending : Ending)
        → k.ending ≡ ending
        → IsTornDown y grace_seconds before (clean_after k (y.meanwhile before))
    cases (returned value) ends =
        killed pid value recorded (ap (λ k. k.ending) same ∙ ends) (ground (arith, same, ends))
          (ground (arith, ends))
          (subst (λ d. IsCleared (y.meanwhile before) d) (ground (arith, ends))
            (cleanup_path-IsCleared (y.meanwhile before)))
    cases not_allowed ends =
        let fails = ap (λ k. k.ending) same ∙ ends in
        unfinished pid recorded (λ value h. cc) (ground (arith, same, ends)) (ground (arith, ends))
    cases out_of_rounds ends =
        let fails = ap (λ k. k.ending) same ∙ ends in
        unfinished pid recorded (λ value h. cc) (ground (arith, same, ends)) (ground (arith, ends))

teardown_run-IsTornDown :
    (y : Surroundings) (grace_seconds : ℤ) (before : Disk)
    → IsTornDown y grace_seconds before (teardown_run y grace_seconds before)
unfolding teardown_run kill_and_clean
teardown_run-IsTornDown y grace_seconds before = elim (Result-cases (read_identity before)) [
  | inr (e, unread) ↦
      unrecorded e unread (ground (arith, unread)) (ground (arith, unread))
        (subst (λ d. IsCleared before d) (ground (arith, unread)) (cleanup_path-IsCleared before))
  | inl (pid, recorded) ↦
      subst (λ t. IsTornDown y grace_seconds before t) (ground (arith, recorded))
        (clean_after-IsTornDown y grace_seconds before pid _ recorded refl)
]

exit_after-IsEnded :
    (child : Result (Unit {0}) ℤ) (t : Stopping)
    → IsEnded child t.returns (exit_after t (return_code child))
unfolding exit_after return_code
exit_after-IsEnded child t = elim (Bool-cases t.returns) [
  | inr raises ↦ raised raises (ground (arith, raises))
  | inl returns ↦ elim (Result-cases child) [
    | inl (code, done) ↦ finished code done returns (ground (arith, returns, done))
    | inr (_, failed) ↦ unlaunched failed returns (ground (arith, returns, failed))
  ]
]

is_text→eq : (v : Value) (name : Text) → is_text v name ≡ true → v ≡ str name
unfolding is_text
is_text→eq (str s) name h = ap str (==→eq s name h)
is_text→eq null name h = cc
is_text→eq (Value.bool b) name h = cc
is_text→eq (int n) name h = cc
is_text→eq (scalar n) name h = cc
is_text→eq (Value.list items) name h = cc
is_text→eq (dict d) name h = cc

child_output-found :
    (s : Services) (message : Fields) (out : OutputSchema)
    → child_output s message ≡ ok out
    → (found : Value) × (find_item (text "payload") message ≡ some found)
      × (s.output_schema found ≡ some out)
unfolding child_output find_payload validated
child_output-found s message out h = elim (Option-cases (find_item (text "payload") message)) [
  | inl absent ↦ absurd (ground (arith, absent, h))
  | inr (found, has) ↦
      let valid : s.output_schema found ≡ some out = ground (arith, has, h) in (found, has, valid)
]

module _ (s : Services) (i : Inputs) (y : System) where
  -- What holds of a run that started a child in an environment.
  pub record ChildRun (connection : Text) (o : Options) (grace_seconds : ℤ) (command : List Text)
      (env : Dict Text Text) (ran : Ran) : Type 0 where
    pub schema : InputSchema
    pub message : Fields
    pub found : Value
    pub out : OutputSchema
    pub stopping : Stopping
    pub accepted : schema_from_flags i connection o true ≡ ok schema
    pub answered : spawn_daemon s.spawner schema ≡ ok message
    pub success : get (text "kind") message ≡ str (text "success")
    pub payload : find_item (text "payload") message ≡ some found
    pub valid : s.output_schema found ≡ some out
    pub rendered : child_environ s y.environ message ≡ ok env
    pub torn_down : ran.teardown ≡ some stopping
    pub tidy : IsTornDown y.surroundings grace_seconds (y.disk out.session_dir) stopping
    pub ended : IsEnded (y.child command env) stopping.returns ran.outcome

  run_message-child :
      (command : List Text) (grace_seconds : ℤ) (message : Fields) (env : Dict Text Text)
      → (run_message s i y command grace_seconds message).child_env ≡ some env
      → (out : OutputSchema) × (is_text (get (text "kind") message) (text "success") ≡ true)
        × (child_output s message ≡ ok out)
        × (child_environ s y.environ message ≡ ok env)
        × (run_message s i y command grace_seconds message
            ≡ run_child y command grace_seconds out.session_dir env)
  unfolding run_message ended_early run_child
  run_message-child command grace_seconds message env h =
      elim (Result-cases (child_output s message)) [
        | inr (failure, failed) ↦ absurd (ground (arith, failed, h))
        | inl (out, has) ↦
            let facts : (is_text (get (text "kind") message) (text "success") ≡ true)
                × (child_environ s y.environ message ≡ ok env)
                × (run_message s i y command grace_seconds message
                    ≡ run_child y command grace_seconds out.session_dir env) =
              ground (arith, has, h) in
            (out, facts.0, has, facts.1, facts.2)
      ]

  run_spawn-answered :
      (connection : Text) (o : Options) (message : Fields)
      → run_spawn s i y connection o ≡ ok message
      → (schema : InputSchema) × (schema_from_flags i connection o true ≡ ok schema)
        × (spawn_daemon s.spawner schema ≡ ok message)
  unfolding run_spawn
  run_spawn-answered connection o message h =
      let answer : InputSchema → Result Failure Fields =
        λ schema. map_err not_spawned (spawn_daemon s.spawner schema) in
      let (schema, made, rest) =
        >>=-eq-ok (map_err from_flags (schema_from_flags i connection o true)) answer h in
      (
        schema,
        map_err-eq-ok from_flags (schema_from_flags i connection o true) made,
        map_err-eq-ok not_spawned (spawn_daemon s.spawner schema) rest,
      )

  run_checked-child :
      (connection : Text) (o : Options) (grace_seconds : ℤ) (command : List Text)
      (env : Dict Text Text)
      → (run_checked s i y connection o grace_seconds command).child_env ≡ some env
      → ChildRun connection o grace_seconds command env
          (run_checked s i y connection o grace_seconds command)
  unfolding run_checked ended_early run_child
  run_checked-child connection o grace_seconds [] env h = cc
  run_checked-child connection o grace_seconds (word ∷ words) env h =
      elim (Result-cases (run_spawn s i y connection o)) [
        | inr (failure, failed) ↦
            let unstarted = failed_with-none (error_class failure) failure in
            absurd (ground (arith, failed, unstarted, h))
        | inl (message, answer) ↦
            let started : (run_message s i y (word ∷ words) grace_seconds message).child_env
                ≡ some env =
              ground (arith, answer, h) in
            let (out, success, has, rendered, same) =
              run_message-child (word ∷ words) grace_seconds message env started in
            let (schema, accepted, answered) = run_spawn-answered connection o message answer in
            let (found, payload, valid) = child_output-found s message out has in
            let stopping = teardown_run y.surroundings grace_seconds (y.disk out.session_dir) in
            record {
              schema = schema;
              message = message;
              found = found;
              out = out;
              stopping = stopping;
              accepted = accepted;
              answered = answered;
              success = is_text→eq _ _ success;
              payload = payload;
              valid = valid;
              rendered = rendered;
              torn_down = ground (arith, answer, ap (λ ran. ran.teardown) same);
              tidy = teardown_run-IsTornDown y.surroundings grace_seconds (y.disk out.session_dir);
              ended =
                  subst (IsEnded (y.child (word ∷ words) env) stopping.returns)
                    (ground (arith, answer, ap (λ ran. ran.outcome) same))
                    (exit_after-IsEnded (y.child (word ∷ words) env) stopping);
            }
      ]

  -- A run that started a child had its flags accepted, and a worker that answered with a success whose
  -- output is valid and was rendered; it has torn down the session of that output: it has run the kill
  -- by force on the process id that is recorded there, if there is one, and left no directory of this
  -- user in the slot, unless the kill raised; and it exits with the child's return code, or with 127 if
  -- the child could not be launched, or by the exception of the kill.
  pub run_command-child :
      (connection : Text) (o : Options) (grace_seconds : ℤ) (command : List Text)
      (env : Dict Text Text)
      → (run_command s i y connection o grace_seconds command).child_env ≡ some env
      → ChildRun connection o grace_seconds
          (child_command command)
          env
          (run_command s i y connection o grace_seconds command)
  unfolding run_command
  run_command-child connection o grace_seconds command env h =
      run_checked-child connection o grace_seconds (child_command command) env h
