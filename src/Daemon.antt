-- ===== src/Daemon.antt =====
-- tunstrap/daemon.py: the spawning of a worker, and the reading of its answer. Whether the log opens,
-- whether a process can be made, and what the process puts into the pipe for its input are arguments.
pub mod Handshake
pub mod Known
use garuda_tunnel.Base.{
  ℕ, Bool, true, false, List, [], ◌∷◌, Option, none, some, Text, text, text_eq, contains,
  if◌then◌else◌, Result, ok, err, ◌>>=◌, ◌>>◌,
}
use garuda_tunnel.Value.{Value, str, dict, Fields, get, as_dict, as_str}
use garuda_tunnel.Schemas.{InputSchema}

-- What `json.loads(raw.decode("utf-8"))` gives: a value, a `JSONDecodeError` with its position, or a
-- `UnicodeDecodeError`.
pub data Loaded : Type 0 where
  value : Value → Loaded
  bad_json : ℕ → Loaded
  bad_utf8 : Loaded

-- The `DaemonError`s of the module, and the exceptions that it does not turn into one.
pub data SpawnError : Type 0 where
  not_read : ℕ → SpawnError
  empty_pipe : SpawnError
  invalid_json : ℕ → SpawnError
  unexpected_kind : Value → SpawnError
  uncaught : SpawnError

unfoldable pub message_kinds : List Text
message_kinds =
    text "success" ∷ text "required_failure" ∷ text "daemon_error" ∷ text "session_active" ∷ []

-- A kind that is a list or a mapping cannot be looked up in the set.
unfoldable pub is_kind : Value → Option Bool
is_kind (str kind) = some (contains message_kinds kind)
is_kind (Value.list items) = none
is_kind (dict d) = none
is_kind _ = some false

unfoldable pub check_kind : Fields → Result SpawnError Fields
check_kind message = elim (is_kind (get (text "kind") message)) [
  | none ↦ err uncaught
  | some known ↦ if known then ok message else err (unexpected_kind (get (text "kind") message))
]

-- `message.get`, which only a mapping has
unfoldable pub check_message : Loaded → Result SpawnError Fields
check_message bad_utf8 = err uncaught
check_message (bad_json position) = err (invalid_json position)
check_message (value v) = elim (as_dict v) [
  | none ↦ err uncaught
  | some message ↦ check_kind message
]

unfoldable pub parse_response : (Text → Loaded) → Text → Result SpawnError Fields
parse_response loads [] = err empty_pipe
parse_response loads (c ∷ raw) = check_message (loads (c ∷ raw))

-- The pipe gives its bytes, or an `OSError` with its number.
unfoldable pub read_ipc_response : (Text → Loaded) → Result ℕ Text → Result SpawnError Fields
read_ipc_response loads (err errno) = err (not_read errno)
read_ipc_response loads (ok raw) = parse_response loads raw

pub record Spawner : Type 0 where
  pub opens_log : Text → Bool
  pub popen : Result (Unit {0}) (Text → Result ℕ Text)
  pub model_dump_json : InputSchema → Text
  pub loads : Text → Loaded

unfoldable pub open_log_target : Spawner → Option Text → Bool
open_log_target s none = true
open_log_target s (some path) = s.opens_log path

-- A worker that ends before it reads its input breaks the pipe to it, which is passed over.
unfoldable pub spawn_daemon : Spawner → InputSchema → Result SpawnError Fields
spawn_daemon s schema =
    if open_log_target s schema.daemon.log_file
    then elim s.popen [
      | err _ ↦ err uncaught
      | ok worker ↦ read_ipc_response s.loads (worker (s.model_dump_json schema))
    ]
    else err uncaught
