-- ===== src/Worker/Ipc.antt =====
-- `_write_message` and `_report_pre_run_failure` of tunstrap/_worker.py, and the messages. How many
-- bytes `os.write` takes, and what `json.dumps` prints, are arguments.
pub mod Whole
use garuda_tunnel.Base.{
  ℕ, zero, suc, Bool, true, false, List, [], ◌∷◌, ◌++◌, Option, none, some, Text, text, nat_eq,
  ◌==◌, length, if◌then◌else◌, ℤ, pos, Result, ok, err,
}
use garuda_tunnel.Value.{Value, str, int, dict, Fields, end, field}
use garuda_tunnel.Schemas.{ErrorOutput}
use garuda_tunnel.Exceptions.{
  TunstrapError, daemon_error, session_active, tunstrap_exception, to_error_output,
}

-- `payload[:n]` and `payload[n:]`
unfoldable pub take : ℕ → Text → Text
take zero s = []
take (suc n) [] = []
take (suc n) (c ∷ s) = c ∷ take n s

unfoldable pub drop : ℕ → Text → Text
drop zero s = s
drop (suc n) [] = []
drop (suc n) (c ∷ s) = drop n s

-- The `OSError` of a write, the `DaemonError` of one that takes nothing, and a loop that was given
-- too little fuel.
pub data WriteError : Type 0 where
  os_failed stuck : WriteError
  short_write : ℕ → WriteError

-- The bytes that went into the pipe, and how the call ended.
pub record Written : Type 0 where
  pub taken : Text
  pub outcome : Result WriteError (Unit {0})

-- The number of bytes that `os.write` takes of some bytes.
abbrev pub OsWrite : Type 0
OsWrite = Text → Result (Unit {0}) ℕ

unfoldable pub write_all : OsWrite → ℕ → Text → Written
write_all os_write fuel [] = record { taken = []; outcome = ok tt }
write_all os_write zero (c ∷ payload) = record { taken = []; outcome = err stuck }
write_all os_write (suc fuel) (c ∷ payload) = elim (os_write (c ∷ payload)) [
  | err _ ↦ record { taken = []; outcome = err os_failed }
  | ok n ↦
      let rest = write_all os_write fuel (drop n (c ∷ payload)) in
      if n == 0
      then record { taken = []; outcome = err (short_write (length (c ∷ payload))) }
      else record { taken = take n (c ∷ payload) ++ rest.taken; outcome = rest.outcome }
]

-- `json.dumps(message) + "\n"`
unfoldable pub line : (Value → Text) → Value → Text
line dumps message = dumps message ++ (10 ∷ [])

-- Each round takes a byte, so the length is fuel enough.
unfoldable pub write_message : (Value → Text) → OsWrite → Value → Written
write_message dumps os_write message =
    write_all os_write (length (line dumps message)) (line dumps message)

-- `{"kind": …, "payload": …}`
unfoldable pub frame : Text → Value → Value
frame kind payload = dict (field (text "kind") (str kind) (field (text "payload") payload end))

-- The dict of `to_error_output`.
unfoldable pub error_fields : ErrorOutput → Value
error_fields e = dict (
    field (text "error") (str e.error)
      (field (text "message") (str e.message) (field (text "details") (dict e.details) end)))

unfoldable pub error_payload : TunstrapError → Value
error_payload e = error_fields (to_error_output e)

-- An exception that is reported: a `DaemonError` with its details, or another by its class.
pub data Failure : Type 0 where
  daemon_failure : Text → Fields → Failure
  other_failure : Text → Failure

unfoldable pub as_daemon_error : Failure → TunstrapError
as_daemon_error (daemon_failure message details) = tunstrap_exception daemon_error message details
as_daemon_error (other_failure class_name) =
    tunstrap_exception daemon_error (text "worker failed before reporting")
      (field (text "type") (str class_name) end)

-- `except OSError: pass`
unfoldable pub swallow : Written → Written
swallow w = record w {
  outcome = elim w.outcome [ err os_failed ↦ ok tt | err e ↦ err e | ok _ ↦ ok tt ];
}

-- `os.close` of the pipe behind a write that returned; its failure is an `OSError`.
unfoldable pub closing : Bool → Written → Written
closing closes w = record w {
  outcome = elim w.outcome [ ok _ ↦ if closes then ok tt else err os_failed | err e ↦ err e ];
}

unfoldable pub report_pre_run_failure : (Value → Text) → OsWrite → Failure → Written
report_pre_run_failure dumps os_write failure = swallow (
    write_message dumps os_write
      (frame (text "daemon_error") (error_payload (as_daemon_error failure))))
