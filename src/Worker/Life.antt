-- ===== src/Worker/Life.antt =====
-- `_read_schema_from_stdin`, `_run` and `main` of tunstrap/_worker.py. What the session, the manager
-- and the pipe answer is an argument; how the daemon waits, and for which signal, is left out.
use garuda_tunnel.Base.{
  ℕ, Bool, true, false, [], Option, none, some, Text, text, ltb, length, if◌then◌else◌, pos, Result,
  ok, err,
}
use garuda_tunnel.Value.{Value, int, str, end, field}
use garuda_tunnel.Schemas.{InputSchema}
use garuda_tunnel.Exceptions.{session_active, tunstrap_exception}
use garuda_tunnel.Manager.Output.{Report, error_output, output}
use garuda_tunnel.Worker.Ipc.{
  Written, OsWrite, write_message, frame, error_payload, closing, Failure, daemon_failure,
  other_failure, swallow, report_pre_run_failure,
}

-- How `SessionDir.create` ends: an active session with its directory, or another exception.
pub data Refusal : Type 0 where
  active : Text → Refusal
  refused : Text → Refusal

-- The world of a worker. An exception that is not told apart is given by its class; `closes` is whether
-- the pipe can be closed, and where its failure is passed over the closing is left out.
pub record World : Type 0 where
  pub create_session : Result Refusal (Unit {0})
  pub write_identity : Result Text (Unit {0})
  pub stdin : Text
  pub validate : Text → Result Text InputSchema
  pub start_all : InputSchema → Result Text Report
  pub model_dump : Report → Value
  pub dumps : Value → Text
  pub os_write : OsWrite
  pub closes : Bool

-- What a worker has done when it ends: the bytes in the pipe, whether the manager was stopped,
-- whether the session was cleaned up, and the exit code; `none` is an exception that nobody catches.
pub record Trace : Type 0 where
  pub piped : Text
  pub stopped : Bool
  pub cleaned : Bool
  pub code : Option ℕ

unfoldable pub schema_max_bytes : ℕ
schema_max_bytes = 8388608

unfoldable pub read_schema : World → Result Failure InputSchema
read_schema w =
    if ltb schema_max_bytes (length w.stdin)
    then err (
        daemon_failure (text "schema pipe exceeded size limit")
          (field (text "limit") (int (pos schema_max_bytes)) end))
    else elim (w.validate w.stdin) [ ok schema ↦ ok schema | err name ↦ err (other_failure name) ]

-- The end of a path on which a write either returned, or left the worker by its exception.
unfoldable pub ended : Written → Trace → Trace → Trace
ended written good bad = elim written.outcome [
  | ok _ ↦ record good { piped = written.taken }
  | err _ ↦ record bad { piped = written.taken }
]

abbrev pub left : Bool → Bool → Option ℕ → Trace
left stopped cleaned code = record { piped = []; stopped = stopped; cleaned = cleaned; code = code }

module _ (w : World) where
  abbrev pub report : Failure → Written
  report failure = report_pre_run_failure w.dumps w.os_write failure

  abbrev pub send : Text → Value → Written
  send kind payload = write_message w.dumps w.os_write (frame kind payload)

  abbrev pub send_and_close : Text → Value → Written
  send_and_close kind payload = closing w.closes (send kind payload)

  -- What follows the start of the nodes. The success ends when the daemon is told to stop.
  unfoldable pub serve : Result Text Report → Trace
  serve (err name) =
      ended (report (other_failure name)) (left true true (some 4)) (left true false none)
  serve (ok (error_output failed)) =
      ended (send_and_close (text "required_failure") (w.model_dump (error_output failed)))
        (left true true (some 2)) (left true false none)
  serve (ok (output connections warnings)) =
      ended (send_and_close (text "success") (w.model_dump (output connections warnings)))
        (left true true (some 0)) (left false false none)

  unfoldable pub run_read : Result Failure InputSchema → Trace
  run_read (err failure) = ended (report failure) (left false true (some 4)) (left false false none)
  run_read (ok schema) = serve (w.start_all schema)

  unfoldable pub run : Trace
  run = run_read (read_schema w)

  unfoldable pub run_identified : Result Text (Unit {0}) → Trace
  run_identified (err name) =
      ended (report (other_failure name)) (left false true (some 4)) (left false true none)
  run_identified (ok _) = run

  unfoldable pub main_created : Result Refusal (Unit {0}) → Trace
  main_created (err (active dir)) =
      ended
        (swallow (
          send_and_close (text "session_active") (
            error_payload (
              tunstrap_exception session_active (text "session already active")
                (field (text "session_dir") (str dir) end)))))
        (left false false (some 3)) (left false false none)
  main_created (err (refused name)) =
      ended (report (other_failure name)) (left false false (some 4)) (left false false none)
  main_created (ok _) = run_identified w.write_identity

  unfoldable pub main : Trace
  main = main_created w.create_session
