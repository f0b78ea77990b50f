-- ===== src/Worker/Assembled.antt =====
-- The worker of tunstrap/_worker.py over the session of tunstrap/session.py and the manager of
-- tunstrap/manager.py.
pub mod Exit
use garuda_tunnel.Base.{ℕ, Bool, Option, Text, text, Result, ok, err, List}
use garuda_tunnel.Value.{Value}
use garuda_tunnel.Messages.{RemoteError}
use garuda_tunnel.Schemas.{InputSchema}
use garuda_tunnel.Session.{
  SessionFailure, not_absolute, slot_is_symlink, slot_not_directory, slot_foreign, unsafe_name,
  no_identity, session_active, os_error, Disk, SessionDir, Host, create, write_identity,
}
use garuda_tunnel.Manager.{Peer}
use garuda_tunnel.Manager.Output.{Report, start_all_and_build_output}
use garuda_tunnel.Worker.Ipc.{OsWrite}
use garuda_tunnel.Worker.Life.{Refusal, active, refused, World}

-- What is around a worker: the session it is started for, its process id and input, the world around
-- each node, pydantic, `json.dumps`, and the pipe with whether it can be closed.
pub record Site : Type 0 where
  pub host : Host
  pub supplied : Option Text
  pub disk : Disk
  pub pid : ℕ
  pub stdin : Text
  pub validate : Text → Result Text InputSchema
  pub peer_of : Text → Peer
  pub model_dump : Report → Value
  pub dumps : Value → Text
  pub os_write : OsWrite
  pub closes : Bool

-- The class of what the session raises.
unfoldable pub failure_class : SessionFailure → Text
failure_class (session_active dir) = text "SessionActive"
failure_class os_error = text "OSError"
failure_class _ = text "SessionError"

-- `except SessionActive`, and the other exceptions.
unfoldable pub created : Result SessionFailure SessionDir → Result Refusal (Unit {0})
created (ok session) = ok tt
created (err (session_active dir)) = err (active dir)
created (err e) = err (refused (failure_class e))

unfoldable pub identified : Result SessionFailure (Unit {0}) → Result Text (Unit {0})
identified (ok _) = ok tt
identified (err e) = err (failure_class e)

unfoldable pub reported :
    Result RemoteError (Report × List (Option ℕ × List ℕ)) → Result Text Report
reported (ok (report, closed)) = ok report
reported (err e) = err e.class_name

unfoldable pub assembled : Site → World
assembled s =
    let session = create s.host s.supplied s.disk in
    record {
      create_session = created session.outcome;
      write_identity = identified (write_identity s.pid session.disk).outcome;
      stdin = s.stdin;
      validate = s.validate;
      start_all = λ schema. reported (start_all_and_build_output s.peer_of schema.nodes);
      model_dump = s.model_dump;
      dumps = s.dumps;
      os_write = s.os_write;
      closes = s.closes;
    }
