-- ===== src/Worker/Verdict.antt =====
-- What a worker of tunstrap/_worker.py promises to its parent: the message and the exit code.
use garuda_tunnel.Base.{ℕ, Text, text, text_eq, nat_eq, Result, ok, err}
use garuda_tunnel.Value.{Value, str, end, field}
use garuda_tunnel.Schemas.{InputSchema}
use garuda_tunnel.Exceptions.{session_active, tunstrap_exception}
use garuda_tunnel.Manager.Output.{Report, error_output, output}
use garuda_tunnel.Worker.Ipc.{error_payload, Failure, other_failure, as_daemon_error}
use garuda_tunnel.Worker.Life.{Refusal, active, refused, World, read_schema}

-- What becomes of a start: the kind of the message with its payload, and the exit code.
pub record Verdict : Type 0 where
  pub kind : Text
  pub payload : Value
  pub code : ℕ

abbrev pub failed : Failure → Verdict
failed failure = record {
  kind = text "daemon_error";
  payload = error_payload (as_daemon_error failure);
  code = 4;
}

abbrev pub occupied : Text → Verdict
occupied dir = record {
  kind = text "session_active";
  payload = error_payload (
      tunstrap_exception session_active (text "session already active")
        (field (text "session_dir") (str dir) end));
  code = 3;
}

unfoldable pub verdict_of : World → Result Text Report → Verdict
verdict_of w (err name) = failed (other_failure name)
verdict_of w (ok (error_output nodes)) = record {
  kind = text "required_failure";
  payload = w.model_dump (error_output nodes);
  code = 2;
}
verdict_of w (ok (output connections warnings)) = record {
  kind = text "success";
  payload = w.model_dump (output connections warnings);
  code = 0;
}

unfoldable pub verdict_read : World → Result Failure InputSchema → Verdict
verdict_read w (err failure) = failed failure
verdict_read w (ok schema) = verdict_of w (w.start_all schema)

unfoldable pub verdict_identified : World → Result Text (Unit {0}) → Verdict
verdict_identified w (err name) = failed (other_failure name)
verdict_identified w (ok _) = verdict_read w (read_schema w)

unfoldable pub verdict_created : World → Result Refusal (Unit {0}) → Verdict
verdict_created w (err (active dir)) = occupied dir
verdict_created w (err (refused name)) = failed (other_failure name)
verdict_created w (ok _) = verdict_identified w w.write_identity

unfoldable pub verdict : World → Verdict
verdict w = verdict_created w w.create_session
