-- ===== src/Exceptions.antt =====
-- tunstrap/exceptions.py.
pub mod Scrubbed
use garuda_tunnel.Base.{
  ℕ, Bool, true, false, List, [], ◌∷◌, Text, text, text_eq, contains, if◌then◌else◌,
}
use garuda_tunnel.Value.{Value, Fields, end, field}
use garuda_tunnel.Schemas.{ErrorOutput}

-- The subclasses of `TunstrapError`.
pub data ErrorClass : Type 0 where
  tunstrap_error schema_validation_error tunnel_startup_error required_tunnel_failure : ErrorClass
  daemon_error kube_parse_error session_active : ErrorClass

unfoldable pub class_name : ErrorClass → Text
class_name tunstrap_error = text "TunstrapError"
class_name schema_validation_error = text "SchemaValidationError"
class_name tunnel_startup_error = text "TunnelStartupError"
class_name required_tunnel_failure = text "RequiredTunnelFailure"
class_name daemon_error = text "DaemonError"
class_name kube_parse_error = text "KubeParseError"
class_name session_active = text "SessionActive"

-- `_SECRET_KEYS`
unfoldable pub secret_keys : List Text
secret_keys = text "ssh_pkey" ∷ text "ssh_password" ∷ text "ssh_pkey_passphrase" ∷ []

unfoldable pub scrub : Fields → Fields
scrub end = end
scrub (field k v d) = let rest = scrub d in if contains secret_keys k then rest else field k v rest

pub record TunstrapError : Type 0 where
  pub kind : ErrorClass
  pub message : Text
  pub details : Fields

-- `TunstrapError(message, details)`; details that are `None` are empty.
unfoldable pub tunstrap_exception : ErrorClass → Text → Fields → TunstrapError
tunstrap_exception kind message details = record {
  kind = kind;
  message = message;
  details = scrub details;
}

unfoldable pub to_error_output : TunstrapError → ErrorOutput
to_error_output exc = record {
  error = class_name exc.kind;
  message = exc.message;
  details = exc.details;
}

-- `_EXIT_CODES.get(type(exc), 1)`
unfoldable pub exit_code_for : ErrorClass → ℕ
exit_code_for schema_validation_error = 1
exit_code_for required_tunnel_failure = 2
exit_code_for kube_parse_error = 2
exit_code_for session_active = 3
exit_code_for daemon_error = 4
exit_code_for _ = 1
