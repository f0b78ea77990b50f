-- ===== src/Cli/Options.antt =====
-- `_conn_flags_present` and `_schema_from_flags` of tunstrap/cli.py.
use garuda_tunnel.Base.{
  Bool, not, ◌||◌, List, [], ◌∷◌, Option, none, some, Text, nat_eq, ◌==◌, is_empty, if◌then◌else◌,
  ℤ, pos, Result, ◌>>=◌, map_err,
}
use garuda_tunnel.Value.{Fields}
use garuda_tunnel.Schemas.{InputSchema, daemon_options, SchemaError, unset}
use garuda_tunnel.CliInput.{InputError, KeyFile, Flags, build_single_node_schema}

-- The options that `_connection_options` gives to a command.
pub record Options : Type 0 where
  pub ssh_key : Option Text
  pub ssh_key_passphrase : Option Text
  pub ssh_password_stdin : Bool
  pub targets : List Text
  pub kube : List Text
  pub fetch : List Text
  pub auto_stop_idle_seconds : Option ℤ
  pub materialize : Bool
  pub log_file : Option Text

-- What a command reads: its input, the key files, the agent's socket, and pydantic's reading of a mapping.
pub record Inputs : Type 0 where
  pub stdin : Text
  pub read_text : Text → KeyFile
  pub coerce : Fields → Option (Text × ℤ)
  pub agent : Option Text

unfoldable pub conn_flags_present : Options → Bool
conn_flags_present o =
    not (unset o.ssh_key)
    || (not (unset o.ssh_key_passphrase)
        || (o.ssh_password_stdin
            || (not (is_empty o.targets) || (not (is_empty o.kube) || not (is_empty o.fetch)))))

-- `sys.stdin.readline().rstrip("\n")`
unfoldable pub first_line : Text → Text
first_line [] = []
first_line (c ∷ s) = let rest = first_line s in if c == 10 then [] else c ∷ rest

-- `bad_options` is the `ValidationError` of `DaemonOptions`, which is no `TunstrapError`.
pub data FlagError : Type 0 where
  bad_options : SchemaError → FlagError
  bad_input : InputError → FlagError

unfoldable pub flags_of : Inputs → Text → Options → Flags
flags_of i connection o = record {
  connection = connection;
  ssh_key = o.ssh_key;
  ssh_key_passphrase = o.ssh_key_passphrase;
  ssh_password = if o.ssh_password_stdin then some (first_line i.stdin) else none;
  targets = o.targets;
  kube = o.kube;
  fetch = o.fetch;
}

unfoldable pub schema_from_flags : Inputs → Text → Options → Bool → Result FlagError InputSchema
schema_from_flags i connection o force_materialize = do
  daemon ← map_err bad_options (
      daemon_options (record {
        log_file = o.log_file;
        shutdown_grace_seconds = pos 10;
        auto_stop_idle_seconds = o.auto_stop_idle_seconds;
        materialize = o.materialize || force_materialize;
      }))
  map_err bad_input
      (build_single_node_schema i.read_text i.coerce i.agent (flags_of i connection o) daemon)
