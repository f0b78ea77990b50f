-- ===== src/CliInput.antt =====
-- tunstrap/cli_input.py: a schema of one node, from the flags of the command line.
pub mod Endpoints
pub mod NamedFlags
pub mod SingleNode
use garuda_tunnel.Base.{
  ℕ, Bool, true, false, not, ◌&&◌, ◌||◌, List, [], ◌∷◌, Option, none, some, Text, text, text_eq,
  nat_eq, ◌==◌, is_empty, contains, if◌then◌else◌, Result, ok, err, ◌>>=◌, ◌>>◌, raise_if, map_err,
  ℤ, pos, in_range,
}
use garuda_tunnel.Base.Dict.{Dict, insert, has_key}
use garuda_tunnel.Value.{Fields}
use garuda_tunnel.Str.{starts_with, skip_first, cut_first, cut_last}
use garuda_tunnel.Str.Number.{int_of}
use garuda_tunnel.Schemas.{
  SchemaError, DaemonOptions, FileSpec, KubeTarget, RawTarget, address, entries, RawNode,
  InputSchema, input_schema, default_ssh_options,
}

-- The flag whose values are parsed.
pub data Label : Type 0 where
  target kube fetch : Label

-- The `SchemaValidationError`s of the module, one constructor for each message. `undecodable_key` is
-- the `UnicodeDecodeError` of a key file, which the module does not catch.
pub data InputError : Type 0 where
  not_user_at_host missing_bracket expected_port missing_host : InputError
  port_not_integer port_out_of_range : InputError
  not_name_value empty_name empty_value : Label → Text → InputError
  duplicate_name : Label → Text → InputError
  unreadable_key : Text → InputError
  undecodable_key : Text → InputError
  schema_rejected : SchemaError → InputError

unfoldable pub parse_port : Text → Result InputError ℤ
parse_port raw = elim (int_of raw) [
  | none ↦ err port_not_integer
  | some port ↦ if in_range 1 65535 port then ok port else err port_out_of_range
]

-- What stands behind the `]`: nothing, or `:port`.
unfoldable pub after_bracket : Text → Text → Result InputError (Text × ℤ)
after_bracket host rest =
    if is_empty rest
    then ok (host, pos 22)
    else if not (starts_with rest (b':' ∷ []))
    then err expected_port
    else (do port ← parse_port (skip_first rest); ok (host, port))

-- `[addr]` or `[addr]:port`
unfoldable pub split_bracketed : Text → Result InputError (Text × ℤ)
split_bracketed hostpart = elim (cut_first b']' hostpart) [
  | none ↦ err missing_bracket
  | some (before, rest) ↦ after_bracket (skip_first before) rest
]

unfoldable pub with_port : Text → Text → Result InputError (Text × ℤ)
with_port host raw_port =
    if is_empty host then err missing_host else (do port ← parse_port raw_port; ok (host, port))

unfoldable pub with_default_port : Text → Result InputError (Text × ℤ)
with_default_port hostpart = if is_empty hostpart then err missing_host else ok (hostpart, pos 22)

unfoldable pub split_plain : Text → Result InputError (Text × ℤ)
split_plain hostpart = elim (cut_last b':' hostpart) [
  | some (host, raw_port) ↦ with_port host raw_port
  | none ↦ with_default_port hostpart
]

unfoldable pub split_host_port : Text → Result InputError (Text × ℤ)
split_host_port hostpart =
    if starts_with hostpart (b'[' ∷ []) then split_bracketed hostpart else split_plain hostpart

unfoldable pub parse_endpoint : Text → Result InputError (Text × Text × ℤ)
parse_endpoint endpoint = elim (cut_first b'@' endpoint) [
  | none ↦ err not_user_at_host
  | some (user, hostpart) ↦
      if is_empty user
      then err not_user_at_host
      else (do parts ← split_host_port hostpart; ok (user, parts.0, parts.1))
]

-- One `NAME=VALUE`, beside the names that came before it.
unfoldable pub parse_item : Label → Text → Dict Text Text → Result InputError (Text × Text)
parse_item label item out = elim (cut_first b'=' item) [
  | none ↦ err (not_name_value label item)
  | some (name, value) ↦ do
    raise_if (is_empty name) (empty_name label item)
    raise_if (is_empty value) (empty_value label item)
    raise_if (has_key name out) (duplicate_name label name)
    ok (name, value)
]

unfoldable pub parse_named_from :
    Label → List Text → Dict Text Text → Result InputError (Dict Text Text)
parse_named_from label [] out = ok out
parse_named_from label (item ∷ items) out = do
  entry ← parse_item label item out
  parse_named_from label items (insert entry.0 entry.1 out)

unfoldable pub parse_named : List Text → Label → Result InputError (Dict Text Text)
parse_named items label = parse_named_from label items []

-- What `Path(ssh_key).read_text(encoding="utf-8")` does.
pub data KeyFile : Type 0 where
  content : Text → KeyFile
  os_error decode_error : KeyFile

unfoldable pub read_key : (Text → KeyFile) → Option Text → Result InputError (Option Text)
read_key read_text none = ok none
read_key read_text (some path) = elim (read_text path) [
  | content pem ↦ ok (some pem)
  | os_error ↦ err (unreadable_key path)
  | decode_error ↦ err (undecodable_key path)
]

-- The values of `--target`, as they go into the node.
unfoldable pub raw_targets : Dict Text Text → Dict (Option Text) RawTarget
raw_targets [] = []
raw_targets ((name, value) ∷ d) = (some name, address value) ∷ raw_targets d

unfoldable pub raw_kube : Dict Text Text → Dict Text KubeTarget
raw_kube [] = []
raw_kube ((name, path) ∷ d) =
    (
      name,
      record {
        kubeconfig_path = path;
        tls_server_name = none;
        insecure_fallback = false;
        required = true;
      },
    )
    ∷ raw_kube d

unfoldable pub raw_fetch : Dict Text Text → Dict Text FileSpec
raw_fetch [] = []
raw_fetch ((name, path) ∷ d) = (name, record { path = path; required = true }) ∷ raw_fetch d

-- The arguments of `build_single_node_schema`.
pub record Flags : Type 0 where
  pub connection : Text
  pub ssh_key : Option Text
  pub ssh_key_passphrase : Option Text
  pub ssh_password : Option Text
  pub targets : List Text
  pub kube : List Text
  pub fetch : List Text

-- The dict of the node. The empty dicts of `--kube` and `--fetch` are left out.
unfoldable pub flags_node :
    Flags
    → Text × Text × ℤ
    → Option Text
    → Dict Text Text
    → Dict Text Text
    → Dict Text Text
    → RawNode
flags_node flags (user, host, port) pkey targets kube_named fetch_named = record {
  host = host;
  port = port;
  user = user;
  ssh_pkey = pkey;
  ssh_password = flags.ssh_password;
  ssh_pkey_passphrase = flags.ssh_key_passphrase;
  remote_targets = entries (raw_targets targets);
  ssh_options = default_ssh_options;
  required = true;
  fetch_files = if is_empty fetch_named then none else some (raw_fetch fetch_named);
  kube_targets = if is_empty kube_named then none else some (raw_kube kube_named);
}

-- `read_text` is the file system, `coerce` pydantic's reading of a mapping, and `agent` the value of
-- `SSH_AUTH_SOCK`.
module _ (read_text : Text → KeyFile) (coerce : Fields → Option (Text × ℤ))
    (agent : Option Text) where
  unfoldable pub build_single_node_schema : Flags → DaemonOptions → Result InputError InputSchema
  build_single_node_schema flags daemon = do
    endpoint ← parse_endpoint flags.connection
    pkey ← read_key read_text flags.ssh_key
    targets ← parse_named flags.targets target
    kube_named ← parse_named flags.kube kube
    fetch_named ← parse_named flags.fetch fetch
    map_err schema_rejected (
        input_schema coerce agent
          ((text "node", flags_node flags endpoint pkey targets kube_named fetch_named) ∷ [])
          daemon)
