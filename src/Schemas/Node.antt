-- ===== src/Schemas/Node.antt =====
-- `NodeInput` and `InputSchema` of tunstrap/schemas.py, with their validators in the order in which
-- they run: the fields, then the node, then `nodes`.
pub mod Targets
pub mod Named
pub mod Valid
use garuda_tunnel.Base.{
  ℕ, Bool, true, false, not, ◌&&◌, ◌||◌, [], ◌∷◌, Option, none, some, Text, text_eq, ltb, length,
  is_empty, Result, ok, err, ◌>>=◌, ◌>>◌, raise_if, map_err, ℤ,
}
use garuda_tunnel.Base.Dict.{Dict, insert}
use garuda_tunnel.Value.{Fields}
use garuda_tunnel.Schemas.Keys.{
  Kind, SchemaError, matches_key, validate_identifier_key, key_form, key_too_long, key_not_text,
  targets_not_dict, too_many, empty_dict, target_dict_form, target_not_text, target_text,
  node_does_nothing, no_credentials,
}
use garuda_tunnel.Schemas.HostPort.{parse_host_port}
use garuda_tunnel.Schemas.Specs.{
  SshOptions, DaemonOptions, FileSpec, KubeTarget, RemoteTarget, daemon_options, file_spec,
  kube_target, remote_target,
}

-- A value of `remote_targets` before validation.
pub data RawTarget : Type 0 where
  ready : RemoteTarget → RawTarget
  mapping : Fields → RawTarget
  address : Text → RawTarget
  other : RawTarget

-- `remote_targets` before validation; a key that is no text is `none`.
pub data RawTargets : Type 0 where
  missing : RawTargets
  entries : Dict (Option Text) RawTarget → RawTargets
  not_a_dict : RawTargets

-- A node whose fields have their types, and are not validated.
pub record RawNode : Type 0 where
  pub host : Text
  pub port : ℤ
  pub user : Text
  pub ssh_pkey : Option Text
  pub ssh_password : Option Text
  pub ssh_pkey_passphrase : Option Text
  pub remote_targets : RawTargets
  pub ssh_options : SshOptions
  pub required : Bool
  pub fetch_files : Option (Dict Text FileSpec)
  pub kube_targets : Option (Dict Text KubeTarget)

pub record NodeInput : Type 0 where
  pub host : Text
  pub port : ℤ
  pub user : Text
  pub ssh_pkey : Option Text
  pub ssh_password : Option Text
  pub ssh_pkey_passphrase : Option Text
  pub remote_targets : Dict Text RemoteTarget
  pub ssh_options : SshOptions
  pub required : Bool
  pub fetch_files : Option (Dict Text FileSpec)
  pub kube_targets : Option (Dict Text KubeTarget)

-- The key of one entry: its form first, and then its length.
unfoldable pub check_handle : Option Text → Result SchemaError Text
check_handle none = err key_not_text
check_handle (some handle) = do
  raise_if (not (matches_key handle)) (key_form Kind.remote_targets handle)
  raise_if (ltb 64 (length handle)) (key_too_long Kind.remote_targets handle)
  ok handle

-- `coerce` is pydantic's reading of a mapping as the two typed fields of a `RemoteTarget`.
module _ (coerce : Fields → Option (Text × ℤ)) where
  unfoldable pub parse_target : Text → RawTarget → Result SchemaError RemoteTarget
  parse_target handle (ready target) = ok target
  parse_target handle (mapping fields) = elim (coerce fields) [
    | none ↦ err (target_dict_form handle)
    | some (host, port) ↦ map_err (λ e. target_dict_form handle) (remote_target host port)
  ]
  parse_target handle (address raw) = do
    parts ← map_err (target_text handle raw) (parse_host_port raw)
    remote_target parts.0 parts.1
  parse_target handle other = err (target_not_text handle)

  unfoldable pub parse_targets :
      Dict (Option Text) RawTarget
      → Dict Text RemoteTarget
      → Result SchemaError (Dict Text RemoteTarget)
  parse_targets [] parsed = ok parsed
  parse_targets ((key, raw) ∷ rest) parsed = do
    handle ← check_handle key
    target ← parse_target handle raw
    parse_targets rest (insert handle target parsed)

  unfoldable pub validate_remote_targets : RawTargets → Result SchemaError (Dict Text RemoteTarget)
  validate_remote_targets missing = ok []
  validate_remote_targets not_a_dict = err targets_not_dict
  validate_remote_targets (entries value) = do
    raise_if (ltb 16 (length value)) (too_many Kind.remote_targets)
    parse_targets value []

-- Every value of a dict is built by its model.
unfoldable pub build_values {ℓ} :
    {A : Type ℓ} → (A → Result SchemaError A) → Dict Text A → Result SchemaError (Dict Text A)
build_values build [] = ok []
build_values build ((name, raw) ∷ rest) = do
  value ← build raw
  values ← build_values build rest
  ok ((name, value) ∷ values)

unfoldable pub check_names {ℓ} : {A : Type ℓ} → Kind → Dict Text A → Result SchemaError (Unit {0})
check_names kind [] = ok tt
check_names kind ((name, value) ∷ rest) = do
  validate_identifier_key kind name
  check_names kind rest

-- `_validate_fetch_files` and `_validate_kube_targets`, which differ in the kind alone.
unfoldable pub validate_named {ℓ} :
    {A : Type ℓ} → Kind → Option (Dict Text A) → Result SchemaError (Option (Dict Text A))
validate_named kind none = ok none
validate_named kind (some value) = do
  raise_if (is_empty value) (empty_dict kind)
  raise_if (ltb 16 (length value)) (too_many kind)
  check_names kind value
  ok (some value)

unfoldable pub build_optional {ℓ} :
    {A : Type ℓ}
    → (A → Result SchemaError A)
    → Option (Dict Text A)
    → Result SchemaError (Option (Dict Text A))
build_optional build none = ok none
build_optional build (some d) = do built ← build_values build d; ok (some built)

-- `not self.kube_targets`
unfoldable pub no_entries {ℓ} : {A : Type ℓ} → Option (Dict Text A) → Bool
no_entries none = true
no_entries (some d) = is_empty d

unfoldable pub validate_node_does_something : NodeInput → Result SchemaError NodeInput
validate_node_does_something node = do
  raise_if
      (is_empty node.remote_targets
        && (no_entries node.kube_targets && no_entries node.fetch_files))
      node_does_nothing
  ok node

unfoldable pub validate_node : (Fields → Option (Text × ℤ)) → RawNode → Result SchemaError NodeInput
validate_node coerce raw = do
  targets ← validate_remote_targets coerce raw.remote_targets
  built_files ← build_optional file_spec raw.fetch_files
  files ← validate_named Kind.fetch_files built_files
  built_kube ← build_optional kube_target raw.kube_targets
  kube ← validate_named Kind.kube_targets built_kube
  validate_node_does_something (record {
    host = raw.host;
    port = raw.port;
    user = raw.user;
    ssh_pkey = raw.ssh_pkey;
    ssh_password = raw.ssh_password;
    ssh_pkey_passphrase = raw.ssh_pkey_passphrase;
    remote_targets = targets;
    ssh_options = raw.ssh_options;
    required = raw.required;
    fetch_files = files;
    kube_targets = kube;
  })

pub record InputSchema : Type 0 where
  pub nodes : Dict Text NodeInput
  pub daemon : DaemonOptions

-- `not s` of an optional text
unfoldable pub unset : Option Text → Bool
unset none = true
unset (some s) = is_empty s

-- `_validate_auth`; `agent` is `os.environ.get("SSH_AUTH_SOCK")`.
unfoldable pub validate_auth : Option Text → Dict Text NodeInput → Result SchemaError (Unit {0})
validate_auth agent [] = ok tt
validate_auth agent ((name, node) ∷ rest) = do
  validate_identifier_key Kind.node name
  raise_if (unset node.ssh_pkey && (unset node.ssh_password && unset agent)) (no_credentials name)
  validate_auth agent rest

unfoldable pub validate_nodes :
    (Fields → Option (Text × ℤ)) → Dict Text RawNode → Result SchemaError (Dict Text NodeInput)
validate_nodes coerce [] = ok []
validate_nodes coerce ((name, raw) ∷ rest) = do
  node ← validate_node coerce raw
  nodes ← validate_nodes coerce rest
  ok ((name, node) ∷ nodes)

unfoldable pub input_schema :
    (Fields → Option (Text × ℤ))
    → Option Text
    → Dict Text RawNode
    → DaemonOptions
    → Result SchemaError InputSchema
input_schema coerce agent raw_nodes raw_daemon = do
  nodes ← validate_nodes coerce raw_nodes
  validate_auth agent nodes
  daemon ← daemon_options raw_daemon
  ok (record { nodes = nodes; daemon = daemon })
