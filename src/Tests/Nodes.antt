-- ===== src/Tests/Nodes.antt =====
-- The input of a small node.
use garuda_tunnel.Base.{
  ◌≤◌, ◌≡◌, ◌≢◌, ◌↔◌, refl, true, [], ◌∷◌, Option, none, some, Text, text, text_eq, nat_eq,
  ℕ_discrete, All, length, ok, ℤ, pos, in_range,
}
use garuda_tunnel.Base.Dict.{Dict, insert}
use garuda_tunnel.Value.{Fields}
use garuda_tunnel.Str.Number.{int_of, show_nat}
use garuda_tunnel.Schemas.{
  Kind, SchemaError, matches_key, validate_identifier_key, parse_host_port, SshOptions,
  DaemonOptions, idle_in_range, default_ssh_options, RemoteTarget, RawTarget, RawTargets, address,
  entries, RawNode, NodeInput, InputSchema, validate_node, validate_auth, input_schema,
}
use garuda_tunnel.Schemas.Keys.Accepted.{IsAccepted, validate_identifier_key-IsAccepted}
use garuda_tunnel.Schemas.HostPort.Parsing.{IsPort, Written, parse_host_port-Written}
use garuda_tunnel.Schemas.Node.Targets.{IsKey, ReadyAreTargets}
use garuda_tunnel.Schemas.Node.Valid.{IsValidNode, HasAuth, input_schema-IsValid}

validate_identifier_key-IsAccepted_example :
    (validate_identifier_key Kind.node (text "db-1") ≡ ok tt)
    ↔ ((length (text "db-1") ≤ 64) × IsAccepted (text "db-1"))
validate_identifier_key-IsAccepted_example =
    validate_identifier_key-IsAccepted Kind.node (text "db-1")

reads : parse_host_port (text "h:80") ≡ ok (text "h", pos 80)
unfolding parse_host_port text garuda_tunnel.Str.starts_with nat_eq ℕ_discrete
    garuda_tunnel.Schemas.split_plain garuda_tunnel.Str.cut_pair garuda_tunnel.Str.cut_last
    garuda_tunnel.Schemas.check_parts garuda_tunnel.Schemas.parse_port_str int_of
    garuda_tunnel.Str.Number.signed garuda_tunnel.Str.strip_by garuda_tunnel.Str.Number.is_int_space
    garuda_tunnel.Str.Number.unsigned garuda_tunnel.Str.Number.digits_value
    garuda_tunnel.Str.Number.digit_value garuda_tunnel.Str.Number.max_int_digits in_range
    garuda_tunnel.Schemas.split_bracketed garuda_tunnel.Str.Number.digit_from
    garuda_tunnel.Str.count_char garuda_tunnel.Str.drop_blank garuda_tunnel.Str.drop_blank_end
    garuda_tunnel.Str.is_space
reads = refl

parse_host_port-Written_example :
    (port_str : Text) × Written (text "h:80") (text "h") port_str
    × (text "h" ≢ [])
    × (int_of port_str ≡ some (pos 80))
    × IsPort (pos 80)
parse_host_port-Written_example = parse_host_port-Written (text "h:80") (text "h") (pos 80) reads

abbrev pub no_coercion : Fields → Option (Text × ℤ)
no_coercion d = none

abbrev raw : RawNode
raw = record {
  host = text "h";
  port = pos 22;
  user = text "u";
  ssh_pkey = none;
  ssh_password = some (text "p");
  ssh_pkey_passphrase = none;
  remote_targets = entries ((some (text "t"), address (text "i:80")) ∷ []);
  ssh_options = default_ssh_options;
  required = true;
  fetch_files = none;
  kube_targets = none;
}

abbrev node : NodeInput
node = record {
  host = text "h";
  port = pos 22;
  user = text "u";
  ssh_pkey = none;
  ssh_password = some (text "p");
  ssh_pkey_passphrase = none;
  remote_targets = (text "t", record { host = text "i"; port = pos 80 }) ∷ [];
  ssh_options = default_ssh_options;
  required = true;
  fetch_files = none;
  kube_targets = none;
}

ready : ReadyAreTargets raw.remote_targets
ready = (tt, tt)

abbrev pub daemon : DaemonOptions
daemon = record {
  log_file = none;
  shutdown_grace_seconds = pos 5;
  auto_stop_idle_seconds = some (pos 60);
  materialize = true;
}

abbrev raws : Dict Text RawNode
raws = (text "n", raw) ∷ []

abbrev schema : InputSchema
schema = record { nodes = (text "n", node) ∷ []; daemon = daemon }

builds : input_schema no_coercion none raws daemon ≡ ok schema
unfolding input_schema text garuda_tunnel.Schemas.validate_nodes validate_node
    garuda_tunnel.Schemas.validate_remote_targets garuda_tunnel.Schemas.parse_targets
    garuda_tunnel.Schemas.check_handle matches_key garuda_tunnel.Schemas.parse_target
    parse_host_port garuda_tunnel.Str.starts_with nat_eq ℕ_discrete
    garuda_tunnel.Schemas.split_plain garuda_tunnel.Str.cut_pair garuda_tunnel.Str.cut_last
    garuda_tunnel.Schemas.check_parts garuda_tunnel.Schemas.parse_port_str int_of insert text_eq
    in_range garuda_tunnel.Schemas.split_bracketed garuda_tunnel.Schemas.is_key_char
    garuda_tunnel.Schemas.is_key_start garuda_tunnel.Schemas.matches_rest validate_identifier_key
    garuda_tunnel.Schemas.build_optional garuda_tunnel.Schemas.build_values
    garuda_tunnel.Schemas.check_names garuda_tunnel.Schemas.no_entries garuda_tunnel.Schemas.unset
    validate_auth garuda_tunnel.Schemas.validate_named
    garuda_tunnel.Schemas.validate_node_does_something garuda_tunnel.Schemas.daemon_options
    garuda_tunnel.Schemas.file_spec idle_in_range garuda_tunnel.Schemas.kube_target
    garuda_tunnel.Schemas.remote_target garuda_tunnel.Schemas.validate_absolute
    garuda_tunnel.Str.Number.digit_from garuda_tunnel.Str.Number.digit_value
    garuda_tunnel.Str.Number.digits_value garuda_tunnel.Str.Number.is_int_space
    garuda_tunnel.Str.Number.max_int_digits garuda_tunnel.Str.Number.signed
    garuda_tunnel.Str.Number.unsigned garuda_tunnel.Str.count_char garuda_tunnel.Str.drop_blank
    garuda_tunnel.Str.drop_blank_end garuda_tunnel.Str.is_space garuda_tunnel.Str.strip_by
builds = refl

input_schema-IsValid_example :
    All (λ e. IsValidNode e.1) schema.nodes
    × All (λ e. IsKey e.0 × HasAuth none e.1) schema.nodes
    × (schema.daemon ≡ daemon)
    × (idle_in_range schema.daemon.auto_stop_idle_seconds ≡ true)
input_schema-IsValid_example =
    input_schema-IsValid no_coercion none raws daemon schema (ready, tt) builds
