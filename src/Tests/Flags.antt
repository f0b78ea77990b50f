-- ===== src/Tests/Flags.antt =====
-- Command-line flags, and the environment that is rendered for a node.
use garuda_tunnel.Base.{
  ℕ, ◌≤◌, ◌≡◌, ◌≢◌, ◌⊎◌, ◌↔◌, refl, Bool, true, false, List, [], ◌∷◌, ◌++◌, Option, none, some,
  Text, text, text_eq, nat_eq, ℕ_discrete, arith, All, contains, length, ◌==◌, if◌then◌else◌,
  Result, ok, err, ℤ, pos,
}
use garuda_tunnel.Base.Dict.{Dict, NodupKeys, insert, has_key}
use garuda_tunnel.Str.Number.{show_nat, int_of}
use garuda_tunnel.Schemas.{
  NodeInput, InputSchema, NodeOutput, OutputSchema, DaemonOptions, RemoteTarget,
  default_ssh_options,
}
use garuda_tunnel.Schemas.Node.Valid.{IsValidNode, HasAuth}
use garuda_tunnel.CliInput.{
  Label, target, parse_endpoint, parse_named, KeyFile, content, Flags, build_single_node_schema,
}
use garuda_tunnel.CliInput.Endpoints.{IsAddress, parse_endpoint-IsAddress, parse_endpoint-brackets}
use garuda_tunnel.CliInput.NamedFlags.{flags, IsFlag, parse_named-flags}
use garuda_tunnel.CliInput.SingleNode.{build_single_node_schema-one}
use garuda_tunnel.EnvRender.{render_env, format_exports}
use garuda_tunnel.EnvRender.Entries.{node_entries, kube_paths, render_env-node_entries}
use garuda_tunnel.EnvRender.Collisions.{render_env-shared_name}
use garuda_tunnel.EnvRender.Exports.{read_exports, read_exports-format_exports}
use garuda_tunnel.Tests.Nodes.{daemon, no_coercion}
use garuda_tunnel.Tests.Targets.{kube_output}

reads : parse_endpoint (text "u@h:80") ≡ ok (text "u", text "h", pos 80)
unfolding parse_endpoint text garuda_tunnel.Str.cut_first nat_eq ℕ_discrete
    garuda_tunnel.CliInput.split_host_port garuda_tunnel.Str.starts_with
    garuda_tunnel.CliInput.split_plain garuda_tunnel.Str.cut_last garuda_tunnel.CliInput.with_port
    garuda_tunnel.CliInput.parse_port int_of garuda_tunnel.Str.Number.signed
    garuda_tunnel.Str.strip_by garuda_tunnel.Str.Number.is_int_space
    garuda_tunnel.Str.Number.unsigned garuda_tunnel.Str.Number.digits_value
    garuda_tunnel.Str.Number.digit_value garuda_tunnel.Str.Number.max_int_digits
    garuda_tunnel.Base.in_range garuda_tunnel.CliInput.after_bracket
    garuda_tunnel.CliInput.split_bracketed garuda_tunnel.CliInput.with_default_port
    garuda_tunnel.Str.Number.digit_from garuda_tunnel.Str.drop_blank
    garuda_tunnel.Str.drop_blank_end garuda_tunnel.Str.is_space
reads = refl

parse_endpoint-IsAddress_example :
    (hostpart : Text) × (text "u@h:80" ≡ text "u" ++ (b'@' ∷ hostpart))
    × (text "u" ≢ [])
    × (contains (text "u") b'@' ≡ false)
    × IsAddress hostpart (text "h") (pos 80)
parse_endpoint-IsAddress_example =
    parse_endpoint-IsAddress (text "u@h:80") (text "u") (text "h") (pos 80) reads

abbrev h : ℕ
h = b'h'

full_user : text "u" ≢ []
unfolding text
full_user = λ e. cc

one_at : contains (text "u") b'@' ≡ false
unfolding text nat_eq ℕ_discrete
one_at = refl

-- An empty address in brackets is accepted.
no_bracket : contains {A = ℕ} [] b']' ≡ false
no_bracket = refl

parse_endpoint-brackets_example :
    parse_endpoint (text "u" ++ (b'@' ∷ b'[' ∷ ([] ++ (b']' ∷ b':' ∷ show_nat 80))))
    ≡ ok (text "u", [], pos 80)
parse_endpoint-brackets_example =
    parse_endpoint-brackets (text "u") full_user one_at [] 80 no_bracket (omega arith) (omega arith)

abbrev two_flags : List Text
two_flags = text "t=i:80" ∷ text "s=j:81" ∷ []

abbrev two_targets : Dict Text Text
two_targets = (text "t", text "i:80") ∷ (text "s", text "j:81") ∷ []

parse_named-flags_example :
    (parse_named two_flags target ≡ ok two_targets)
    ↔ ((two_flags ≡ flags two_targets) × NodupKeys two_targets × All IsFlag two_targets)
parse_named-flags_example = parse_named-flags target two_flags two_targets

abbrev given : Flags
given = record {
  connection = text "u@h:80";
  ssh_key = none;
  ssh_key_passphrase = none;
  ssh_password = some (text "p");
  targets = text "t=i:80" ∷ [];
  kube = [];
  fetch = [];
}

abbrev node : NodeInput
node = record {
  host = text "h";
  port = pos 80;
  user = text "u";
  ssh_pkey = none;
  ssh_password = some (text "p");
  ssh_pkey_passphrase = none;
  remote_targets = (text "t", record { host = text "i"; port = pos 80 }) ∷ [];
  ssh_options = default_ssh_options;
  required = true;
  fetch_files = none;
  kube_targets = none;
}

abbrev schema : InputSchema
schema = record { nodes = (text "node", node) ∷ []; daemon = daemon }

abbrev no_file : Text → KeyFile
no_file path = content []

built : build_single_node_schema no_file no_coercion none given daemon ≡ ok schema
unfolding build_single_node_schema text parse_endpoint garuda_tunnel.Str.cut_first nat_eq ℕ_discrete
    garuda_tunnel.CliInput.split_host_port garuda_tunnel.Str.starts_with
    garuda_tunnel.CliInput.split_plain garuda_tunnel.Str.cut_last garuda_tunnel.CliInput.with_port
    garuda_tunnel.CliInput.parse_port int_of garuda_tunnel.Str.Number.signed
    garuda_tunnel.Str.strip_by garuda_tunnel.Str.Number.is_int_space
    garuda_tunnel.Str.Number.unsigned garuda_tunnel.Str.Number.digits_value
    garuda_tunnel.Str.Number.digit_value has_key insert text_eq garuda_tunnel.Base.in_range
    garuda_tunnel.CliInput.after_bracket garuda_tunnel.CliInput.flags_node
    garuda_tunnel.CliInput.parse_item parse_named garuda_tunnel.CliInput.parse_named_from
    garuda_tunnel.CliInput.raw_fetch garuda_tunnel.CliInput.raw_kube
    garuda_tunnel.CliInput.raw_targets garuda_tunnel.CliInput.read_key
    garuda_tunnel.CliInput.split_bracketed garuda_tunnel.CliInput.with_default_port
    garuda_tunnel.Schemas.check_parts garuda_tunnel.Schemas.parse_host_port
    garuda_tunnel.Schemas.parse_port_str garuda_tunnel.Schemas.split_bracketed
    garuda_tunnel.Schemas.split_plain garuda_tunnel.Schemas.is_key_char
    garuda_tunnel.Schemas.is_key_start garuda_tunnel.Schemas.matches_key
    garuda_tunnel.Schemas.matches_rest garuda_tunnel.Schemas.validate_identifier_key
    garuda_tunnel.Schemas.build_optional garuda_tunnel.Schemas.build_values
    garuda_tunnel.Schemas.check_handle garuda_tunnel.Schemas.check_names
    garuda_tunnel.Schemas.input_schema garuda_tunnel.Schemas.no_entries
    garuda_tunnel.Schemas.parse_target garuda_tunnel.Schemas.parse_targets
    garuda_tunnel.Schemas.unset garuda_tunnel.Schemas.validate_auth
    garuda_tunnel.Schemas.validate_named garuda_tunnel.Schemas.validate_node
    garuda_tunnel.Schemas.validate_node_does_something garuda_tunnel.Schemas.validate_nodes
    garuda_tunnel.Schemas.validate_remote_targets garuda_tunnel.Schemas.daemon_options
    garuda_tunnel.Schemas.file_spec garuda_tunnel.Schemas.idle_in_range
    garuda_tunnel.Schemas.kube_target garuda_tunnel.Schemas.remote_target
    garuda_tunnel.Schemas.validate_absolute garuda_tunnel.Str.Number.digit_from
    garuda_tunnel.Str.Number.max_int_digits garuda_tunnel.Str.count_char garuda_tunnel.Str.cut_pair
    garuda_tunnel.Str.drop_blank garuda_tunnel.Str.drop_blank_end garuda_tunnel.Str.is_space
built = refl

build_single_node_schema-one_example :
    (n : NodeInput) × (schema.nodes ≡ (text "node", n) ∷ [])
    × (n.host ≡ text "h")
    × (n.port ≡ pos 80)
    × (n.user ≡ text "u")
    × (n.ssh_password ≡ given.ssh_password)
    × (n.ssh_pkey_passphrase ≡ given.ssh_key_passphrase)
    × (n.required ≡ true)
    × IsValidNode n
    × HasAuth none n
    × (schema.daemon ≡ daemon)
build_single_node_schema-one_example =
    build_single_node_schema-one no_file no_coercion none given daemon schema built (text "u")
      (text "h") (pos 80) reads

abbrev upper_none : ℕ → Text
upper_none c = []

abbrev forwarded : NodeOutput
forwarded = record { ports = (text "t", 40001) ∷ []; fetch_files = []; kube_targets = [] }

abbrev session : NodeOutput → OutputSchema
session n = record {
  connections = (text "node", n) ∷ [];
  pid = 5;
  session_dir = text "/s";
  started_at = text "now";
  warnings = [];
}

render_env-node_entries_example :
    (render_env upper_none (session forwarded)
      ≡ ok (node_entries upper_none (session forwarded) forwarded []))
    ↔ ((paths : List Text) × (kube_paths upper_none forwarded.kube_targets ≡ some paths)
        × (node_entries upper_none (session forwarded) forwarded []
            ≡ node_entries upper_none (session forwarded) forwarded paths)
        × NodupKeys (node_entries upper_none (session forwarded) forwarded []))
render_env-node_entries_example =
    render_env-node_entries upper_none (session forwarded) (text "node") forwarded
      (node_entries upper_none (session forwarded) forwarded []) refl

-- A forward and a kube target of one name.
abbrev both : NodeOutput
both = record {
  ports = (text "t", 40001) ∷ [];
  fetch_files = [];
  kube_targets = (text "t", kube_output) ∷ [];
}

has_forward : has_key (text "t") both.ports ≡ true
unfolding has_key text text_eq ℕ_discrete
has_forward = refl

has_kube : has_key (text "t") both.kube_targets ≡ true
unfolding has_key text text_eq ℕ_discrete
has_kube = refl

render_env-shared_name_example : render_env upper_none (session both) ≢ ok []
render_env-shared_name_example =
    render_env-shared_name upper_none (session both) (text "node") both [] (text "t") (text "t")
      refl has_forward has_kube refl

no_equals : All (λ name. contains name b'=' ≡ false) (text "A" ∷ [])
unfolding text nat_eq ℕ_discrete
no_equals = (refl, tt)

read_exports-format_exports_example :
    read_exports 1 (format_exports ((text "A", text "it's") ∷ []))
    ≡ some ((text "A", text "it's") ∷ [])
read_exports-format_exports_example =
    read_exports-format_exports (text "A", text "it's") [] no_equals
