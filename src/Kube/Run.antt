-- ===== src/Kube/Run.antt =====
-- `_fetch_one`, `_split_host_port` and `run_kube_targets` of tunstrap/kube.py. What the connection,
-- the YAML library, the URL parser and the TLS probe do is an argument.
pub mod Outcomes
pub mod Independence
pub mod Opened
use garuda_tunnel.Base.{
  ℕ, ◌+◌, Bool, true, false, List, [], ◌∷◌, ◌++◌, map, Option, none, some, Text, text, text_eq,
  nat_eq, ◌==◌, ltb, length, is_empty, if◌then◌else◌, Result, ok, err, ◌>>=◌, ◌>>◌, raise_if,
  map_err,
}
use garuda_tunnel.Base.Dict.{Dict, insert}
use garuda_tunnel.Base64.{b64encode}
use garuda_tunnel.Value.{Value, Fields}
use garuda_tunnel.Messages.{
  KubeError, RemoteError, ErrorKind, Warning, url_malformed, url_not_https, url_has_no_host,
  url_bad_port, kube_unreadable, kube_invalid, ignored_context, no_usable_name,
}
use garuda_tunnel.Schemas.{KubeTarget, KubeTargetOutput, TunnelWarning}
use garuda_tunnel.Kube.Config.{KubeconfigView, parse_kubeconfig}
use garuda_tunnel.Kube.Tls.{CertificateNames, resolve_tls}
use garuda_tunnel.Kube.Patch.{patch_view, local_endpoint}

-- The parts that `urlsplit` finds: the scheme, the host name, and the port, absent or invalid.
pub data PortPart : Type 0 where
  absent invalid : PortPart
  number : ℕ → PortPart

pub record UrlParts : Type 0 where
  pub scheme : Text
  pub hostname : Option Text
  pub port : PortPart

-- `not host`
unfoldable pub host_or : KubeError → Option Text → Result KubeError Text
host_or e none = err e
host_or e (some []) = err e
host_or e (some (c ∷ host)) = ok (c ∷ host)

unfoldable pub port_or_default : KubeError → PortPart → Result KubeError ℕ
port_or_default e absent = ok 443
port_or_default e invalid = err e
port_or_default e (number n) = ok n

unfoldable pub check_url : Text → UrlParts → Result KubeError (Text × ℕ)
check_url server parts = do
  raise_if (if parts.scheme == text "https" then false else true)
      (url_not_https parts.scheme server)
  host ← host_or (url_has_no_host server) parts.hostname
  port ← port_or_default (url_bad_port server) parts.port
  ok (host, port)

unfoldable pub split_host_port : (Text → Option UrlParts) → Text → Result KubeError (Text × ℕ)
split_host_port urlsplit server = elim (urlsplit server) [
  | none ↦ err (url_malformed server)
  | some parts ↦ check_url server parts
]

-- The world around one run: the calls that are made for the target of a name, and the libraries.
pub record Remote : Type 0 where
  pub start_sftp : Text → Result RemoteError (Unit {0})
  pub stat : Text → Text → Result RemoteError (Option ℕ)
  pub read : Text → Text → ℕ → Result RemoteError Text
  pub forward : Text → Text → ℕ → Result RemoteError ℕ
  pub probe : Text → ℕ → Result RemoteError CertificateNames
  pub load : Text → Option Value
  pub dump : Fields → Text
  pub urlsplit : Text → Option UrlParts

unfoldable pub max_bytes : ℕ
max_bytes = 1048576

abbrev pub cap_error : RemoteError
cap_error = record {
  kind = ErrorKind.os;
  class_name = text "OSError";
  message = text "kubeconfig exceeds 1 MiB cap";
}

-- `stat.size is not None and stat.size > cap`
unfoldable pub over_cap : Option ℕ → Bool
over_cap none = false
over_cap (some size) = ltb max_bytes size

unfoldable pub fetch_one : Remote → Text → Text → Result RemoteError Text
fetch_one remote name path = do
  remote.start_sftp name
  size ← remote.stat name path
  raise_if (over_cap size) cap_error
  raw ← remote.read name path (max_bytes + 1)
  raise_if (ltb max_bytes (length raw)) cap_error
  ok raw

-- Why a kubeconfig is not read: the call failed, or it does not parse.
pub data Unread : Type 0 where
  remote_failure : RemoteError → Unread
  parse_failure : KubeError → Unread

unfoldable pub fetch_and_parse : Remote → Text → KubeTarget → Result Unread KubeconfigView
fetch_and_parse remote name target = do
  raw ← map_err remote_failure (fetch_one remote name target.kubeconfig_path)
  map_err parse_failure (parse_kubeconfig remote.load raw)

-- The errors that the loop catches: `OSError` and `TimeoutError`. An `asyncssh.Error`, which
-- `SFTPError` is, is neither.
unfoldable pub is_caught : ErrorKind → Bool
is_caught ErrorKind.os = true
is_caught ErrorKind.timeout = true
is_caught _ = false

-- What the loop has gathered, and the local ports of the listeners that it left open.
pub record Progress : Type 0 where
  pub outputs : Dict Text KubeTargetOutput
  pub required_failures : List Text
  pub warnings : List TunnelWarning
  pub listeners : List ℕ

abbrev pub no_progress : Progress
no_progress = record { outputs = []; required_failures = []; warnings = []; listeners = [] }

module _ (remote : Remote) (node_name : Text) where
  abbrev pub warn : Bool → Warning → TunnelWarning
  warn skipped w = record { node = node_name; error = w; skipped = skipped }

  -- `required_failures.append(name)` if the target is required
  abbrev pub note_failure : Text → KubeTarget → List Text → List Text
  note_failure name target failures = if target.required then failures ++ (name ∷ []) else failures

  -- A target that is given up with one warning.
  unfoldable pub give_up : Text → KubeTarget → Warning → Progress → Progress
  give_up name target w p = record p {
    required_failures = note_failure name target p.required_failures;
    warnings = p.warnings ++ (warn true w ∷ []);
  }

  unfoldable pub warn_ignored : Text → List Value → Progress → Progress
  warn_ignored name contexts p = record p {
    warnings = p.warnings ++ map (λ c. warn false (ignored_context name c)) contexts;
  }

  abbrev pub tls_warnings : List Warning → Progress → Progress
  tls_warnings ws p = record p { warnings = p.warnings ++ map (warn false) ws }

  -- The output of a target whose document was patched.
  unfoldable pub target_output : KubeconfigView → ℕ → Option Text → Bool → Fields → KubeTargetOutput
  target_output view local_port tls_name insecure patched = record {
    cluster_name = view.cluster_name;
    context_name = view.context_name;
    local_port = local_port;
    endpoint = local_endpoint local_port;
    tls_server_name = if insecure then none else tls_name;
    certificate_authority_data = if insecure then [] else view.certificate_authority_data;
    client_certificate_data = view.client_certificate_data;
    client_key_data = view.client_key_data;
    content_b64 = b64encode (remote.dump patched);
    path = none;
  }

  -- `AssertionError`, which is caught nowhere below the worker's guard.
  abbrev pub assertion_error : RemoteError
  assertion_error = record {
    kind = ErrorKind.foreign;
    class_name = text "AssertionError";
    message = [];
  }

  -- The patch, and the listener that stays open.
  unfoldable pub finish :
      Text → KubeconfigView → ℕ → Option Text → Bool → Progress → Result RemoteError Progress
  finish name view local_port tls_name insecure p =
      elim (patch_view view local_port tls_name insecure) [
        | none ↦ err assertion_error
        | some patched ↦ ok (record p {
          outputs = insert name (target_output view local_port tls_name insecure patched) p.outputs;
          listeners = p.listeners ++ (local_port ∷ []);
        })
      ]

  -- With no name and no leave to go on the listener is closed again.
  unfoldable pub judge_tls :
      Text
      → KubeTarget
      → KubeconfigView
      → ℕ
      → Option Text
      → Bool
      → Progress
      → Result RemoteError Progress
  judge_tls name target view local_port none false p =
      ok (give_up name target (no_usable_name name) p)
  judge_tls name target view local_port tls_name insecure p =
      finish name view local_port tls_name insecure p

  unfoldable pub connect :
      Text → KubeTarget → KubeconfigView → Progress → Result RemoteError Progress
  connect name target view p = elim (split_host_port remote.urlsplit view.server) [
    | err e ↦ ok (give_up name target (kube_invalid name e) p)
    | ok (host, port) ↦ do
      local_port ← remote.forward name host port
      tls ← resolve_tls target host local_port (remote.probe name) name
      judge_tls name target view local_port tls.0.0 tls.0.1 (tls_warnings tls.1 p)
  ]

  -- One target. An error that is not caught leaves the loop.
  unfoldable pub run_target : Text → KubeTarget → Progress → Result RemoteError Progress
  run_target name target p = elim (fetch_and_parse remote name target) [
    | ok view ↦ connect name target view (warn_ignored name view.ignored_contexts p)
    | err (parse_failure e) ↦ ok (give_up name target (kube_invalid name e) p)
    | err (remote_failure e) ↦
        if is_caught e.kind then ok (give_up name target (kube_unreadable name e) p) else err e
  ]

  unfoldable pub run_targets : Dict Text KubeTarget → Progress → Result RemoteError Progress
  run_targets [] p = ok p
  run_targets ((name, target) ∷ targets) p = do
    p' ← run_target name target p
    run_targets targets p'

  unfoldable pub run_kube_targets : Dict Text KubeTarget → Result RemoteError Progress
  run_kube_targets targets = run_targets targets no_progress

  -- The listener that a target has opened when an error leaves it.
  unfoldable pub opened_by : Text → KubeTarget → List ℕ
  opened_by name target = elim (fetch_and_parse remote name target) [
    | err _ ↦ []
    | ok view ↦ elim (split_host_port remote.urlsplit view.server) [
      | err _ ↦ []
      | ok (host, port) ↦ elim (remote.forward name host port) [
        | err _ ↦ []
        | ok local_port ↦ local_port ∷ []
      ]
    ]
  ]

  -- The listeners that a run leaves open on the connection, also where an error leaves it.
  unfoldable pub left_open : Dict Text KubeTarget → Progress → List ℕ
  left_open [] p = p.listeners
  left_open ((name, target) ∷ targets) p = elim (run_target name target p) [
    | ok p' ↦ left_open targets p'
    | err _ ↦ p.listeners ++ opened_by name target
  ]
