-- ===== src/Messages.antt =====
-- The exceptions and warnings of the daemon, one constructor for each message of the source: the
-- class and the arguments of a message are modelled, its wording is not.
use garuda_tunnel.Base.{ℕ, List, Text}
use garuda_tunnel.Value.{Value}

-- `KubeParseError`s of tunstrap/kube.py.
pub data KubeError : Type 0 where
  not_yaml : KubeError
  root_not_mapping : KubeError
  no_current_context : KubeError
  context_not_found : Text → KubeError
  context_incomplete : Text → KubeError
  context_not_text : Text → KubeError
  cluster_not_found : Text → KubeError
  cluster_has_no_server : Text → KubeError
  user_not_found : Text → KubeError
  field_not_text : Text → Text → KubeError
  url_malformed : Text → KubeError
  url_not_https : Text → Text → KubeError
  url_has_no_host : Text → KubeError
  url_bad_port : Text → KubeError

-- What a call of the SSH library or of the system raises: an `SFTPError` with its code, another
-- `asyncssh.Error`, an `OSError`, a `TimeoutError`, a domain error of the program, or anything else.
pub data ErrorKind : Type 0 where
  sftp : ℕ → ErrorKind
  ssh os timeout startup foreign : ErrorKind

pub record RemoteError : Type 0 where
  pub kind : ErrorKind
  pub class_name : Text
  pub message : Text

-- `runtime.error` of tunstrap/manager.py.
pub data NodeError : Type 0 where
  raised : RemoteError → NodeError
  files_failed : List Text → NodeError
  kube_failed : List Text → NodeError

-- The text of a `TunnelWarning`, by the place that writes it.
pub data Warning : Type 0 where
  kube_unreadable : Text → RemoteError → Warning
  kube_invalid : Text → KubeError → Warning
  ignored_context : Text → Value → Warning
  no_usable_name : Text → Warning
  tls_disabled : Text → Warning
  tls_fell_back : Text → Text → Warning
  node_failed : NodeError → Warning
  unknown_error : Warning
