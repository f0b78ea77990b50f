-- ===== src/Schemas/Specs.antt =====
-- `SSHOptions`, `DaemonOptions`, `FileSpec`, `KubeTarget` and `RemoteTarget` of tunstrap/schemas.py:
-- the models with the constraints of their fields.
use garuda_tunnel.Base.{
  Bool, true, false, not, ◌&&◌, [], ◌∷◌, Option, none, some, Text, nat_eq, leb, length, Result, ok,
  ◌>>=◌, ◌>>◌, raise_if, ℤ, pos, negsuc, in_range,
}
use garuda_tunnel.Str.{starts_with}
use garuda_tunnel.Schemas.Keys.{
  SchemaError, path_length, path_home, path_relative, host_length, port_range, idle_range,
}

pub record SshOptions : Type 0 where
  pub compression : Bool
  pub connect_timeout : ℤ

abbrev pub default_ssh_options : SshOptions
default_ssh_options = record { compression = false; connect_timeout = pos 60 }

pub record DaemonOptions : Type 0 where
  pub log_file : Option Text
  pub shutdown_grace_seconds : ℤ
  pub auto_stop_idle_seconds : Option ℤ
  pub materialize : Bool

-- `auto_stop_idle_seconds` has `ge=1`.
unfoldable pub idle_in_range : Option ℤ → Bool
idle_in_range none = true
idle_in_range (some (pos n)) = leb 1 n
idle_in_range (some (negsuc n)) = false

unfoldable pub daemon_options : DaemonOptions → Result SchemaError DaemonOptions
daemon_options o = do raise_if (not (idle_in_range o.auto_stop_idle_seconds)) idle_range; ok o

-- The two `_validate_absolute`, behind the bounds of the field, `min_length=1, max_length=4096`.
unfoldable pub validate_absolute : Text → Result SchemaError Text
validate_absolute value = do
  raise_if (not (leb 1 (length value) && leb (length value) 4096)) path_length
  raise_if (starts_with value (b'~' ∷ [])) path_home
  raise_if (not (starts_with value (b'/' ∷ []))) path_relative
  ok value

pub record FileSpec : Type 0 where
  pub path : Text
  pub required : Bool

unfoldable pub file_spec : FileSpec → Result SchemaError FileSpec
file_spec raw = do path ← validate_absolute raw.path; ok (record raw { path = path })

pub record KubeTarget : Type 0 where
  pub kubeconfig_path : Text
  pub tls_server_name : Option Text
  pub insecure_fallback : Bool
  pub required : Bool

unfoldable pub kube_target : KubeTarget → Result SchemaError KubeTarget
kube_target raw = do
  path ← validate_absolute raw.kubeconfig_path
  ok (record raw { kubeconfig_path = path })

pub record RemoteTarget : Type 0 where
  pub host : Text
  pub port : ℤ

-- `RemoteTarget(host=…, port=…)` with the bounds of its fields.
unfoldable pub remote_target : Text → ℤ → Result SchemaError RemoteTarget
remote_target host port = do
  raise_if (not (leb 1 (length host) && leb (length host) 255)) host_length
  raise_if (not (in_range 1 65535 port)) port_range
  ok (record { host = host; port = port })
