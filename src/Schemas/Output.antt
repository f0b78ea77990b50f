-- ===== src/Schemas/Output.antt =====
-- The output models of tunstrap/schemas.py.
use garuda_tunnel.Base.{
  ℕ, Bool, not, ◌&&◌, ◌||◌, List, Option, none, some, Text, is_some, Result, ok, ◌>>◌, raise_if,
}
use garuda_tunnel.Base.Dict.{Dict}
use garuda_tunnel.Value.{Fields}
use garuda_tunnel.Messages.{Warning}
use garuda_tunnel.Schemas.Keys.{
  SchemaError, both_content_and_error, neither_content_nor_error, content_without_digest,
  error_with_digest,
}

pub record FetchedFile : Type 0 where
  pub content_b64 : Option Text
  pub size : Option ℕ
  pub sha256 : Option Text
  pub error : Option Text

unfoldable pub validate_xor : FetchedFile → Result SchemaError FetchedFile
validate_xor file = do
  let has_success = is_some file.content_b64
  let has_error = is_some file.error
  raise_if (has_success && has_error) both_content_and_error
  raise_if (not has_success && not has_error) neither_content_nor_error
  raise_if (has_success && (not (is_some file.size) || not (is_some file.sha256)))
      content_without_digest
  raise_if (has_error && (is_some file.size || is_some file.sha256)) error_with_digest
  ok file

-- `FetchedFile(error=…)` and `FetchedFile(content_b64=…, size=…, sha256=…)`, which the validator
-- accepts.
abbrev pub failed_file : Text → FetchedFile
failed_file e = record { content_b64 = none; size = none; sha256 = none; error = some e }

abbrev pub read_file : Text → ℕ → Text → FetchedFile
read_file b64 n digest = record {
  content_b64 = some b64;
  size = some n;
  sha256 = some digest;
  error = none;
}

pub record KubeTargetOutput : Type 0 where
  pub cluster_name : Text
  pub context_name : Text
  pub local_port : ℕ
  pub endpoint : Text
  pub tls_server_name : Option Text
  pub certificate_authority_data : Text
  pub client_certificate_data : Text
  pub client_key_data : Text
  pub content_b64 : Text
  pub path : Option Text

pub record NodeOutput : Type 0 where
  pub ports : Dict Text ℕ
  pub fetch_files : Dict Text FetchedFile
  pub kube_targets : Dict Text KubeTargetOutput

pub record TunnelWarning : Type 0 where
  pub node : Text
  pub error : Warning
  pub skipped : Bool

pub record OutputSchema : Type 0 where
  pub connections : Dict Text NodeOutput
  pub pid : ℕ
  pub session_dir : Text
  pub started_at : Text
  pub warnings : List TunnelWarning

pub record ErrorOutput : Type 0 where
  pub error : Text
  pub message : Text
  pub details : Fields
