-- ===== src/Schemas/Keys.antt =====
-- `_FETCH_FILES_KEY_RE` and `_validate_identifier_key` of tunstrap/schemas.py, and the errors of the
-- module's validators.
pub mod Accepted
use garuda_tunnel.Base.{
  ℕ, ◌≡◌, Bool, true, false, not, ◌&&◌, ◌||◌, [], ◌∷◌, Text, nat_eq, ◌==◌, leb, ltb, length,
  is_empty, if◌then◌else◌, Result, ok, err, ◌>>=◌, ◌>>◌, raise_if,
}

-- What a checked dict holds, the `kind` of the messages.
pub data Kind : Type 0 where
  remote_targets fetch_files kube_targets node : Kind

-- Why `_parse_host_port` refuses a text.
pub data HostPortError : Type 0 where
  ipv6_form missing_colon empty_host bad_port : HostPortError

-- The `ValueError`s of the validators, one constructor for each message.
pub data SchemaError : Type 0 where
  key_too_long : Kind → Text → SchemaError
  key_form : Kind → Text → SchemaError
  key_not_text : SchemaError
  path_length : SchemaError
  path_home : SchemaError
  path_relative : SchemaError
  host_length : SchemaError
  port_range : SchemaError
  idle_range : SchemaError
  targets_not_dict : SchemaError
  too_many : Kind → SchemaError
  empty_dict : Kind → SchemaError
  target_dict_form : Text → SchemaError
  target_not_text : Text → SchemaError
  target_text : Text → Text → HostPortError → SchemaError
  node_does_nothing : SchemaError
  no_credentials : Text → SchemaError
  both_content_and_error : SchemaError
  neither_content_nor_error : SchemaError
  content_without_digest : SchemaError
  error_with_digest : SchemaError

-- `[a-zA-Z_]`
unfoldable pub is_key_start : ℕ → Bool
is_key_start c = (leb b'a' c && leb c b'z') || ((leb b'A' c && leb c b'Z') || c == b'_')

-- `[a-zA-Z0-9_-]`
unfoldable pub is_key_char : ℕ → Bool
unfolding is_key_start
is_key_char c = is_key_start c || ((leb b'0' c && leb c b'9') || c == b'-')

-- `[a-zA-Z0-9_-]*$`. In Python `$` also matches before a newline that ends the text.
unfoldable pub matches_rest : Text → Bool
unfolding is_key_char
matches_rest [] = true
matches_rest (c ∷ s) = if is_key_char c then matches_rest s else c == 10 && is_empty s

-- `_FETCH_FILES_KEY_RE.match(name)`
unfoldable pub matches_key : Text → Bool
unfolding is_key_start matches_rest
matches_key [] = false
matches_key (c ∷ s) = is_key_start c && matches_rest s

unfoldable pub validate_identifier_key : Kind → Text → Result SchemaError (Unit {0})
unfolding matches_key
validate_identifier_key kind name = do
  raise_if (ltb 64 (length name)) (key_too_long kind name)
  raise_if (not (matches_key name)) (key_form kind name)
