-- ===== src/Fetcher.antt =====
-- tunstrap/fetcher.py. What the SFTP channel answers is an argument, and so is the SHA-256 digest.
pub mod Added
pub mod Fetched
pub mod Returns
use Prim.Native.Nat.{zero, suc}
use garuda_tunnel.Base.{
  ℕ, ◌+◌, Bool, true, false, not, List, [], ◌∷◌, ◌++◌, Option, none, some, Text, text, text_eq, ltb,
  length, if◌then◌else◌, Result, ok, err, ◌>>=◌, ◌>>◌, raise_if, map_err,
}
use garuda_tunnel.Base.Dict.{Dict, insert, has_key}
use garuda_tunnel.Base64.{b64encode}
use garuda_tunnel.Messages.{RemoteError, ErrorKind}
use garuda_tunnel.Schemas.{FileSpec, FetchedFile, failed_file, read_file}

-- `conn.start_sftp_client`, the entry and the exit of its context, and the calls on the channel.
pub record Sftp : Type 0 where
  pub start : Result RemoteError (Unit {0})
  pub enter : Result RemoteError (Unit {0})
  pub stat : Text → Result RemoteError (Option ℕ)
  pub read : Text → ℕ → Result RemoteError Text
  pub leave : Result RemoteError (Unit {0})

-- `asyncssh.Error`, which `SFTPError` is, `OSError` and `TimeoutError`
unfoldable pub is_transport : ErrorKind → Bool
is_transport (ErrorKind.sftp _) = true
is_transport ErrorKind.ssh = true
is_transport ErrorKind.os = true
is_transport ErrorKind.timeout = true
is_transport _ = false

unfoldable pub max_fetch_bytes : ℕ
max_fetch_bytes = 1048576

-- `_SFTP_ERRNO_NAMES.get(code, "SSH_FX_UNKNOWN")`
unfoldable pub sftp_errno_name : ℕ → Text
sftp_errno_name (suc zero) = text "SSH_FX_EOF"
sftp_errno_name (suc (suc zero)) = text "SSH_FX_NO_SUCH_FILE"
sftp_errno_name (suc (suc (suc zero))) = text "SSH_FX_PERMISSION_DENIED"
sftp_errno_name (suc (suc (suc (suc zero)))) = text "SSH_FX_FAILURE"
sftp_errno_name (suc (suc (suc (suc (suc zero))))) = text "SSH_FX_BAD_MESSAGE"
sftp_errno_name (suc (suc (suc (suc (suc (suc zero)))))) = text "SSH_FX_NO_CONNECTION"
sftp_errno_name (suc (suc (suc (suc (suc (suc (suc zero))))))) = text "SSH_FX_CONNECTION_LOST"
sftp_errno_name (suc (suc (suc (suc (suc (suc (suc (suc zero)))))))) = text "SSH_FX_OP_UNSUPPORTED"
sftp_errno_name _ = text "SSH_FX_UNKNOWN"

unfoldable pub classify_kind : ErrorKind → Text → Text
classify_kind (ErrorKind.sftp code) name = sftp_errno_name code
classify_kind _ name = name

unfoldable pub classify_error : RemoteError → Text
classify_error e = classify_kind e.kind e.class_name

-- Why a file is not read: it is over the cap, or a call raised.
pub data Unread : Type 0 where
  cap_exceeded : Unread
  raised : RemoteError → Unread

unfoldable pub size_over : Option ℕ → Bool
size_over none = false
size_over (some size) = ltb max_fetch_bytes size

-- The results and the required failures so far.
pub record Gathered : Type 0 where
  pub results : Dict Text FetchedFile
  pub required_failures : List Text

abbrev pub nothing_gathered : Gathered
nothing_gathered = record { results = []; required_failures = [] }

-- `results[name] = FetchedFile(error=code)`, and the name is a failure if the file is required.
unfoldable pub put_failed : Text → FileSpec → Text → Gathered → Gathered
put_failed name spec code g = record {
  results = insert name (failed_file code) g.results;
  required_failures =
      if spec.required then g.required_failures ++ (name ∷ []) else g.required_failures;
}

-- The loop over all files when no channel is started.
unfoldable pub fail_all : Text → Dict Text FileSpec → Gathered → Gathered
fail_all code [] g = g
fail_all code ((name, spec) ∷ specs) g = fail_all code specs (put_failed name spec code g)

-- The loop over the files that have no result yet.
unfoldable pub fail_rest : Text → Dict Text FileSpec → Gathered → Gathered
fail_rest code [] g = g
fail_rest code ((name, spec) ∷ specs) g =
    fail_rest code specs (if has_key name g.results then g else put_failed name spec code g)

module _ (sftp : Sftp) (hexdigest : Text → Text) where
  unfoldable pub read_capped : Text → Result Unread Text
  read_capped path = do
    size ← map_err raised (sftp.stat path)
    raise_if (size_over size) cap_exceeded
    raw ← map_err raised (sftp.read path (max_fetch_bytes + 1))
    raise_if (ltb max_fetch_bytes (length raw)) cap_exceeded
    ok raw

  unfoldable pub put_read : Text → Text → Gathered → Gathered
  put_read name raw g = record g {
    results = insert name (read_file (b64encode raw) (length raw) (hexdigest raw)) g.results;
  }

  unfoldable pub fetch_spec : Text → FileSpec → Gathered → Result RemoteError Gathered
  fetch_spec name spec g = elim (read_capped spec.path) [
    | ok raw ↦ ok (put_read name raw g)
    | err cap_exceeded ↦ ok (put_failed name spec (text "EFBIG") g)
    | err (raised e) ↦
        if is_transport e.kind then ok (put_failed name spec (classify_error e) g) else err e
  ]

  unfoldable pub fetch_specs : Dict Text FileSpec → Gathered → Result RemoteError Gathered
  fetch_specs [] g = ok g
  fetch_specs ((name, spec) ∷ specs) g = do g' ← fetch_spec name spec g; fetch_specs specs g'

  -- The handler around the context: a transport error fails the files without a result.
  unfoldable pub guarded :
      Dict Text FileSpec → Gathered → Result RemoteError (Unit {0}) → Result RemoteError Gathered
  guarded specs g (ok _) = ok g
  guarded specs g (err e) =
      if is_transport e.kind then ok (fail_rest (classify_error e) specs g) else err e

  -- The context: entered, the files fetched, and left.
  unfoldable pub with_channel : Dict Text FileSpec → Result RemoteError Gathered
  with_channel specs = elim sftp.enter [
    | err e ↦ guarded specs nothing_gathered (err e)
    | ok _ ↦ do g ← fetch_specs specs nothing_gathered; guarded specs g sftp.leave
  ]

  unfoldable pub fetch_files : Dict Text FileSpec → Result RemoteError Gathered
  fetch_files [] = ok nothing_gathered
  fetch_files (s ∷ specs) = elim sftp.start [
    | ok _ ↦ with_channel (s ∷ specs)
    | err e ↦
        if is_transport e.kind
        then ok (fail_all (classify_error e) (s ∷ specs) nothing_gathered)
        else err e
  ]
