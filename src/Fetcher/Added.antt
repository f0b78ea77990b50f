-- ===== src/Fetcher/Added.antt =====
-- What one file adds to the results of `fetch_files` of tunstrap/fetcher.py.
use garuda_tunnel.Base.{
  ◌≡◌, refl, sym, false, ◌&&◌, List, [], ◌∷◌, ◌++◌, append-nil, append_assoc, none, Text, text_eq,
  is_some, if◌then◌else◌, length, arith, ok,
}
use garuda_tunnel.Base.Dict.{
  Dict, insert, insert_new, has_key, lookup, NodupKeys, Fresh, Fresh-insert,
}
use garuda_tunnel.Base64.{b64encode}
use garuda_tunnel.Schemas.{FileSpec, FetchedFile, failed_file, read_file, validate_xor}
use garuda_tunnel.Fetcher.{Sftp, Gathered, put_failed, fail_all, fail_rest, put_read}

-- The results for some files, in their order, with the names of the required ones that failed: each
-- result passes the validator.
pub data Fetched : Dict Text FileSpec → Dict Text FetchedFile → List Text → Type 0 where
  none_left : Fetched [] [] []
  fetched :
      (name : Text) (spec : FileSpec) (file : FetchedFile) {specs : Dict Text FileSpec}
      {results : Dict Text FetchedFile} {failures : List Text}
      → validate_xor file ≡ ok file
      → Fetched specs results failures
      → Fetched
          ((name, spec) ∷ specs)
          ((name, file) ∷ results)
          (if spec.required && is_some file.error then name ∷ failures else failures)

-- One file more.
unfoldable pub IsAdded : Text → FileSpec → Gathered → Gathered → Type 0
IsAdded name spec g g' =
    (file : FetchedFile) × (validate_xor file ≡ ok file)
    × (g'.results ≡ insert name file g.results)
    × (g'.required_failures ≡ (
        if spec.required && is_some file.error
        then g.required_failures ++ (name ∷ [])
        else g.required_failures))

-- All files more.
unfoldable pub AreAdded : Dict Text FileSpec → Gathered → Gathered → Type 0
AreAdded specs g g' =
    (results : Dict Text FetchedFile) × (failures : List Text) × Fetched specs results failures
    × (g'.results ≡ g.results ++ results)
    × (g'.required_failures ≡ g.required_failures ++ failures)

pub AreAdded-nil : (g : Gathered) → AreAdded [] g g
unfolding AreAdded
AreAdded-nil g =
    ([], [], none_left, sym (append-nil g.results), sym (append-nil g.required_failures))

pub AreAdded-cons :
    (name : Text) (spec : FileSpec) (specs : Dict Text FileSpec) (g g1 g' : Gathered)
    → IsAdded name spec g g1
    → has_key name g.results ≡ false
    → AreAdded specs g1 g'
    → AreAdded ((name, spec) ∷ specs) g g'
unfolding AreAdded IsAdded
AreAdded-cons name spec specs g g1 g' (file, valid, put, counted) fresh
      (results, failures, all, rs, fs) =
    (
      (name, file) ∷ results,
      if spec.required && is_some file.error then name ∷ failures else failures,
      fetched name spec file valid all,
      rw (
        rs,
        put,
        insert_new name file g.results fresh,
        append_assoc g.results ((name, file) ∷ []) results,
      ),
      ground (arith, fs, counted, append_assoc g.required_failures (name ∷ []) failures),
    )

pub put_failed-IsAdded :
    (name : Text) (spec : FileSpec) (code : Text) (g : Gathered)
    → IsAdded name spec g (put_failed name spec code g)
unfolding IsAdded put_failed validate_xor
put_failed-IsAdded name spec code g = (failed_file code, refl, refl, ground arith)

pub put_read-IsAdded :
    (sftp : Sftp) (hexdigest : Text → Text) (name : Text) (spec : FileSpec) (raw : Text)
    (g : Gathered)
    → IsAdded name spec g (put_read sftp hexdigest name raw g)
unfolding IsAdded put_read validate_xor
put_read-IsAdded sftp hexdigest name spec raw g =
    (read_file (b64encode raw) (length raw) (hexdigest raw), refl, refl, ground arith)

pub IsAdded-Fresh :
    (name : Text) (spec : FileSpec) (specs : Dict Text FileSpec) (g g' : Gathered)
    → IsAdded name spec g g'
    → lookup name specs ≡ none
    → Fresh specs g.results
    → Fresh specs g'.results
unfolding IsAdded
IsAdded-Fresh name spec specs g g' (file, _, put, _) h f =
    rw (put) (Fresh-insert specs name file g.results h f)

pub fail_all-AreAdded :
    (code : Text) (specs : Dict Text FileSpec) (g : Gathered)
    → NodupKeys specs
    → Fresh specs g.results
    → AreAdded specs g (fail_all code specs g)
unfolding fail_all Fresh
fail_all-AreAdded code [] g u f = AreAdded-nil g
fail_all-AreAdded code ((name, spec) ∷ specs) g (fresh, u) (f, fs) =
    let added = put_failed-IsAdded name spec code g in
    AreAdded-cons name spec specs g (put_failed name spec code g) _ added f (
      fail_all-AreAdded code specs (put_failed name spec code g) u
        (IsAdded-Fresh name spec specs g (put_failed name spec code g) added fresh fs))

-- Before any file has a result the two loops of failures agree.
pub fail_rest-fail_all :
    (code : Text) (specs : Dict Text FileSpec) (g : Gathered)
    → NodupKeys specs
    → Fresh specs g.results
    → fail_rest code specs g ≡ fail_all code specs g
unfolding fail_rest fail_all Fresh
fail_rest-fail_all code [] g u f = refl
fail_rest-fail_all code ((name, spec) ∷ specs) g (fresh, u) (f, fs) =
    let added = put_failed-IsAdded name spec code g in
    ground (
      arith,
      f,
      fail_rest-fail_all code specs (put_failed name spec code g) u
          (IsAdded-Fresh name spec specs g (put_failed name spec code g) added fresh fs),
    )
