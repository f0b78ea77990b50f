-- ===== src/Fetcher/Fetched.antt =====
-- What `fetch_files` of tunstrap/fetcher.py returns for each file.
use garuda_tunnel.Base.{
  ◌≡◌, refl, inl, inr, sym, subst, ◌∙◌, true, List, [], ◌∷◌, Text, text, text_eq, arith, Bool-cases,
  Result-cases, ok, >>=-eq-ok,
}
use garuda_tunnel.Base.Dict.{Dict, has_key, NodupKeys, Fresh, Fresh-nil}
use garuda_tunnel.Schemas.{FileSpec, FetchedFile}
use garuda_tunnel.Fetcher.{
  Sftp, is_transport, classify_error, cap_exceeded, raised, Gathered, nothing_gathered, fail_rest,
  read_capped, fetch_spec, fetch_specs, guarded, with_channel, fetch_files,
}
use garuda_tunnel.Fetcher.Added.{
  Fetched, none_left, fetched, IsAdded, AreAdded, AreAdded-nil, AreAdded-cons, put_failed-IsAdded,
  put_read-IsAdded, IsAdded-Fresh, fail_all-AreAdded, fail_rest-fail_all,
}

fetch_spec-IsAdded :
    (sftp : Sftp) (hexdigest : Text → Text) (name : Text) (spec : FileSpec) (g g' : Gathered)
    → fetch_spec sftp hexdigest name spec g ≡ ok g'
    → IsAdded name spec g g'
unfolding fetch_spec
fetch_spec-IsAdded sftp hexdigest name spec g g' h =
    elim (Result-cases (read_capped sftp hexdigest spec.path)) [
      | inl (raw, read) ↦
          subst (IsAdded name spec g) (ground arith)
            (put_read-IsAdded sftp hexdigest name spec raw g)
      | inr (cap_exceeded, unread) ↦
          subst (IsAdded name spec g) (ground arith) (put_failed-IsAdded name spec (text "EFBIG") g)
      | inr (raised e, unread) ↦ elim (Bool-cases (is_transport e.kind)) [
        | inl caught ↦
            subst (IsAdded name spec g) (ground arith)
              (put_failed-IsAdded name spec (classify_error e) g)
        | inr missed ↦ ground arith
      ]
    ]

fetch_specs-AreAdded :
    (sftp : Sftp) (hexdigest : Text → Text) (specs : Dict Text FileSpec) (g g' : Gathered)
    → NodupKeys specs
    → Fresh specs g.results
    → fetch_specs sftp hexdigest specs g ≡ ok g'
    → AreAdded specs g g'
unfolding fetch_specs Fresh
fetch_specs-AreAdded sftp hexdigest [] g g' u f h =
    subst (AreAdded [] g) (ground arith) (AreAdded-nil g)
fetch_specs-AreAdded sftp hexdigest ((name, spec) ∷ specs) g g' (fresh, u) (f, fs) h =
    let (g1, h1, r1) =
      >>=-eq-ok (fetch_spec sftp hexdigest name spec g) (fetch_specs sftp hexdigest specs) h in
    let added = fetch_spec-IsAdded sftp hexdigest name spec g g1 h1 in
    AreAdded-cons name spec specs g g1 g' added f (
      fetch_specs-AreAdded sftp hexdigest specs g1 g' u
        (IsAdded-Fresh name spec specs g g1 added fresh fs) r1)

-- Every file has a result.
Done : Dict Text FileSpec → Dict Text FetchedFile → Type 0
Done [] results = Unit
Done ((name, _) ∷ specs) results = (has_key name results ≡ true) × Done specs results

Done-cons :
    (specs : Dict Text FileSpec) (name : Text) (file : FetchedFile)
    (results : Dict Text FetchedFile)
    → Done specs results
    → Done specs ((name, file) ∷ results)
unfolding Done has_key
Done-cons [] name file results d = tt
Done-cons (_ ∷ specs) name file results (d, ds) =
    (ground (arith, d), Done-cons specs name file results ds)

Fetched-Done :
    (specs : Dict Text FileSpec) (results : Dict Text FetchedFile) (failures : List Text)
    → Fetched specs results failures
    → Done specs results
unfolding Done has_key
Fetched-Done specs results failures none_left = tt
Fetched-Done specs' results' failures' (fetched name spec file {specs} {results} {failures} _ all) =
    (ground arith, Done-cons specs name file results (Fetched-Done specs results failures all))

fail_rest-Done :
    (code : Text) (specs : Dict Text FileSpec) (g : Gathered)
    → Done specs g.results
    → fail_rest code specs g ≡ g
unfolding fail_rest Done
fail_rest-Done code [] g d = refl
fail_rest-Done code (_ ∷ specs) g (d, ds) = ground (arith, d, fail_rest-Done code specs g ds)

-- An error on leaving the channel changes nothing.
guarded-leave :
    (sftp : Sftp) (hexdigest : Text → Text) (specs : Dict Text FileSpec) (g1 g : Gathered)
    → Done specs g1.results
    → guarded sftp hexdigest specs g1 sftp.leave ≡ ok g
    → g1 ≡ g
unfolding guarded
guarded-leave sftp hexdigest specs g1 g d h = elim (Result-cases sftp.leave) [
  | inl (_, left) ↦ ground arith
  | inr (e, fails) ↦ ground (arith, fail_rest-Done (classify_error e) specs g1 d)
]

AreAdded-Done :
    (specs : Dict Text FileSpec) (g : Gathered)
    → AreAdded specs nothing_gathered g
    → Done specs g.results
unfolding AreAdded
AreAdded-Done specs g (results, failures, all, rs, fs) =
    rw (rs) (Fetched-Done specs results failures all)

with_channel-AreAdded :
    (sftp : Sftp) (hexdigest : Text → Text) (specs : Dict Text FileSpec) (g : Gathered)
    → NodupKeys specs
    → with_channel sftp hexdigest specs ≡ ok g
    → AreAdded specs nothing_gathered g
unfolding with_channel guarded
with_channel-AreAdded sftp hexdigest specs g u h =
    let fresh : Fresh specs nothing_gathered.results =
      Fresh-nil specs nothing_gathered.results refl in
    elim (Result-cases sftp.enter) [
      | inr (e, fails) ↦ elim (Bool-cases (is_transport e.kind)) [
        | inl caught ↦
            subst (AreAdded specs nothing_gathered)
              (sym (fail_rest-fail_all (classify_error e) specs nothing_gathered u fresh)
                ∙ ground arith)
              (fail_all-AreAdded (classify_error e) specs nothing_gathered u fresh)
        | inr missed ↦ ground arith
      ]
      | inl (_, enters) ↦
          let (g1, h1, r1) =
            >>=-eq-ok (fetch_specs sftp hexdigest specs nothing_gathered)
              (λ g1. guarded sftp hexdigest specs g1 sftp.leave) {b = g} (ground arith) in
          let added = fetch_specs-AreAdded sftp hexdigest specs nothing_gathered g1 u fresh h1 in
          subst (AreAdded specs nothing_gathered)
            (guarded-leave sftp hexdigest specs g1 g (AreAdded-Done specs g1 added) r1) added
    ]

fetch_files-AreAdded :
    (sftp : Sftp) (hexdigest : Text → Text) (specs : Dict Text FileSpec) (g : Gathered)
    → NodupKeys specs
    → fetch_files sftp hexdigest specs ≡ ok g
    → AreAdded specs nothing_gathered g
unfolding fetch_files
fetch_files-AreAdded sftp hexdigest [] g u h =
    subst (AreAdded [] nothing_gathered) (ground arith) (AreAdded-nil nothing_gathered)
fetch_files-AreAdded sftp hexdigest (s ∷ specs) g u h = elim (Result-cases sftp.start) [
  | inl (_, starts) ↦ with_channel-AreAdded sftp hexdigest (s ∷ specs) g u (ground arith)
  | inr (e, fails) ↦ elim (Bool-cases (is_transport e.kind)) [
    | inl caught ↦ subst (AreAdded (s ∷ specs) nothing_gathered) (ground arith) (
        fail_all-AreAdded (classify_error e) (s ∷ specs) nothing_gathered u
          (Fresh-nil (s ∷ specs) nothing_gathered.results refl))
    | inr missed ↦ ground arith
  ]
]

-- For files of differing names, whatever the channel does: if the fetch returns, it has one
-- result for each file, in order, that the validator accepts, and the required failures are the
-- required files whose result is an error.
pub fetch_files-Fetched :
    (sftp : Sftp) (hexdigest : Text → Text) (specs : Dict Text FileSpec) (g : Gathered)
    → NodupKeys specs
    → fetch_files sftp hexdigest specs ≡ ok g
    → Fetched specs g.results g.required_failures
unfolding AreAdded
fetch_files-Fetched sftp hexdigest specs g u h =
    let (results, failures, all, rs, fs) = fetch_files-AreAdded sftp hexdigest specs g u h in
    rw (rs, fs) all
