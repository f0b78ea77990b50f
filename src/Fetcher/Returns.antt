-- ===== src/Fetcher/Returns.antt =====
-- Which errors `fetch_files` of tunstrap/fetcher.py catches.
use garuda_tunnel.Base.{
  ℕ, ◌+◌, ◌≡◌, refl, inl, inr, true, [], ◌∷◌, Text, text, text_eq, arith, Result-cases, ok, err,
}
use garuda_tunnel.Base.Dict.{Dict}
use garuda_tunnel.Messages.{RemoteError}
use garuda_tunnel.Schemas.{FileSpec}
use garuda_tunnel.Fetcher.{
  Sftp, is_transport, max_fetch_bytes, classify_error, cap_exceeded, raised, Gathered,
  nothing_gathered, put_failed, fail_all, fail_rest, read_capped, put_read, fetch_spec, fetch_specs,
  guarded, with_channel, fetch_files,
}

-- Errors of the channel and of its calls are those of the transport.
pub record IsTransportOnly (sftp : Sftp) : Type 0 where
  pub start_only : (e : RemoteError) → sftp.start ≡ err e → is_transport e.kind ≡ true
  pub enter_only : (e : RemoteError) → sftp.enter ≡ err e → is_transport e.kind ≡ true
  pub stat_only :
      (path : Text) (e : RemoteError) → sftp.stat path ≡ err e → is_transport e.kind ≡ true
  pub read_only :
      (path : Text) (n : ℕ) (e : RemoteError)
      → sftp.read path n ≡ err e
      → is_transport e.kind ≡ true
  pub leave_only : (e : RemoteError) → sftp.leave ≡ err e → is_transport e.kind ≡ true

read_capped-only :
    (sftp : Sftp) (hexdigest : Text → Text) (path : Text) (e : RemoteError)
    → IsTransportOnly sftp
    → read_capped sftp hexdigest path ≡ err (raised e)
    → is_transport e.kind ≡ true
unfolding read_capped
read_capped-only sftp hexdigest path e only h = elim (Result-cases (sftp.stat path)) [
  | inr (e', fails) ↦ only.stat_only path e (ground arith)
  | inl (size, sized) ↦ elim (Result-cases (sftp.read path (max_fetch_bytes + 1))) [
    | inr (e', fails) ↦ only.read_only path (max_fetch_bytes + 1) e (ground arith)
    | inl (raw, read) ↦ ground arith
  ]
]

fetch_spec-returns :
    (sftp : Sftp) (hexdigest : Text → Text) (name : Text) (spec : FileSpec) (g : Gathered)
    → IsTransportOnly sftp
    → (g' : Gathered) × (fetch_spec sftp hexdigest name spec g ≡ ok g')
unfolding fetch_spec
fetch_spec-returns sftp hexdigest name spec g only =
    elim (Result-cases (read_capped sftp hexdigest spec.path)) [
      | inl (raw, read) ↦ (put_read sftp hexdigest name raw g, ground arith)
      | inr (cap_exceeded, unread) ↦ (put_failed name spec (text "EFBIG") g, ground arith)
      | inr (raised e, unread) ↦ (
        put_failed name spec (classify_error e) g,
        ground (arith, read_capped-only sftp hexdigest spec.path e only unread),
      )
    ]

fetch_specs-returns :
    (sftp : Sftp) (hexdigest : Text → Text) (specs : Dict Text FileSpec) (g : Gathered)
    → IsTransportOnly sftp
    → (g' : Gathered) × (fetch_specs sftp hexdigest specs g ≡ ok g')
unfolding fetch_specs
fetch_specs-returns sftp hexdigest [] g only = (g, refl)
fetch_specs-returns sftp hexdigest ((name, spec) ∷ specs) g only =
    let (g1, h1) = fetch_spec-returns sftp hexdigest name spec g only in
    let (g2, h2) = fetch_specs-returns sftp hexdigest specs g1 only in (g2, rw (h1) h2)

guarded-returns :
    (sftp : Sftp) (hexdigest : Text → Text) (specs : Dict Text FileSpec) (g : Gathered)
    → IsTransportOnly sftp
    → (g' : Gathered) × (guarded sftp hexdigest specs g sftp.leave ≡ ok g')
unfolding guarded
guarded-returns sftp hexdigest specs g only = elim (Result-cases sftp.leave) [
  | inl (_, left) ↦ (g, ground arith)
  | inr (e, fails) ↦ (fail_rest (classify_error e) specs g, ground (arith, only.leave_only e fails))
]

with_channel-returns :
    (sftp : Sftp) (hexdigest : Text → Text) (specs : Dict Text FileSpec)
    → IsTransportOnly sftp
    → (g : Gathered) × (with_channel sftp hexdigest specs ≡ ok g)
unfolding with_channel guarded
with_channel-returns sftp hexdigest specs only = elim (Result-cases sftp.enter) [
  | inl (_, enters) ↦
      let (g1, h1) = fetch_specs-returns sftp hexdigest specs nothing_gathered only in
      let (g2, h2) = guarded-returns sftp hexdigest specs g1 only in
      (g2, ground (arith, enters, h1, h2))
  | inr (e, fails) ↦
      (fail_rest (classify_error e) specs nothing_gathered, ground (arith, only.enter_only e fails))
]

-- Where every error of the channel is one of the transport, all of them are caught: the fetch
-- returns.
pub fetch_files-returns :
    (sftp : Sftp) (hexdigest : Text → Text) (specs : Dict Text FileSpec)
    → IsTransportOnly sftp
    → (g : Gathered) × (fetch_files sftp hexdigest specs ≡ ok g)
unfolding fetch_files
fetch_files-returns sftp hexdigest [] only = (nothing_gathered, refl)
fetch_files-returns sftp hexdigest (s ∷ specs) only = elim (Result-cases sftp.start) [
  | inl (_, starts) ↦
      let (g, h) = with_channel-returns sftp hexdigest (s ∷ specs) only in
      (g, ground (arith, starts, h))
  | inr (e, fails) ↦ (
    fail_all (classify_error e) (s ∷ specs) nothing_gathered,
    ground (arith, only.start_only e fails),
  )
]
