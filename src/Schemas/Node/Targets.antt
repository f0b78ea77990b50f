-- ===== src/Schemas/Node/Targets.antt =====
-- What `_validate_remote_targets` and the checks of paths in tunstrap/schemas.py let through.
use garuda_tunnel.Base.{
  ℕ, suc, ◌+◌, ◌≤◌, ◌≡◌, ap, inl, inr, true, false, [], ◌∷◌, Option, none, some, Text, text_eq,
  ◌==◌, ltb, length, ok, map_err, arith, ℤ, in_range, Bool-cases, Option-cases, All, >>=-eq-ok,
  raise_if-eq-ok, map_err-eq-ok,
}
use garuda_tunnel.Base.Dict.{Dict, insert, NodupKeys, insert-NodupKeys}
use garuda_tunnel.Value.{Fields}
use garuda_tunnel.Str.{starts_with}
use garuda_tunnel.Schemas.Keys.{target_text, matches_key}
use garuda_tunnel.Schemas.Keys.Accepted.{IsAccepted, matches_key-IsAccepted}
use garuda_tunnel.Schemas.HostPort.{parse_host_port}
use garuda_tunnel.Schemas.HostPort.Parsing.{IsPort, in_range-IsPort}
use garuda_tunnel.Schemas.Specs.{RemoteTarget, validate_absolute, remote_target}
use garuda_tunnel.Schemas.Node.{
  RawTarget, ready, mapping, address, other, RawTargets, missing, entries, not_a_dict, check_handle,
  parse_target, parse_targets, validate_remote_targets,
}

-- A key of at most 64 characters that the pattern matches.
abbrev pub IsKey : Text → Type 0
IsKey name = (length name ≤ 64) × IsAccepted name

pub record IsTarget (target : RemoteTarget) : Type 0 where
  pub host_not_empty : 1 ≤ length target.host
  pub host_short : length target.host ≤ 255
  pub port_in_range : IsPort target.port

-- An absolute path of at most 4096 characters.
abbrev pub IsAbsolute : Text → Type 0
IsAbsolute path = (length path ≤ 4096) × ((rest : Text) × (path ≡ b'/' ∷ rest))

pub remote_target-IsTarget :
    (host : Text) (port : ℤ) {target : RemoteTarget}
    → remote_target host port ≡ ok target
    → IsTarget target
unfolding remote_target
remote_target-IsTarget host port {target} h = elim (Bool-cases (in_range 1 65535 port)) [
  | inl inside ↦
      let bounds : (record { host = host; port = port } ≡ target)
          × (1 ≤ length host)
          × (length host ≤ 255) =
        ground arith in
      rw (← bounds.0) (record {
        host_not_empty = bounds.1;
        host_short = bounds.2;
        port_in_range = in_range-IsPort port inside;
      })
  | inr outside ↦ ground arith
]

pub validate_absolute-IsAbsolute :
    (value : Text) {path : Text} → validate_absolute value ≡ ok path → IsAbsolute path
unfolding validate_absolute starts_with
validate_absolute-IsAbsolute [] h = ground arith
validate_absolute-IsAbsolute (c ∷ value) {path} h =
    let facts : (c ∷ value ≡ path) × (length (c ∷ value) ≤ 4096) × (c ≡ b'/') = ground arith in
    rw (← facts.0) (facts.1, (value, ap (λ x. x ∷ value) facts.2))

check_handle-IsKey :
    (key : Option Text) {handle : Text} → check_handle key ≡ ok handle → IsKey handle
unfolding check_handle
check_handle-IsKey none h = cc
check_handle-IsKey (some key) {handle} h =
    let facts : (key ≡ handle) × (matches_key key ≡ true) × (length key ≤ 64) = ground arith in
    rw (← facts.0) (facts.2, (matches_key-IsAccepted key).0 facts.1)

-- The `RemoteTarget`s that stand in the input already were validated when they were built.
abbrev pub ReadyIsTarget : RawTarget → Type 0
ReadyIsTarget (ready target) = IsTarget target
ReadyIsTarget (mapping fields) = Unit
ReadyIsTarget (address raw) = Unit
ReadyIsTarget other = Unit

abbrev pub ReadyAreTargets : RawTargets → Type 0
ReadyAreTargets missing = Unit
ReadyAreTargets not_a_dict = Unit
ReadyAreTargets (entries d) = All (λ e. ReadyIsTarget e.1) d

abbrev pub IsEntry : Text × RemoteTarget → Type 0
IsEntry (handle, target) = IsKey handle × IsTarget target

insert-IsEntry :
    (handle : Text) (target : RemoteTarget) (d : Dict Text RemoteTarget)
    → IsKey handle
    → IsTarget target
    → All IsEntry d
    → All IsEntry (insert handle target d)
unfolding insert
insert-IsEntry handle target [] key valid h = ((key, valid), tt)
insert-IsEntry handle target ((j, t) ∷ d) key valid h = elim (Bool-cases (handle == j)) [
  | inl same ↦ rw same ((key, valid), h.1)
  | inr differs ↦ rw differs (h.0, insert-IsEntry handle target d key valid h.1)
]

length-insert :
    (handle : Text) (target : RemoteTarget) (d : Dict Text RemoteTarget)
    → length (insert handle target d) ≤ suc (length d)
unfolding insert
length-insert handle target [] = omega arith
length-insert handle target (_ ∷ d) = ground (arith, length-insert handle target d)

-- What the targets that were read so far satisfy.
pub record AreTargets (bound : ℕ) (d : Dict Text RemoteTarget) : Type 0 where
  pub entries_valid : All IsEntry d
  pub handles_differ : NodupKeys d
  pub few : length d ≤ bound

AreTargets-mono : {m n : ℕ} {d : Dict Text RemoteTarget} → m ≤ n → AreTargets m d → AreTargets n d
AreTargets-mono h a = record {
  entries_valid = a.entries_valid;
  handles_differ = a.handles_differ;
  few = omega arith;
}

no_targets : AreTargets 0 []
no_targets = record { entries_valid = tt; handles_differ = tt; few = omega arith }

few_entries : (n : ℕ) → ltb 16 n ≡ false → n + 0 ≤ 16
few_entries n h = ground arith

insert-AreTargets :
    {n : ℕ} {handle : Text} {target : RemoteTarget} {d : Dict Text RemoteTarget}
    → IsKey handle
    → IsTarget target
    → AreTargets n d
    → AreTargets (suc n) (insert handle target d)
insert-AreTargets {n} {handle} {target} {d} key valid a = record {
  entries_valid = insert-IsEntry handle target d key valid a.entries_valid;
  handles_differ = insert-NodupKeys handle target d a.handles_differ;
  few = omega (arith, length-insert handle target d);
}

module _ (coerce : Fields → Option (Text × ℤ)) where
  parse_target-IsTarget :
      (handle : Text) (raw : RawTarget) {target : RemoteTarget}
      → ReadyIsTarget raw
      → parse_target coerce handle raw ≡ ok target
      → IsTarget target
  unfolding parse_target
  parse_target-IsTarget handle (ready t) {target} v h = let same : t ≡ target = cc in rw (← same) v
  parse_target-IsTarget handle (mapping fields) v h = elim (Option-cases (coerce fields)) [
    | inl fails ↦ ground arith
    | inr ((host, port), read) ↦
        remote_target-IsTarget host port (map_err-eq-ok _ _ (rw (read, parse_target) at h))
  ]
  parse_target-IsTarget handle (address raw) v h =
      let (parts, read, built) =
        >>=-eq-ok (map_err (target_text handle raw) (parse_host_port raw))
          (λ p. remote_target p.0 p.1) h in
      remote_target-IsTarget parts.0 parts.1 built
  parse_target-IsTarget handle other v h = cc

  parse_targets-AreTargets :
      (raws : Dict (Option Text) RawTarget) (bound : ℕ) (parsed : Dict Text RemoteTarget)
      {d : Dict Text RemoteTarget}
      → All (λ e. ReadyIsTarget e.1) raws
      → AreTargets bound parsed
      → parse_targets coerce raws parsed ≡ ok d
      → AreTargets (length raws + bound) d
  unfolding parse_targets
  parse_targets-AreTargets [] bound parsed {d} v a h =
      let same : parsed ≡ d = cc in rw (← same) (AreTargets-mono (omega arith) a)
  parse_targets-AreTargets ((key, raw) ∷ raws) bound parsed {d} v a h =
      let (handle, checked, h') = >>=-eq-ok (check_handle key) _ h in
      let (target, built, h'') = >>=-eq-ok (parse_target coerce handle raw) _ h' in
      AreTargets-mono (omega arith) (
        parse_targets-AreTargets raws (suc bound) (insert handle target parsed) v.1
          (insert-AreTargets (check_handle-IsKey key checked)
            (parse_target-IsTarget handle raw v.0 built) a)
          h'')

  pub validate_remote_targets-AreTargets :
      (raws : RawTargets) {d : Dict Text RemoteTarget}
      → ReadyAreTargets raws
      → validate_remote_targets coerce raws ≡ ok d
      → AreTargets 16 d
  unfolding validate_remote_targets
  validate_remote_targets-AreTargets missing {d} v h =
      let same : [] ≡ d = cc in rw (← same) (AreTargets-mono (omega arith) no_targets)
  validate_remote_targets-AreTargets not_a_dict v h = cc
  validate_remote_targets-AreTargets (entries raws) v h =
      let (few, parsed) = raise_if-eq-ok (ltb 16 (length raws)) _ _ h in
      AreTargets-mono (few_entries (length raws) few)
        (parse_targets-AreTargets raws 0 [] v no_targets parsed)
