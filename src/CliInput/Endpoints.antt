-- ===== src/CliInput/Endpoints.antt =====
-- What `parse_endpoint` of tunstrap/cli_input.py accepts and reads.
use garuda_tunnel.Base.{
  ℕ, subst, ◌≤◌, ◌≡◌, refl, sym, ap, ap₂, ◌∙◌, ◌≢◌, inl, inr, true, false, [], ◌∷◌, ◌++◌, some,
  Text, nat_eq, is_empty, contains, ok, arith, ℤ, pos, in_range, Bool-cases, Option-cases,
  >>=-eq-ok,
}
use garuda_tunnel.Str.{starts_with, skip_first, cut_first, cut_last}
use garuda_tunnel.Str.Laws.{
  cut_first-inv, cut_first-append, cut_last-inv, cut_last-append, cut_last-none, cut_last-none-inv,
}
use garuda_tunnel.Str.Number.{int_of, show_nat}
use garuda_tunnel.Str.Digits.{int_of-show_nat, show_nat-digits}
use garuda_tunnel.Schemas.HostPort.Parsing.{
  IsPort, in_range-IsPort, in_range-port, no_separator, opens_with,
}
use garuda_tunnel.CliInput.{
  parse_port, split_bracketed, split_plain, split_host_port, parse_endpoint, after_bracket,
  with_port, with_default_port,
}

-- How a host and a port can be written behind the `@`. An address in brackets may be empty.
pub data Address (host : Text) (port : ℤ) (hostpart : Text) : Type 0 where
  plain :
      hostpart ≡ host
      → port ≡ pos 22
      → host ≢ []
      → contains host b':' ≡ false
      → Address host port hostpart
  ported :
      (raw : Text)
      → hostpart ≡ host ++ (b':' ∷ raw)
      → host ≢ []
      → contains raw b':' ≡ false
      → int_of raw ≡ some port
      → Address host port hostpart
  bracketed :
      hostpart ≡ b'[' ∷ (host ++ (b']' ∷ []))
      → port ≡ pos 22
      → contains host b']' ≡ false
      → Address host port hostpart
  bracketed_with_port :
      (raw : Text)
      → hostpart ≡ b'[' ∷ (host ++ (b']' ∷ b':' ∷ raw))
      → contains host b']' ≡ false
      → int_of raw ≡ some port
      → Address host port hostpart

parse_port_lem :
    (raw : Text) {port : ℤ} → parse_port raw ≡ ok port → (int_of raw ≡ some port) × IsPort port
unfolding parse_port
parse_port_lem raw {port} h =
    let read : (int_of raw ≡ some port) × (in_range 1 65535 port ≡ true) = ground arith in
    (read.0, in_range-IsPort port read.1)

IsPort-22 : IsPort (pos 22)
IsPort-22 = (22, refl, omega arith, omega arith)

-- An address, with a port from 1 to 65535.
abbrev pub IsAddress : Text → Text → ℤ → Type 0
IsAddress hostpart host port = Address host port hostpart × IsPort port

with_default-IsAddress :
    (hostpart host : Text) (port : ℤ)
    → with_default_port hostpart ≡ ok (host, port)
    → contains hostpart b':' ≡ false
    → IsAddress hostpart host port
unfolding with_default_port
with_default-IsAddress [] host port h c = cc
with_default-IsAddress (x ∷ hostpart) host port h c =
    let same : x ∷ hostpart ≡ host = cc in
    let default : pos 22 ≡ port = cc in
    (
      plain same (sym default) (λ e. cc) (subst (λ t. contains t b':' ≡ false) same c),
      rw (← default) IsPort-22,
    )

with_port-IsAddress :
    (before raw host : Text) (port : ℤ)
    → with_port before raw ≡ ok (host, port)
    → contains raw b':' ≡ false
    → IsAddress (before ++ (b':' ∷ raw)) host port
unfolding with_port
with_port-IsAddress [] raw host port h c = cc
with_port-IsAddress (x ∷ before) raw host port h c =
    let (p, read, made) = >>=-eq-ok (parse_port raw) _ h in
    let same : x ∷ before ≡ host = cc in
    let same_port : p ≡ port = cc in
    let (number, range) = parse_port_lem raw read in
    (
      ported raw (ap (λ t. t ++ (b':' ∷ raw)) same) (λ e. cc) c (rw same_port at number),
      rw same_port at range,
    )

split_plain-IsAddress :
    (hostpart host : Text) (port : ℤ)
    → split_plain hostpart ≡ ok (host, port)
    → IsAddress hostpart host port
unfolding split_plain
split_plain-IsAddress hostpart host port h = elim (Option-cases (cut_last b':' hostpart)) [
  | inl whole ↦
      with_default-IsAddress hostpart host port (rw (whole, split_plain) at h)
        (cut_last-none-inv b':' hostpart whole)
  | inr ((before, raw), cut) ↦
      let (joined, last) = cut_last-inv b':' hostpart cut in
      rw joined (with_port-IsAddress before raw host port (rw (cut, split_plain) at h) last)
]

no_bracket :
    (before : Text) → contains before b']' ≡ false → contains (skip_first before) b']' ≡ false
no_bracket [] h = refl
no_bracket (c ∷ before) h = ground arith

-- What stands behind the closing bracket.
after_bracket-IsAddress :
    (inner rest host : Text) (port : ℤ)
    → after_bracket inner rest ≡ ok (host, port)
    → contains inner b']' ≡ false
    → IsAddress (b'[' ∷ (inner ++ (b']' ∷ rest))) host port
unfolding after_bracket starts_with
after_bracket-IsAddress inner [] host port h c =
    let same : inner ≡ host = cc in
    let default : pos 22 ≡ port = cc in
    (
      bracketed (ap (λ t. b'[' ∷ (t ++ (b']' ∷ []))) same) (sym default) (rw same at c),
      rw (← default) IsPort-22,
    )
after_bracket-IsAddress inner (x ∷ raw) host port h c =
    let facts : (x ≡ b':') × (inner ≡ host) × (parse_port raw ≡ ok port) = ground arith in
    let (number, range) = parse_port_lem raw facts.2 in
    (
      bracketed_with_port raw (ap₂ (λ (t : Text) y. b'[' ∷ (t ++ (b']' ∷ y ∷ raw))) facts.1 facts.0)
          (rw facts.1 at c) number,
      range,
    )

split_bracketed-IsAddress :
    (hostpart host : Text) (port : ℤ)
    → starts_with hostpart (b'[' ∷ []) ≡ true
    → split_bracketed hostpart ≡ ok (host, port)
    → IsAddress hostpart host port
unfolding split_bracketed
split_bracketed-IsAddress hostpart host port h e = elim (Option-cases (cut_first b']' hostpart)) [
  | inl fails ↦ ground arith
  | inr ((before, rest), cut) ↦
      let (joined, first) = cut_first-inv b']' hostpart cut in
      let opened = opens_with before rest (rw joined at h) in
      let whole : hostpart ≡ b'[' ∷ (skip_first before ++ (b']' ∷ rest)) =
        joined ∙ ap (λ t. t ++ (b']' ∷ rest)) opened in
      rw whole (
        after_bracket-IsAddress (skip_first before) rest host port (rw (cut, split_bracketed) at e)
          (no_bracket before first))
]

split_host_port-IsAddress :
    (hostpart host : Text) (port : ℤ)
    → split_host_port hostpart ≡ ok (host, port)
    → IsAddress hostpart host port
unfolding split_host_port
split_host_port-IsAddress hostpart host port h =
    elim (Bool-cases (starts_with hostpart (b'[' ∷ []))) [
      | inl opens ↦ split_bracketed-IsAddress hostpart host port opens (rw opens at h)
      | inr other ↦ split_plain-IsAddress hostpart host port (rw other at h)
    ]

-- An accepted endpoint is `user@address`, cut at the first `@`; the user is not empty, the address
-- has one of the four forms, without a port it means port 22, and the port is from 1 to 65535.
pub parse_endpoint-IsAddress :
    (endpoint user host : Text) (port : ℤ)
    → parse_endpoint endpoint ≡ ok (user, host, port)
    → (hostpart : Text) × (endpoint ≡ user ++ (b'@' ∷ hostpart))
      × (user ≢ [])
      × (contains user b'@' ≡ false)
      × IsAddress hostpart host port
unfolding parse_endpoint
parse_endpoint-IsAddress endpoint user host port h = elim (Option-cases (cut_first b'@' endpoint)) [
  | inl fails ↦ ground arith
  | inr ((before, hostpart), cut) ↦
      let (joined, first) = cut_first-inv b'@' endpoint cut in
      let facts : (before ≡ user)
          × (is_empty before ≡ false)
          × (split_host_port hostpart ≡ ok (host, port)) =
        ground arith in
      (
        hostpart,
        rw (← facts.0) joined,
        λ e. ground arith,
        rw facts.0 at first,
        split_host_port-IsAddress hostpart host port facts.2,
      )
]

parse_port-show_nat : (n : ℕ) → 1 ≤ n → n ≤ 65535 → parse_port (show_nat n) ≡ ok (pos n)
unfolding parse_port
parse_port-show_nat n h k = ground (arith, int_of-show_nat n (omega arith), in_range-port n h k)

user_is_full : (user : Text) → user ≢ [] → is_empty user ≡ false
user_is_full [] h = absurd (h refl)
user_is_full (c ∷ user) h = refl

module _ (user : Text) (full : user ≢ []) (one_at : contains user b'@' ≡ false) where
  parse_endpoint_lem :
      (hostpart host : Text) (port : ℤ)
      → split_host_port hostpart ≡ ok (host, port)
      → parse_endpoint (user ++ (b'@' ∷ hostpart)) ≡ ok (user, host, port)
  unfolding parse_endpoint
  parse_endpoint_lem hostpart host port h =
      ground (arith, cut_first-append b'@' user hostpart one_at, user_is_full user full)

  -- A user without `@`, and a host that has no colon and no bracket at its head, are read back; the
  -- port is 22.
  pub parse_endpoint-host :
      (c : ℕ) (host : Text)
      → c ≢ b'['
      → contains (c ∷ host) b':' ≡ false
      → parse_endpoint (user ++ (b'@' ∷ c ∷ host)) ≡ ok (user, c ∷ host, pos 22)
  parse_endpoint-host c host opens colon = parse_endpoint_lem (c ∷ host) (c ∷ host) (pos 22) (
      unfold split_host_port split_plain with_default_port starts_with in
      ground (arith, cut_last-none b':' (c ∷ host) colon))

  -- A connection that is written as `user@host:port` is read back, if the user is not empty and
  -- has no `@`, the host is not empty and does not begin with a bracket, and the port is one;
  -- the host may have colons.
  pub parse_endpoint-port :
      (c : ℕ) (host : Text) (n : ℕ)
      → c ≢ b'['
      → 1 ≤ n
      → n ≤ 65535
      → parse_endpoint (user ++ (b'@' ∷ ((c ∷ host) ++ (b':' ∷ show_nat n))))
        ≡ ok (user, c ∷ host, pos n)
  parse_endpoint-port c host n opens h k =
      parse_endpoint_lem ((c ∷ host) ++ (b':' ∷ show_nat n)) (c ∷ host) (pos n) (
        unfold split_host_port split_plain with_port starts_with in
        ground (
          arith,
          cut_last-append b':' (c ∷ host) (show_nat n)
              (no_separator b':' (show_nat n) (inr (omega arith)) (show_nat-digits n)),
          parse_port-show_nat n h k,
        ))

  -- A connection that is written as `user@[host]:port` is read back, if the user is not empty
  -- and has no `@`, the host has no closing bracket, and the port is one; the host may be empty.
  pub parse_endpoint-brackets :
      (host : Text) (n : ℕ)
      → contains host b']' ≡ false
      → 1 ≤ n
      → n ≤ 65535
      → parse_endpoint (user ++ (b'@' ∷ b'[' ∷ (host ++ (b']' ∷ b':' ∷ show_nat n))))
        ≡ ok (user, host, pos n)
  parse_endpoint-brackets host n bracket h k =
      parse_endpoint_lem (b'[' ∷ (host ++ (b']' ∷ b':' ∷ show_nat n))) host (pos n) (
        unfold split_host_port split_bracketed after_bracket starts_with in
        ground (
          arith,
          cut_first-append b']' (b'[' ∷ host) (b':' ∷ show_nat n) (ground arith),
          parse_port-show_nat n h k,
        ))
