-- ===== src/Schemas/HostPort/Parsing.antt =====
-- What `_parse_host_port` of tunstrap/schemas.py accepts and reads.
use garuda_tunnel.Base.{
  ℕ, ◌≤◌, ◌<◌, ◌≡◌, refl, ◌≢◌, ◌⊎◌, inl, inr, true, false, [], ◌∷◌, ◌++◌, some, Text, nat_eq,
  is_empty, contains, if◌then◌else◌, ok, arith, ℤ, pos, in_range, Bool-cases, Option-cases, All,
  >>=-eq-ok,
}
use garuda_tunnel.Str.{starts_with, skip_first, cut_pair}
use garuda_tunnel.Str.Laws.{
  cut_last-inv, cut_last-append, cut_pair-inv, cut_pair-append, count_char-once,
}
use garuda_tunnel.Str.Number.{int_of, show_nat}
use garuda_tunnel.Str.Digits.{int_of-show_nat, show_nat-digits, IsDigit}
use garuda_tunnel.Schemas.HostPort.{
  split_bracketed, split_plain, check_parts, parse_port_str, parse_host_port,
}

abbrev pub IsPort : ℤ → Type 0
IsPort port = (n : ℕ) × (port ≡ pos n) × (1 ≤ n) × (n ≤ 65535)

pub in_range-IsPort : (port : ℤ) → in_range 1 65535 port ≡ true → IsPort port
unfolding in_range
in_range-IsPort (pos n) h = (n, refl, ground arith, ground arith)
in_range-IsPort (ℤ.negsuc n) h = cc

-- `[host]:port`, or `host:port` with the port behind the last colon.
abbrev pub Written : Text → Text → Text → Type 0
Written value host port_str =
    (value ≡ b'[' ∷ (host ++ (b']' ∷ b':' ∷ port_str)))
    ⊎ ((value ≡ host ++ (b':' ∷ port_str)) × (contains port_str b':' ≡ false))

pub opens_with :
    (before rest : Text)
    → starts_with (before ++ (b']' ∷ rest)) (b'[' ∷ []) ≡ true
    → before ≡ b'[' ∷ skip_first before
unfolding starts_with
opens_with [] rest h = ground arith
opens_with (c ∷ before) rest h = ground arith

split_bracketed-Written :
    (value host port_str : Text)
    → starts_with value (b'[' ∷ []) ≡ true
    → split_bracketed value ≡ ok (host, port_str)
    → Written value host port_str
unfolding split_bracketed
split_bracketed-Written value host port_str h e = elim (Option-cases (cut_pair b']' b':' value)) [
  | inl fails ↦ ground arith
  | inr ((before, after), cut) ↦
      let whole = cut_pair-inv b']' b':' value cut in
      inl (ground (arith, opens_with before (b':' ∷ after), whole))
]

split_plain-Written :
    (value host port_str : Text)
    → split_plain value ≡ ok (host, port_str)
    → Written value host port_str
unfolding split_plain
split_plain-Written value host port_str h =
    inr (ground (arith, cut_last-inv b':' value {a = host} {b = port_str}))

parse_port_str-IsPort :
    (port_str : Text) {port : ℤ}
    → parse_port_str port_str ≡ ok port
    → (int_of port_str ≡ some port) × (in_range 1 65535 port ≡ true)
unfolding parse_port_str
parse_port_str-IsPort port_str h = ground arith

check_parts_lem :
    (host' port_str host : Text) (port : ℤ)
    → check_parts (host', port_str) ≡ ok (host, port)
    → (host' ≡ host) × (is_empty host ≡ false) × (parse_port_str port_str ≡ ok port)
unfolding check_parts
check_parts_lem host' port_str host port h = ground arith

split_address-Written :
    (value host port_str : Text)
    → (if starts_with value (b'[' ∷ []) then split_bracketed value else split_plain value)
      ≡ ok (host, port_str)
    → Written value host port_str
split_address-Written value host port_str h = elim (Bool-cases (starts_with value (b'[' ∷ []))) [
  | inl opens ↦ split_bracketed-Written value host port_str opens (rw opens at h)
  | inr plain ↦ split_plain-Written value host port_str (rw plain at h)
]

split_address_lem :
    (value : Text) {r : Text × ℤ}
    → parse_host_port value ≡ ok r
    → (parts : Text × Text) × ((if starts_with value (b'[' ∷ [])
          then split_bracketed value
          else split_plain value)
        ≡ ok parts)
      × (check_parts parts ≡ ok r)
unfolding parse_host_port
split_address_lem value h = elim (Bool-cases (starts_with value (b'[' ∷ []))) [
  | inl opens ↦ rw opens (>>=-eq-ok (split_bracketed value) check_parts (rw opens at h))
  | inr plain ↦ rw plain (>>=-eq-ok (split_plain value) check_parts (rw plain at h))
]

-- An accepted value is `[host]:port`, or `host:port` cut at its last colon; the host is not empty,
-- and the part behind it is what `int` reads as a port from 1 to 65535.
pub parse_host_port-Written :
    (value host : Text) (port : ℤ)
    → parse_host_port value ≡ ok (host, port)
    → (port_str : Text) × Written value host port_str
      × (host ≢ [])
      × (int_of port_str ≡ some port)
      × IsPort port
parse_host_port-Written value host port h =
    let ((host', port_str), split, checked) = split_address_lem value h in
    let (same, full, read) = check_parts_lem host' port_str host port checked in
    let (number, range) = parse_port_str-IsPort port_str read in
    (
      port_str,
      rw same at (split_address-Written value host' port_str split),
      λ e. ground arith,
      number,
      in_range-IsPort port range,
    )

pub no_separator : (c : ℕ) (s : Text) → (c < 48) ⊎ (58 ≤ c) → All IsDigit s → contains s c ≡ false
no_separator c [] out h = refl
no_separator c (d ∷ s) out h = ground (arith, no_separator c s out h.1)

pub in_range-port : (n : ℕ) → 1 ≤ n → n ≤ 65535 → in_range 1 65535 (pos n) ≡ true
unfolding in_range
in_range-port n h k = ground arith

parse_port_str-show_nat : (n : ℕ) → 1 ≤ n → n ≤ 65535 → parse_port_str (show_nat n) ≡ ok (pos n)
unfolding parse_port_str
parse_port_str-show_nat n h k = ground (arith, int_of-show_nat n (omega arith), in_range-port n h k)

check_parts-show_nat :
    (host : Text) (n : ℕ)
    → is_empty host ≡ false
    → 1 ≤ n
    → n ≤ 65535
    → check_parts (host, show_nat n) ≡ ok (host, pos n)
unfolding check_parts
check_parts-show_nat host n full h k = rw (full, parse_port_str-show_nat n h k)

split_plain-once :
    (host port_str : Text)
    → contains host b':' ≡ false
    → contains port_str b':' ≡ false
    → split_plain (host ++ (b':' ∷ port_str)) ≡ ok (host, port_str)
unfolding split_plain
split_plain-once host port_str h k =
    ground (arith, count_char-once b':' host port_str h k, cut_last-append b':' host port_str k)

-- A target that is written as `host:port` is read back, if the host is not empty, does not begin
-- with a bracket and has no colon, and the port is one.
pub parse_host_port-show_nat :
    (c : ℕ) (host : Text) (n : ℕ)
    → c ≢ b'['
    → contains (c ∷ host) b':' ≡ false
    → 1 ≤ n
    → n ≤ 65535
    → parse_host_port ((c ∷ host) ++ (b':' ∷ show_nat n)) ≡ ok (c ∷ host, pos n)
unfolding parse_host_port starts_with
parse_host_port-show_nat c host n opens colon h k = ground (
  arith,
  split_plain-once (c ∷ host) (show_nat n) colon
      (no_separator b':' (show_nat n) (inr (omega arith)) (show_nat-digits n)),
  check_parts-show_nat (c ∷ host) n refl h k,
)

split_bracketed-once :
    (host port_str : Text)
    → contains host b']' ≡ false
    → split_bracketed (b'[' ∷ (host ++ (b']' ∷ b':' ∷ port_str))) ≡ ok (host, port_str)
unfolding split_bracketed
split_bracketed-once host port_str h =
    ground (arith, cut_pair-append b']' b':' (b'[' ∷ host) port_str (ground arith))

-- A target that is written as `[host]:port` is read back, if the host is not empty and has no
-- closing bracket, and the port is one; the host may have colons.
pub parse_host_port-brackets :
    (host : Text) (n : ℕ)
    → host ≢ []
    → contains host b']' ≡ false
    → 1 ≤ n
    → n ≤ 65535
    → parse_host_port (b'[' ∷ (host ++ (b']' ∷ b':' ∷ show_nat n))) ≡ ok (host, pos n)
unfolding parse_host_port starts_with
parse_host_port-brackets [] n full bracket h k = absurd (full refl)
parse_host_port-brackets (c ∷ host) n full bracket h k = ground (
  arith,
  split_bracketed-once (c ∷ host) (show_nat n) bracket,
  check_parts-show_nat (c ∷ host) n refl h k,
)
