-- ===== src/Schemas/HostPort.antt =====
-- `_parse_host_port` of tunstrap/schemas.py.
pub mod Parsing
use garuda_tunnel.Base.{
  ℕ, ◌≡◌, Bool, true, false, not, ◌&&◌, [], ◌∷◌, Option, none, some, Text, nat_eq, ltb, is_empty,
  is_some, contains, if◌then◌else◌, Result, ok, err, ◌>>=◌, ◌>>◌, raise_if, ℤ, in_range,
}
use garuda_tunnel.Str.{starts_with, skip_first, cut_last, cut_pair, count_char}
use garuda_tunnel.Str.Number.{int_of}
use garuda_tunnel.Schemas.Keys.{HostPortError, ipv6_form, missing_colon, empty_host, bad_port}

-- `value[1:closing]` and `value[closing + 2:]` for `closing = value.find("]:")`
unfoldable pub split_bracketed : Text → Result HostPortError (Text × Text)
split_bracketed value = elim (cut_pair b']' b':' value) [
  | none ↦ err ipv6_form
  | some (before, port_str) ↦ ok (skip_first before, port_str)
]

unfoldable pub split_plain : Text → Result HostPortError (Text × Text)
split_plain value =
    if is_some (cut_pair b':' b':' value) && ltb 1 (count_char b':' value)
    then err ipv6_form
    else elim (cut_last b':' value) [
      | none ↦ err missing_colon
      | some (host, port_str) ↦ ok (host, port_str)
    ]

-- `int(port_str)` in 1..65535
unfoldable pub parse_port_str : Text → Result HostPortError ℤ
parse_port_str port_str = elim (int_of port_str) [
  | none ↦ err bad_port
  | some port ↦ if in_range 1 65535 port then ok port else err bad_port
]

-- The checks on the two parts.
unfoldable pub check_parts : Text × Text → Result HostPortError (Text × ℤ)
check_parts (host, port_str) = do
  raise_if (is_empty host) empty_host
  port ← parse_port_str port_str
  ok (host, port)

unfoldable pub parse_host_port : Text → Result HostPortError (Text × ℤ)
parse_host_port value =
    if starts_with value (b'[' ∷ [])
    then (do parts ← split_bracketed value; check_parts parts)
    else (do parts ← split_plain value; check_parts parts)
