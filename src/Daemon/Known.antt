-- ===== src/Daemon/Known.antt =====
-- What `spawn_daemon` of tunstrap/daemon.py returns.
use garuda_tunnel.Base.{
  ℕ, ◌≡◌, refl, inl, inr, true, [], ◌∷◌, some, Text, text, text_eq, contains, arith, Result, ok,
  err, Result-cases, Option-cases, subst,
}
use garuda_tunnel.Value.{Value, null, bool, int, str, scalar, dict, Fields, get, as_dict}
use garuda_tunnel.Schemas.{InputSchema}
use garuda_tunnel.Daemon.{
  Loaded, value, bad_json, bad_utf8, message_kinds, is_kind, check_kind, check_message,
  parse_response, read_ipc_response, Spawner, spawn_daemon,
}

-- The kind of a message is one of the four.
pub record IsMessage (message : Fields) : Type 0 where
  pub kind : Text
  pub holds : get (text "kind") message ≡ str kind
  pub known : contains message_kinds kind ≡ true

is_kind-known :
    (v : Value)
    → is_kind v ≡ some true
    → (kind : Text) × (v ≡ str kind) × (contains message_kinds kind ≡ true)
unfolding is_kind
is_kind-known (str kind) h = (kind, refl, cc)
is_kind-known null h = cc
is_kind-known (bool b) h = cc
is_kind-known (int i) h = cc
is_kind-known (scalar n) h = cc
is_kind-known (Value.list items) h = cc
is_kind-known (dict d) h = cc

check_kind-IsMessage : (d message : Fields) → check_kind d ≡ ok message → IsMessage message
unfolding check_kind
check_kind-IsMessage d message h =
    let facts : (is_kind (get (text "kind") d) ≡ some true) × (d ≡ message) = ground arith in
    let (kind, holds, known) = is_kind-known _ (facts.0) in
    subst (λ m. IsMessage m) (facts.1) (record { kind = kind; holds = holds; known = known })

check_message-IsMessage :
    (loaded : Loaded) (message : Fields) → check_message loaded ≡ ok message → IsMessage message
unfolding check_message
check_message-IsMessage bad_utf8 message h = cc
check_message-IsMessage (bad_json position) message h = cc
check_message-IsMessage (value v) message h = elim (Option-cases (as_dict v)) [
  | inl missing ↦ ground (arith, missing, h)
  | inr (d, found) ↦
      let same : check_kind d ≡ ok message = ground (arith, found, h) in
      check_kind-IsMessage d message same
]

read_ipc_response-IsMessage :
    (loads : Text → Loaded) (raw : Result ℕ Text) (message : Fields)
    → read_ipc_response loads raw ≡ ok message
    → IsMessage message
unfolding read_ipc_response parse_response
read_ipc_response-IsMessage loads (err errno) message h = cc
read_ipc_response-IsMessage loads (ok []) message h = cc
read_ipc_response-IsMessage loads (ok (c ∷ raw)) message h =
    check_message-IsMessage (loads (c ∷ raw)) message h

-- A message that the spawning returns has one of the four kinds.
pub spawn_daemon-IsMessage :
    (s : Spawner) (schema : InputSchema) (message : Fields)
    → spawn_daemon s schema ≡ ok message
    → IsMessage message
unfolding spawn_daemon
spawn_daemon-IsMessage s schema message h = elim (Result-cases s.popen) [
  | inr (e, failed) ↦ ground (arith, failed, h)
  | inl (worker, made) ↦
      let read : read_ipc_response s.loads (worker (s.model_dump_json schema)) ≡ ok message =
        ground (arith, made, h) in
      read_ipc_response-IsMessage s.loads _ message read
]
