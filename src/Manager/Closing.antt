-- ===== src/Manager/Closing.antt =====
-- What a node of tunstrap/manager.py leaves open.
use garuda_tunnel.Base.{
  ℕ, ◌≡◌, refl, inl, inr, sym, ap, subst, ◌∙◌, ◌⊎◌, true, false, List, [], ◌∷◌, map, append-nil,
  none, some, Text, text_eq, if◌then◌else◌, arith, Result-cases, Result, ok, err, ◌>>=◌,
}
use garuda_tunnel.Base.Dict.{Dict, NodupKeys}
use garuda_tunnel.Messages.{RemoteError, NodeError, raised}
use garuda_tunnel.Schemas.{KubeTarget, NodeInput}
use garuda_tunnel.Kube.Run.Independence.{ports}
use garuda_tunnel.Manager.Owned.{stages-ports}
use garuda_tunnel.Manager.{
  is_startup, NodeRuntime, node_runtime, Sockets, no_sockets, close_transport, Peer, Ran, Halt,
  gives_up, propagates, forward_targets, open_local_forwards, guard_startup, fetch_stage,
  kube_stage, owned_by, conclude, start_forwarded, start_connected, start_one,
}
use garuda_tunnel.Manager.Stages.{
  forwarding, Forwarded, handed_over, all_closed, forward_targets-Forwarded, Kept, kept_on,
  given_up, propagated, stages-Kept,
}

-- The names of the kube targets differ, as the keys of a dict do.
abbrev pub HasDistinctTargets : NodeInput → Type 0
HasDistinctTargets node = (ts : Dict Text KubeTarget) → node.kube_targets ≡ some ts → NodupKeys ts

module _ (peer : Peer) where
  -- A node that succeeds has everything open that was opened, and the listeners that its connection
  -- owns are those of its kube targets; one that fails has nothing open. Of a node that an exception
  -- leaves nothing is said.
  pub record IsTidy (rt : NodeRuntime) (s : Sockets) : Type 0 where
    pub holds_all :
        rt.success ≡ true
        → (map some s.opened_conns ≡ rt.conn ∷ [])
          × (s.closed_conns ≡ [])
          × (rt.listeners ≡ s.opened_listeners)
          × (s.closed_listeners ≡ [])
          × (s.owned_listeners ≡ ports rt.kube_targets)
          × (s.released_listeners ≡ [])
    pub holds_none :
        rt.success ≡ false
        → (rt.conn ≡ none)
          × (s.closed_conns ≡ s.opened_conns)
          × (rt.listeners ≡ [])
          × (s.closed_listeners ≡ s.opened_listeners)
          × (s.released_listeners ≡ s.owned_listeners)

  -- The sockets of a node behind its stages.
  abbrev held : ℕ → List ℕ → List ℕ → Sockets
  held conn listeners owned = record (forwarding (conn ∷ []) listeners []) {
    owned_listeners = owned;
  }

  -- How a run concludes: as a success with all sockets, or as a failure with none.
  conclude-IsTidy :
      (conn : ℕ) (listeners owned : List ℕ) (rt0 rt : NodeRuntime) (r : Result Halt NodeRuntime)
      → rt0.conn ≡ some conn
      → rt0.listeners ≡ listeners
      → rt0.success ≡ false
      → Kept rt0 r
      → ((rt' : NodeRuntime) → r ≡ ok rt' → owned ≡ ports rt'.kube_targets)
      → (conclude peer conn listeners (held conn listeners owned) r).outcome ≡ ok rt
      → IsTidy rt (conclude peer conn listeners (held conn listeners owned) r).sockets
  unfolding conclude close_transport
  conclude-IsTidy conn listeners owned rt0 rt r h1 h2 h3 (kept_on rt' k1 k2 k3) kube h =
      let same : record rt' { success = true } ≡ rt = ground arith in
      subst (λ rt. IsTidy rt (held conn listeners owned)) same
        (record {
          holds_all =
              λ _. (ap (λ c. c ∷ []) (sym (k1 ∙ h1)), refl, k2 ∙ h2, refl, kube rt' refl, refl);
          holds_none = λ bad. cc;
        })
  conclude-IsTidy conn listeners owned rt0 rt r h1 h2 h3 (given_up rt' e k3) kube h =
      let same : record rt' { error = some e; conn = none; listeners = [] } ≡ rt = ground arith in
      subst (λ rt. IsTidy rt (close_transport (some conn) listeners (held conn listeners owned)))
        same (record { holds_all = λ bad. cc; holds_none = λ _. (refl, refl, refl, refl, refl) })
  conclude-IsTidy conn listeners owned rt0 rt r h1 h2 h3 (propagated e) kube h = cc

  -- Of a forward that failed the listeners are closed, and the connection is closed after them.
  refused-IsTidy :
      (conn : ℕ) (listeners : List ℕ) (rt0 rt : NodeRuntime) (r : Result Halt NodeRuntime)
      (e : RemoteError)
      → rt0.success ≡ false
      → r ≡ err (if is_startup e.kind then gives_up rt0 (raised e) else propagates e)
      → (conclude peer conn [] (forwarding (conn ∷ []) listeners listeners) r).outcome ≡ ok rt
      → IsTidy rt (conclude peer conn [] (forwarding (conn ∷ []) listeners listeners) r).sockets
  unfolding conclude close_transport
  refused-IsTidy conn listeners rt0 rt (ok rt') e h3 k h = cc
  refused-IsTidy conn listeners rt0 rt (err (propagates e')) e h3 k h = cc
  refused-IsTidy conn listeners rt0 rt (err (gives_up rt' e')) e h3 k h =
      let fails : rt.success ≡ false = ground (arith, k, h, h3) in
      let bare : (rt.conn ≡ none) × (rt.listeners ≡ []) = ground (arith, h) in
      record {
        holds_all = λ good. cc;
        holds_none = λ _. (bare.0, refl, bare.1, append-nil listeners, refl);
      }

  handed_over-IsTidy :
      (name : Text) (node : NodeInput) (conn : ℕ) (rt : NodeRuntime) (ports : Dict Text ℕ)
      (listeners : List ℕ)
      → HasDistinctTargets node
      → (start_forwarded peer name node conn (record {
        outcome = ok (ports, listeners);
        sockets = forwarding (conn ∷ []) listeners [];
      })).outcome
        ≡ ok rt
      → IsTidy rt
          (start_forwarded peer name node conn (record {
            outcome = ok (ports, listeners);
            sockets = forwarding (conn ∷ []) listeners [];
          })).sockets
  unfolding start_forwarded node_runtime
  handed_over-IsTidy name node conn rt ports listeners u h =
      let rt0 = record (node_runtime name) {
        conn = some conn;
        ports = ports;
        listeners = listeners;
      } in
      conclude-IsTidy conn listeners
        (owned_by peer node.kube_targets name (fetch_stage peer node.fetch_files rt0)) rt0 rt
        (fetch_stage peer node.fetch_files rt0 >>= kube_stage peer name node.kube_targets) refl refl
        refl (stages-Kept peer name node.fetch_files node.kube_targets rt0)
        (λ rt'. stages-ports peer name node.fetch_files node.kube_targets rt0 rt' u refl) h

  all_closed-IsTidy :
      (name : Text) (node : NodeInput) (conn : ℕ) (rt : NodeRuntime) (e : RemoteError)
      (listeners : List ℕ)
      → (start_forwarded peer name node conn (record {
        outcome = err e;
        sockets = forwarding (conn ∷ []) listeners listeners;
      })).outcome
        ≡ ok rt
      → IsTidy rt
          (start_forwarded peer name node conn (record {
            outcome = err e;
            sockets = forwarding (conn ∷ []) listeners listeners;
          })).sockets
  unfolding start_forwarded node_runtime guard_startup
  all_closed-IsTidy name node conn rt e listeners h =
      refused-IsTidy conn listeners (record (node_runtime name) { conn = some conn }) rt
        (guard_startup peer (record (node_runtime name) { conn = some conn }) (err e)) e refl refl h

  start_forwarded-IsTidy :
      (name : Text) (node : NodeInput) (conn : ℕ) (rt : NodeRuntime)
      (ran : Ran (Dict Text ℕ × List ℕ))
      → HasDistinctTargets node
      → Forwarded (conn ∷ []) ran
      → (start_forwarded peer name node conn ran).outcome ≡ ok rt
      → IsTidy rt (start_forwarded peer name node conn ran).sockets
  start_forwarded-IsTidy name node conn rt ran u (handed_over ports listeners made) =
      subst
        (λ ran.
          (start_forwarded peer name node conn ran).outcome ≡ ok rt
          → IsTidy rt (start_forwarded peer name node conn ran).sockets)
        (sym made) (handed_over-IsTidy name node conn rt ports listeners u)
  start_forwarded-IsTidy name node conn rt ran u (all_closed e listeners made) =
      subst
        (λ ran.
          (start_forwarded peer name node conn ran).outcome ≡ ok rt
          → IsTidy rt (start_forwarded peer name node conn ran).sockets)
        (sym made) (all_closed-IsTidy name node conn rt e listeners)

  start_connected-IsTidy :
      (name : Text) (node : NodeInput) (conn : ℕ) (rt : NodeRuntime)
      → HasDistinctTargets node
      → (start_connected peer name node conn).outcome ≡ ok rt
      → IsTidy rt (start_connected peer name node conn).sockets
  unfolding start_connected open_local_forwards
  start_connected-IsTidy name node conn rt u h =
      start_forwarded-IsTidy name node conn rt
        (forward_targets peer node.remote_targets [] [] (forwarding (conn ∷ []) [] [])) u
        (forward_targets-Forwarded peer node.remote_targets [] [] (conn ∷ [])) h

  unopened-IsTidy :
      (name : Text) (e : NodeError)
      → IsTidy (record (node_runtime name) { error = some e }) no_sockets
  unfolding node_runtime
  unopened-IsTidy name e = record {
    holds_all = λ bad. cc;
    holds_none = λ _. (refl, refl, refl, refl, refl);
  }

  start_one-from :
      (name : Text) (node : NodeInput) (rt : NodeRuntime)
      → (start_one peer name node).outcome ≡ ok rt
      → ((conn : ℕ) × (start_one peer name node ≡ start_connected peer name node conn))
        ⊎ ((e : RemoteError) × (record (node_runtime name) { error = some (raised e) } ≡ rt)
            × ((start_one peer name node).sockets ≡ no_sockets))
  unfolding start_one
  start_one-from name node rt h = elim (Result-cases peer.open_connection) [
    | inl (conn, opens) ↦ inl (conn, ground (arith, opens))
    | inr (e, fails) ↦ inr (e, ground (arith, fails, h), ground (arith, fails))
  ]

  -- A node whose kube targets have differing names and that comes back from `start_one` as a success
  -- holds its connection and all listeners that were opened for it, and the listeners that the run over
  -- the kube targets left open on the connection are those of the outputs, one for each; one that comes
  -- back as a failure holds nothing, all its listeners and its connection are closed, and with it those
  -- that the connection owns.
  pub start_one-IsTidy :
      (name : Text) (node : NodeInput) (rt : NodeRuntime)
      → HasDistinctTargets node
      → (start_one peer name node).outcome ≡ ok rt
      → IsTidy rt (start_one peer name node).sockets
  start_one-IsTidy name node rt u h = elim (start_one-from name node rt h) [
    | inl (conn, same) ↦
        subst (λ ran. ran.outcome ≡ ok rt → IsTidy rt ran.sockets) (sym same)
          (start_connected-IsTidy name node conn rt u) h
    | inr (e, same, bare) ↦
        subst (λ s. IsTidy rt s) (sym bare)
          (subst (λ r. IsTidy r no_sockets) same (unopened-IsTidy name (raised e)))
  ]
