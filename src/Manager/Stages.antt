-- ===== src/Manager/Stages.antt =====
-- What the steps of a node of tunstrap/manager.py and tunstrap/ssh.py do to its sockets.
use garuda_tunnel.Base.{
  ℕ, ◌≡◌, refl, inl, inr, sym, subst, ◌∙◌, Bool, true, false, not, List, [], ◌∷◌, ◌++◌, Option,
  none, some, Text, text_eq, is_empty, arith, Bool-cases, Option-cases, Result-cases, Result, ok,
  err, ◌>>=◌, ◌>>◌, raise_if,
}
use garuda_tunnel.Base.Dict.{Dict, insert}
use garuda_tunnel.Messages.{RemoteError, NodeError, raised, files_failed, kube_failed}
use garuda_tunnel.Schemas.{RemoteTarget, FileSpec, KubeTarget, KubeTargetOutput}
use garuda_tunnel.Manager.{
  is_startup, NodeRuntime, Sockets, close_transport, Peer, Ran, not_accepted, Halt, gives_up,
  propagates, forward_targets, guard_startup, fetch_stage, kube_stage, materialize_if,
  materialize_all,
}
use garuda_tunnel.Fetcher.{fetch_files}
use garuda_tunnel.Kube.Run.{run_kube_targets}

-- A state of the sockets in which only the forwards of one connection were opened.
abbrev pub forwarding : List ℕ → List ℕ → List ℕ → Sockets
forwarding conns listeners closed = record {
  opened_conns = conns;
  closed_conns = [];
  opened_listeners = listeners;
  closed_listeners = closed;
  owned_listeners = [];
  released_listeners = [];
}

-- A failed forward closes all listeners that were opened; a successful one hands them all over.
pub data Forwarded (conns : List ℕ) (ran : Ran (Dict Text ℕ × List ℕ)) : Type 0 where
  handed_over :
      (ports : Dict Text ℕ) (listeners : List ℕ)
      → ran ≡ record { outcome = ok (ports, listeners); sockets = forwarding conns listeners [] }
      → Forwarded conns ran
  all_closed :
      (e : RemoteError) (listeners : List ℕ)
      → ran ≡ record { outcome = err e; sockets = forwarding conns listeners listeners }
      → Forwarded conns ran

-- The stages behind the forwards touch neither the connection nor the listeners of a runtime.
pub data Kept (rt : NodeRuntime) : Result Halt NodeRuntime → Type 0 where
  kept_on :
      (rt' : NodeRuntime)
      → rt'.conn ≡ rt.conn
      → rt'.listeners ≡ rt.listeners
      → rt'.success ≡ rt.success
      → Kept rt (ok rt')
  given_up :
      (rt' : NodeRuntime) (e : NodeError)
      → rt'.success ≡ rt.success
      → Kept rt (err (gives_up rt' e))
  propagated : (e : RemoteError) → Kept rt (err (propagates e))

module _ (peer : Peer) where
  pub forward_targets-Forwarded :
      (targets : Dict Text RemoteTarget) (ports : Dict Text ℕ) (listeners conns : List ℕ)
      → Forwarded conns
          (forward_targets peer targets ports listeners (forwarding conns listeners []))
  unfolding forward_targets close_transport
  forward_targets-Forwarded [] ports listeners conns = handed_over ports listeners refl
  forward_targets-Forwarded ((handle, target) ∷ targets) ports listeners conns =
      elim (Result-cases (peer.forward_local_port target.host target.port)) [
        | inr (e, fails) ↦ all_closed e listeners (ground (arith, fails))
        | inl (port, opens) ↦ elim (Bool-cases (peer.probe_local_port port)) [
          | inr refuses ↦
              all_closed not_accepted (listeners ++ (port ∷ [])) (ground (arith, opens, refuses))
          | inl accepts ↦ subst (Forwarded conns) (ground (arith, opens, accepts)) (
              forward_targets-Forwarded targets (insert handle port ports)
                (listeners ++ (port ∷ [])) conns)
        ]
      ]

  Kept-trans :
      (rt rt' : NodeRuntime) (r : Result Halt NodeRuntime)
      → rt'.conn ≡ rt.conn
      → rt'.listeners ≡ rt.listeners
      → rt'.success ≡ rt.success
      → Kept rt' r
      → Kept rt r
  Kept-trans rt rt' r h1 h2 h3 (kept_on rt'' k1 k2 k3) = kept_on rt'' (k1 ∙ h1) (k2 ∙ h2) (k3 ∙ h3)
  Kept-trans rt rt' r h1 h2 h3 (given_up rt'' e k3) = given_up rt'' e (k3 ∙ h3)
  Kept-trans rt rt' r h1 h2 h3 (propagated e) = propagated e

  guard_startup-Kept :
      {A : Type 0} (rt : NodeRuntime) (r : Result RemoteError A) (f : A → Result Halt NodeRuntime)
      → ((a : A) → Kept rt (f a))
      → Kept rt (guard_startup peer rt r >>= f)
  unfolding guard_startup
  guard_startup-Kept rt (ok a) f k = k a
  guard_startup-Kept rt (err e) f k = elim (Bool-cases (is_startup e.kind)) [
    | inl caught ↦ rw (caught) (given_up rt (raised e) refl)
    | inr missed ↦ rw (missed) (propagated e)
  ]

  raise_if-Kept :
      (rt rt' : NodeRuntime) (b : Bool) (e : NodeError)
      → rt'.conn ≡ rt.conn
      → rt'.listeners ≡ rt.listeners
      → rt'.success ≡ rt.success
      → Kept rt (raise_if b (gives_up rt' e) >> ok rt')
  raise_if-Kept rt rt' true e h1 h2 h3 = given_up rt' e h3
  raise_if-Kept rt rt' false e h1 h2 h3 = kept_on rt' h1 h2 h3

  fetch_stage-Kept :
      (specs : Option (Dict Text FileSpec)) (rt : NodeRuntime) → Kept rt (fetch_stage peer specs rt)
  unfolding fetch_stage
  fetch_stage-Kept none rt = kept_on rt refl refl refl
  fetch_stage-Kept (some []) rt = kept_on rt refl refl refl
  fetch_stage-Kept (some (s ∷ specs)) rt =
      guard_startup-Kept rt (fetch_files peer.sftp peer.hexdigest (s ∷ specs)) _ (λ g.
        raise_if-Kept rt (record rt { fetched_files = g.results })
          (not (is_empty g.required_failures)) (files_failed g.required_failures) refl refl refl)

  materialize_if-Kept :
      (rt : NodeRuntime) (name : Text) (outputs : Dict Text KubeTargetOutput)
      (f : Dict Text KubeTargetOutput → Result Halt NodeRuntime)
      → ((out : Dict Text KubeTargetOutput) → Kept rt (f out))
      → Kept rt (materialize_if peer name outputs >>= f)
  unfolding materialize_if
  materialize_if-Kept rt name outputs f k = elim (Option-cases peer.materialize) [
    | inl absent ↦
        let stays : materialize_if peer name outputs ≡ ok outputs = ground (arith, absent) in
        subst (λ r. Kept rt (r >>= f)) (sym stays) (k outputs)
    | inr (write, given) ↦ elim (Result-cases (materialize_all peer write name outputs)) [
      | inl (out, written) ↦
          let writes : materialize_if peer name outputs ≡ ok out = ground (arith, given, written) in
          subst (λ r. Kept rt (r >>= f)) (sym writes) (k out)
      | inr (e, fails) ↦
          let breaks : materialize_if peer name outputs ≡ err (propagates e) =
            ground (arith, given, fails) in
          subst (λ r. Kept rt (r >>= f)) (sym breaks) (propagated e)
    ]
  ]

  kube_stage-Kept :
      (name : Text) (targets : Option (Dict Text KubeTarget)) (rt : NodeRuntime)
      → Kept rt (kube_stage peer name targets rt)
  unfolding kube_stage
  kube_stage-Kept name none rt = kept_on rt refl refl refl
  kube_stage-Kept name (some []) rt = kept_on rt refl refl refl
  kube_stage-Kept name (some (t ∷ targets)) rt =
      guard_startup-Kept rt (run_kube_targets peer.remote name (t ∷ targets)) _ (λ p.
        materialize_if-Kept rt name p.outputs _ (λ outputs.
          raise_if-Kept rt (record rt { kube_targets = outputs; kube_warnings = p.warnings })
            (not (is_empty p.required_failures)) (kube_failed p.required_failures) refl refl refl))

  pub stages-Kept :
      (name : Text) (files : Option (Dict Text FileSpec)) (targets : Option (Dict Text KubeTarget))
      (rt : NodeRuntime)
      → Kept rt (fetch_stage peer files rt >>= kube_stage peer name targets)
  stages-Kept name files targets rt = go (fetch_stage peer files rt) (fetch_stage-Kept files rt)
    where
      go : (r : Result Halt NodeRuntime) → Kept rt r → Kept rt (r >>= kube_stage peer name targets)
      go r (kept_on rt' h1 h2 h3) = Kept-trans rt rt' _ h1 h2 h3 (kube_stage-Kept name targets rt')
      go r (given_up rt' e h3) = given_up rt' e h3
      go r (propagated e) = propagated e
