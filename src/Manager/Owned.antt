-- ===== src/Manager/Owned.antt =====
-- The listeners that the kube stage of tunstrap/manager.py leaves open on the connection.
use garuda_tunnel.Base.{
  ◌≡◌, refl, inl, inr, ap, ◌∙◌, sym, not, [], ◌∷◌, Option, none, some, Text, text, text_eq,
  is_empty, ◌++◌, arith, Result, ok, err, ◌>>=◌, >>=-eq-ok, Result-cases, Option-cases, Bool-cases,
}
use garuda_tunnel.Base.Dict.{Dict, NodupKeys}
use garuda_tunnel.Schemas.{FileSpec, KubeTarget, KubeTargetOutput}
use garuda_tunnel.Messages.{RemoteError}
use garuda_tunnel.Fetcher.{fetch_files}
use garuda_tunnel.Kube.Run.{
  Remote, Progress, no_progress, run_target, run_targets, run_kube_targets, left_open,
}
use garuda_tunnel.Kube.Run.Independence.{ports, run_kube_targets-listeners}
use garuda_tunnel.Manager.{
  NodeRuntime, Peer, guard_startup, fetch_stage, materialize_all, materialize_if, kube_stage,
  owned_by,
}

left_open-ok :
    (remote : Remote) (node_name : Text) (targets : Dict Text KubeTarget) (p q : Progress)
    → run_targets remote node_name targets p ≡ ok q
    → left_open remote node_name targets p ≡ q.listeners
unfolding left_open run_targets
left_open-ok remote node_name [] p q h = ground (arith, h)
left_open-ok remote node_name ((name, target) ∷ targets) p q h =
    let (p', ran, rest) =
      >>=-eq-ok (run_target remote node_name name target p) (run_targets remote node_name targets)
        h in
    ground (arith, ran, left_open-ok remote node_name targets p' q rest)

module _ (peer : Peer) where
  materialize_all-ports :
      (write : Text → Text → Result RemoteError Text) (name : Text)
      (outputs written : Dict Text KubeTargetOutput)
      → materialize_all peer write name outputs ≡ ok written
      → ports written ≡ ports outputs
  unfolding materialize_all ports
  materialize_all-ports write name [] written h = ground (arith, h)
  materialize_all-ports write name ((kname, out) ∷ outputs) written h =
      let (path, wrote, more) =
        >>=-eq-ok (write (name ++ (text "-" ++ kname)) out.content_b64) _ h in
      let (rest, others, same) = >>=-eq-ok (materialize_all peer write name outputs) _ more in
      let ih = materialize_all-ports write name outputs rest others in
      let eq : ((kname, record out { path = some path }) ∷ rest) ≡ written = ground (arith, same) in
      sym (ap ports eq) ∙ ap (λ l. out.local_port ∷ l) ih

  materialize_if-ports :
      (name : Text) (outputs written : Dict Text KubeTargetOutput)
      → materialize_if peer name outputs ≡ ok written
      → ports written ≡ ports outputs
  unfolding materialize_if
  materialize_if-ports name outputs written h = elim (Option-cases peer.materialize) [
    | inl absent ↦ ap ports (sym (ground (arith, absent, h)))
    | inr (write, given) ↦ elim (Result-cases (materialize_all peer write name outputs)) [
      | inr (e, fails) ↦ absurd (ground (arith, given, fails, h))
      | inl (out, wrote) ↦
          let same : out ≡ written = ground (arith, given, wrote, h) in
          sym (ap ports same) ∙ materialize_all-ports write name outputs out wrote
    ]
  ]

  fetch_stage-kube_targets :
      (specs : Option (Dict Text FileSpec)) (rt rt' : NodeRuntime)
      → fetch_stage peer specs rt ≡ ok rt'
      → rt'.kube_targets ≡ rt.kube_targets
  unfolding fetch_stage
  fetch_stage-kube_targets none rt rt' h = ground (arith, h)
  fetch_stage-kube_targets (some []) rt rt' h = ground (arith, h)
  fetch_stage-kube_targets (some (s ∷ specs)) rt rt' h =
      let (g, _, rest) =
        >>=-eq-ok (guard_startup peer rt (fetch_files peer.sftp peer.hexdigest (s ∷ specs))) _ h in
      elim (Bool-cases (not (is_empty g.required_failures))) [
        | inl failed ↦ absurd (ground (arith, failed, rest))
        | inr fine ↦ ground (arith, fine, rest)
      ]

  guard_startup-ok :
      {A : Type 0} (rt : NodeRuntime) (r : Result RemoteError A) (a : A)
      → guard_startup peer rt r ≡ ok a
      → r ≡ ok a
  unfolding guard_startup
  guard_startup-ok rt (ok b) a h = ground (arith, h)
  guard_startup-ok rt (err e) a h = cc

  kube_stage-ports :
      (name : Text) (targets : Option (Dict Text KubeTarget)) (rt rt' : NodeRuntime)
      → ((ts : Dict Text KubeTarget) → targets ≡ some ts → NodupKeys ts)
      → rt.kube_targets ≡ []
      → kube_stage peer name targets rt ≡ ok rt'
      → owned_by peer targets name (ok rt) ≡ ports rt'.kube_targets
  unfolding kube_stage owned_by left_open ports run_kube_targets
  kube_stage-ports name none rt rt' u bare h =
      let same : rt ≡ rt' = ground (arith, h) in
      sym (ap (λ rt. ports rt.kube_targets) (sym same) ∙ ap ports bare)
  kube_stage-ports name (some []) rt rt' u bare h =
      let same : rt ≡ rt' = ground (arith, h) in
      sym (ap (λ rt. ports rt.kube_targets) (sym same) ∙ ap ports bare)
  kube_stage-ports name (some (t ∷ targets)) rt rt' u bare h =
      let (p, guarded, more) =
        >>=-eq-ok (guard_startup peer rt (run_kube_targets peer.remote name (t ∷ targets))) _ h in
      let ran = guard_startup-ok rt (run_kube_targets peer.remote name (t ∷ targets)) p guarded in
      let (outputs, written, rest) = >>=-eq-ok (materialize_if peer name p.outputs) _ more in
      let kept : rt'.kube_targets ≡ outputs =
        elim (Bool-cases (not (is_empty p.required_failures))) [
          | inl failed ↦ absurd (ground (arith, failed, rest))
          | inr fine ↦ ground (arith, fine, rest)
        ] in
      left_open-ok peer.remote name (t ∷ targets) no_progress p ran
      ∙ run_kube_targets-listeners peer.remote name (t ∷ targets) p (u (t ∷ targets) refl) ran
      ∙ sym (materialize_if-ports name p.outputs outputs written)
      ∙ sym (ap ports kept)

  -- What the connection of a node owns when its stages have returned.
  pub stages-ports :
      (name : Text) (specs : Option (Dict Text FileSpec)) (targets : Option (Dict Text KubeTarget))
      (rt rt' : NodeRuntime)
      → ((ts : Dict Text KubeTarget) → targets ≡ some ts → NodupKeys ts)
      → rt.kube_targets ≡ []
      → (fetch_stage peer specs rt >>= kube_stage peer name targets) ≡ ok rt'
      → owned_by peer targets name (fetch_stage peer specs rt) ≡ ports rt'.kube_targets
  stages-ports name specs targets rt rt' u bare h =
      let (mid, fetched, rest) =
        >>=-eq-ok (fetch_stage peer specs rt) (kube_stage peer name targets) h in
      let still = fetch_stage-kube_targets specs rt mid fetched ∙ bare in
      ap (owned_by peer targets name) fetched ∙ kube_stage-ports name targets mid rt' u still rest
