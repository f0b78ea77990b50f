-- ===== src/Kube/Run/Opened.antt =====
-- The listener that a target of `run_kube_targets` in tunstrap/kube.py opens.
use garuda_tunnel.Base.{
  ℕ, ◌≡◌, ◌⊎◌, inl, inr, subst, sym, Bool, true, false, List, [], ◌∷◌, ◌++◌, Option, none, some,
  Text, arith, ok, Result-cases, Option-cases, Bool-cases,
}
use garuda_tunnel.Schemas.{KubeTarget}
use garuda_tunnel.Kube.Config.{KubeconfigView}
use garuda_tunnel.Kube.Patch.{patch_view}
use garuda_tunnel.Kube.Tls.{resolve_tls}
use garuda_tunnel.Kube.Run.{
  Remote, split_host_port, fetch_and_parse, remote_failure, parse_failure, is_caught, Progress,
  give_up, warn_ignored, tls_warnings, finish, judge_tls, connect, run_target, opened_by,
}

module _ (remote : Remote) (node_name : Text) where
  -- The listeners are as before, or with one more.
  abbrev Opens : List ℕ → Progress → Progress → Type 0
  Opens opened p p' = (p'.listeners ≡ p.listeners) ⊎ (p'.listeners ≡ p.listeners ++ opened)

  finish-Opens :
      (name : Text) (view : KubeconfigView) (local_port : ℕ) (tls_name : Option Text)
      (insecure : Bool) (p p' : Progress)
      → finish remote node_name name view local_port tls_name insecure p ≡ ok p'
      → p'.listeners ≡ p.listeners ++ (local_port ∷ [])
  unfolding finish
  finish-Opens name view local_port tls_name insecure p p' h =
      elim (Option-cases (patch_view view local_port tls_name insecure)) [
        | inl unpatched ↦ absurd (ground (arith, unpatched, h))
        | inr (patched, done) ↦ ground (arith, done, h)
      ]

  judge_tls-Opens :
      (name : Text) (target : KubeTarget) (view : KubeconfigView) (local_port : ℕ)
      (tls_name : Option Text) (insecure : Bool) (p p' : Progress)
      → judge_tls remote node_name name target view local_port tls_name insecure p ≡ ok p'
      → Opens (local_port ∷ []) p p'
  unfolding judge_tls give_up
  judge_tls-Opens name target view local_port none false p p' h = inl (ground (arith, h))
  judge_tls-Opens name target view local_port none true p p' h =
      inr (finish-Opens name view local_port none true p p' h)
  judge_tls-Opens name target view local_port (some n) insecure p p' h =
      inr (finish-Opens name view local_port (some n) insecure p p' h)

  -- Behind its kubeconfig a target that ends opens no listener, or the one of its forward.
  connect-Opens :
      (name : Text) (target : KubeTarget) (view : KubeconfigView) (p p' : Progress)
      → fetch_and_parse remote name target ≡ ok view
      → connect remote node_name name target view p ≡ ok p'
      → Opens (opened_by remote node_name name target) p p'
  unfolding connect opened_by give_up
  connect-Opens name target view p p' read h =
      elim (Result-cases (split_host_port remote.urlsplit view.server)) [
        | inr (e, bad) ↦ inl (ground (arith, bad, h))
        | inl ((host, port), url) ↦ elim (Result-cases (remote.forward name host port)) [
          | inr (e, fails) ↦ absurd (ground (arith, url, fails, h))
          | inl (local_port, opens) ↦
              let opened : opened_by remote node_name name target ≡ local_port ∷ [] =
                ground (arith, read, url, opens) in
              elim (Result-cases (resolve_tls target host local_port (remote.probe name) name)) [
                | inr (e, fails) ↦ absurd (ground (arith, url, opens, fails, h))
                | inl (tls, settled) ↦
                    subst (λ l. Opens l p p') (sym opened)
                      (judge_tls-Opens name target view local_port tls.0.0 tls.0.1
                        (tls_warnings remote node_name tls.1 p) p'
                        (ground (arith, url, opens, settled, h)))
              ]
        ]
      ]

  -- A target that does not end the run leaves the listeners as they were, or with the one that it has
  -- opened.
  run_target-Opens :
      (name : Text) (target : KubeTarget) (p p' : Progress)
      → run_target remote node_name name target p ≡ ok p'
      → Opens (opened_by remote node_name name target) p p'
  unfolding run_target give_up warn_ignored
  run_target-Opens name target p p' h = elim (Result-cases (fetch_and_parse remote name target)) [
    | inl (view, read) ↦
        connect-Opens name target view (warn_ignored remote node_name name view.ignored_contexts p)
          p' read (ground (arith, read, h))
    | inr (parse_failure e, unread) ↦ inl (ground (arith, unread, h))
    | inr (remote_failure e, unread) ↦ elim (Bool-cases (is_caught e.kind)) [
      | inl caught ↦ inl (ground (arith, unread, caught, h))
      | inr missed ↦ absurd (ground (arith, unread, missed, h))
    ]
  ]
