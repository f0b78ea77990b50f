-- ===== src/Kube/Run/Outcomes.antt =====
-- How `run_kube_targets` of tunstrap/kube.py leaves each target.
use garuda_tunnel.Base.{
  ℕ, ◌≡◌, inl, inr, sym, ap, Bool, true, false, List, [], ◌∷◌, ◌++◌, Option, none, some, Text,
  text_eq, arith, Bool-cases, Option-cases, Result-cases, ok, ◌>>=◌, >>=-eq-ok,
}
use garuda_tunnel.Base.Dict.{insert}
use garuda_tunnel.Schemas.{KubeTarget, KubeTargetOutput, TunnelWarning}
use garuda_tunnel.Messages.{Warning, kube_unreadable, kube_invalid, no_usable_name}
use garuda_tunnel.Kube.Config.{KubeconfigView}
use garuda_tunnel.Kube.Tls.{resolve_tls}
use garuda_tunnel.Kube.Patch.{patch_view}
use garuda_tunnel.Kube.Run.{
  Remote, remote_failure, parse_failure, fetch_and_parse, is_caught, Progress, note_failure,
  give_up, warn_ignored, tls_warnings, target_output, split_host_port, finish, judge_tls, connect,
  run_target,
}

module _ (remote : Remote) (node_name : Text) where
  -- A target that is served adds its output and its listener; a target that is given up is counted
  -- as a failure if it is required.
  pub data Outcome (name : Text) (target : KubeTarget) (p p' : Progress) : Type 0 where
    served :
        (output : KubeTargetOutput)
        → p'.outputs ≡ insert name output p.outputs
        → p'.listeners ≡ p.listeners ++ (output.local_port ∷ [])
        → p'.required_failures ≡ p.required_failures
        → Outcome name target p p'
    given_up :
        p'.outputs ≡ p.outputs
        → p'.listeners ≡ p.listeners
        → p'.required_failures ≡ note_failure remote node_name name target p.required_failures
        → Outcome name target p p'

  finish-Outcome :
      (name : Text) (target : KubeTarget) (view : KubeconfigView) (port : ℕ) (tls : Option Text)
      (insecure : Bool) (p p' : Progress)
      → finish remote node_name name view port tls insecure p ≡ ok p'
      → Outcome name target p p'
  unfolding finish target_output
  finish-Outcome name target view port tls insecure p p' h =
      elim (Option-cases (patch_view view port tls insecure)) [
        | inl fails ↦ ground arith
        | inr (patched, done) ↦
            let same : record p {
              outputs =
                  insert name (target_output remote node_name view port tls insecure patched)
                    p.outputs;
              listeners = p.listeners ++ (port ∷ []);
            }
                ≡ p' =
              ground arith in
            served (target_output remote node_name view port tls insecure patched)
              (ap (λ q. q.outputs) (sym same)) (ap (λ q. q.listeners) (sym same))
              (ap (λ q. q.required_failures) (sym same))
      ]

  give_up-Outcome :
      (name : Text) (target : KubeTarget) (w : Warning) (p p' : Progress)
      → give_up remote node_name name target w p ≡ p'
      → Outcome name target p p'
  unfolding give_up
  give_up-Outcome name target w p p' same =
      given_up (ap (λ q. q.outputs) (sym same)) (ap (λ q. q.listeners) (sym same))
        (ap (λ q. q.required_failures) (sym same))

  judge_tls-Outcome :
      (name : Text) (target : KubeTarget) (view : KubeconfigView) (port : ℕ) (tls : Option Text)
      (insecure : Bool) (p p' : Progress)
      → judge_tls remote node_name name target view port tls insecure p ≡ ok p'
      → Outcome name target p p'
  unfolding judge_tls
  judge_tls-Outcome name target view port none false p p' h =
      give_up-Outcome name target (no_usable_name name) p p' (ground arith)
  judge_tls-Outcome name target view port none true p p' h =
      finish-Outcome name target view port none true p p' h
  judge_tls-Outcome name target view port (some n) i p p' h =
      finish-Outcome name target view port (some n) i p p' h

  -- Warnings alone make no difference.
  Outcome-warned :
      (name : Text) (target : KubeTarget) (ws : List TunnelWarning) (p p' : Progress)
      → Outcome name target (record p { warnings = ws }) p'
      → Outcome name target p p'
  Outcome-warned name target ws p p' (served o outs ls fs) = served o outs ls fs
  Outcome-warned name target ws p p' (given_up outs ls fs) = given_up outs ls fs

  connect-Outcome :
      (name : Text) (target : KubeTarget) (view : KubeconfigView) (p p' : Progress)
      → connect remote node_name name target view p ≡ ok p'
      → Outcome name target p p'
  unfolding connect
  connect-Outcome name target view p p' h =
      elim (Result-cases (split_host_port remote.urlsplit view.server)) [
        | inr (e, bad) ↦ give_up-Outcome name target (kube_invalid name e) p p' (ground arith)
        | inl ((host, port), good) ↦
            let (local_port, h1, r1) =
              >>=-eq-ok (remote.forward name host port)
                (λ l. resolve_tls target host l (remote.probe name) name >>= λ tls.
                  judge_tls remote node_name name target view l tls.0.0 tls.0.1
                    (tls_warnings remote node_name tls.1 p))
                (ground arith) in
            let (tls, h2, r2) =
              >>=-eq-ok (resolve_tls target host local_port (remote.probe name) name)
                (λ tls.
                  judge_tls remote node_name name target view local_port tls.0.0 tls.0.1
                    (tls_warnings remote node_name tls.1 p))
                r1 in
            Outcome-warned name target _ p p' (
              judge_tls-Outcome name target view local_port tls.0.0 tls.0.1
                (tls_warnings remote node_name tls.1 p) p' r2)
      ]

  pub run_target-Outcome :
      (name : Text) (target : KubeTarget) (p p' : Progress)
      → run_target remote node_name name target p ≡ ok p'
      → Outcome name target p p'
  unfolding run_target warn_ignored
  run_target-Outcome name target p p' h = elim (Result-cases (fetch_and_parse remote name target)) [
    | inl (view, read) ↦ Outcome-warned name target _ p p' (
        connect-Outcome name target view
          (warn_ignored remote node_name name view.ignored_contexts p) p' (ground arith))
    | inr (parse_failure e, unread) ↦
        give_up-Outcome name target (kube_invalid name e) p p' (ground arith)
    | inr (remote_failure e, unread) ↦ elim (Bool-cases (is_caught e.kind)) [
      | inl caught ↦ give_up-Outcome name target (kube_unreadable name e) p p' (ground arith)
      | inr missed ↦ ground arith
    ]
  ]
