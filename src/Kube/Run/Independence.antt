-- ===== src/Kube/Run/Independence.antt =====
-- What becomes of each kube target in `run_kube_targets` of tunstrap/kube.py.
use garuda_tunnel.Base.{
  ℕ, ◌≡◌, ◌≢◌, ◌⊎◌, inl, inr, refl, ap, ◌∙◌, true, false, not, ◌&&◌, List, [], ◌∷◌, ◌++◌, none,
  Text, text_eq, ◌==◌, if◌then◌else◌, arith, append-nil, append_assoc, ok, err, >>=-eq-ok,
}
use garuda_tunnel.Base.Dict.{
  Dict, has_key, insert_new, lookup, NodupKeys, Fresh, Fresh-nil, Fresh-insert, has_key-insert,
}
use garuda_tunnel.Schemas.{KubeTarget, KubeTargetOutput}
use garuda_tunnel.Messages.{RemoteError, ErrorKind, kube_unreadable}
use garuda_tunnel.Kube.Run.{
  Remote, fetch_one, fetch_and_parse, is_caught, Progress, no_progress, give_up, run_target,
  run_targets, run_kube_targets,
}
use garuda_tunnel.Kube.Run.Outcomes.{Outcome, served, given_up, run_target-Outcome}

-- The required targets without an output.
unfoldable pub missing : Dict Text KubeTarget → Dict Text KubeTargetOutput → List Text
missing [] outputs = []
missing ((name, target) ∷ targets) outputs =
    let rest = missing targets outputs in
    if target.required && not (has_key name outputs) then name ∷ rest else rest

-- The local ports of the outputs.
unfoldable pub ports : Dict Text KubeTargetOutput → List ℕ
ports [] = []
ports ((_, o) ∷ outputs) = o.local_port ∷ ports outputs

ports-append_one :
    (outputs : Dict Text KubeTargetOutput) (name : Text) (o : KubeTargetOutput)
    → ports (outputs ++ ((name, o) ∷ [])) ≡ ports outputs ++ (o.local_port ∷ [])
unfolding ports
ports-append_one [] name o = refl
ports-append_one ((_, q) ∷ outputs) name o =
    ap (λ l. q.local_port ∷ l) (ports-append_one outputs name o)

-- The kinds of error that end one target and not the run.
abbrev pub IsPassing : ErrorKind → Type 0
IsPassing kind = (kind ≡ ErrorKind.os) ⊎ (kind ≡ ErrorKind.timeout)

is_caught-cases :
    (kind : ErrorKind)
    → ((is_caught kind ≡ true) × IsPassing kind)
      ⊎ ((is_caught kind ≡ false) × (kind ≢ ErrorKind.os) × (kind ≢ ErrorKind.timeout))
unfolding is_caught
is_caught-cases ErrorKind.os = inl (refl, inl refl)
is_caught-cases ErrorKind.timeout = inl (refl, inr refl)
is_caught-cases (ErrorKind.sftp code) = inr (refl, λ h. cc, λ h. cc)
is_caught-cases ErrorKind.ssh = inr (refl, λ h. cc, λ h. cc)
is_caught-cases ErrorKind.startup = inr (refl, λ h. cc, λ h. cc)
is_caught-cases ErrorKind.foreign = inr (refl, λ h. cc, λ h. cc)

module _ (remote : Remote) (node_name : Text) where
  -- A target touches no output of another name.
  Outcome-has_key :
      (name other : Text) (target : KubeTarget) (p p' : Progress)
      → Outcome remote node_name name target p p'
      → (other == name) ≡ false
      → has_key other p'.outputs ≡ has_key other p.outputs
  Outcome-has_key name other target p p' (served o outs _ _) h =
      rw (outs, has_key-insert other name o p.outputs, h)
  Outcome-has_key name other target p p' (given_up outs _ _) h = ap (has_key other) outs

  Outcome-Fresh :
      (name : Text) (target : KubeTarget) (targets : Dict Text KubeTarget) (p p' : Progress)
      → Outcome remote node_name name target p p'
      → lookup name targets ≡ none
      → Fresh targets p.outputs
      → Fresh targets p'.outputs
  Outcome-Fresh name target targets p p' (served o outs _ _) h f =
      rw (outs) (Fresh-insert targets name o p.outputs h f)
  Outcome-Fresh name target targets p p' (given_up outs _ _) h f = rw (outs) f

  run_targets-has_key :
      (targets : Dict Text KubeTarget) (other : Text) (p p' : Progress)
      → run_targets remote node_name targets p ≡ ok p'
      → lookup other targets ≡ none
      → has_key other p'.outputs ≡ has_key other p.outputs
  unfolding run_targets lookup
  run_targets-has_key [] other p p' h absent = ground arith
  run_targets-has_key ((name, target) ∷ targets) other p p' h absent =
      let (p1, h1, r1) = >>=-eq-ok (run_target remote node_name name target p) _ h in
      run_targets-has_key targets other p1 p' r1 (ground arith)
      ∙ Outcome-has_key name other target p p1
          (run_target-Outcome remote node_name name target p p1 h1) (ground arith)

  -- One step of the count.
  missing-Outcome :
      (name : Text) (target : KubeTarget) (p p1 p' : Progress) (rest : List Text)
      → Outcome remote node_name name target p p1
      → has_key name p.outputs ≡ false
      → has_key name p'.outputs ≡ has_key name p1.outputs
      → p'.required_failures ≡ p1.required_failures ++ rest
      → p'.required_failures
        ≡ p.required_failures
          ++ (if target.required && not (has_key name p'.outputs) then name ∷ rest else rest)
  missing-Outcome name target p p1 p' rest (served o outs _ fs) fresh kept h =
      let there : has_key name p'.outputs ≡ true =
        ground (arith, kept, outs, has_key-insert name name o p.outputs) in
      ground (arith, there, h, fs)
  missing-Outcome name target p p1 p' rest (given_up outs _ fs) fresh kept h =
      let absent : has_key name p'.outputs ≡ false = kept ∙ ap (has_key name) outs ∙ fresh in
      ground (arith, absent, h, fs, append_assoc p.required_failures (name ∷ []) rest)

  run_targets-missing :
      (targets : Dict Text KubeTarget) (p p' : Progress)
      → run_targets remote node_name targets p ≡ ok p'
      → NodupKeys targets
      → Fresh targets p.outputs
      → p'.required_failures ≡ p.required_failures ++ missing targets p'.outputs
  unfolding run_targets missing Fresh
  run_targets-missing [] p p' h u f = ground (arith, append-nil p.required_failures)
  run_targets-missing ((name, target) ∷ targets) p p' h (fresh, u) (f, fs) =
      let (p1, h1, r1) = >>=-eq-ok (run_target remote node_name name target p) _ h in
      let o = run_target-Outcome remote node_name name target p p1 h1 in
      missing-Outcome name target p p1 p' (missing targets p'.outputs) o f
        (run_targets-has_key targets name p1 p' r1 fresh)
        (run_targets-missing targets p1 p' r1 u (Outcome-Fresh name target targets p p1 o fresh fs))

  -- When a run over targets of differing names comes to its end, the required failures are the
  -- required targets without an output, in their order.
  pub run_kube_targets-required_failures :
      (targets : Dict Text KubeTarget) (p : Progress)
      → NodupKeys targets
      → run_kube_targets remote node_name targets ≡ ok p
      → p.required_failures ≡ missing targets p.outputs
  unfolding run_kube_targets
  run_kube_targets-required_failures targets p u h =
      run_targets-missing targets no_progress p h u (Fresh-nil targets no_progress.outputs refl)

  Outcome-ports :
      (name : Text) (target : KubeTarget) (p p1 : Progress)
      → Outcome remote node_name name target p p1
      → has_key name p.outputs ≡ false
      → p.listeners ≡ ports p.outputs
      → p1.listeners ≡ ports p1.outputs
  Outcome-ports name target p p1 (served o outs ls _) fresh h =
      rw (outs, insert_new name o p.outputs fresh, ports-append_one p.outputs name o, ls, h)
  Outcome-ports name target p p1 (given_up outs ls _) fresh h = rw (outs, ls) h

  run_targets-ports :
      (targets : Dict Text KubeTarget) (p p' : Progress)
      → run_targets remote node_name targets p ≡ ok p'
      → NodupKeys targets
      → Fresh targets p.outputs
      → p.listeners ≡ ports p.outputs
      → p'.listeners ≡ ports p'.outputs
  unfolding run_targets Fresh
  run_targets-ports [] p p' h u f k = ground (arith, k)
  run_targets-ports ((name, target) ∷ targets) p p' h (fresh, u) (f, fs) k =
      let (p1, h1, r1) = >>=-eq-ok (run_target remote node_name name target p) _ h in
      let o = run_target-Outcome remote node_name name target p p1 h1 in
      run_targets-ports targets p1 p' r1 u (Outcome-Fresh name target targets p p1 o fresh fs)
        (Outcome-ports name target p p1 o f k)

  -- When a run over targets of differing names comes to its end, the listeners that stay open
  -- are those of the outputs, one for each: a target that is given up keeps none.
  pub run_kube_targets-listeners :
      (targets : Dict Text KubeTarget) (p : Progress)
      → NodupKeys targets
      → run_kube_targets remote node_name targets ≡ ok p
      → p.listeners ≡ ports p.outputs
  unfolding run_kube_targets ports
  run_kube_targets-listeners targets p u h =
      run_targets-ports targets no_progress p h u (Fresh-nil targets no_progress.outputs refl) refl

  run_targets-append :
      (xs ys : Dict Text KubeTarget) (p p1 : Progress)
      → run_targets remote node_name xs p ≡ ok p1
      → run_targets remote node_name (xs ++ ys) p ≡ run_targets remote node_name ys p1
  unfolding run_targets
  run_targets-append [] ys p p1 h = ground arith
  run_targets-append ((name, target) ∷ xs) ys p p1 h =
      let (q, h1, r1) =
        >>=-eq-ok (run_target remote node_name name target p) (run_targets remote node_name xs) h in
      rw (h1) (run_targets-append xs ys q p1 r1)

  run_target-unread :
      (name : Text) (target : KubeTarget) (p : Progress) (e : RemoteError)
      → fetch_one remote name target.kubeconfig_path ≡ err e
      → run_target remote node_name name target p ≡ (
          if is_caught e.kind
          then ok (give_up remote node_name name target (kube_unreadable name e) p)
          else err e)
  unfolding run_target fetch_and_parse
  run_target-unread name target p e h = ground (arith, h)

  -- When the kubeconfig of a target cannot be fetched after the targets before it were run, then for an
  -- `OSError` or a timeout the ones after it go on, with the target among the failures if it is
  -- required, with one warning more, and with the outputs and listeners as they were; any other error
  -- ends the run, whether the target is required or not.
  pub run_kube_targets-unread :
      (before : Dict Text KubeTarget) (name : Text) (target : KubeTarget)
      (after : Dict Text KubeTarget) (p : Progress) (e : RemoteError)
      → run_kube_targets remote node_name before ≡ ok p
      → fetch_one remote name target.kubeconfig_path ≡ err e
      → (let targets = before ++ ((name, target) ∷ after) in
          (IsPassing e.kind
            × (run_kube_targets remote node_name targets
                ≡ run_targets remote node_name after (record {
                  outputs = p.outputs;
                  required_failures =
                      if target.required
                      then p.required_failures ++ (name ∷ [])
                      else p.required_failures;
                  warnings =
                      p.warnings
                      ++ (record {
                        node = node_name;
                        error = kube_unreadable name e;
                        skipped = true;
                      }
                          ∷ []);
                  listeners = p.listeners;
                })))
          ⊎ ((e.kind ≢ ErrorKind.os)
              × (e.kind ≢ ErrorKind.timeout)
              × (run_kube_targets remote node_name targets ≡ err e)))
  unfolding run_kube_targets run_targets give_up
  run_kube_targets-unread before name target after p e ran h =
      let joined = run_targets-append before ((name, target) ∷ after) no_progress p ran in
      let step = run_target-unread name target p e h in
      elim (is_caught-cases e.kind) [
        | inl (caught, passing) ↦ inl (passing, joined ∙ ground (arith, step, caught))
        | inr (missed, not_os, not_timeout) ↦
            inr (not_os, not_timeout, joined ∙ ground (arith, step, missed))
      ]
