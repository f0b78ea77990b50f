-- ===== src/EnvRender/Entries.antt =====
-- `render_env` of tunstrap/envrender.py against the list of the variables that it should set.
use garuda_tunnel.Base.{
  ℕ, ◌≡◌, refl, inl, inr, sym, ap, subst, ◌∙◌, ◌↔◌, false, List, [], ◌∷◌, ◌++◌, append-nil,
  append_assoc, Option, none, some, Text, text, text_eq, nat_eq, ℕ_discrete, Result, ok, ◌>>=◌,
  arith, Bool-cases, Option-cases, >>=-eq-ok, >>=-congr, >>=-assoc, >>=-ok,
}
use garuda_tunnel.Base.Dict.{
  Dict, has_key, insert_new, NodupKeys, insert-NodupKeys, has_key-NodupKeys, lookup,
}
use garuda_tunnel.Str.{join}
use garuda_tunnel.Schemas.{OutputSchema, NodeOutput, KubeTargetOutput}
use garuda_tunnel.EnvRender.{
  EnvError, put, put_all, session_entries, port_entries, kube_entries, render_ports, render_kube,
  put_kubeconfig, render_node, render_connections, render_env,
}

abbrev Env : Type 0
Env = Dict Text Text

put_all-append : (xs ys env : Env) → put_all (xs ++ ys) env ≡ (put_all xs env >>= λ e. put_all ys e)
unfolding put_all
put_all-append [] ys env = refl
put_all-append ((name, value) ∷ xs) ys env =
    >>=-congr (put name value env) (λ e. put_all (xs ++ ys) e)
      (λ e. put_all xs e >>= λ e'. put_all ys e') (λ e. put_all-append xs ys e)
    ∙ sym (>>=-assoc (put name value env) (λ e. put_all xs e) (λ e. put_all ys e))

put_lem :
    (name value : Text) (env env' : Env)
    → put name value env ≡ ok env'
    → (has_key name env ≡ false) × (env' ≡ env ++ ((name, value) ∷ []))
unfolding put
put_lem name value env env' h = elim (Bool-cases (has_key name env)) [
  | inl taken ↦ ground arith
  | inr fresh ↦ (fresh, ground (arith, insert_new name value env fresh))
]

put_new :
    (name value : Text) (env : Env)
    → has_key name env ≡ false
    → put name value env ≡ ok (env ++ ((name, value) ∷ []))
unfolding put
put_new name value env h = rw (h, insert_new name value env h)

-- New variables go behind those that are there, and no name is set twice.
put_all_lem :
    (xs env env' : Env)
    → NodupKeys env
    → put_all xs env ≡ ok env'
    → (env' ≡ env ++ xs) × NodupKeys env'
unfolding put_all
put_all_lem [] env env' u h =
    let same : env ≡ env' = cc in (sym same ∙ sym (append-nil env), rw (← same) u)
put_all_lem ((name, value) ∷ xs) env env' u h =
    let (e, first, rest) = >>=-eq-ok (put name value env) (λ e. put_all xs e) h in
    let (fresh, longer) = put_lem name value env e first in
    let grown : NodupKeys e =
      subst NodupKeys (insert_new name value env fresh ∙ sym longer)
        (insert-NodupKeys name value env u) in
    let (all, differ) = put_all_lem xs e env' grown rest in
    (all ∙ ap (λ d. d ++ xs) longer ∙ append_assoc env ((name, value) ∷ []) xs, differ)

put_all-NodupKeys : (xs env : Env) → NodupKeys (env ++ xs) → put_all xs env ≡ ok (env ++ xs)
unfolding put_all
put_all-NodupKeys [] env u = ap ok (sym (append-nil env))
put_all-NodupKeys ((name, value) ∷ xs) env u =
    let joined = append_assoc env ((name, value) ∷ []) xs in
    rw (put_new name value env (has_key-NodupKeys env name value xs u))
      (put_all-NodupKeys xs (env ++ ((name, value) ∷ [])) (rw joined u) ∙ ap ok joined)

session-NodupKeys : (output : OutputSchema) → NodupKeys (session_entries output)
unfolding session_entries lookup text text_eq ℕ_discrete
session-NodupKeys output = (refl, (refl, tt))

module _ (upper_wide : ℕ → Text) where
  abbrev pub port_part : Dict Text ℕ → Env
  port_part [] = []
  port_part ((name, port) ∷ ports) = port_entries upper_wide name port ++ port_part ports

  -- Every kube target has a path.
  abbrev pub kube_paths : Dict Text KubeTargetOutput → Option (List Text)
  kube_paths [] = some []
  kube_paths ((name, target) ∷ targets) = elim target.path [
    | none ↦ none
    | some path ↦ elim (kube_paths targets) [ none ↦ none | some paths ↦ some (path ∷ paths) ]
  ]

  abbrev pub kube_part : Dict Text KubeTargetOutput → List Text → Env
  kube_part [] paths = []
  kube_part ((name, target) ∷ targets) [] = []
  kube_part ((name, target) ∷ targets) (path ∷ paths) =
      kube_entries upper_wide name path target ++ kube_part targets paths

  render_ports-eq :
      (ports : Dict Text ℕ) (env : Env)
      → render_ports upper_wide ports env ≡ put_all (port_part ports) env
  unfolding render_ports put_all
  render_ports-eq [] env = refl
  render_ports-eq ((name, port) ∷ ports) env =
      >>=-congr (put_all (port_entries upper_wide name port) env) _ _ (λ e. render_ports-eq ports e)
      ∙ sym (put_all-append (port_entries upper_wide name port) (port_part ports) env)

  abbrev with_paths : List Text → Result EnvError Env → Result EnvError (Env × List Text)
  with_paths paths r = r >>= λ e. ok (e, paths)

  kube_step :
      (name path : Text) (target : KubeTargetOutput) (targets : Dict Text KubeTargetOutput)
      (env : Env) (before rest : List Text)
      → ((e : Env)
          → render_kube upper_wide targets e (before ++ (path ∷ []))
            ≡ with_paths ((before ++ (path ∷ [])) ++ rest) (put_all (kube_part targets rest) e))
      → (put_all (kube_entries upper_wide name path target) env >>= λ e.
          render_kube upper_wide targets e (before ++ (path ∷ [])))
        ≡ with_paths
            (before ++ (path ∷ rest))
            (put_all (kube_entries upper_wide name path target ++ kube_part targets rest) env)
  kube_step name path target targets env before rest ih =
      let set = kube_entries upper_wide name path target in
      rw (put_all-append set (kube_part targets rest) env) (
        >>=-congr (put_all set env) _ _ (λ e.
          ih e
          ∙ ap (λ p. with_paths p (put_all (kube_part targets rest) e))
              (append_assoc before (path ∷ []) rest))
        ∙ sym (
            >>=-assoc (put_all set env) (λ e. put_all (kube_part targets rest) e)
              (λ e. ok (e, before ++ (path ∷ rest)))))

  render_kube-eq :
      (targets : Dict Text KubeTargetOutput) (env : Env) (before paths : List Text)
      → kube_paths targets ≡ some paths
      → render_kube upper_wide targets env before
        ≡ with_paths (before ++ paths) (put_all (kube_part targets paths) env)
  unfolding render_kube put_all kube_entries
  render_kube-eq [] env before paths h =
      let none_left : [] ≡ paths = cc in
      rw (← none_left) (ap (λ p. ok (env, p)) (sym (append-nil before)))
  render_kube-eq ((name, target) ∷ targets) env before paths h = elim (Option-cases target.path) [
    | inl missing ↦ ground arith
    | inr (path, has_path) ↦ elim (Option-cases (kube_paths targets)) [
      | inl missing ↦ ground arith
      | inr (rest, others) ↦
          let both : path ∷ rest ≡ paths = ground arith in
          rw (← both) (
            rw (has_path, render_kube)
              (kube_step name path target targets env before rest
                (λ e. render_kube-eq targets e (before ++ (path ∷ [])) rest others)))
    ]
  ]

  -- A kube target without a path stops the rendering.
  render_kube_missing :
      (targets : Dict Text KubeTargetOutput) (env : Env) (before : List Text) {r : Env × List Text}
      → render_kube upper_wide targets env before ≡ ok r
      → (paths : List Text) × (kube_paths targets ≡ some paths)
  unfolding render_kube
  render_kube_missing [] env before h = ([], refl)
  render_kube_missing ((name, target) ∷ targets) env before h = elim (Option-cases target.path) [
    | inl missing ↦ ground arith
    | inr (path, has_path) ↦
        let (env', first, rest) =
          >>=-eq-ok (put_all (kube_entries upper_wide name path target) env) _
            (rw (has_path, render_kube) at h) in
        let (paths, others) = render_kube_missing targets env' (before ++ (path ∷ [])) rest in
        (path ∷ paths, ground arith)
  ]

  abbrev pub kubeconfig_part : List Text → Env
  kubeconfig_part [] = []
  kubeconfig_part (path ∷ paths) = (text "KUBECONFIG", join b':' (path ∷ paths)) ∷ []

  -- The variables of a node, in the order in which they are set: those of the session, three for each
  -- port, two for each kube target, and `KUBECONFIG` if there is a kube target.
  abbrev pub node_entries : OutputSchema → NodeOutput → List Text → Env
  node_entries output node paths =
      session_entries output
      ++ (port_part node.ports ++ (kube_part node.kube_targets paths ++ kubeconfig_part paths))

  put_kubeconfig-eq :
      (paths : List Text) (env : Env)
      → put_kubeconfig upper_wide (env, paths) ≡ put_all (kubeconfig_part paths) env
  unfolding put_kubeconfig put_all
  put_kubeconfig-eq [] env = refl
  put_kubeconfig-eq (path ∷ paths) env =
      sym (>>=-ok (put (text "KUBECONFIG") (join b':' (path ∷ paths)) env))

  render_node-eq :
      (output : OutputSchema) (node : NodeOutput) (paths : List Text)
      → kube_paths node.kube_targets ≡ some paths
      → render_node upper_wide output node
        ≡ put_all
            (port_part node.ports ++ (kube_part node.kube_targets paths ++ kubeconfig_part paths))
            (session_entries output)
  unfolding render_node
  render_node-eq output node paths h =
      let ports = port_part node.ports in
      let kube = kube_part node.kube_targets paths in
      let last = kubeconfig_part paths in
      rw render_ports-eq (
        >>=-congr (put_all ports (session_entries output)) _ _ (λ env.
          rw (render_kube-eq node.kube_targets env [] paths h) (
            >>=-assoc (put_all kube env) (λ e. ok (e, paths)) (put_kubeconfig upper_wide)
            ∙ >>=-congr (put_all kube env) _ _ (put_kubeconfig-eq paths)
            ∙ sym (put_all-append kube last env)))
        ∙ sym (put_all-append ports (kube ++ last) (session_entries output)))

  render_node_missing :
      (output : OutputSchema) (node : NodeOutput) {env : Env}
      → render_node upper_wide output node ≡ ok env
      → (paths : List Text) × (kube_paths node.kube_targets ≡ some paths)
  unfolding render_node
  render_node_missing output node h =
      let (e, first, rest) =
        >>=-eq-ok (render_ports upper_wide node.ports (session_entries output)) _ h in
      let (done, kube, last) = >>=-eq-ok (render_kube upper_wide node.kube_targets e []) _ rest in
      render_kube_missing node.kube_targets e [] kube

  render_env-one :
      (output : OutputSchema) (name : Text) (node : NodeOutput)
      → output.connections ≡ (name, node) ∷ []
      → render_env upper_wide output ≡ render_node upper_wide output node
  unfolding render_env render_connections
  render_env-one output name node one = ap (render_connections upper_wide output) one

  -- For one node, `render_env` returns exactly the listed variables, in order, and only if each kube
  -- target has a path and no variable stands twice in the list.
  pub render_env-node_entries :
      (output : OutputSchema) (name : Text) (node : NodeOutput) (env : Env)
      → output.connections ≡ (name, node) ∷ []
      → (render_env upper_wide output ≡ ok env) ↔ (
          (paths : List Text) × (kube_paths node.kube_targets ≡ some paths)
          × (env ≡ node_entries output node paths)
          × NodupKeys env)
  render_env-node_entries output name node env one = (
    λ h.
        let run = sym (render_env-one output name node one) ∙ h in
        let (paths, found) = render_node_missing output node run in
        let (all, differ) =
          put_all_lem
            (port_part node.ports ++ (kube_part node.kube_targets paths ++ kubeconfig_part paths))
            (session_entries output) env (session-NodupKeys output)
            (sym (render_node-eq output node paths found) ∙ run) in
        (paths, found, all, differ),
    λ (paths, found, all, differ).
        render_env-one output name node one
        ∙ render_node-eq output node paths found
        ∙ put_all-NodupKeys _ (session_entries output) (rw all at differ)
        ∙ ap ok (sym all),
  )
