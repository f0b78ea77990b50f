-- ===== src/EnvRender/Collisions.antt =====
-- `render_env` of tunstrap/envrender.py on names that `_key` makes equal.
use garuda_tunnel.Base.{
  ℕ, ◌≡◌, inl, inr, sym, ◌≢◌, true, List, [], ◌∷◌, ◌++◌, some, Text, text, text_eq, ◌==◌, ==→eq, ok,
  arith, Bool-cases, subst, append_assoc,
}
use garuda_tunnel.Base.Dict.{
  Dict, has_key, NodupKeys, has_key-append_left, has_key-append_right, NodupKeys-disjoint,
}
use garuda_tunnel.Schemas.{OutputSchema, NodeOutput, KubeTargetOutput}
use garuda_tunnel.EnvRender.{session_entries, key, port_entries, kube_entries, render_env, variable}
use garuda_tunnel.EnvRender.Entries.{
  port_part, kube_paths, kube_part, kubeconfig_part, render_env-node_entries,
}

module _ (upper_wide : ℕ → Text) where
  abbrev endpoint_of : Text → Text
  endpoint_of name = variable (key upper_wide name) (text "_ENDPOINT")

  has_key-port_entries :
      (name : Text) (port : ℕ)
      → has_key (endpoint_of name) (port_entries upper_wide name port) ≡ true
  unfolding port_entries has_key
  has_key-port_entries name port = ground arith

  has_key-kube_entries :
      (name path : Text) (target : KubeTargetOutput)
      → has_key (endpoint_of name) (kube_entries upper_wide name path target) ≡ true
  unfolding kube_entries has_key
  has_key-kube_entries name path target = ground arith

  has_key-port_part :
      (name : Text) (ports : Dict Text ℕ)
      → has_key name ports ≡ true
      → has_key (endpoint_of name) (port_part upper_wide ports) ≡ true
  unfolding has_key
  has_key-port_part name [] h = cc
  has_key-port_part name ((j, port) ∷ ports) h = elim (Bool-cases (name == j)) [
    | inl same ↦
        has_key-append_left (endpoint_of name) (port_entries upper_wide j port)
          (port_part upper_wide ports)
          (subst (λ n. has_key (endpoint_of n) (port_entries upper_wide j port) ≡ true)
            (sym (==→eq name j same)) (has_key-port_entries j port))
    | inr differs ↦
        has_key-append_right (endpoint_of name) (port_entries upper_wide j port)
          (port_part upper_wide ports) (has_key-port_part name ports (rw differs at h))
  ]

  has_key-kube_part :
      (name : Text) (targets : Dict Text KubeTargetOutput) (paths : List Text)
      → kube_paths upper_wide targets ≡ some paths
      → has_key name targets ≡ true
      → has_key (endpoint_of name) (kube_part upper_wide targets paths) ≡ true
  unfolding has_key
  has_key-kube_part name [] paths e h = cc
  has_key-kube_part name ((j, target) ∷ targets) [] e h = ground arith
  has_key-kube_part name ((j, target) ∷ targets) (path ∷ paths) e h =
      elim (Bool-cases (name == j)) [
        | inl same ↦
            has_key-append_left (endpoint_of name) (kube_entries upper_wide j path target)
              (kube_part upper_wide targets paths)
              (subst (λ n. has_key (endpoint_of n) (kube_entries upper_wide j path target) ≡ true)
                (sym (==→eq name j same)) (has_key-kube_entries j path target))
        | inr differs ↦
            has_key-append_right (endpoint_of name) (kube_entries upper_wide j path target)
              (kube_part upper_wide targets paths)
              (has_key-kube_part name targets paths (ground arith) (rw differs at h))
      ]

  -- A forwarded target and a kube target whose names become the same variable, above all two of the
  -- same name, cannot be rendered together, whatever else the node has.
  pub render_env-shared_name :
      (output : OutputSchema) (name : Text) (node : NodeOutput) (env : Dict Text Text)
      (forward kube : Text)
      → output.connections ≡ (name, node) ∷ []
      → has_key forward node.ports ≡ true
      → has_key kube node.kube_targets ≡ true
      → key upper_wide forward ≡ key upper_wide kube
      → render_env upper_wide output ≢ ok env
  render_env-shared_name output name node env forward kube one has_forward has_kube same h =
      let (paths, found, all, differ) =
        (render_env-node_entries upper_wide output name node env one).0 h in
      let ports = port_part upper_wide node.ports in
      let targets = kube_part upper_wide node.kube_targets paths in
      let listed = subst NodupKeys all differ in
      let last = kubeconfig_part upper_wide paths in
      let regrouped : NodupKeys ((session_entries output ++ ports) ++ (targets ++ last)) =
        subst NodupKeys (sym (append_assoc (session_entries output) ports (targets ++ last)))
          listed in
      let first =
        has_key-append_right (endpoint_of forward) (session_entries output) ports
          (has_key-port_part forward node.ports has_forward) in
      let second : has_key (endpoint_of forward) (targets ++ last) ≡ true =
        subst (λ n. has_key (variable n (text "_ENDPOINT")) (targets ++ last) ≡ true) (sym same)
          (has_key-append_left (endpoint_of kube) targets last
            (has_key-kube_part kube node.kube_targets paths found has_kube)) in
      cc (
        NodupKeys-disjoint (endpoint_of forward) (session_entries output ++ ports) (targets ++ last)
            regrouped first,
        second,
      )
