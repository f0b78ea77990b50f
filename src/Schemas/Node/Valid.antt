-- ===== src/Schemas/Node/Valid.antt =====
-- What a validated node and a validated input satisfy: `NodeInput` and `InputSchema` of
-- tunstrap/schemas.py.
use garuda_tunnel.Base.{
  List, ◌≤◌, ◌≡◌, refl, sym, ◌≢◌, ◌⊎◌, ◌↔◌, inl, Bool, true, false, not, ◌&&◌, [], ◌∷◌, Option,
  Text, text_eq, length, is_empty, ok, arith, ℤ, All, >>=-eq-ok, raise_if-eq-ok,
}
use garuda_tunnel.Base.Dict.{Dict, NodupKeys}
use garuda_tunnel.Value.{Fields}
use garuda_tunnel.Schemas.Keys.{Kind, validate_identifier_key}
use garuda_tunnel.Schemas.Keys.Accepted.{validate_identifier_key-IsAccepted}
use garuda_tunnel.Schemas.Specs.{
  DaemonOptions, FileSpec, KubeTarget, daemon_options, file_spec, validate_absolute, kube_target,
  idle_in_range,
}
use garuda_tunnel.Schemas.Node.{
  RawNode, NodeInput, validate_remote_targets, validate_named, build_optional, no_entries,
  validate_node_does_something, validate_node, InputSchema, unset, validate_auth, validate_nodes,
  input_schema,
}
use garuda_tunnel.Schemas.Node.Targets.{
  IsKey, IsAbsolute, IsEntry, ReadyAreTargets, validate_absolute-IsAbsolute,
  validate_remote_targets-AreTargets,
}
use garuda_tunnel.Schemas.Node.Named.{IsOptional, build_optional-IsOptional}

-- What is left of a node, after its fields are validated.
pub record IsValidNode (node : NodeInput) : Type 0 where
  pub targets_valid : All IsEntry node.remote_targets
  pub handles_differ : NodupKeys node.remote_targets
  pub few_targets : length node.remote_targets ≤ 16
  pub files_valid : IsOptional (λ (f : FileSpec). IsAbsolute f.path) node.fetch_files
  pub kube_valid : IsOptional (λ (k : KubeTarget). IsAbsolute k.kubeconfig_path) node.kube_targets
  pub does_something :
      (node.remote_targets ≢ [])
      ⊎ ((no_entries node.kube_targets ≡ false) ⊎ (no_entries node.fetch_files ≡ false))

file_spec-IsAbsolute : (raw f : FileSpec) → file_spec raw ≡ ok f → IsAbsolute f.path
unfolding file_spec
file_spec-IsAbsolute raw f h =
    let (path, checked, made) = >>=-eq-ok (validate_absolute raw.path) _ h in
    let same : path ≡ f.path = cc in rw (← same) (validate_absolute-IsAbsolute raw.path checked)

kube_target-IsAbsolute :
    (raw k : KubeTarget) → kube_target raw ≡ ok k → IsAbsolute k.kubeconfig_path
unfolding kube_target
kube_target-IsAbsolute raw k h =
    let (path, checked, made) = >>=-eq-ok (validate_absolute raw.kubeconfig_path) _ h in
    let same : path ≡ k.kubeconfig_path = cc in
    rw (← same) (validate_absolute-IsAbsolute raw.kubeconfig_path checked)

some_entries {ℓ} :
    {A : Type ℓ} (d : List A) (k f : Bool)
    → (is_empty d && (k && f)) ≡ false
    → (d ≢ []) ⊎ ((k ≡ false) ⊎ (f ≡ false))
some_entries [] k f h = ground arith
some_entries (x ∷ d) k f h = inl (λ e. cc)

does_something_lem :
    (n node : NodeInput)
    → validate_node_does_something n ≡ ok node
    → (n ≡ node)
      × ((n.remote_targets ≢ [])
          ⊎ ((no_entries n.kube_targets ≡ false) ⊎ (no_entries n.fetch_files ≡ false)))
unfolding validate_node_does_something
does_something_lem n node h =
    let (test, same) = raise_if-eq-ok _ _ _ h in (cc, some_entries n.remote_targets _ _ test)

-- A node that validates has targets with differing checked handles, hosts of 1 to 255 characters and
-- ports from 1 to 65535; files and kubeconfigs with checked names and absolute paths; at most 16 of
-- each; and at least one of the three. Targets that were built before are taken as valid.
pub validate_node-IsValidNode :
    (coerce : Fields → Option (Text × ℤ)) (raw : RawNode) (node : NodeInput)
    → ReadyAreTargets raw.remote_targets
    → validate_node coerce raw ≡ ok node
    → IsValidNode node
unfolding validate_node
validate_node-IsValidNode coerce raw node v h =
    let (targets, h1, r1) = >>=-eq-ok (validate_remote_targets coerce raw.remote_targets) _ h in
    let (built_files, h2, r2) = >>=-eq-ok (build_optional file_spec raw.fetch_files) _ r1 in
    let (files, h3, r3) = >>=-eq-ok (validate_named Kind.fetch_files built_files) _ r2 in
    let (built_kube, h4, r4) = >>=-eq-ok (build_optional kube_target raw.kube_targets) _ r3 in
    let (kube, h5, r5) = >>=-eq-ok (validate_named Kind.kube_targets built_kube) _ r4 in
    let (same, something) = does_something_lem _ node r5 in
    let a = validate_remote_targets-AreTargets coerce raw.remote_targets v h1 in
    rw (← same) (record {
      targets_valid = a.entries_valid;
      handles_differ = a.handles_differ;
      few_targets = a.few;
      files_valid =
          build_optional-IsOptional _ file_spec file_spec-IsAbsolute Kind.fetch_files
            raw.fetch_files built_files files h2 h3;
      kube_valid =
          build_optional-IsOptional _ kube_target kube_target-IsAbsolute Kind.kube_targets
            raw.kube_targets built_kube kube h4 h5;
      does_something = something;
    })

-- The other fields of a node stay as they are.
pub validate_node-fields :
    (coerce : Fields → Option (Text × ℤ)) (raw : RawNode) (node : NodeInput)
    → validate_node coerce raw ≡ ok node
    → (node.host ≡ raw.host)
      × (node.port ≡ raw.port)
      × (node.user ≡ raw.user)
      × (node.ssh_pkey ≡ raw.ssh_pkey)
      × (node.ssh_password ≡ raw.ssh_password)
      × (node.ssh_pkey_passphrase ≡ raw.ssh_pkey_passphrase)
      × (node.required ≡ raw.required)
unfolding validate_node
validate_node-fields coerce raw node h =
    let (targets, h1, r1) = >>=-eq-ok (validate_remote_targets coerce raw.remote_targets) _ h in
    let (built_files, h2, r2) = >>=-eq-ok (build_optional file_spec raw.fetch_files) _ r1 in
    let (files, h3, r3) = >>=-eq-ok (validate_named Kind.fetch_files built_files) _ r2 in
    let (built_kube, h4, r4) = >>=-eq-ok (build_optional kube_target raw.kube_targets) _ r3 in
    let (kube, h5, r5) = >>=-eq-ok (validate_named Kind.kube_targets built_kube) _ r4 in
    let (same, something) = does_something_lem _ node r5 in
    rw (← same) (refl, refl, refl, refl, refl, refl, refl)

-- A node has a key, a password, or the agent's socket to authenticate with.
abbrev pub HasAuth : Option Text → NodeInput → Type 0
HasAuth agent node =
    (unset node.ssh_pkey ≡ false) ⊎ ((unset node.ssh_password ≡ false) ⊎ (unset agent ≡ false))

some_auth : (k p a : Bool) → ((k && (p && a)) ≡ false) ↔ ((k ≡ false) ⊎ ((p ≡ false) ⊎ (a ≡ false)))
some_auth k p a = (λ h. ground arith, λ h. ground arith)

-- `_validate_auth` passes exactly the nodes with checked names that can authenticate.
pub validate_auth-HasAuth :
    (agent : Option Text) (nodes : Dict Text NodeInput)
    → (validate_auth agent nodes ≡ ok tt) ↔ All (λ e. IsKey e.0 × HasAuth agent e.1) nodes
unfolding validate_auth
validate_auth-HasAuth agent [] = (λ h. tt, λ h. refl)
validate_auth-HasAuth agent ((name, node) ∷ nodes) = (
  λ h.
      let (_, named, h') = >>=-eq-ok (validate_identifier_key Kind.node name) _ h in
      let (auth, rest) = raise_if-eq-ok _ _ _ h' in
      (
        ((validate_identifier_key-IsAccepted Kind.node name).0 named, (some_auth _ _ _).0 auth),
        (validate_auth-HasAuth agent nodes).0 rest,
      ),
  λ h.
      rw
        (
          (validate_identifier_key-IsAccepted Kind.node name).1 h.0.0,
          (some_auth (unset node.ssh_pkey) (unset node.ssh_password) (unset agent)).1 h.0.1,
        )
        ((validate_auth-HasAuth agent nodes).1 h.1),
)

validate_nodes-IsValidNode :
    (coerce : Fields → Option (Text × ℤ)) (raws : Dict Text RawNode) (nodes : Dict Text NodeInput)
    → All (λ e. ReadyAreTargets e.1.remote_targets) raws
    → validate_nodes coerce raws ≡ ok nodes
    → All (λ e. IsValidNode e.1) nodes
unfolding validate_nodes
validate_nodes-IsValidNode coerce [] nodes v h = let same : [] ≡ nodes = cc in rw (← same) tt
validate_nodes-IsValidNode coerce ((name, raw) ∷ raws) nodes v h =
    let (node, first, h') = >>=-eq-ok (validate_node coerce raw) _ h in
    let (others, rest, h'') = >>=-eq-ok (validate_nodes coerce raws) _ h' in
    let same : (name, node) ∷ others ≡ nodes = cc in
    rw (← same) (
      validate_node-IsValidNode coerce raw node v.0 first,
      validate_nodes-IsValidNode coerce raws others v.1 rest,
    )

-- An input that validates has valid nodes, under checked names and able to authenticate, and an
-- idle timeout of at least one second if it has one.
pub input_schema-IsValid :
    (coerce : Fields → Option (Text × ℤ)) (agent : Option Text) (raws : Dict Text RawNode)
    (raw_daemon : DaemonOptions) (schema : InputSchema)
    → All (λ e. ReadyAreTargets e.1.remote_targets) raws
    → input_schema coerce agent raws raw_daemon ≡ ok schema
    → All (λ e. IsValidNode e.1) schema.nodes
      × All (λ e. IsKey e.0 × HasAuth agent e.1) schema.nodes
      × (schema.daemon ≡ raw_daemon)
      × (idle_in_range schema.daemon.auto_stop_idle_seconds ≡ true)
unfolding input_schema daemon_options
input_schema-IsValid coerce agent raws raw_daemon schema v h =
    let (nodes, h1, r1) = >>=-eq-ok (validate_nodes coerce raws) _ h in
    let (_, h2, r2) = >>=-eq-ok (validate_auth agent nodes) _ r1 in
    let (daemon, h3, r3) = >>=-eq-ok (daemon_options raw_daemon) _ r2 in
    let (idle, h4) =
      raise_if-eq-ok (not (idle_in_range raw_daemon.auto_stop_idle_seconds)) _ _ h3 in
    let same_nodes : nodes ≡ schema.nodes = cc in
    let same_daemon : raw_daemon ≡ schema.daemon = cc in
    (
      rw (← same_nodes) (validate_nodes-IsValidNode coerce raws nodes v h1),
      rw (← same_nodes) ((validate_auth-HasAuth agent nodes).0 h2),
      sym same_daemon,
      rw (← same_daemon) (ground arith),
    )
