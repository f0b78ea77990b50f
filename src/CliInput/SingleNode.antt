-- ===== src/CliInput/SingleNode.antt =====
-- The schema that `build_single_node_schema` of tunstrap/cli_input.py returns.
use garuda_tunnel.Base.{
  ◌≡◌, sym, ap, subst, ◌∙◌, true, [], ◌∷◌, Option, Text, text, text_eq, nat_eq, ℤ, ok,
  map_err-eq-ok, All, >>=-eq-ok,
}
use garuda_tunnel.Base.Dict.{Dict}
use garuda_tunnel.Value.{Fields}
use garuda_tunnel.Schemas.{
  entries, DaemonOptions, InputSchema, RawNode, NodeInput, input_schema, validate_node,
  validate_nodes, validate_auth, daemon_options,
}
use garuda_tunnel.Schemas.Node.Targets.{IsKey, ReadyAreTargets}
use garuda_tunnel.Schemas.Node.Valid.{
  IsValidNode, HasAuth, input_schema-IsValid, validate_node-fields,
}
use garuda_tunnel.CliInput.{
  KeyFile, Flags, Label, schema_rejected, parse_endpoint, read_key, parse_named, raw_targets,
  flags_node, build_single_node_schema,
}

ReadyAreTargets-raw_targets : (d : Dict Text Text) → ReadyAreTargets (entries (raw_targets d))
unfolding raw_targets
ReadyAreTargets-raw_targets [] = tt
ReadyAreTargets-raw_targets (e ∷ d) = (tt, ReadyAreTargets-raw_targets d)

validate_nodes-one :
    (coerce : Fields → Option (Text × ℤ)) (name : Text) (raw : RawNode)
    (nodes : Dict Text NodeInput)
    → validate_nodes coerce ((name, raw) ∷ []) ≡ ok nodes
    → (node : NodeInput) × (nodes ≡ (name, node) ∷ []) × (validate_node coerce raw ≡ ok node)
unfolding validate_nodes
validate_nodes-one coerce name raw nodes h =
    let (node, first, made) = >>=-eq-ok (validate_node coerce raw) _ h in (node, cc, first)

input_schema-one :
    (coerce : Fields → Option (Text × ℤ)) (agent : Option Text) (name : Text) (raw : RawNode)
    (daemon : DaemonOptions) (schema : InputSchema)
    → input_schema coerce agent ((name, raw) ∷ []) daemon ≡ ok schema
    → (node : NodeInput) × (schema.nodes ≡ (name, node) ∷ []) × (validate_node coerce raw ≡ ok node)
unfolding input_schema
input_schema-one coerce agent name raw daemon schema h =
    let (nodes, first, h') = >>=-eq-ok (validate_nodes coerce ((name, raw) ∷ [])) _ h in
    let (node, same, valid) = validate_nodes-one coerce name raw nodes first in
    let (_, h1, r1) = >>=-eq-ok (validate_auth agent nodes) _ h' in
    let (d, h2, r2) = >>=-eq-ok (daemon_options daemon) _ r1 in
    let made : nodes ≡ schema.nodes = cc in (node, sym made ∙ same, valid)

module _ (read_text : Text → KeyFile) (coerce : Fields → Option (Text × ℤ)) (agent : Option Text)
    (given : Flags) (daemon : DaemonOptions) (schema : InputSchema)
    (built : build_single_node_schema read_text coerce agent given daemon ≡ ok schema) where
  -- The schema that the flags give has one node, under the key `node`. Its host, port and user are
  -- those of the connection, its password and passphrase those of the flags; it is valid, can
  -- authenticate, and is required. The daemon's options stay.
  pub build_single_node_schema-one :
      (user host : Text) (port : ℤ)
      → parse_endpoint given.connection ≡ ok (user, host, port)
      → (node : NodeInput) × (schema.nodes ≡ (text "node", node) ∷ [])
        × (node.host ≡ host)
        × (node.port ≡ port)
        × (node.user ≡ user)
        × (node.ssh_password ≡ given.ssh_password)
        × (node.ssh_pkey_passphrase ≡ given.ssh_key_passphrase)
        × (node.required ≡ true)
        × IsValidNode node
        × HasAuth agent node
        × (schema.daemon ≡ daemon)
  unfolding build_single_node_schema flags_node
  build_single_node_schema-one user host port parsed =
      let (endpoint, h1, r1) = >>=-eq-ok (parse_endpoint given.connection) _ built in
      let (pkey, h2, r2) = >>=-eq-ok (read_key read_text given.ssh_key) _ r1 in
      let (targets, h3, r3) = >>=-eq-ok (parse_named given.targets Label.target) _ r2 in
      let (kube_named, h4, r4) = >>=-eq-ok (parse_named given.kube Label.kube) _ r3 in
      let (fetch_named, h5, r5) = >>=-eq-ok (parse_named given.fetch Label.fetch) _ r4 in
      let raw = flags_node given endpoint pkey targets kube_named fetch_named in
      let h6 =
        map_err-eq-ok schema_rejected (input_schema coerce agent ((text "node", raw) ∷ []) daemon)
          r5 in
      let ready = ReadyAreTargets-raw_targets targets in
      let (node, one, valid) = input_schema-one coerce agent (text "node") raw daemon schema h6 in
      let facts = validate_node-fields coerce raw node valid in
      let sound =
        input_schema-IsValid coerce agent ((text "node", raw) ∷ []) daemon schema (ready, tt) h6 in
      let same : endpoint ≡ (user, host, port) = cc in
      let nodes_valid : All {A = Text × NodeInput} (λ e. IsValidNode e.1)
          ((text "node", node) ∷ []) =
        subst (All (λ (e : Text × NodeInput). IsValidNode e.1)) one sound.0 in
      let nodes_auth : All {A = Text × NodeInput} (λ e. IsKey e.0 × HasAuth agent e.1)
          ((text "node", node) ∷ []) =
        subst (All (λ (e : Text × NodeInput). IsKey e.0 × HasAuth agent e.1)) one sound.1 in
      (
        node,
        one,
        facts.0 ∙ ap (λ (e : Text × Text × ℤ). e.1) same,
        facts.1 ∙ ap (λ (e : Text × Text × ℤ). e.2) same,
        facts.2 ∙ ap (λ (e : Text × Text × ℤ). e.0) same,
        facts.4,
        facts.5,
        facts.6,
        nodes_valid.0,
        nodes_auth.0.1,
        sound.2,
      )
