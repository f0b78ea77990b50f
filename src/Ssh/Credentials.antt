-- ===== src/Ssh/Credentials.antt =====
-- The credentials of a connection of tunstrap/ssh.py, against the validation of tunstrap/schemas.py.
use garuda_tunnel.Base.{
  ◌≡◌, ◌⊎◌, inl, inr, refl, false, List, [], ◌∷◌, Option, none, some, Text, arith, Option-cases,
  Result-cases, ok, err,
}
use garuda_tunnel.Messages.{RemoteError}
use garuda_tunnel.Schemas.{NodeInput, unset}
use garuda_tunnel.Schemas.Node.Valid.{HasAuth}
use garuda_tunnel.Ssh.{
  absent, given, Kwargs, Asyncssh, import_key, load_client_keys, connect_kwargs, open_connection,
}

module _ {ℓ} {K : Type ℓ} (a : Asyncssh K) where
  -- A connection with the key of the node, or without one: then `client_keys` is left out, which is what
  -- lets asyncssh ask the agent, and there is a password or an agent.
  abbrev pub HasKeys : Option Text → NodeInput → Kwargs K → Type ℓ
  HasKeys agent node kwargs =
      ((pem : Text) × (key : K) × (node.ssh_pkey ≡ some pem)
        × (a.import_private_key pem node.ssh_pkey_passphrase ≡ ok key)
        × (kwargs.client_keys ≡ given (some (key ∷ []))))
      ⊎ ((node.ssh_pkey ≡ none)
          × (kwargs.client_keys ≡ absent)
          × ((unset node.ssh_password ≡ false) ⊎ (unset agent ≡ false)))

  -- The password of the node, if it has one.
  abbrev pub HasPassword : NodeInput → Kwargs K → Type 0
  HasPassword node kwargs =
      ((password : Text) × (node.ssh_password ≡ some password)
        × (kwargs.password ≡ given (some password)))
      ⊎ ((node.ssh_password ≡ none) × (kwargs.password ≡ absent))

  -- A connection is tried once, and only where a key that is given can be imported.
  abbrev pub Tried : Option Text → NodeInput → Type ℓ
  Tried agent node =
      ((pem : Text) × (e : RemoteError) × (node.ssh_pkey ≡ some pem)
        × (a.import_private_key pem node.ssh_pkey_passphrase ≡ err e)
        × (open_connection a node ≡ record { attempts = []; outcome = err e }))
      ⊎ ((kwargs : Kwargs K) × (open_connection a node
            ≡ record { attempts = kwargs ∷ []; outcome = a.connect kwargs })
          × (kwargs.host ≡ node.host)
          × (kwargs.port ≡ node.port)
          × (kwargs.username ≡ node.user)
          × HasKeys agent node kwargs
          × HasPassword node kwargs)

  connect_kwargs-HasPassword :
      (node : NodeInput) (keys : Option (List K)) → HasPassword node (connect_kwargs a node keys)
  unfolding connect_kwargs
  connect_kwargs-HasPassword node keys = elim (Option-cases node.ssh_password) [
    | inl bare ↦ inr (bare, ground (arith, bare))
    | inr (password, set) ↦ inl (password, set, ground (arith, set))
  ]

  open_connection-keyless :
      (agent : Option Text) (node : NodeInput)
      → node.ssh_pkey ≡ none
      → HasAuth agent node
      → Tried agent node
  unfolding open_connection load_client_keys import_key connect_kwargs unset
  open_connection-keyless agent node bare auth =
      let other : (unset node.ssh_password ≡ false) ⊎ (unset agent ≡ false) = elim auth [
        | inl key ↦ absurd (ground (arith, bare, key))
        | inr other ↦ other
      ] in
      inr (
        connect_kwargs a node none,
        ground (arith, bare),
        refl,
        refl,
        refl,
        inr (bare, refl, other),
        connect_kwargs-HasPassword node none,
      )

  open_connection-keyed :
      (agent : Option Text) (node : NodeInput) (pem : Text)
      → node.ssh_pkey ≡ some pem
      → Tried agent node
  unfolding open_connection load_client_keys import_key connect_kwargs
  open_connection-keyed agent node pem set =
      elim (Result-cases (a.import_private_key pem node.ssh_pkey_passphrase)) [
        | inr (e, failed) ↦ inl (pem, e, set, failed, ground (arith, set, failed))
        | inl (key, imported) ↦ inr (
          connect_kwargs a node (some (key ∷ [])),
          ground (arith, set, imported),
          refl,
          refl,
          refl,
          inl (pem, key, set, imported, refl),
          connect_kwargs-HasPassword node (some (key ∷ [])),
        )
      ]

  -- For a node with credentials exactly one connection is tried, to its host, port and user, unless the
  -- node has a key that cannot be imported: with the key of the node, and without one `client_keys` is
  -- left out and the node has a password or there is an agent; and with the password that the node has.
  pub open_connection-credentials :
      (agent : Option Text) (node : NodeInput) → HasAuth agent node → Tried agent node
  open_connection-credentials agent node auth = elim (Option-cases node.ssh_pkey) [
    | inl bare ↦ open_connection-keyless agent node bare auth
    | inr (pem, set) ↦ open_connection-keyed agent node pem set
  ]
