-- ===== src/Ssh.antt =====
-- `_load_client_keys` and `open_connection` of tunstrap/ssh.py, over the calls of asyncssh that import
-- a key and connect. The forwards and the teardown are in Manager.
pub mod Credentials
use garuda_tunnel.Base.{
  ℕ, Bool, true, false, List, [], ◌∷◌, Option, none, some, Text, text, if◌then◌else◌, ℤ, pos,
  Result, ok, err,
}
use garuda_tunnel.Messages.{RemoteError}
use garuda_tunnel.Schemas.{NodeInput}

-- A keyword argument that may be left out.
pub data Keyword {ℓ} (A : Type ℓ) : Type ℓ where
  absent : Keyword A
  given : A → Keyword A

-- The keyword arguments of `asyncssh.connect`. A key is an asyncssh key. That `client_keys` is `None` is
-- not that it is left out.
pub record Kwargs {ℓ} (K : Type ℓ) : Type ℓ where
  pub host : Text
  pub port : ℤ
  pub username : Text
  pub known_hosts : Option Text
  pub connect_timeout : ℤ
  pub keepalive_interval : ℕ
  pub client_keys : Keyword (Option (List K))
  pub password : Keyword (Option Text)
  pub compression_algs : Keyword (List Text)

-- The calls of asyncssh; a connection is a number.
pub record Asyncssh {ℓ} (K : Type ℓ) : Type ℓ where
  pub import_private_key : Text → Option Text → Result RemoteError K
  pub connect : Kwargs K → Result RemoteError ℕ

-- The connections that were tried, and what came of it.
pub record Opening {ℓ} (K : Type ℓ) : Type ℓ where
  pub attempts : List (Kwargs K)
  pub outcome : Result RemoteError ℕ

module _ {ℓ} {K : Type ℓ} (a : Asyncssh K) where
  unfoldable pub import_key : Option Text → Option Text → Result RemoteError (Option (List K))
  import_key none passphrase = ok none
  import_key (some pem) passphrase = elim (a.import_private_key pem passphrase) [
    | err e ↦ err e
    | ok key ↦ ok (some (key ∷ []))
  ]

  unfoldable pub load_client_keys : NodeInput → Result RemoteError (Option (List K))
  load_client_keys node = import_key node.ssh_pkey node.ssh_pkey_passphrase

  unfoldable pub connect_kwargs : NodeInput → Option (List K) → Kwargs K
  connect_kwargs node keys = record {
    host = node.host;
    port = node.port;
    username = node.user;
    known_hosts = none;
    connect_timeout = node.ssh_options.connect_timeout;
    keepalive_interval = 30;
    client_keys = elim keys [ none ↦ absent | some keys ↦ given (some keys) ];
    password = elim node.ssh_password [ none ↦ absent | some password ↦ given (some password) ];
    compression_algs =
        if node.ssh_options.compression
        then given (text "zlib@openssh.com" ∷ text "zlib" ∷ [])
        else absent;
  }

  unfoldable pub open_connection : NodeInput → Opening K
  open_connection node = elim (load_client_keys node) [
    | err e ↦ record { attempts = []; outcome = err e }
    | ok keys ↦
        let kwargs = connect_kwargs node keys in
        record { attempts = kwargs ∷ []; outcome = a.connect kwargs }
  ]
