-- ===== src/Manager.antt =====
-- `open_local_forwards` and `close_transport` of tunstrap/ssh.py, and tunstrap/manager.py. What the
-- connections, the probes and the files of the session do is an argument. A connection is a number,
-- and a listener is known by its local port. Nodes are started one after the other: those that are
-- started together share nothing but the tracker and the list of runtimes.
pub mod Stages
pub mod Closing
pub mod Owned
pub mod Output
use garuda_tunnel.Base.{
  ℕ, ◌+◌, Bool, true, false, not, ◌&&◌, List, [], ◌∷◌, ◌++◌, map, Option, none, some, Text, text,
  text_eq, is_some, is_empty, if◌then◌else◌, Result, ok, err, ◌>>=◌, ◌>>◌, raise_if, map_err, ℤ,
}
use garuda_tunnel.Base.Dict.{Dict, insert, lookup}
use garuda_tunnel.Messages.{
  RemoteError, ErrorKind, NodeError, raised, files_failed, kube_failed, Warning, node_failed,
}
use garuda_tunnel.Schemas.{
  FileSpec, FetchedFile, KubeTarget, KubeTargetOutput, NodeInput, RemoteTarget, NodeOutput,
  TunnelWarning,
}
use garuda_tunnel.Fetcher.{Sftp, fetch_files}
use garuda_tunnel.Kube.Run.{Remote, no_progress, run_kube_targets, left_open}

-- `_NODE_STARTUP_ERRORS`
unfoldable pub is_startup : ErrorKind → Bool
is_startup ErrorKind.foreign = false
is_startup _ = true

pub record NodeRuntime : Type 0 where
  pub name : Text
  pub success : Bool
  pub ports : Dict Text ℕ
  pub fetched_files : Dict Text FetchedFile
  pub conn : Option ℕ
  pub listeners : List ℕ
  pub error : Option NodeError
  pub kube_targets : Dict Text KubeTargetOutput
  pub kube_warnings : List TunnelWarning

-- `_NodeRuntime(name=name, success=False)`
unfoldable pub node_runtime : Text → NodeRuntime
node_runtime name = record {
  name = name;
  success = false;
  ports = [];
  fetched_files = [];
  conn = none;
  listeners = [];
  error = none;
  kube_targets = [];
  kube_warnings = [];
}

-- The sockets that were opened and those that were closed, in order. The listeners that the run over
-- the kube targets leaves open are owned by the connection, and are closed with it.
pub record Sockets : Type 0 where
  pub opened_conns : List ℕ
  pub closed_conns : List ℕ
  pub opened_listeners : List ℕ
  pub closed_listeners : List ℕ
  pub owned_listeners : List ℕ
  pub released_listeners : List ℕ

abbrev pub no_sockets : Sockets
no_sockets = record {
  opened_conns = [];
  closed_conns = [];
  opened_listeners = [];
  closed_listeners = [];
  owned_listeners = [];
  released_listeners = [];
}

-- Errors of closing are passed over, so every listener is closed, and then the connection.
unfoldable pub close_transport : Option ℕ → List ℕ → Sockets → Sockets
close_transport none listeners s = record s { closed_listeners = s.closed_listeners ++ listeners }
close_transport (some conn) listeners s = record s {
  closed_listeners = s.closed_listeners ++ listeners;
  closed_conns = s.closed_conns ++ (conn ∷ []);
  released_listeners = s.released_listeners ++ s.owned_listeners;
}

-- The world around one node.
pub record Peer : Type 0 where
  pub open_connection : Result RemoteError ℕ
  pub forward_local_port : Text → ℤ → Result RemoteError ℕ
  pub probe_local_port : ℕ → Bool
  pub sftp : Sftp
  pub hexdigest : Text → Text
  pub remote : Remote
  pub materialize : Option (Text → Text → Result RemoteError Text)

-- What came of the steps so far, with the sockets.
pub record Ran {ℓ} (A : Type ℓ) : Type ℓ where
  pub outcome : Result RemoteError A
  pub sockets : Sockets

abbrev pub not_accepted : RemoteError
not_accepted = record {
  kind = ErrorKind.startup;
  class_name = text "TunnelStartupError";
  message = text "local forward did not accept connection";
}

-- Why a node stops: it is given up with an error, or an exception that is not caught leaves it.
pub data Halt : Type 0 where
  gives_up : NodeRuntime → NodeError → Halt
  propagates : RemoteError → Halt

module _ (peer : Peer) where
  -- The loop of `open_local_forwards`; a failure closes the listeners so far.
  unfoldable pub forward_targets :
      Dict Text RemoteTarget → Dict Text ℕ → List ℕ → Sockets → Ran (Dict Text ℕ × List ℕ)
  forward_targets [] ports listeners s = record { outcome = ok (ports, listeners); sockets = s }
  forward_targets ((handle, target) ∷ targets) ports listeners s =
      elim (peer.forward_local_port target.host target.port) [
        | err e ↦ record { outcome = err e; sockets = close_transport none listeners s }
        | ok port ↦
            let opened = record s { opened_listeners = s.opened_listeners ++ (port ∷ []) } in
            let rest =
              forward_targets targets (insert handle port ports) (listeners ++ (port ∷ []))
                opened in
            if peer.probe_local_port port then rest else record {
              outcome = err not_accepted;
              sockets = close_transport none (listeners ++ (port ∷ [])) opened;
            }
      ]

  unfoldable pub open_local_forwards : NodeInput → Sockets → Ran (Dict Text ℕ × List ℕ)
  open_local_forwards node s = forward_targets node.remote_targets [] [] s

  -- `except _NODE_STARTUP_ERRORS`, with the runtime as it is
  unfoldable pub guard_startup {ℓ} :
      {A : Type ℓ} → NodeRuntime → Result RemoteError A → Result Halt A
  guard_startup rt (ok a) = ok a
  guard_startup rt (err e) =
      err (if is_startup e.kind then gives_up rt (raised e) else propagates e)

  unfoldable pub fetch_stage : Option (Dict Text FileSpec) → NodeRuntime → Result Halt NodeRuntime
  fetch_stage none rt = ok rt
  fetch_stage (some []) rt = ok rt
  fetch_stage (some (s ∷ specs)) rt = do
    g ← guard_startup rt (fetch_files peer.sftp peer.hexdigest (s ∷ specs))
    let rt' = record rt { fetched_files = g.results }
    raise_if (not (is_empty g.required_failures)) (gives_up rt' (files_failed g.required_failures))
    ok rt'

  -- `f"{name}-{kname}"` of each output is written, and its path kept.
  unfoldable pub materialize_all :
      (Text → Text → Result RemoteError Text)
      → Text
      → Dict Text KubeTargetOutput
      → Result RemoteError (Dict Text KubeTargetOutput)
  materialize_all write name [] = ok []
  materialize_all write name ((kname, out) ∷ outputs) = do
    path ← write (name ++ (text "-" ++ kname)) out.content_b64
    rest ← materialize_all write name outputs
    ok ((kname, record out { path = some path }) ∷ rest)

  unfoldable pub materialize_if :
      Text → Dict Text KubeTargetOutput → Result Halt (Dict Text KubeTargetOutput)
  materialize_if name outputs = elim peer.materialize [
    | none ↦ ok outputs
    | some write ↦ map_err propagates (materialize_all write name outputs)
  ]

  unfoldable pub kube_stage :
      Text → Option (Dict Text KubeTarget) → NodeRuntime → Result Halt NodeRuntime
  kube_stage name none rt = ok rt
  kube_stage name (some []) rt = ok rt
  kube_stage name (some (t ∷ targets)) rt = do
    p ← guard_startup rt (run_kube_targets peer.remote name (t ∷ targets))
    outputs ← materialize_if name p.outputs
    let rt' = record rt { kube_targets = outputs; kube_warnings = p.warnings }
    raise_if (not (is_empty p.required_failures)) (gives_up rt' (kube_failed p.required_failures))
    ok rt'

  -- The listeners that the kube stage leaves open on the connection. It runs behind a fetch that
  -- returned.
  unfoldable pub owned_by : Option (Dict Text KubeTarget) → Text → Result Halt NodeRuntime → List ℕ
  owned_by (some targets) name (ok rt) = left_open peer.remote name targets no_progress
  owned_by none name fetched = []
  owned_by (some targets) name (err halt) = []

  -- The end of a node whose connection and listeners are open.
  unfoldable pub conclude : ℕ → List ℕ → Sockets → Result Halt NodeRuntime → Ran NodeRuntime
  conclude conn listeners s (ok rt) = record {
    outcome = ok (record rt { success = true });
    sockets = s;
  }
  conclude conn listeners s (err (gives_up rt e)) = record {
    outcome = ok (record rt { error = some e; conn = none; listeners = [] });
    sockets = close_transport (some conn) listeners s;
  }
  conclude conn listeners s (err (propagates e)) = record { outcome = err e; sockets = s }

  -- The node behind its forwards.
  unfoldable pub start_forwarded :
      Text → NodeInput → ℕ → Ran (Dict Text ℕ × List ℕ) → Ran NodeRuntime
  start_forwarded name node conn ran =
      let rt = record (node_runtime name) { conn = some conn } in
      elim ran.outcome [
        | err e ↦ conclude conn [] ran.sockets (guard_startup rt (err e))
        | ok (ports, listeners) ↦
            let fetched =
              fetch_stage node.fetch_files (record rt { ports = ports; listeners = listeners }) in
            conclude conn listeners
              (record ran.sockets { owned_listeners = owned_by node.kube_targets name fetched })
              (fetched >>= kube_stage name node.kube_targets)
      ]

  -- The node behind its connection.
  unfoldable pub start_connected : Text → NodeInput → ℕ → Ran NodeRuntime
  start_connected name node conn =
      start_forwarded name node conn
        (open_local_forwards node (record no_sockets { opened_conns = conn ∷ [] }))

  unfoldable pub start_one : Text → NodeInput → Ran NodeRuntime
  start_one name node = elim peer.open_connection [
    | ok conn ↦ start_connected name node conn
    | err e ↦ record {
      outcome =
          if is_startup e.kind
          then ok (record (node_runtime name) { error = some (raised e) })
          else err e;
      sockets = no_sockets;
    }
  ]
