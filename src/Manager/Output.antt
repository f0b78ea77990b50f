-- ===== src/Manager/Output.antt =====
-- `_start_all` and `start_all_and_build_output` of tunstrap/manager.py.
pub mod Required
use garuda_tunnel.Base.{
  ℕ, Bool, true, false, not, ◌&&◌, List, [], ◌∷◌, ◌++◌, map, Option, none, some, Text, text_eq,
  is_empty, if◌then◌else◌, Result, ok, err, ◌>>=◌, ◌>>◌,
}
use garuda_tunnel.Base.Dict.{Dict, insert, lookup}
use garuda_tunnel.Messages.{RemoteError, NodeError, Warning, node_failed, unknown_error}
use garuda_tunnel.Schemas.{NodeInput, NodeOutput, TunnelWarning}
use garuda_tunnel.Manager.{NodeRuntime, Sockets, no_sockets, close_transport, Peer, Ran, start_one}

-- What the manager reports: the nodes that failed with their errors, or the connections and warnings.
pub data Report : Type 0 where
  error_output : List (Text × Option NodeError) → Report
  output : Dict Text NodeOutput → List TunnelWarning → Report

-- `stop_all` on the runtimes that are kept: the pairs that are given to `close_transport`.
unfoldable pub stop_all : List NodeRuntime → List (Option ℕ × List ℕ)
stop_all runtimes = map (λ r. (r.conn, r.listeners)) runtimes

-- `self._schema.nodes[name].required`
unfoldable pub is_required : Dict Text NodeInput → Text → Bool
is_required nodes name = elim (lookup name nodes) [ some node ↦ node.required | none ↦ false ]

unfoldable pub failed_required : Dict Text NodeInput → List NodeRuntime → List NodeRuntime
failed_required nodes [] = []
failed_required nodes (r ∷ rs) =
    let rest = failed_required nodes rs in
    if not r.success && is_required nodes r.name then r ∷ rest else rest

-- The runtimes that succeeded, which `_runtimes` keeps.
unfoldable pub successes : List NodeRuntime → List NodeRuntime
successes [] = []
successes (r ∷ rs) = let rest = successes rs in if r.success then r ∷ rest else rest

unfoldable pub connections : List NodeRuntime → Dict Text NodeOutput → Dict Text NodeOutput
connections [] d = d
connections (r ∷ rs) d = connections rs (
    insert r.name
      (record { ports = r.ports; fetch_files = r.fetched_files; kube_targets = r.kube_targets }) d)

-- `r.error or "unknown error"`
unfoldable pub warning_of : Option NodeError → Warning
warning_of none = unknown_error
warning_of (some e) = node_failed e

-- The optional nodes that failed.
unfoldable pub skipped : Dict Text NodeInput → List NodeRuntime → List TunnelWarning
skipped nodes [] = []
skipped nodes (r ∷ rs) =
    let rest = skipped nodes rs in
    if not r.success && not (is_required nodes r.name)
    then record { node = r.name; error = warning_of r.error; skipped = true } ∷ rest
    else rest

unfoldable pub kube_warnings : List NodeRuntime → List TunnelWarning
kube_warnings [] = []
kube_warnings (r ∷ rs) = r.kube_warnings ++ kube_warnings rs

-- All nodes, each with the world around it.
unfoldable pub start_all :
    (Text → Peer) → Dict Text NodeInput → Result RemoteError (List NodeRuntime)
start_all peer_of [] = ok []
start_all peer_of ((name, node) ∷ nodes) = do
  r ← (start_one (peer_of name) name node).outcome
  rs ← start_all peer_of nodes
  ok (r ∷ rs)

-- The report on the runtimes, and what is closed for it.
unfoldable pub build_output :
    Dict Text NodeInput → List NodeRuntime → Report × List (Option ℕ × List ℕ)
build_output nodes results =
    let failed = failed_required nodes results in
    let good = successes results in
    if is_empty failed
    then (output (connections good []) (skipped nodes results ++ kube_warnings good), [])
    else (error_output (map (λ r. (r.name, r.error)) failed), stop_all good)

unfoldable pub start_all_and_build_output :
    (Text → Peer) → Dict Text NodeInput → Result RemoteError (Report × List (Option ℕ × List ℕ))
start_all_and_build_output peer_of nodes = do
  results ← start_all peer_of nodes
  ok (build_output nodes results)
