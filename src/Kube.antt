-- ===== src/Kube.antt =====
-- tunstrap/kube.py: parsing a kubeconfig, choosing a TLS server name, patching, and the run over the
-- targets of a node.
pub mod Config
pub mod Tls
pub mod Patch
pub mod Run
