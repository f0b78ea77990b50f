-- ===== src/Tests.antt =====
-- The theorems at concrete inputs.
pub mod Kubeconfigs
pub mod Targets
pub mod Nodes
pub mod Flags
pub mod Sessions
pub mod Locks
pub mod Workers
pub mod Assembly
pub mod Kills
pub mod Commands
