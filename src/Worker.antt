-- ===== src/Worker.antt =====
-- tunstrap/_worker.py: the frames on the IPC pipe, and the worker from its start to its exit.
pub mod Ipc
pub mod Life
pub mod Verdict
pub mod Refinement
pub mod Assembled
