-- ===== src/Cli/Stop.antt =====
-- `stop_command`, `status_command` and `_teardown_run` of tunstrap/cli.py.
pub mod Stopped
use garuda_tunnel.Base.{
  ℕ, Bool, true, false, List, [], ◌∷◌, Option, none, some, Text, text, if◌then◌else◌, ℤ, Result, ok,
  err,
}
use garuda_tunnel.Identity.{
  IdentityCheckResult, match, mismatch, not_found, unavailable, KillReply, LockView, verify_session,
}
use garuda_tunnel.Session.{SessionFailure, Disk, read_identity, cleanup_path}
use garuda_tunnel.Cli.Kill.{
  Event, printed, Answer, not_stopped, Ending, returned, not_allowed, out_of_rounds, Killed, Daemon,
  kill_with_identity,
}

-- The system around a session: the daemon, and what it does to the disk while it is being stopped.
pub record Surroundings : Type 0 where
  pub daemon : Daemon
  pub meanwhile : Disk → Disk

-- What was done, the disk afterwards, and whether the call returned.
pub record Stopping : Type 0 where
  pub events : List Event
  pub disk : Disk
  pub returns : Bool

-- `SessionDir.cleanup_path` after a kill that returned.
unfoldable pub clean_after : Killed → Disk → Stopping
clean_after k disk = elim k.ending [
  | returned value ↦ record { events = k.events; disk = cleanup_path disk; returns = true }
  | not_allowed ↦ record { events = k.events; disk = disk; returns = false }
  | out_of_rounds ↦ record { events = k.events; disk = disk; returns = false }
]

module _ (s : Surroundings) (grace_seconds : ℤ) where
  unfoldable pub kill_and_clean : ℤ → Disk → Stopping
  kill_and_clean pid disk =
      clean_after (kill_with_identity s.daemon pid grace_seconds true) (s.meanwhile disk)

  unfoldable pub teardown_run : Disk → Stopping
  teardown_run disk = elim (read_identity disk) [
    | err _ ↦ record { events = []; disk = cleanup_path disk; returns = true }
    | ok pid ↦ kill_and_clean pid disk
  ]

  -- Without an identity the reason is printed, of which the path and the cause are left out, and
  -- nothing is cleaned up.
  unfoldable pub stop_command : Disk → Stopping
  stop_command disk = elim (read_identity disk) [
    | err _ ↦ record {
      events = printed (not_stopped (text "cannot read identity")) ∷ [];
      disk = disk;
      returns = true;
    }
    | ok pid ↦ kill_and_clean pid disk
  ]

-- `check == IdentityCheckResult.match`
unfoldable pub is_match : IdentityCheckResult → Bool
is_match match = true
is_match _ = false

-- The printed `"alive"`.
unfoldable pub status_command : KillReply → LockView → Disk → Bool
status_command reply lock disk = elim (read_identity disk) [
  | err _ ↦ false
  | ok pid ↦ is_match (verify_session reply lock pid)
]
