-- ===== src/Cli/Kill.antt =====
-- `_kill_with_identity` of tunstrap/cli.py: the signals to a daemon, and what is printed. The answers
-- of the system in the course of the call are an argument; time is in milliseconds.
pub mod Guarded
pub mod Patience
pub mod Told
pub mod Owner
use garuda_tunnel.Base.{
  ℕ, zero, suc, ◌+◌, ◌*◌, Bool, true, false, not, List, [], ◌∷◌, ◌++◌, Text, text, ltb,
  if◌then◌else◌, ℤ, max_zero,
}
use garuda_tunnel.Identity.{
  IdentityCheckResult, match, mismatch, not_found, unavailable, KillReply, delivered,
  no_such_process, not_permitted, LockView, verify_session,
}

-- What is printed: `{"stopped": False, "reason": …}`, `{"stopped": True}`, and the same with
-- `"forced": True`.
pub data Answer : Type 0 where
  not_stopped : Text → Answer
  stopped forced : Answer

-- What a call does, in its order: the checks, `os.kill` with its process id, and what is printed.
-- `os.kill(pid, 0)`, which is `asked`, sends no signal.
pub data Event : Type 0 where
  checked : IdentityCheckResult → Event
  sigterm sigkill asked : ℤ → Event
  printed : Answer → Event

-- How a call ends: by its value, by a `PermissionError`, or not within the rounds it was given.
pub data Ending : Type 0 where
  returned : Bool → Ending
  not_allowed out_of_rounds : Ending

pub record Killed : Type 0 where
  pub events : List Event
  pub ending : Ending

-- What the system answers: the two checks, the signals, the clock when it is read for the nth time, and
-- the process in the nth round of waiting.
pub record Daemon : Type 0 where
  pub alive_first : KillReply
  pub lock_first : LockView
  pub on_sigterm : KillReply
  pub monotonic : ℕ → ℕ
  pub on_ask : ℕ → KillReply
  pub alive_again : KillReply
  pub lock_again : LockView
  pub on_sigkill : KillReply

-- Prints and returns.
unfoldable pub answer : Answer → Bool → Killed
answer a value = record { events = printed a ∷ []; ending = returned value }

unfoldable pub after : List Event → Killed → Killed
after events k = record k { events = events ++ k.events }

unfoldable pub raised : Killed
raised = record { events = []; ending = not_allowed }

-- How the waiting ends.
pub data Waited : Type 0 where
  gone elapsed refused endless : Waited

pub record Waiting : Type 0 where
  pub asks : List Event
  pub waited : Waited

module _ (d : Daemon) (pid : ℤ) where
  -- The rounds from `round` on; the clock is read once before them.
  unfoldable pub wait : ℕ → ℕ → ℕ → Waiting
  wait deadline round zero = record { asks = []; waited = endless }
  wait deadline round (suc fuel) =
      let rest = wait deadline (suc round) fuel in
      if ltb (d.monotonic (suc round)) deadline
      then elim (d.on_ask round) [
        | no_such_process ↦ record { asks = asked pid ∷ []; waited = gone }
        | not_permitted ↦ record { asks = asked pid ∷ []; waited = refused }
        | delivered ↦ record { asks = asked pid ∷ rest.asks; waited = rest.waited }
      ]
      else record { asks = []; waited = elapsed }

  unfoldable pub send_sigkill : Killed
  send_sigkill = after (sigkill pid ∷ []) (elim d.on_sigkill [
    | no_such_process ↦ answer stopped true
    | not_permitted ↦ raised
    | delivered ↦ answer forced true
  ])

  unfoldable pub kill_checked : IdentityCheckResult → Killed
  kill_checked match = send_sigkill
  kill_checked _ = answer (not_stopped (text "identity changed during grace")) false

  unfoldable pub force_kill : Killed
  force_kill =
      let recheck = verify_session d.alive_again d.lock_again pid in
      after (checked recheck ∷ []) (kill_checked recheck)

  unfoldable pub after_wait : Bool → Waited → Killed
  after_wait force gone = answer stopped true
  after_wait force refused = raised
  after_wait force endless = record { events = []; ending = out_of_rounds }
  after_wait true elapsed = force_kill
  after_wait false elapsed = answer (not_stopped (text "still alive")) false

  unfoldable pub wait_and_kill : ℕ → ℤ → Bool → Killed
  wait_and_kill rounds grace_seconds force =
      let w = wait (d.monotonic 0 + 1000 * max_zero grace_seconds) 0 rounds in
      after w.asks (after_wait force w.waited)

  unfoldable pub send_sigterm : ℕ → ℤ → Bool → Killed
  send_sigterm rounds grace_seconds force = after (sigterm pid ∷ []) (elim d.on_sigterm [
    | no_such_process ↦ answer stopped true
    | not_permitted ↦ raised
    | delivered ↦ wait_and_kill rounds grace_seconds force
  ])

  unfoldable pub term_checked : ℕ → ℤ → Bool → IdentityCheckResult → Killed
  term_checked rounds grace_seconds force not_found = answer (not_stopped (text "not found")) false
  term_checked rounds grace_seconds force mismatch =
      answer (not_stopped (text "identity mismatch")) false
  term_checked rounds grace_seconds force unavailable =
      answer (not_stopped (text "identity check unavailable")) false
  term_checked rounds grace_seconds force match = send_sigterm rounds grace_seconds force

  unfoldable pub kill_for : ℕ → ℤ → Bool → Killed
  kill_for rounds grace_seconds force =
      let check = verify_session d.alive_first d.lock_first pid in
      after (checked check ∷ []) (term_checked rounds grace_seconds force check)

  -- Each round sleeps half a second, so these are rounds enough.
  unfoldable pub kill_with_identity : ℤ → Bool → Killed
  kill_with_identity grace_seconds force =
      kill_for (suc (2 * max_zero grace_seconds)) grace_seconds force
