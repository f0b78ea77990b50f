-- ===== src/Cli/Kill/Owner.antt =====
-- Whom `_kill_with_identity` of tunstrap/cli.py kills, while processes take and release the session.
use garuda_tunnel.Base.{
  ℕ, zero, suc, ◌+◌, ◌*◌, ◌<◌, ◌≡◌, sym, ap, ◌∙◌, Bool, true, false, List, [], ◌∷◌, ◌++◌, some,
  arith, ℤ, pos, max_zero,
}
use garuda_tunnel.Identity.{
  IdentityCheckResult, match, mismatch, not_found, unavailable, recorded_pid, verify_session,
}
use garuda_tunnel.Identity.Verified.{recorded_pid-pid_line}
use garuda_tunnel.Identity.Lock.{recorded, System, Reach}
use garuda_tunnel.Identity.Lock.Exclusive.{recorded-content}
use garuda_tunnel.Identity.Lock.Unlinking.{IsSeen}
use garuda_tunnel.Cli.Kill.{
  Event, sigkill, Daemon, answer, after, raised, Waited, gone, elapsed, refused, endless, wait,
  send_sigkill, kill_checked, force_kill, after_wait, wait_and_kill, send_sigterm, term_checked,
  kill_for, kill_with_identity,
}
use garuda_tunnel.Cli.Kill.Guarded.{has_sigkill, kill_with_identity-sigkill}

-- The process ids that SIGKILL is sent to.
unfoldable pub sigkilled : List Event → List ℤ
sigkilled [] = []
sigkilled (sigkill n ∷ events) = n ∷ sigkilled events
sigkilled (_ ∷ events) = sigkilled events

-- At most one SIGKILL is sent, and it goes to the process id.
abbrev Aims : ℤ → List Event → Type 0
Aims pid events = has_sigkill events ≡ true → sigkilled events ≡ pid ∷ []

module _ (d : Daemon) (pid : ℤ) where
  wait-sigkilled :
      (deadline round fuel : ℕ) (events : List Event)
      → Aims pid events
      → Aims pid ((wait d pid deadline round fuel).asks ++ events)
  unfolding wait sigkilled has_sigkill
  wait-sigkilled deadline round zero events h = h
  wait-sigkilled deadline round (suc fuel) events h =
      let rest = wait-sigkilled deadline (suc round) fuel events h in
      λ k. ground (arith, rest, h, k)

  kill_checked-Aims : (check : IdentityCheckResult) → Aims pid (kill_checked d pid check).events
  unfolding kill_checked send_sigkill after answer raised sigkilled has_sigkill
  kill_checked-Aims match h = ground arith
  kill_checked-Aims mismatch h = cc
  kill_checked-Aims not_found h = cc
  kill_checked-Aims unavailable h = cc

  after_wait-Aims :
      (force : Bool) (waited : Waited) → Aims pid (after_wait d pid force waited).events
  unfolding after_wait answer raised after force_kill sigkilled has_sigkill
  after_wait-Aims force gone h = cc
  after_wait-Aims force refused h = cc
  after_wait-Aims force endless h = cc
  after_wait-Aims false elapsed h = cc
  after_wait-Aims true elapsed h =
      kill_checked-Aims (verify_session d.alive_again d.lock_again pid) h

  module _ (rounds : ℕ) (grace_seconds : ℤ) (force : Bool) where
    wait_and_kill-Aims : Aims pid (wait_and_kill d pid rounds grace_seconds force).events
    unfolding wait_and_kill after
    wait_and_kill-Aims =
        let deadline = d.monotonic 0 + 1000 * max_zero grace_seconds in
        let w = wait d pid deadline 0 rounds in
        wait-sigkilled deadline 0 rounds _ (after_wait-Aims force w.waited)

    term_checked-Aims :
        (check : IdentityCheckResult)
        → Aims pid (term_checked d pid rounds grace_seconds force check).events
    unfolding term_checked send_sigterm answer raised after sigkilled has_sigkill
    term_checked-Aims match h = let waits = wait_and_kill-Aims in ground (arith, waits, h)
    term_checked-Aims mismatch h = cc
    term_checked-Aims not_found h = cc
    term_checked-Aims unavailable h = cc

  kill_with_identity-Aims :
      (grace_seconds : ℤ) (force : Bool)
      → Aims pid (kill_with_identity d pid grace_seconds force).events
  unfolding kill_with_identity kill_for after sigkilled has_sigkill
  kill_with_identity-Aims grace_seconds force h =
      term_checked-Aims (suc (2 * max_zero grace_seconds)) grace_seconds force
        (verify_session d.alive_first d.lock_first pid) h

-- If at the second check process `p`, whose id is below ten million, has recorded itself in the file that
-- has the name of the lock, in whatever way the processes came there, then a call that sends SIGKILL
-- sends it once, and to `p`, whatever process it was asked to kill.
pub kill_with_identity-owner :
    {unlinks : Bool} {s : System} {i : ℕ}
    → Reach unlinks s
    → (d : Daemon) → IsSeen s i d.lock_again
    → (p : ℕ) → s.pc p ≡ recorded i
    → p < 10000000
    → (pid : ℤ) (grace_seconds : ℤ) (force : Bool)
    → has_sigkill (kill_with_identity d pid grace_seconds force).events ≡ true
    → sigkilled (kill_with_identity d pid grace_seconds force).events ≡ pos p ∷ []
kill_with_identity-owner {i = i} r d seen p h small pid grace_seconds force killed =
    let found = (kill_with_identity-sigkill d pid grace_seconds force killed).2.4 in
    let read : recorded_pid d.lock_again.content ≡ some (pos p) =
      rw (seen.bytes, recorded-content r p i h) (recorded_pid-pid_line p small) in
    let same : some pid ≡ some (pos p) = sym found ∙ read in
    let owned : pid ≡ pos p = cc in
    kill_with_identity-Aims d pid grace_seconds force killed ∙ ap (λ n. n ∷ []) owned
