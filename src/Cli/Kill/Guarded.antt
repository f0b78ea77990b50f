-- ===== src/Cli/Kill/Guarded.antt =====
-- The safety of `_kill_with_identity` of tunstrap/cli.py: what stands before a signal.
use garuda_tunnel.Base.{
  ℕ, zero, suc, ◌+◌, ◌*◌, ◌≡◌, refl, sym, ◌∙◌, Bool, true, false, ◌&&◌, List, [], ◌∷◌, ◌++◌, arith,
  ℤ, max_zero, some,
}
use garuda_tunnel.Identity.{
  IdentityCheckResult, match, mismatch, not_found, unavailable, delivered, verify_session,
  process_exists, recorded_pid,
}
use garuda_tunnel.Identity.Verified.{verify_session-match}
use garuda_tunnel.Cli.Kill.{
  Event, checked, sigterm, sigkill, asked, printed, Daemon, answer, after, raised, Waited, gone,
  elapsed, refused, endless, wait, send_sigkill, kill_checked, force_kill, after_wait,
  wait_and_kill, send_sigterm, term_checked, kill_for, kill_with_identity,
}

-- Whether each signal comes right after a check that confirmed the identity; `confirmed` is whether
-- such a check has just been made.
unfoldable pub guarded : Bool → List Event → Bool
guarded confirmed [] = true
guarded confirmed (checked match ∷ events) = guarded true events
guarded confirmed (checked _ ∷ events) = guarded false events
guarded confirmed (sigterm n ∷ events) = confirmed && guarded false events
guarded confirmed (sigkill n ∷ events) = confirmed && guarded false events
guarded confirmed (asked n ∷ events) = guarded false events
guarded confirmed (printed a ∷ events) = guarded false events

unfoldable pub has_sigkill : List Event → Bool
has_sigkill [] = false
has_sigkill (sigkill n ∷ events) = true
has_sigkill (_ ∷ events) = has_sigkill events

module _ (d : Daemon) (pid : ℤ) where
  wait-guarded :
      (deadline round fuel : ℕ) (events : List Event)
      → guarded false ((wait d pid deadline round fuel).asks ++ events) ≡ guarded false events
  unfolding wait guarded
  wait-guarded deadline round zero events = refl
  wait-guarded deadline round (suc fuel) events =
      let rest = wait-guarded deadline (suc round) fuel events in ground (arith, rest)

  send_sigkill-guarded : guarded true (send_sigkill d pid).events ≡ true
  unfolding send_sigkill guarded after answer raised
  send_sigkill-guarded = ground arith

  force_kill-guarded :
      (check : IdentityCheckResult)
      → guarded false (checked check ∷ (kill_checked d pid check).events) ≡ true
  unfolding guarded kill_checked answer
  force_kill-guarded match = send_sigkill-guarded
  force_kill-guarded mismatch = refl
  force_kill-guarded not_found = refl
  force_kill-guarded unavailable = refl

  after_wait-guarded :
      (force : Bool) (waited : Waited) → guarded false (after_wait d pid force waited).events ≡ true
  unfolding guarded after_wait answer raised after force_kill
  after_wait-guarded force gone = refl
  after_wait-guarded force refused = refl
  after_wait-guarded force endless = refl
  after_wait-guarded true elapsed =
      force_kill-guarded (verify_session d.alive_again d.lock_again pid)
  after_wait-guarded false elapsed = refl

  wait_and_kill-guarded :
      (rounds : ℕ) (grace_seconds : ℤ) (force : Bool)
      → guarded false (wait_and_kill d pid rounds grace_seconds force).events ≡ true
  unfolding wait_and_kill after
  wait_and_kill-guarded rounds grace_seconds force =
      let deadline = d.monotonic 0 + 1000 * max_zero grace_seconds in
      let w = wait d pid deadline 0 rounds in
      wait-guarded deadline 0 rounds _ ∙ after_wait-guarded force w.waited

  send_sigterm-guarded :
      (rounds : ℕ) (grace_seconds : ℤ) (force : Bool)
      → guarded true (send_sigterm d pid rounds grace_seconds force).events ≡ true
  unfolding send_sigterm guarded after answer raised
  send_sigterm-guarded rounds grace_seconds force =
      let waits = wait_and_kill-guarded rounds grace_seconds force in ground (arith, waits)

  kill_for-guarded :
      (rounds : ℕ) (grace_seconds : ℤ) (force : Bool) (check : IdentityCheckResult)
      → guarded false (checked check ∷ (term_checked d pid rounds grace_seconds force check).events)
        ≡ true
  unfolding guarded term_checked answer
  kill_for-guarded rounds grace_seconds force match =
      send_sigterm-guarded rounds grace_seconds force
  kill_for-guarded rounds grace_seconds force mismatch = refl
  kill_for-guarded rounds grace_seconds force not_found = refl
  kill_for-guarded rounds grace_seconds force unavailable = refl

  -- Whatever the system answers, each signal of a kill is sent right after a check that confirmed the
  -- identity of the daemon: nothing else is done between the two.
  pub kill_with_identity-guarded :
      (grace_seconds : ℤ) (force : Bool)
      → guarded false (kill_with_identity d pid grace_seconds force).events ≡ true
  unfolding kill_with_identity kill_for after
  kill_with_identity-guarded grace_seconds force =
      kill_for-guarded (suc (2 * max_zero grace_seconds)) grace_seconds force
        (verify_session d.alive_first d.lock_first pid)

  wait-has_sigkill :
      (deadline round fuel : ℕ) (events : List Event)
      → has_sigkill ((wait d pid deadline round fuel).asks ++ events) ≡ has_sigkill events
  unfolding wait has_sigkill
  wait-has_sigkill deadline round zero events = refl
  wait-has_sigkill deadline round (suc fuel) events =
      let rest = wait-has_sigkill deadline (suc round) fuel events in ground (arith, rest)

  kill_checked-match :
      (check : IdentityCheckResult)
      → has_sigkill (kill_checked d pid check).events ≡ true
      → check ≡ match
  unfolding has_sigkill kill_checked answer
  kill_checked-match match h = refl
  kill_checked-match mismatch h = cc
  kill_checked-match not_found h = cc
  kill_checked-match unavailable h = cc

  abbrev IsForced : Bool → Type 0
  IsForced force = (force ≡ true) × (verify_session d.alive_again d.lock_again pid ≡ match)

  after_wait-IsForced :
      (force : Bool) (waited : Waited)
      → has_sigkill (after_wait d pid force waited).events ≡ true
      → (waited ≡ elapsed) × IsForced force
  unfolding has_sigkill after_wait answer raised after force_kill
  after_wait-IsForced force gone h = cc
  after_wait-IsForced force refused h = cc
  after_wait-IsForced force endless h = cc
  after_wait-IsForced false elapsed h = cc
  after_wait-IsForced true elapsed h = (refl, (refl, kill_checked-match _ h))

  wait_and_kill-IsForced :
      (rounds : ℕ) (grace_seconds : ℤ) (force : Bool)
      → has_sigkill (wait_and_kill d pid rounds grace_seconds force).events ≡ true
      → IsForced force
  unfolding wait_and_kill after
  wait_and_kill-IsForced rounds grace_seconds force h =
      let deadline = d.monotonic 0 + 1000 * max_zero grace_seconds in
      let w = wait d pid deadline 0 rounds in
      (after_wait-IsForced force w.waited (sym (wait-has_sigkill deadline 0 rounds _) ∙ h)).1

  send_sigterm-IsForced :
      (rounds : ℕ) (grace_seconds : ℤ) (force : Bool)
      → has_sigkill (send_sigterm d pid rounds grace_seconds force).events ≡ true
      → (d.on_sigterm ≡ delivered) × IsForced force
  unfolding send_sigterm has_sigkill after answer raised
  send_sigterm-IsForced rounds grace_seconds force h =
      let waits = wait_and_kill-IsForced rounds grace_seconds force in ground (arith, waits, h)

  kill_for-IsForced :
      (rounds : ℕ) (grace_seconds : ℤ) (force : Bool) (check : IdentityCheckResult)
      → has_sigkill (term_checked d pid rounds grace_seconds force check).events ≡ true
      → (d.on_sigterm ≡ delivered) × IsForced force
  unfolding has_sigkill term_checked answer
  kill_for-IsForced rounds grace_seconds force match h =
      send_sigterm-IsForced rounds grace_seconds force h
  kill_for-IsForced rounds grace_seconds force mismatch h = cc
  kill_for-IsForced rounds grace_seconds force not_found h = cc
  kill_for-IsForced rounds grace_seconds force unavailable h = cc

  -- A kill that sends SIGKILL was told to use force, its SIGTERM was delivered, and at the second check
  -- the process existed and the lock file was one, could be opened, was locked, and recorded the
  -- process id.
  pub kill_with_identity-sigkill :
      (grace_seconds : ℤ) (force : Bool)
      → has_sigkill (kill_with_identity d pid grace_seconds force).events ≡ true
      → (force ≡ true)
        × (d.on_sigterm ≡ delivered)
        × ((process_exists d.alive_again ≡ true)
            × (d.lock_again.is_file ≡ true)
            × (d.lock_again.opens ≡ true)
            × (d.lock_again.held ≡ true)
            × (recorded_pid d.lock_again.content ≡ some pid))
  unfolding kill_with_identity kill_for after has_sigkill
  kill_with_identity-sigkill grace_seconds force h =
      let (sent, (used, same)) =
        kill_for-IsForced (suc (2 * max_zero grace_seconds)) grace_seconds force
          (verify_session d.alive_first d.lock_first pid) h in
      (used, sent, (verify_session-match d.alive_again d.lock_again pid).0 same)
