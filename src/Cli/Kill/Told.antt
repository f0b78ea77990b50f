-- ===== src/Cli/Kill/Told.antt =====
-- What `_kill_with_identity` of tunstrap/cli.py prints against what it returns.
use garuda_tunnel.Base.{
  ℕ, zero, suc, ◌+◌, ◌*◌, ◌≡◌, refl, ◌∙◌, Bool, true, false, List, [], ◌∷◌, ◌++◌, arith, ℤ,
  max_zero,
}
use garuda_tunnel.Identity.{
  IdentityCheckResult, match, mismatch, not_found, unavailable, verify_session,
}
use garuda_tunnel.Cli.Kill.{
  Answer, not_stopped, stopped, forced, Event, printed, Ending, returned, not_allowed,
  out_of_rounds, Killed, Daemon, answer, after, raised, Waited, gone, elapsed, refused, endless,
  wait, send_sigkill, kill_checked, force_kill, after_wait, wait_and_kill, send_sigterm,
  term_checked, kill_for, kill_with_identity,
}

-- The `"stopped"` of an answer.
unfoldable pub says_stopped : Answer → Bool
says_stopped (not_stopped reason) = false
says_stopped stopped = true
says_stopped forced = true

-- What is printed, in order.
unfoldable pub told : List Event → List Bool
told [] = []
told (printed a ∷ events) = says_stopped a ∷ told events
told (_ ∷ events) = told events

unfoldable pub value_of : Ending → List Bool
value_of (returned value) = value ∷ []
value_of not_allowed = []
value_of out_of_rounds = []

abbrev Tells : Killed → Type 0
Tells k = told k.events ≡ value_of k.ending

module _ (d : Daemon) (pid : ℤ) where
  wait-told :
      (deadline round fuel : ℕ) (events : List Event)
      → told ((wait d pid deadline round fuel).asks ++ events) ≡ told events
  unfolding wait told
  wait-told deadline round zero events = refl
  wait-told deadline round (suc fuel) events =
      let rest = wait-told deadline (suc round) fuel events in ground (arith, rest)

  kill_checked-Tells : (check : IdentityCheckResult) → Tells (kill_checked d pid check)
  unfolding kill_checked send_sigkill answer raised after told value_of says_stopped
  kill_checked-Tells match = ground arith
  kill_checked-Tells mismatch = refl
  kill_checked-Tells not_found = refl
  kill_checked-Tells unavailable = refl

  after_wait-Tells : (force : Bool) (waited : Waited) → Tells (after_wait d pid force waited)
  unfolding after_wait answer raised after force_kill told value_of says_stopped
  after_wait-Tells force gone = refl
  after_wait-Tells force refused = refl
  after_wait-Tells force endless = refl
  after_wait-Tells false elapsed = refl
  after_wait-Tells true elapsed = kill_checked-Tells (verify_session d.alive_again d.lock_again pid)

  module _ (rounds : ℕ) (grace_seconds : ℤ) (force : Bool) where
    wait_and_kill-Tells : Tells (wait_and_kill d pid rounds grace_seconds force)
    unfolding wait_and_kill after
    wait_and_kill-Tells =
        let deadline = d.monotonic 0 + 1000 * max_zero grace_seconds in
        let w = wait d pid deadline 0 rounds in
        wait-told deadline 0 rounds _ ∙ after_wait-Tells force w.waited

    term_checked-Tells :
        (check : IdentityCheckResult) → Tells (term_checked d pid rounds grace_seconds force check)
    unfolding term_checked send_sigterm answer raised after told value_of says_stopped
    term_checked-Tells match = let waits = wait_and_kill-Tells in ground (arith, waits)
    term_checked-Tells mismatch = refl
    term_checked-Tells not_found = refl
    term_checked-Tells unavailable = refl

  -- A kill that returns has printed one answer, which says that the daemon is stopped exactly when the
  -- value is true; a kill that raises has printed none.
  pub kill_with_identity-told :
      (grace_seconds : ℤ) (force : Bool)
      → (let k = kill_with_identity d pid grace_seconds force in told k.events ≡ value_of k.ending)
  unfolding kill_with_identity kill_for after told
  kill_with_identity-told grace_seconds force =
      term_checked-Tells (suc (2 * max_zero grace_seconds)) grace_seconds force
        (verify_session d.alive_first d.lock_first pid)
