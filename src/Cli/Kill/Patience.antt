-- ===== src/Cli/Kill/Patience.antt =====
-- How long `_kill_with_identity` of tunstrap/cli.py waits, and what it tells.
use garuda_tunnel.Base.{
  ℕ, zero, suc, ◌+◌, ◌*◌, ◌≤◌, ◌≡◌, ◌≢◌, refl, Bool, true, false, List, [], ◌∷◌, arith, ℤ, max_zero,
}
use garuda_tunnel.Identity.{
  IdentityCheckResult, match, mismatch, not_found, unavailable, verify_session,
}
use garuda_tunnel.Cli.Kill.{
  Event, checked, sigterm, sigkill, asked, printed, out_of_rounds, Killed, Daemon, answer, after,
  raised, Waited, gone, elapsed, refused, endless, wait, send_sigkill, kill_checked, force_kill,
  after_wait, wait_and_kill, send_sigterm, term_checked, kill_for, kill_with_identity,
}

-- The rounds of waiting among the events.
unfoldable pub asks_in : List Event → ℕ
asks_in [] = 0
asks_in (asked n ∷ events) = suc (asks_in events)
asks_in (_ ∷ events) = asks_in events

-- `time.monotonic` does not go back, and `time.sleep(0.5)` between two readings takes half a second.
pub record Ticks (d : Daemon) : Type 0 where
  pub forward : d.monotonic 0 ≤ d.monotonic 1
  pub slept : (n : ℕ) → d.monotonic (suc n) + 500 ≤ d.monotonic (suc (suc n))

-- What holds of the waits and the calls that follow.
abbrev Ends : ℕ → Killed → Type 0
Ends rounds k = (k.ending ≢ out_of_rounds) × (asks_in k.events ≤ rounds)

module _ (d : Daemon) (pid : ℤ) where
  wait-ends :
      Ticks d
      → (deadline round fuel : ℕ) → deadline ≤ d.monotonic (suc round) + 500 * fuel
      → (let w = wait d pid deadline round (suc fuel) in
          (w.waited ≢ endless) × (asks_in w.asks ≤ fuel))
  unfolding wait asks_in
  wait-ends clock deadline round zero late = ground (arith, late)
  wait-ends clock deadline round (suc fuel) late =
      let tick = clock.slept round in
      let later : deadline ≤ d.monotonic (suc (suc round)) + 500 * fuel = omega arith in
      let rest = wait-ends clock deadline (suc round) fuel later in ground (arith, rest)

  no-asks :
      (events : List Event) (k : Killed)
      → asks_in (after events k).events ≡ asks_in events + asks_in k.events
  unfolding after asks_in
  no-asks [] k = omega arith
  no-asks (checked r ∷ events) k = no-asks events k
  no-asks (sigterm n ∷ events) k = no-asks events k
  no-asks (sigkill n ∷ events) k = no-asks events k
  no-asks (asked n ∷ events) k = ground (arith, no-asks events k)
  no-asks (printed a ∷ events) k = no-asks events k

  send_sigkill-Ends : Ends 0 (send_sigkill d pid)
  unfolding send_sigkill after answer raised asks_in
  send_sigkill-Ends = ground arith

  kill_checked-Ends : (check : IdentityCheckResult) → Ends 0 (kill_checked d pid check)
  unfolding kill_checked answer asks_in
  kill_checked-Ends match = send_sigkill-Ends
  kill_checked-Ends mismatch = ground arith
  kill_checked-Ends not_found = ground arith
  kill_checked-Ends unavailable = ground arith

  after_wait-Ends :
      (force : Bool) (waited : Waited) → waited ≢ endless → Ends 0 (after_wait d pid force waited)
  unfolding after_wait answer raised asks_in force_kill after
  after_wait-Ends force gone h = ground arith
  after_wait-Ends force refused h = ground arith
  after_wait-Ends force endless h = absurd (h refl)
  after_wait-Ends false elapsed h = ground arith
  after_wait-Ends true elapsed h = kill_checked-Ends (verify_session d.alive_again d.lock_again pid)

  module _ (clock : Ticks d) (grace_seconds : ℤ) (force : Bool) where
    abbrev rounds : ℕ
    rounds = 2 * max_zero grace_seconds

    wait_and_kill-Ends : Ends rounds (wait_and_kill d pid (suc rounds) grace_seconds force)
    unfolding wait_and_kill after after_wait
    wait_and_kill-Ends =
        let deadline = d.monotonic 0 + 1000 * max_zero grace_seconds in
        let w = wait d pid deadline 0 (suc rounds) in
        let late : deadline ≤ d.monotonic 1 + 500 * rounds = omega (arith, clock.forward) in
        let (finite, few) = wait-ends clock deadline 0 rounds late in
        let (ends, quiet) = after_wait-Ends force w.waited finite in
        let count = no-asks w.asks (after_wait d pid force w.waited) in
        (ends, ground (arith, count, few, quiet))

    send_sigterm-Ends : Ends rounds (send_sigterm d pid (suc rounds) grace_seconds force)
    unfolding send_sigterm after answer raised asks_in
    send_sigterm-Ends = let waits = wait_and_kill-Ends in ground (arith, waits)

    term_checked-Ends :
        (check : IdentityCheckResult)
        → Ends rounds (term_checked d pid (suc rounds) grace_seconds force check)
    unfolding term_checked answer asks_in
    term_checked-Ends match = send_sigterm-Ends
    term_checked-Ends mismatch = ground arith
    term_checked-Ends not_found = ground arith
    term_checked-Ends unavailable = ground arith

    -- If the clock does not go back and a sleep takes its half second, a kill ends, and asks at most
    -- twice for each second of grace whether the daemon is still there.
    pub kill_with_identity-ends :
        (let k = kill_with_identity d pid grace_seconds force in
          (k.ending ≢ out_of_rounds) × (asks_in k.events ≤ 2 * max_zero grace_seconds))
    unfolding kill_with_identity kill_for after asks_in
    kill_with_identity-ends = term_checked-Ends (verify_session d.alive_first d.lock_first pid)
