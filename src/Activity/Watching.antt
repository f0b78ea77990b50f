-- ===== src/Activity/Watching.antt =====
-- When `_idle_watchdog` of tunstrap/_worker.py sets the stop event.
use Prim.Native.Nat.{zero, suc}
use garuda_tunnel.Base.{
  ℕ, ◌+◌, ◌*◌, ◌≤◌, ◌<◌, ◌≡◌, inl, inr, Bool, true, false, nat_eq, leb, arith, Bool-cases,
}
use garuda_tunnel.Activity.{
  ActivityTracker, is_idle, time_since_activity, poll_interval, fired, idle_watchdog,
}

-- If the tracker stays idle, with its last event at one time, nothing else sets the stop event,
-- and the timeout has not passed when the watching starts, then with enough polls to reach it
-- the watchdog sets the event within the timeout and one poll interval of that last event.
pub idle_watchdog-fires :
    (tracker_at : ℕ → ActivityTracker) (timeout_seconds : ℕ) (is_set : ℕ → Bool)
    (polls now last : ℕ)
    → ((t : ℕ)
        → now ≤ t
        → (is_idle (tracker_at t) ≡ true) × ((tracker_at t).last_activity_at ≡ last))
    → ((t : ℕ) → is_set t ≡ false)
    → now < last + 4 * timeout_seconds
    → last + 4 * timeout_seconds ≤ now + polls * poll_interval timeout_seconds
    → (t : ℕ) × (idle_watchdog tracker_at timeout_seconds is_set polls now ≡ fired t)
      × (t < last + 4 * timeout_seconds + poll_interval timeout_seconds)
unfolding idle_watchdog time_since_activity
idle_watchdog-fires tracker_at timeout_seconds is_set zero now last idle unset early enough =
    ground arith
idle_watchdog-fires tracker_at timeout_seconds is_set (suc polls) now last idle unset early enough =
    let next = now + poll_interval timeout_seconds in
    let (quiet, since) = idle next (omega arith) in
    let times : suc polls * poll_interval timeout_seconds
        ≡ poll_interval timeout_seconds + polls * poll_interval timeout_seconds =
      omega arith in
    elim (Bool-cases (leb (4 * timeout_seconds) (time_since_activity next (tracker_at next)))) [
      | inl past ↦ (next, ground (arith, unset now, quiet, past), omega (arith, early))
      | inr recent ↦
          let (t, fires, soon) =
            idle_watchdog-fires tracker_at timeout_seconds is_set polls next last
              (λ t h. idle t (omega (arith, h))) unset (ground (arith, since, recent))
              (omega (arith, enough, times)) in
          (t, ground (arith, unset now, quiet, recent, fires), soon)
    ]
