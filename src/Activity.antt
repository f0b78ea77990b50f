-- ===== src/Activity.antt =====
-- tunstrap/activity.py and `_idle_watchdog` of tunstrap/_worker.py. Time is counted in quarters of
-- a second, the unit of the poll interval.
pub mod Counting
pub mod Watching
use Prim.Native.Nat.{zero, suc}
use garuda_tunnel.Base.{
  ℕ, ◌+◌, ◌-◌, ◌*◌, Bool, true, false, not, ◌&&◌, ◌||◌, List, [], ◌∷◌, ◌++◌, nat_eq, ◌==◌, leb, ltb,
  if◌then◌else◌,
}

pub record ActivityTracker : Type 0 where
  pub active_count : ℕ
  pub last_activity_at : ℕ

-- `ActivityTracker()` at a time
unfoldable pub activity_tracker : ℕ → ActivityTracker
activity_tracker now = record { active_count = 0; last_activity_at = now }

unfoldable pub note_connection_made : ℕ → ActivityTracker → ActivityTracker
note_connection_made now t = record { active_count = t.active_count + 1; last_activity_at = now }

-- `max(0, count - 1)` is the subtraction of ℕ.
unfoldable pub note_connection_lost : ℕ → ActivityTracker → ActivityTracker
note_connection_lost now t = record { active_count = t.active_count - 1; last_activity_at = now }

unfoldable pub is_idle : ActivityTracker → Bool
is_idle t = t.active_count == 0

unfoldable pub time_since_activity : ℕ → ActivityTracker → ℕ
time_since_activity now t = now - t.last_activity_at

-- `_IdleConnectionTracker`; its aggregate is passed along.
pub record IdleConnectionTracker : Type 0 where
  pub opened : Bool
  pub closed : Bool

unfoldable pub make_tracker : IdleConnectionTracker
make_tracker = record { opened = false; closed = false }

unfoldable pub connection_made :
    ℕ → IdleConnectionTracker → ActivityTracker → IdleConnectionTracker × ActivityTracker
connection_made now c t =
    if c.opened then (c, t) else (record c { opened = true }, note_connection_made now t)

unfoldable pub connection_lost :
    ℕ → IdleConnectionTracker → ActivityTracker → IdleConnectionTracker × ActivityTracker
connection_lost now c t =
    if c.closed || not c.opened
    then (c, t)
    else (record c { closed = true }, note_connection_lost now t)

-- The shared aggregate with the trackers that were made for connections.
pub record Forwards : Type 0 where
  pub aggregate : ActivityTracker
  pub trackers : List IdleConnectionTracker

-- What the SSH library does with them: it makes a tracker for a connection, and it calls the hooks
-- of any tracker, in any order and as often as it likes.
pub data Step : Forwards → Forwards → Type 0 where
  accepted :
      (t : ActivityTracker) (cs : List IdleConnectionTracker)
      → Step
          (record { aggregate = t; trackers = cs })
          (record { aggregate = t; trackers = cs ++ (make_tracker ∷ []) })
  made :
      (now : ℕ) (t : ActivityTracker) (before : List IdleConnectionTracker)
      (c : IdleConnectionTracker) (after : List IdleConnectionTracker)
      → Step
          (record { aggregate = t; trackers = before ++ (c ∷ after) })
          (record {
            aggregate = (connection_made now c t).1;
            trackers = before ++ ((connection_made now c t).0 ∷ after);
          })
  lost :
      (now : ℕ) (t : ActivityTracker) (before : List IdleConnectionTracker)
      (c : IdleConnectionTracker) (after : List IdleConnectionTracker)
      → Step
          (record { aggregate = t; trackers = before ++ (c ∷ after) })
          (record {
            aggregate = (connection_lost now c t).1;
            trackers = before ++ ((connection_lost now c t).0 ∷ after);
          })

-- The states that a daemon started at a time can reach.
pub data Reachable (start : ℕ) : Forwards → Type 0 where
  started : Reachable start (record { aggregate = activity_tracker start; trackers = [] })
  then_step : (s s' : Forwards) → Reachable start s → Step s s' → Reachable start s'

-- `max(1.0, timeout_seconds / 4)`
unfoldable pub poll_interval : ℕ → ℕ
poll_interval timeout_seconds = if leb 4 timeout_seconds then timeout_seconds else 4

-- Where the watchdog is after some polls: still polling, stopped by another, or it set the event.
pub data Watch : Type 0 where
  polling stopped fired : ℕ → Watch

-- The loop of the watchdog, for some polls from a time on. What the tracker and the event are at
-- each time is an argument, and each sleep takes its interval.
unfoldable pub idle_watchdog : (ℕ → ActivityTracker) → ℕ → (ℕ → Bool) → ℕ → ℕ → Watch
idle_watchdog tracker_at timeout_seconds is_set zero now = polling now
idle_watchdog tracker_at timeout_seconds is_set (suc polls) now =
    let next = now + poll_interval timeout_seconds in
    let rest = idle_watchdog tracker_at timeout_seconds is_set polls next in
    if is_set now
    then stopped now
    else if is_idle (tracker_at next)
        && leb (4 * timeout_seconds) (time_since_activity next (tracker_at next))
    then fired next
    else rest
