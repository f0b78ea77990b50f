-- ===== src/Activity/Counting.antt =====
-- What the count of tunstrap/activity.py counts.
use garuda_tunnel.Base.{
  ℕ, ◌+◌, ◌≤◌, ◌≡◌, refl, ◌↔◌, Bool, true, false, not, ◌&&◌, List, [], ◌∷◌, ◌++◌, nat_eq,
  if◌then◌else◌, arith, All, All-append,
}
use garuda_tunnel.Activity.{
  ActivityTracker, activity_tracker, note_connection_made, note_connection_lost, is_idle,
  IdleConnectionTracker, make_tracker, connection_made, connection_lost, Forwards, Step, accepted,
  made, lost, Reachable, started, then_step,
}

-- A connection that was opened and is not closed.
unfoldable pub is_live : IdleConnectionTracker → Bool
is_live c = c.opened && not c.closed

unfoldable pub live_one : IdleConnectionTracker → ℕ
live_one c = if is_live c then 1 else 0

unfoldable pub live : List IdleConnectionTracker → ℕ
live [] = 0
live (c ∷ cs) = live_one c + live cs

live-append : (xs ys : List IdleConnectionTracker) → live (xs ++ ys) ≡ live xs + live ys
unfolding live
live-append [] ys = omega arith
live-append (c ∷ xs) ys = omega (arith, live-append xs ys)

-- A hook changes the count by what it changes of its own connection.
connection_made-count :
    (now : ℕ) (c : IdleConnectionTracker) (t : ActivityTracker)
    → (c.closed ≡ true → c.opened ≡ true)
    → ((connection_made now c t).1.active_count + live_one c
        ≡ t.active_count + live_one (connection_made now c t).0)
      × ((connection_made now c t).0.closed ≡ true → (connection_made now c t).0.opened ≡ true)
unfolding connection_made note_connection_made live_one is_live
connection_made-count now c t h = ground arith

connection_lost-count :
    (now : ℕ) (c : IdleConnectionTracker) (t : ActivityTracker)
    → live_one c ≤ t.active_count
    → ((connection_lost now c t).1.active_count + live_one c
        ≡ t.active_count + live_one (connection_lost now c t).0)
      × ((c.closed ≡ true → c.opened ≡ true)
          → (connection_lost now c t).0.closed ≡ true
          → (connection_lost now c t).0.opened ≡ true)
unfolding connection_lost note_connection_lost live_one is_live
connection_lost-count now c t h = ground arith

-- A tracker is closed only after it was opened.
Ordered : IdleConnectionTracker → Type 0
Ordered c = c.closed ≡ true → c.opened ≡ true

record IsCounted (s : Forwards) : Type 0 where
  counted : s.aggregate.active_count ≡ live s.trackers
  ordered : All Ordered s.trackers

All-middle :
    (before : List IdleConnectionTracker) (c : IdleConnectionTracker)
    (after : List IdleConnectionTracker)
    → All Ordered (before ++ (c ∷ after))
    → Ordered c × ((c' : IdleConnectionTracker) → Ordered c' → All Ordered (before ++ (c' ∷ after)))
All-middle [] c after (h, hs) = (h, λ c' h'. (h', hs))
All-middle (b ∷ before) c after (h, hs) =
    let (hc, put) = All-middle before c after hs in (hc, λ c' h'. (h, put c' h'))

live-middle :
    (before : List IdleConnectionTracker) (c : IdleConnectionTracker)
    (after : List IdleConnectionTracker)
    → live (before ++ (c ∷ after)) ≡ live before + (live_one c + live after)
unfolding live
live-middle before c after = live-append before (c ∷ after)

Step-IsCounted : (s s' : Forwards) → Step s s' → IsCounted s → IsCounted s'
unfolding live live_one is_live make_tracker Ordered
Step-IsCounted s s' (accepted t cs) k = record {
  counted = omega (arith, k.counted, live-append cs (make_tracker ∷ []));
  ordered = All-append Ordered cs (make_tracker ∷ []) k.ordered ((λ h. cc), tt);
}
Step-IsCounted s s' (made now t before c after) k =
    let (hc, put) = All-middle before c after k.ordered in
    let (count, kept) = connection_made-count now c t hc in
    record {
      counted = omega (
        arith,
        count,
        k.counted,
        live-middle before c after,
        live-middle before (connection_made now c t).0 after,
      );
      ordered = put (connection_made now c t).0 kept;
    }
Step-IsCounted s s' (lost now t before c after) k =
    let (hc, put) = All-middle before c after k.ordered in
    let (count, kept) =
      connection_lost-count now c t (omega (arith, k.counted, live-middle before c after)) in
    record {
      counted = omega (
        arith,
        count,
        k.counted,
        live-middle before c after,
        live-middle before (connection_lost now c t).0 after,
      );
      ordered = put (connection_lost now c t).0 (kept hc);
    }

Reachable-IsCounted : (start : ℕ) (s : Forwards) → Reachable start s → IsCounted s
unfolding activity_tracker live
Reachable-IsCounted start s started = record { counted = refl; ordered = tt }
Reachable-IsCounted start s (then_step s0 s' r step) =
    Step-IsCounted s0 s' step (Reachable-IsCounted start s0 r)

-- In every state that the daemon can reach, however often and in whatever order the hooks were
-- called, the count is the number of connections that were opened and are not closed.
pub active_count-live :
    (start : ℕ) (s : Forwards) → Reachable start s → s.aggregate.active_count ≡ live s.trackers
active_count-live start s r = (Reachable-IsCounted start s r).counted

live-none : (cs : List IdleConnectionTracker) → live cs ≡ 0 → All (λ c. is_live c ≡ false) cs
unfolding live live_one
live-none [] h = tt
live-none (c ∷ cs) h = (ground arith, live-none cs (omega (arith, h)))

none-live : (cs : List IdleConnectionTracker) → All (λ c. is_live c ≡ false) cs → live cs ≡ 0
unfolding live live_one
none-live [] h = refl
none-live (c ∷ cs) (h, hs) = ground (arith, none-live cs hs)

-- In every state that the daemon can reach, the tracker says that it is idle exactly when no
-- connection is open.
pub is_idle-none_live :
    (start : ℕ) (s : Forwards)
    → Reachable start s
    → (is_idle s.aggregate ≡ true) ↔ All (λ c. is_live c ≡ false) s.trackers
unfolding is_idle
is_idle-none_live start s r =
    let count = active_count-live start s r in
    (
      λ h. live-none s.trackers (ground (arith, count)),
      λ h. ground (arith, count, none-live s.trackers h),
    )
