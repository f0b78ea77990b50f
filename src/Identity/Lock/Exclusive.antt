-- ===== src/Identity/Lock/Exclusive.antt =====
-- Who holds the lock of tunstrap/identity.py.
use garuda_tunnel.Base.{ℕ, ◌<◌, ◌≡◌, Bool, some, nat_eq, arith}
use garuda_tunnel.Identity.{pid_line}
use garuda_tunnel.Identity.Lock.{
  idle, opened, recorded, holds, update, System, start_system, Step, open_existing, open_new, lock,
  refuse, write, unlink, close, end_process, Reach, start, later,
}

-- Every open inode was used before; a lock has one holder; a process that has recorded its id finds
-- it in the inode that it holds.
record IsSound (s : System) : Type 0 where
  unique : (p q i : ℕ) → holds (s.pc p) ≡ some i → holds (s.pc q) ≡ some i → p ≡ q
  held_used : (p i : ℕ) → holds (s.pc p) ≡ some i → i < s.fresh
  open_used : (p i : ℕ) → s.pc p ≡ opened i → i < s.fresh
  entry_used : (i : ℕ) → s.entry ≡ some i → i < s.fresh
  written : (p i : ℕ) → s.pc p ≡ recorded i → s.content i ≡ pid_line p

start-IsSound : IsSound start_system
unfolding holds
start-IsSound = record {
  unique = λ p q i h k. cc;
  held_used = λ p i h. cc;
  open_used = λ p i h. cc;
  entry_used = λ i h. cc;
  written = λ p i h. cc;
}

-- A process that lets go of its inode.
idle-IsSound : (s : System) (p : ℕ) → IsSound s → IsSound (record s { pc = update s.pc p idle })
unfolding holds update
idle-IsSound s p sound = record {
  unique = λ a b j ha hb. ground (arith, sound.unique a b j);
  held_used = λ a j ha. ground (arith, sound.held_used a j);
  open_used = λ a j ha. ground (arith, sound.open_used a j);
  entry_used = sound.entry_used;
  written = λ a j ha. ground (arith, sound.written a j);
}

Step-IsSound : {unlinks : Bool} {s t : System} → Step unlinks s t → IsSound s → IsSound t
unfolding holds update
Step-IsSound {s} (open_existing p i h k) sound = record {
  unique = λ a b j ha hb. ground (arith, sound.unique a b j);
  held_used = λ a j ha. ground (arith, sound.held_used a j);
  open_used = λ a j ha. ground (arith, sound.open_used a j, sound.entry_used i);
  entry_used = sound.entry_used;
  written = λ a j ha. ground (arith, sound.written a j);
}
Step-IsSound {s} (open_new p h k) sound = record {
  unique = λ a b j ha hb. ground (arith, sound.unique a b j);
  held_used = λ a j ha. ground (arith, sound.held_used a j);
  open_used = λ a j ha. ground (arith, sound.open_used a j);
  entry_used = λ j ha. ground (arith, sound.entry_used j);
  written = λ a j ha. ground (arith, sound.written a j, sound.held_used a j);
}
Step-IsSound {s} (lock p i h free) sound = record {
  unique = λ a b j ha hb. ground (arith, sound.unique a b j, free a, free b);
  held_used = λ a j ha. ground (arith, sound.held_used a j, sound.open_used p i h);
  open_used = λ a j ha. ground (arith, sound.open_used a j);
  entry_used = sound.entry_used;
  written = λ a j ha. ground (arith, sound.written a j);
}
Step-IsSound {s} (refuse p i q h k) sound = idle-IsSound s p sound
Step-IsSound {s} (write p i h) sound = record {
  unique = λ a b j ha hb. ground (arith, sound.unique a b j);
  held_used = λ a j ha. ground (arith, sound.held_used a j, sound.held_used p i);
  open_used = λ a j ha. ground (arith, sound.open_used a j);
  entry_used = sound.entry_used;
  written = λ a j ha. ground (arith, sound.written a j, sound.unique a p i);
}
Step-IsSound {s} (unlink p i u h) sound = record {
  unique = λ a b j ha hb. ground (arith, sound.unique a b j);
  held_used = λ a j ha. ground (arith, sound.held_used a j, sound.held_used p i);
  open_used = λ a j ha. ground (arith, sound.open_used a j);
  entry_used = λ j ha. cc;
  written = λ a j ha. ground (arith, sound.written a j);
}
Step-IsSound {s} (close p i h) sound = idle-IsSound s p sound
Step-IsSound {s} (end_process p) sound = idle-IsSound s p sound

Reach-IsSound : {unlinks : Bool} {s : System} → Reach unlinks s → IsSound s
Reach-IsSound start = start-IsSound
Reach-IsSound (later r st) = Step-IsSound st (Reach-IsSound r)

-- However the calls of the processes interleave, no two of them hold the lock of one inode.
pub holds_unique :
    {unlinks : Bool} {s : System}
    → Reach unlinks s
    → (p q i : ℕ) → holds (s.pc p) ≡ some i
    → holds (s.pc q) ≡ some i
    → p ≡ q
holds_unique r = (Reach-IsSound r).unique

-- The id that a process has recorded is still there.
pub recorded-content :
    {unlinks : Bool} {s : System}
    → Reach unlinks s
    → (p i : ℕ) → s.pc p ≡ recorded i
    → s.content i ≡ pid_line p
recorded-content r = (Reach-IsSound r).written
