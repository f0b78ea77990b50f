-- ===== src/Identity/Lock.antt =====
-- `acquire_session_lock` and `release_session_lock` of tunstrap/identity.py, by any number of
-- processes on one session directory. A system call is one step, but truncating and writing
-- the lock file are one, and the steps of different processes interleave in any order. A process that waits for nothing else may end at any step, and the
-- kernel then closes its files.
pub mod Exclusive
pub mod Unlinking
use garuda_tunnel.Base.{
  ℕ, ◌+◌, ◌≡◌, ◌≢◌, Bool, true, false, List, [], ◌∷◌, ◌++◌, Option, none, some, Text, nat_eq, ◌==◌,
  if◌then◌else◌,
}
use garuda_tunnel.Identity.{pid_line}

-- Where a process is: nothing open; the lock file open; locked; the process id written; and, on its
-- way out, unlinked. The number is the inode that is open.
pub data Pc : Type 0 where
  idle : Pc
  opened locked recorded unlinked : ℕ → Pc

-- The inode whose lock a process holds.
unfoldable pub holds : Pc → Option ℕ
holds idle = none
holds (opened i) = none
holds (locked i) = some i
holds (recorded i) = some i
holds (unlinked i) = some i

unfoldable pub update {ℓ} : {A : Type ℓ} → (ℕ → A) → ℕ → A → ℕ → A
update f p a q = if q == p then a else f q

-- The entry `session.lock` of the directory, the first inode that was never used, what the inodes
-- hold, and the processes, by their process ids.
pub record System : Type 0 where
  pub entry : Option ℕ
  pub fresh : ℕ
  pub content : ℕ → Text
  pub pc : ℕ → Pc

abbrev pub start_system : System
start_system = record { entry = none; fresh = 0; content = λ i. []; pc = λ p. idle }

-- No process holds the lock of the inode.
abbrev pub IsFree : System → ℕ → Type 0
IsFree s i = (q : ℕ) → holds (s.pc q) ≢ some i

-- The steps of process `p`. `unlinks` says whether a session may be released; without it a process
-- keeps its session until it ends.
pub data Step (unlinks : Bool) (s : System) : System → Type 0 where
  open_existing :
      (p i : ℕ)
      → s.pc p ≡ idle
      → s.entry ≡ some i
      → Step unlinks s (record s { pc = update s.pc p (opened i) })
  open_new :
      (p : ℕ)
      → s.pc p ≡ idle
      → s.entry ≡ none
      → Step unlinks s (record s {
        entry = some s.fresh;
        fresh = s.fresh + 1;
        content = update s.content s.fresh [];
        pc = update s.pc p (opened s.fresh);
      })
  lock :
      (p i : ℕ)
      → s.pc p ≡ opened i
      → IsFree s i
      → Step unlinks s (record s { pc = update s.pc p (locked i) })
  refuse :
      (p i q : ℕ)
      → s.pc p ≡ opened i
      → holds (s.pc q) ≡ some i
      → Step unlinks s (record s { pc = update s.pc p idle })
  write :
      (p i : ℕ)
      → s.pc p ≡ locked i
      → Step unlinks s
          (record s { content = update s.content i (pid_line p); pc = update s.pc p (recorded i) })
  unlink :
      (p i : ℕ)
      → unlinks ≡ true
      → s.pc p ≡ recorded i
      → Step unlinks s (record s { entry = none; pc = update s.pc p (unlinked i) })
  close : (p i : ℕ) → s.pc p ≡ unlinked i → Step unlinks s (record s { pc = update s.pc p idle })
  end_process : (p : ℕ) → Step unlinks s (record s { pc = update s.pc p idle })

pub data Reach (unlinks : Bool) : System → Type 0 where
  start : Reach unlinks start_system
  later : {s t : System} → Reach unlinks s → Step unlinks s t → Reach unlinks t
