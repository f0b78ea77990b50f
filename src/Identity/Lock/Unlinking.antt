-- ===== src/Identity/Lock/Unlinking.antt =====
-- The lock of tunstrap/identity.py while no session is released, and what a check of it sees.
use garuda_tunnel.Base.{
  ℕ, ◌<◌, ◌≡◌, ◌↔◌, refl, sym, ap, subst, ◌∙◌, Bool, true, false, Option, none, some, nat_eq, arith,
  ℤ, pos,
}
use garuda_tunnel.Identity.{
  LockView, delivered, match, verify_session, recorded_pid, process_exists,
}
use garuda_tunnel.Identity.Verified.{verify_session-match, recorded_pid-pid_line}
use garuda_tunnel.Identity.Lock.{
  Pc, idle, opened, locked, recorded, unlinked, holds, update, System, Step, open_existing,
  open_new, lock, refuse, write, unlink, close, end_process, Reach, start, later,
}
use garuda_tunnel.Identity.Lock.Exclusive.{holds_unique, recorded-content}

-- The inode that a process has open.
unfoldable pub uses : Pc → Option ℕ
uses idle = none
uses (opened i) = some i
uses (locked i) = some i
uses (recorded i) = some i
uses (unlinked i) = some i

IsNamed : System → Type 0
IsNamed s = (p i : ℕ) → uses (s.pc p) ≡ some i → s.entry ≡ some i

Step-IsNamed : {s t : System} → Step false s t → IsNamed s → IsNamed t
unfolding IsNamed uses update
Step-IsNamed (open_existing p i h k) named a j ha = ground (arith, named a j)
Step-IsNamed (open_new p h k) named a j ha = ground (arith, named a j)
Step-IsNamed (lock p i h free) named a j ha = ground (arith, named a j)
Step-IsNamed (refuse p i q h k) named a j ha = ground (arith, named a j)
Step-IsNamed (write p i h) named a j ha = ground (arith, named a j)
Step-IsNamed (unlink p i u h) named a j ha = cc
Step-IsNamed (close p i h) named a j ha = ground (arith, named a j)
Step-IsNamed (end_process p) named a j ha = ground (arith, named a j)

Reach-IsNamed : {s : System} → Reach false s → IsNamed s
unfolding IsNamed uses
Reach-IsNamed start = λ a j ha. cc
Reach-IsNamed (later r st) = Step-IsNamed st (Reach-IsNamed r)

holds-uses : (c : Pc) (i : ℕ) → holds c ≡ some i → uses c ≡ some i
unfolding holds uses
holds-uses idle i h = cc
holds-uses (opened j) i h = cc
holds-uses (locked j) i h = h
holds-uses (recorded j) i h = h
holds-uses (unlinked j) i h = h

-- While no session is released, at most one process has the session.
pub holds-exclusive :
    {s : System}
    → Reach false s
    → (p q i j : ℕ) → holds (s.pc p) ≡ some i
    → holds (s.pc q) ≡ some j
    → p ≡ q
unfolding IsNamed
holds-exclusive {s} r p q i j hp hq =
    let named_i = Reach-IsNamed r p i (holds-uses (s.pc p) i hp) in
    let named_j = Reach-IsNamed r q j (holds-uses (s.pc q) j hq) in
    let same : j ≡ i = ground (arith, named_i, named_j) in
    holds_unique r p q i hp (subst (λ k. holds (s.pc q) ≡ some k) same hq)

-- What a check sees of the lock file.
pub record IsSeen (s : System) (i : ℕ) (lock : LockView) : Type 0 where
  pub named : s.entry ≡ some i
  pub file : lock.is_file ≡ true
  pub readable : lock.opens ≡ true
  pub bytes : lock.content ≡ some (s.content i)
  pub busy : (lock.held ≡ true) ↔ ((q : ℕ) × (holds (s.pc q) ≡ some i))

-- When a process has taken the session under the name of the lock file and recorded its id, which
-- is below ten million, a check that finds a process of the asked id confirms exactly the recorded
-- id, whatever other processes do.
pub verify_session-recorded :
    {unlinks : Bool} {s : System} {i : ℕ} {lock : LockView}
    → Reach unlinks s
    → IsSeen s i lock
    → (p : ℕ) → s.pc p ≡ recorded i
    → p < 10000000
    → (pid : ℤ) → (verify_session delivered lock pid ≡ match) ↔ (pid ≡ pos p)
unfolding holds process_exists
verify_session-recorded {s} {i} {lock} r seen p h small pid =
    let read : recorded_pid lock.content ≡ some (pos p) =
      rw (seen.bytes, recorded-content r p i h) (recorded_pid-pid_line p small) in
    let held : lock.held ≡ true = seen.busy.1 (p, rw (h)) in
    let (to, from) = verify_session-match delivered lock pid in
    (
      λ k. ground (arith, read, (to k).4),
      λ e. from (refl, seen.file, seen.readable, held, read ∙ ap some (sym e)),
    )
