-- ===== src/Session/Identified.antt =====
-- What `SessionDir.create` of tunstrap/session.py leaves on the disk.
use garuda_tunnel.Base.{
  ℕ, ◌<◌, ◌≡◌, ◌≢◌, ◌⊎◌, refl, inl, inr, Bool, true, false, Option, none, some, Text, text, text_eq,
  nat_eq, ℕ_discrete, ==-refl, arith, Bool-cases, Option-cases, [], ◌∷◌, ok, err, pos,
}
use garuda_tunnel.Base.Dict.{insert, lookup}
use garuda_tunnel.Str.Lines.{int_of-strip_line}
use garuda_tunnel.Identity.{pid_line}
use garuda_tunnel.Session.{
  SessionFailure, Slot, vacant, other_file, foreign_directory, symlink, directory, Disk, SessionDir,
  Done, reclaim_data_slot, LockReply, os_error, Reclaimed, won, busy, broken, release_session_lock,
  claim, take_lock, Host, rooted, is_absolute, create, is_safe_name, write_in, write_file,
  write_identity, file_in, parse_identity, read_identity,
}

-- What is left: a session with an empty slot behind a lock that was won; or the slot as it was, with the
-- lock file as it was or removed behind a lock that was won; or whatever an `OSError` leaves.
data Claimed (host : Host) (before : Slot) (locked : Bool) (d : Done SessionDir) : Type 0 where
  claimed :
      (session : SessionDir)
      → d.outcome ≡ ok session
      → d.disk.slot ≡ directory []
      → d.disk.lock_exists ≡ true
      → host.flock ≡ won
      → Claimed host before locked d
  refused :
      (e : SessionFailure)
      → d.outcome ≡ err e
      → d.disk.slot ≡ before
      → (d.disk.lock_exists ≡ locked) ⊎ ((host.flock ≡ won) × (d.disk.lock_exists ≡ false))
      → Claimed host before locked d
  failed : d.outcome ≡ err os_error → Claimed host before locked d

-- A slot that is not safe to remove is left as it is.
data Freed (slot : Slot) (r : Reclaimed) : Type 0 where
  freed : r.outcome ≡ ok tt → Freed slot r
  unsafe : (e : SessionFailure) → r.outcome ≡ err e → r.slot ≡ slot → Freed slot r
  broke : r.outcome ≡ err os_error → Freed slot r

reclaim_data_slot-Freed : (host : Host) (slot : Slot) → Freed slot (reclaim_data_slot host slot)
unfolding reclaim_data_slot
reclaim_data_slot-Freed host vacant = freed refl
reclaim_data_slot-Freed host (symlink files) = unsafe _ refl refl
reclaim_data_slot-Freed host other_file = unsafe _ refl refl
reclaim_data_slot-Freed host (foreign_directory files) = unsafe _ refl refl
reclaim_data_slot-Freed host (directory files) = elim (Option-cases (host.rmtree files)) [
  | inl gone ↦ freed (ground (arith, gone))
  | inr (left, stuck) ↦ broke (ground (arith, stuck))
]

claim-Claimed :
    (host : Host) (locked : Bool) (session : SessionDir) (d : Disk)
    → host.flock ≡ won
    → d.lock_exists ≡ true
    → Claimed host d.slot locked (claim host session d)
unfolding claim release_session_lock
claim-Claimed host locked session d w h = elim (reclaim_data_slot-Freed host d.slot) [
  | unsafe e fails kept ↦
      refused e (ground (arith, fails)) (ground (arith, fails, kept))
        (inr (w, ground (arith, fails)))
  | broke fails ↦ failed (ground (arith, fails))
  | freed free ↦ elim (Bool-cases host.mkdir) [
    | inl made ↦
        claimed session (ground (arith, free, made)) (ground (arith, free, made))
          (ground (arith, free, made, h)) w
    | inr unmade ↦ failed (ground (arith, free, unmade))
  ]
]

take_lock-Claimed :
    (host : Host) (reply : LockReply) (session : SessionDir) (d : Disk)
    → host.flock ≡ reply
    → Claimed host d.slot d.lock_exists (take_lock host reply session d)
unfolding take_lock
take_lock-Claimed host won session d w =
    claim-Claimed host d.lock_exists session (record d { lock_exists = true }) w refl
take_lock-Claimed host busy session d w = refused _ refl refl (inl refl)
take_lock-Claimed host broken session d w = failed refl

rooted-Claimed :
    (host : Host) (generated : Bool) (root : Option Text) (d : Disk)
    → Claimed host d.slot d.lock_exists (rooted host generated root d)
unfolding rooted
rooted-Claimed host generated none d = failed refl
rooted-Claimed host generated (some root) d =
    take_lock-Claimed host host.flock _ (record d { root_exists = true }) refl

-- The slot that `create` starts with: a generated root is empty.
unfoldable pub slot_before : Option Text → Disk → Slot
slot_before none d = vacant
slot_before (some supplied) d = d.slot

-- Whether there is a lock file when `create` starts.
unfoldable pub locked_before : Option Text → Disk → Bool
locked_before none d = false
locked_before (some supplied) d = d.lock_exists

create-Claimed :
    (host : Host) (supplied : Option Text) (d : Disk)
    → Claimed host (slot_before supplied d) (locked_before supplied d) (create host supplied d)
unfolding create slot_before locked_before
create-Claimed host none d = rooted-Claimed host true host.mkdtemp _
create-Claimed host (some path) d = elim (Bool-cases (is_absolute path)) [
  | inl absolute ↦ rw (absolute) (rooted-Claimed host false (host.resolve_and_mkdir path) d)
  | inr relative ↦ rw (relative) (refused _ refl refl (inl refl))
]

-- Where `create` refuses, which is every failure but an `OSError`, whatever stood in the slot is untouched:
-- a symlink, a file, and the directory of another user or of a running session. The lock file is as it
-- was, or the lock was won and the file is removed again.
pub create-refused :
    (host : Host) (supplied : Option Text) (d : Disk) (e : SessionFailure)
    → (create host supplied d).outcome ≡ err e
    → e ≢ os_error
    → (let left = (create host supplied d).disk in
        (left.slot ≡ slot_before supplied d)
        × ((left.lock_exists ≡ locked_before supplied d)
            ⊎ ((host.flock ≡ won) × (left.lock_exists ≡ false))))
create-refused host supplied d e h other = elim (create-Claimed host supplied d) [
  | claimed session made empty locked held ↦ cc
  | refused e' fails kept lock ↦ (kept, lock)
  | failed fails ↦ let same : e ≡ os_error = cc in absurd (other same)
]

write_identity-directory :
    (pid : ℕ) (d : Disk)
    → d.slot ≡ directory []
    → ((write_identity pid d).outcome ≡ ok tt)
      × ((write_identity pid d).disk.slot ≡ directory ((text "daemon.pid", pid_line pid) ∷ []))
unfolding write_identity write_file write_in is_safe_name insert text text_eq nat_eq ℕ_discrete
write_identity-directory pid d h = ground (arith, h)

read_identity-file :
    (pid : ℕ) (d : Disk)
    → pid < 10000000
    → d.slot ≡ directory ((text "daemon.pid", pid_line pid) ∷ [])
    → read_identity d ≡ ok (pos pid)
unfolding read_identity file_in parse_identity lookup pid_line
read_identity-file pid d small h =
    ground (arith, h, ==-refl (text "daemon.pid"), int_of-strip_line pid small)

-- A session is created only where its lock was won, and its lock file is there; a process id below ten
-- million is then recorded, and is read back.
pub read_identity-write_identity :
    (host : Host) (supplied : Option Text) (d : Disk) (session : SessionDir) (pid : ℕ)
    → (create host supplied d).outcome ≡ ok session
    → pid < 10000000
    → (host.flock ≡ won)
      × ((create host supplied d).disk.lock_exists ≡ true)
      × ((write_identity pid (create host supplied d).disk).outcome ≡ ok tt)
      × (read_identity (write_identity pid (create host supplied d).disk).disk ≡ ok (pos pid))
read_identity-write_identity host supplied d session pid h small =
    elim (create-Claimed host supplied d) [
      | claimed _ made empty locked held ↦
          let (wrote, file) = write_identity-directory pid (create host supplied d).disk empty in
          (
            held,
            locked,
            wrote,
            read_identity-file pid (write_identity pid (create host supplied d).disk).disk small
                file,
          )
      | refused e fails kept lock ↦ cc
      | failed fails ↦ cc
    ]
