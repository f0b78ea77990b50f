-- ===== src/Tests/Locks.antt =====
-- Processes on one session directory, and the directory itself.
use garuda_tunnel.Base.{
  ℕ, ◌≡◌, ◌↔◌, ◌⊎◌, refl, Bool, true, false, [], none, some, text, text_eq, nat_eq, ℕ_discrete,
  arith, ok, err, pos,
}
use garuda_tunnel.Identity.{delivered, match, LockView, pid_line, verify_session}
use garuda_tunnel.Identity.Lock.{
  idle, opened, locked, recorded, unlinked, holds, update, System, start_system, open_existing,
  open_new, lock, write, unlink, close, Reach, start, later,
}
use garuda_tunnel.Identity.Lock.Unlinking.{holds-exclusive, IsSeen, verify_session-recorded}
use garuda_tunnel.Session.{
  slot_is_symlink, directory, symlink, Disk, SessionDir, Host, won, create, write_identity,
  read_identity,
}
use garuda_tunnel.Session.Names.{file_name}
use garuda_tunnel.Session.Identified.{create-refused, read_identity-write_identity}

abbrev lock_opened : System
lock_opened = record start_system {
  entry = some 0;
  fresh = 1;
  content = update start_system.content 0 [];
  pc = update start_system.pc 5 (opened 0);
}

abbrev lock_taken : System
lock_taken = record lock_opened { pc = update lock_opened.pc 5 (locked 0) }

abbrev pub lock_recorded : System
lock_recorded = record lock_taken {
  content = update lock_taken.content 0 (pid_line 5);
  pc = update lock_taken.pc 5 (recorded 0);
}

-- The session of the process 5.
pub lock_recorded-Reach : (unlinks : Bool) → Reach unlinks lock_recorded
unfolding update nat_eq ℕ_discrete holds
lock_recorded-Reach unlinks =
    let opens : Reach unlinks lock_opened = later start (open_new 5 refl refl) in
    let takes : Reach unlinks lock_taken = later opens (lock 5 0 refl (λ q h. ground arith)) in
    later takes (write 5 0 refl)

holds_session : holds (lock_recorded.pc 5) ≡ some 0
unfolding update nat_eq ℕ_discrete holds
holds_session = refl

abbrev owner : ℕ
owner = 5

holds-exclusive_example : owner ≡ owner
holds-exclusive_example =
    holds-exclusive (lock_recorded-Reach false) owner owner 0 0 holds_session holds_session

abbrev pub view : LockView
view = record {
  is_file = true;
  opens = true;
  held = true;
  content = some (lock_recorded.content 0);
}

pub view-IsSeen : IsSeen lock_recorded 0 view
view-IsSeen = record {
  named = refl;
  file = refl;
  readable = refl;
  bytes = refl;
  busy = (λ h. (5, holds_session), λ h. refl);
}

pub has_recorded : lock_recorded.pc 5 ≡ recorded 0
unfolding update nat_eq ℕ_discrete
has_recorded = refl

verify_session-recorded_example : (verify_session delivered view (pos 5) ≡ match) ↔ (pos 5 ≡ pos 5)
verify_session-recorded_example =
    verify_session-recorded (lock_recorded-Reach true) view-IsSeen 5 has_recorded (omega arith)
      (pos 5)

-- With releases, two processes can hold a session: 7 opens the file before 5 unlinks it, and takes the
-- lock of the unlinked file; 6 then makes a new one.
abbrev awaited : System
awaited = record lock_recorded { pc = update lock_recorded.pc 7 (opened 0) }

abbrev released : System
released = record awaited { entry = none; pc = update awaited.pc 5 (unlinked 0) }

abbrev closed : System
closed = record released { pc = update released.pc 5 idle }

abbrev retaken : System
retaken = record closed { pc = update closed.pc 7 (locked 0) }

abbrev reopened : System
reopened = record retaken {
  entry = some 1;
  fresh = 2;
  content = update retaken.content 1 [];
  pc = update retaken.pc 6 (opened 1);
}

abbrev twice_held : System
twice_held = record reopened { pc = update reopened.pc 6 (locked 1) }

twice_held-Reach : Reach true twice_held
unfolding update nat_eq ℕ_discrete holds
twice_held-Reach =
    let awaits : Reach true awaited =
      later (lock_recorded-Reach true) (open_existing 7 0 refl refl) in
    let releases : Reach true released = later awaits (unlink 5 0 refl refl) in
    let closes : Reach true closed = later releases (close 5 0 refl) in
    let retakes : Reach true retaken = later closes (lock 7 0 refl (λ q h. ground arith)) in
    let reopens : Reach true reopened = later retakes (open_new 6 refl refl) in
    later reopens (lock 6 1 refl (λ q h. ground arith))

both_hold : (holds (twice_held.pc 7) ≡ some 0) × (holds (twice_held.pc 6) ≡ some 1)
unfolding update nat_eq ℕ_discrete holds
both_hold = (refl, refl)

abbrev host : Host
host = record {
  mkdtemp = some (text "/tmp/tunstrap-x");
  resolve_and_mkdir = λ path. some path;
  flock = won;
  rmtree = λ files. none;
  mkdir = true;
}

abbrev linked : Disk
linked = record { root_exists = true; lock_exists = false; slot = symlink [] }

is_refused : (create host (some (text "/s")) linked).outcome ≡ err slot_is_symlink
unfolding create garuda_tunnel.Session.is_absolute garuda_tunnel.Str.starts_with text nat_eq
    ℕ_discrete garuda_tunnel.Session.rooted garuda_tunnel.Session.take_lock
    garuda_tunnel.Session.claim garuda_tunnel.Session.reclaim_data_slot
is_refused = refl

create-refused_example :
    (let left = (create host (some (text "/s")) linked).disk in
      (left.slot ≡ symlink [])
      × ((left.lock_exists ≡ false) ⊎ ((host.flock ≡ won) × (left.lock_exists ≡ false))))
unfolding garuda_tunnel.Session.Identified.slot_before
    garuda_tunnel.Session.Identified.locked_before
create-refused_example =
    create-refused host (some (text "/s")) linked slot_is_symlink is_refused (λ e. cc)

abbrev session : SessionDir
session = record { session_dir = text "/tmp/tunstrap-x"; generated = true }

is_created : (create host none linked).outcome ≡ ok session
unfolding create garuda_tunnel.Session.rooted garuda_tunnel.Session.take_lock
    garuda_tunnel.Session.claim garuda_tunnel.Session.reclaim_data_slot
is_created = refl

read_identity-write_identity_example :
    (host.flock ≡ won)
    × ((create host none linked).disk.lock_exists ≡ true)
    × ((write_identity 5 (create host none linked).disk).outcome ≡ ok tt)
    × (read_identity (write_identity 5 (create host none linked).disk).disk ≡ ok (pos 5))
read_identity-write_identity_example =
    read_identity-write_identity host none linked session 5 is_created (omega arith)

-- The files of two pairs of a node and a target have one name.
names_collide : file_name (text "a") (text "b-c") ≡ file_name (text "a-b") (text "c")
unfolding text
names_collide = refl
