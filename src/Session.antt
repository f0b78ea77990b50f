-- ===== src/Session.antt =====
-- tunstrap/session.py, on the part of the file system that it touches: the root of the session, the
-- slot `tunnel-data` in it and the lock file. What `mkdtemp`, `resolve`, `mkdir` and `rmtree` answer, and
-- whether the lock is won, are arguments of `create`. The removals that ignore errors remove a directory
-- of this user, and a file can be written in it.
pub mod Names
pub mod Identified
use garuda_tunnel.Base.{
  ℕ, Bool, true, false, not, ◌&&◌, ◌||◌, List, [], ◌∷◌, ◌++◌, Option, none, some, Text, text,
  text_eq, nat_eq, ◌==◌, contains, is_empty, if◌then◌else◌, ℤ, Result, ok, err, ◌>>=◌, ◌>>◌,
  raise_if,
}
use garuda_tunnel.Base.Dict.{Dict, insert, lookup}
use garuda_tunnel.Str.{strip, starts_with}
use garuda_tunnel.Str.Number.{int_of}
use garuda_tunnel.Identity.{pid_line}

-- The `SessionError`s, the `SessionActive`, and what else a system call raises.
pub data SessionFailure : Type 0 where
  not_absolute slot_is_symlink slot_not_directory slot_foreign unsafe_name : SessionFailure
  no_identity : SessionFailure
  session_active : Text → SessionFailure
  os_error : SessionFailure

-- `tunnel-data`: nothing, a file, or, with the files in it, a directory of this user, one of another
-- user, or a symlink to one.
pub data Slot : Type 0 where
  vacant other_file : Slot
  directory foreign_directory symlink : Dict Text Text → Slot

pub record Disk : Type 0 where
  pub root_exists : Bool
  pub lock_exists : Bool
  pub slot : Slot

pub record SessionDir : Type 0 where
  pub session_dir : Text
  pub generated : Bool

-- What a call did: its value or exception, and the disk after it.
pub record Done {ℓ} (A : Type ℓ) : Type ℓ where
  pub outcome : Result SessionFailure A
  pub disk : Disk

-- Whether the lock is won, held by another, or an `OSError` is raised.
pub data LockReply : Type 0 where
  won busy broken : LockReply

-- The system around `create`: the directory that `mkdtemp` makes, the path that a supplied one
-- resolves to, the lock, the files that `rmtree` leaves where it fails, and whether the slot can be made.
pub record Host : Type 0 where
  pub mkdtemp : Option Text
  pub resolve_and_mkdir : Text → Option Text
  pub flock : LockReply
  pub rmtree : Dict Text Text → Option (Dict Text Text)
  pub mkdir : Bool

-- What a reclaim did: its value or exception, and the slot after it.
pub record Reclaimed : Type 0 where
  pub outcome : Result SessionFailure (Unit {0})
  pub slot : Slot

unfoldable pub reclaim_data_slot : Host → Slot → Reclaimed
reclaim_data_slot host vacant = record { outcome = ok tt; slot = vacant }
reclaim_data_slot host (symlink files) = record {
  outcome = err slot_is_symlink;
  slot = symlink files;
}
reclaim_data_slot host other_file = record { outcome = err slot_not_directory; slot = other_file }
reclaim_data_slot host (foreign_directory files) = record {
  outcome = err slot_foreign;
  slot = foreign_directory files;
}
reclaim_data_slot host (directory files) = elim (host.rmtree files) [
  | none ↦ record { outcome = ok tt; slot = vacant }
  | some left ↦ record { outcome = err os_error; slot = directory left }
]

-- `release_session_lock`: the entry of the lock file goes.
unfoldable pub release_session_lock : Disk → Disk
release_session_lock d = record d { lock_exists = false }

-- The slot is reclaimed and made anew, or the lock is released.
unfoldable pub claim : Host → SessionDir → Disk → Done SessionDir
claim host session d =
    let reclaimed = reclaim_data_slot host d.slot in
    let released = release_session_lock (record d { slot = reclaimed.slot }) in
    elim reclaimed.outcome [
      | err e ↦ record { outcome = err e; disk = released }
      | ok _ ↦
          if host.mkdir
          then record { outcome = ok session; disk = record d { slot = directory [] } }
          else record { outcome = err os_error; disk = released }
    ]

unfoldable pub take_lock : Host → LockReply → SessionDir → Disk → Done SessionDir
take_lock host busy session d = record {
  outcome = err (session_active session.session_dir);
  disk = d;
}
take_lock host broken session d = record { outcome = err os_error; disk = d }
take_lock host won session d = claim host session (record d { lock_exists = true })

unfoldable pub rooted : Host → Bool → Option Text → Disk → Done SessionDir
rooted host generated none d = record { outcome = err os_error; disk = d }
rooted host generated (some root) d =
    take_lock host host.flock (record { session_dir = root; generated = generated })
      (record d { root_exists = true })

unfoldable pub is_absolute : Text → Bool
is_absolute path = starts_with path (text "/")

-- A generated root is new, so the disk is that of the root.
unfoldable pub create : Host → Option Text → Disk → Done SessionDir
create host none d =
    rooted host true host.mkdtemp
      (record { root_exists = false; lock_exists = false; slot = vacant })
create host (some supplied) d =
    if is_absolute supplied
    then rooted host false (host.resolve_and_mkdir supplied) d
    else record { outcome = err not_absolute; disk = d }

-- The checks of a name. The file of a name that is not empty lies in the slot, since nothing in the
-- slot is a symlink; the empty name is the slot itself.
unfoldable pub is_safe_name : Text → Bool
is_safe_name name =
    not (contains name b'/' || contains name b'\\')
    && (not (name == text "." || name == text "..") && not (is_empty name))

unfoldable pub write_in : Slot → Text → Text → Result SessionFailure Slot
write_in (directory files) name content = ok (directory (insert name content files))
write_in _ name content = err os_error

unfoldable pub write_file : Text → Text → Disk → Done (Unit {0})
write_file name content d =
    if is_safe_name name
    then elim (write_in d.slot name content) [
      | ok slot ↦ record { outcome = ok tt; disk = record d { slot = slot } }
      | err e ↦ record { outcome = err e; disk = d }
    ]
    else record { outcome = err unsafe_name; disk = d }

unfoldable pub write_identity : ℕ → Disk → Done (Unit {0})
write_identity pid d = write_file (text "daemon.pid") (pid_line pid) d

unfoldable pub materialize : Text → Text → Disk → Done (Unit {0})
materialize name content d = write_file name content d

unfoldable pub file_in : Slot → Text → Option Text
file_in (directory files) name = lookup name files
file_in (foreign_directory files) name = lookup name files
file_in (symlink files) name = lookup name files
file_in _ name = none

unfoldable pub parse_identity : Option Text → Result SessionFailure ℤ
parse_identity none = err no_identity
parse_identity (some raw) = elim (int_of (strip raw)) [ none ↦ err no_identity | some pid ↦ ok pid ]

unfoldable pub read_identity : Disk → Result SessionFailure ℤ
read_identity d = parse_identity (file_in d.slot (text "daemon.pid"))

-- `shutil.rmtree` with errors ignored, which leaves a symlink, a file and what is not this user's.
unfoldable pub remove_slot : Slot → Slot
remove_slot (directory files) = vacant
remove_slot slot = slot

unfoldable pub cleanup_path : Disk → Disk
cleanup_path d = record d { slot = remove_slot d.slot }

unfoldable pub cleanup : SessionDir → Disk → Disk
cleanup session d =
    let released = release_session_lock d in
    if session.generated
    then record { root_exists = false; lock_exists = false; slot = vacant }
    else cleanup_path released
