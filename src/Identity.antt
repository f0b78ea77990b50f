-- ===== src/Identity.antt =====
-- tunstrap/identity.py: what `verify_session` decides from what the system answers. The lock file and
-- the processes that take it are in Identity.Lock.
pub mod Verified
pub mod Lock
use garuda_tunnel.Base.{
  ℕ, Bool, true, false, not, List, [], ◌∷◌, ◌++◌, Option, none, some, Text, text, all, ltb,
  if◌then◌else◌, ℤ, pos, negsuc, nat_eq, ◌==◌,
}
use garuda_tunnel.Str.Number.{int_of, show_nat}

pub data IdentityCheckResult : Type 0 where
  match mismatch not_found unavailable : IdentityCheckResult

-- What `os.kill(pid, 0)` answers.
pub data KillReply : Type 0 where
  delivered no_such_process not_permitted : KillReply

unfoldable pub process_exists : KillReply → Bool
process_exists delivered = true
process_exists no_such_process = false
process_exists not_permitted = true

-- `int` of bytes: outside ASCII no byte is a digit or a blank.
unfoldable pub int_of_bytes : Text → Option ℤ
int_of_bytes raw = if all (λ c. ltb c 128) raw then int_of raw else none

-- `a == b` on `int`
unfoldable pub same_pid : ℤ → ℤ → Bool
same_pid (pos m) (pos n) = m == n
same_pid (negsuc m) (negsuc n) = m == n
same_pid _ _ = false

-- The lock file, as one check finds it: whether it is a file, whether it can be opened, whether
-- another holds its lock, and its bytes; `none` is an `OSError` of reading.
pub record LockView : Type 0 where
  pub is_file : Bool
  pub opens : Bool
  pub held : Bool
  pub content : Option Text

-- The recorded pid against the one that is asked for.
unfoldable pub compare_pid : Option ℤ → ℤ → IdentityCheckResult
compare_pid none pid = unavailable
compare_pid (some recorded) pid = if same_pid recorded pid then match else mismatch

unfoldable pub recorded_pid : Option Text → Option ℤ
recorded_pid none = none
recorded_pid (some raw) = int_of_bytes raw

unfoldable pub check_lock : LockView → ℤ → IdentityCheckResult
check_lock lock pid =
    if not lock.opens
    then unavailable
    else if lock.held
    then compare_pid (recorded_pid lock.content) pid
    else not_found

unfoldable pub verify_session : KillReply → LockView → ℤ → IdentityCheckResult
verify_session reply lock pid =
    if not (process_exists reply)
    then not_found
    else if not lock.is_file
    then not_found
    else check_lock lock pid

-- `f"{os.getpid()}\n"`
unfoldable pub pid_line : ℕ → Text
pid_line pid = show_nat pid ++ (10 ∷ [])
