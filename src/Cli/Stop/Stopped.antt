-- ===== src/Cli/Stop/Stopped.antt =====
-- `status_command` of tunstrap/cli.py.
use garuda_tunnel.Base.{◌≡◌, refl, ◌↔◌, inl, inr, true, some, arith, ℤ, ok, Result-cases}
use garuda_tunnel.Identity.{
  IdentityCheckResult, match, mismatch, not_found, unavailable, KillReply, LockView, process_exists,
  recorded_pid, verify_session,
}
use garuda_tunnel.Identity.Verified.{verify_session-match}
use garuda_tunnel.Session.{Disk, read_identity}
use garuda_tunnel.Cli.Stop.{is_match, status_command}

is_match→eq : (check : IdentityCheckResult) → is_match check ≡ true → check ≡ match
unfolding is_match
is_match→eq match h = refl
is_match→eq mismatch h = cc
is_match→eq not_found h = cc
is_match→eq unavailable h = cc

-- The daemon is reported as alive exactly when a process id is recorded for the session and the process
-- exists and its lock file is one, can be opened, is locked, and records the same process id.
pub status_command-alive :
    (reply : KillReply) (lock : LockView) (disk : Disk)
    → (status_command reply lock disk ≡ true) ↔ (
        (pid : ℤ) × (read_identity disk ≡ ok pid)
        × (process_exists reply ≡ true)
        × (lock.is_file ≡ true)
        × (lock.opens ≡ true)
        × (lock.held ≡ true)
        × (recorded_pid lock.content ≡ some pid))
unfolding status_command is_match
status_command-alive reply lock disk = (
  λ h. elim (Result-cases (read_identity disk)) [
    | inr (e, unread) ↦ absurd (ground (arith, unread, h))
    | inl (pid, recorded) ↦
        let matches : is_match (verify_session reply lock pid) ≡ true =
          ground (arith, recorded, h) in
        let (alive, file, opens, held, same) =
          (verify_session-match reply lock pid).0 (is_match→eq _ matches) in
        (pid, recorded, alive, file, opens, held, same)
  ],
  λ (pid, recorded, alive, file, opens, held, same).
      let check = (verify_session-match reply lock pid).1 (alive, file, opens, held, same) in
      ground (arith, recorded, check),
)
