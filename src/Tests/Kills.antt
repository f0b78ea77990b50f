-- ===== src/Tests/Kills.antt =====
-- The kill of a daemon that does not stop by itself, and the command `status`.
use garuda_tunnel.Base.{
  ◌*◌, ◌≡◌, ◌≢◌, ◌↔◌, refl, ◌≤◌, true, false, [], ◌∷◌, some, text, text_eq, nat_eq, ℕ_discrete,
  arith, ok, ℤ, pos, max_zero,
}
use garuda_tunnel.Identity.{
  delivered, match, LockView, process_exists, recorded_pid, verify_session,
}
use garuda_tunnel.Session.{Disk, directory, read_identity}
use garuda_tunnel.Cli.Kill.{Daemon, out_of_rounds, kill_with_identity}
use garuda_tunnel.Cli.Kill.Guarded.{
  guarded, has_sigkill, kill_with_identity-guarded, kill_with_identity-sigkill,
}
use garuda_tunnel.Cli.Kill.Patience.{Ticks, asks_in, kill_with_identity-ends}
use garuda_tunnel.Cli.Kill.Owner.{sigkilled, kill_with_identity-owner}
use garuda_tunnel.Cli.Kill.Told.{told, value_of, kill_with_identity-told}
use garuda_tunnel.Tests.Locks.{lock_recorded-Reach, view, view-IsSeen, has_recorded}
use garuda_tunnel.Cli.Stop.{Surroundings, status_command}
use garuda_tunnel.Cli.Stop.Stopped.{status_command-alive}

abbrev lock : LockView
lock = record { is_file = true; opens = true; held = true; content = some (text "5\n") }

-- A process that SIGTERM does not end.
abbrev stubborn : Daemon
stubborn = record {
  alive_first = delivered;
  lock_first = lock;
  on_sigterm = delivered;
  monotonic = λ n. 500 * n;
  on_ask = λ n. delivered;
  alive_again = delivered;
  lock_again = lock;
  on_sigkill = delivered;
}

kill_with_identity-guarded_example :
    guarded false (kill_with_identity stubborn (pos 5) (pos 1) true).events ≡ true
kill_with_identity-guarded_example = kill_with_identity-guarded stubborn (pos 5) (pos 1) true

is_killed : has_sigkill (kill_with_identity stubborn (pos 5) (pos 1) true).events ≡ true
unfolding has_sigkill kill_with_identity garuda_tunnel.Cli.Kill.kill_for
    garuda_tunnel.Cli.Kill.after garuda_tunnel.Cli.Kill.term_checked verify_session process_exists
    garuda_tunnel.Identity.check_lock garuda_tunnel.Identity.compare_pid recorded_pid
    garuda_tunnel.Identity.int_of_bytes text garuda_tunnel.Str.Number.int_of
    garuda_tunnel.Str.Number.signed garuda_tunnel.Str.strip_by garuda_tunnel.Str.Number.is_int_space
    nat_eq garuda_tunnel.Cli.Kill.after_wait garuda_tunnel.Cli.Kill.answer
    garuda_tunnel.Cli.Kill.force_kill garuda_tunnel.Cli.Kill.kill_checked
    garuda_tunnel.Cli.Kill.raised garuda_tunnel.Cli.Kill.send_sigkill
    garuda_tunnel.Cli.Kill.send_sigterm garuda_tunnel.Cli.Kill.wait
    garuda_tunnel.Cli.Kill.wait_and_kill garuda_tunnel.Identity.same_pid
    garuda_tunnel.Str.Number.digit_from garuda_tunnel.Str.Number.digit_value
    garuda_tunnel.Str.Number.digits_value garuda_tunnel.Str.Number.max_int_digits
    garuda_tunnel.Str.Number.unsigned garuda_tunnel.Str.drop_blank garuda_tunnel.Str.drop_blank_end
    garuda_tunnel.Str.is_space ℕ_discrete
is_killed = refl

kill_with_identity-sigkill_example :
    (true ≡ true)
    × (stubborn.on_sigterm ≡ delivered)
    × ((process_exists stubborn.alive_again ≡ true)
        × (stubborn.lock_again.is_file ≡ true)
        × (stubborn.lock_again.opens ≡ true)
        × (stubborn.lock_again.held ≡ true)
        × (recorded_pid stubborn.lock_again.content ≡ some (pos 5)))
kill_with_identity-sigkill_example =
    kill_with_identity-sigkill stubborn (pos 5) (pos 1) true is_killed

stubborn-Ticks : Ticks stubborn
stubborn-Ticks = record { forward = omega arith; slept = λ n. omega arith }

kill_with_identity-ends_example :
    (let k = kill_with_identity stubborn (pos 5) (pos 1) true in
      (k.ending ≢ out_of_rounds) × (asks_in k.events ≤ 2 * max_zero (pos 1)))
kill_with_identity-ends_example =
    kill_with_identity-ends stubborn (pos 5) stubborn-Ticks (pos 1) true

-- The same process, whose lock file is that of the process 5.
abbrev owned : Daemon
owned = record stubborn { lock_again = view }

is_killed_again : has_sigkill (kill_with_identity owned (pos 5) (pos 1) true).events ≡ true
unfolding has_sigkill kill_with_identity garuda_tunnel.Cli.Kill.kill_for
    garuda_tunnel.Cli.Kill.after garuda_tunnel.Cli.Kill.term_checked verify_session process_exists
    garuda_tunnel.Identity.check_lock garuda_tunnel.Identity.compare_pid recorded_pid
    garuda_tunnel.Identity.int_of_bytes text garuda_tunnel.Str.Number.int_of
    garuda_tunnel.Str.Number.signed garuda_tunnel.Str.strip_by garuda_tunnel.Str.Number.is_int_space
    nat_eq garuda_tunnel.Cli.Kill.after_wait garuda_tunnel.Cli.Kill.answer
    garuda_tunnel.Cli.Kill.force_kill garuda_tunnel.Cli.Kill.kill_checked
    garuda_tunnel.Cli.Kill.raised garuda_tunnel.Cli.Kill.send_sigkill
    garuda_tunnel.Cli.Kill.send_sigterm garuda_tunnel.Cli.Kill.wait
    garuda_tunnel.Cli.Kill.wait_and_kill garuda_tunnel.Identity.same_pid
    garuda_tunnel.Str.Number.digit_from garuda_tunnel.Str.Number.digit_value
    garuda_tunnel.Str.Number.digits_value garuda_tunnel.Str.Number.max_int_digits
    garuda_tunnel.Str.Number.unsigned garuda_tunnel.Str.drop_blank garuda_tunnel.Str.drop_blank_end
    garuda_tunnel.Str.is_space ℕ_discrete garuda_tunnel.Identity.Lock.update
    garuda_tunnel.Identity.pid_line garuda_tunnel.Str.Number.show_nat
is_killed_again = refl

kill_with_identity-owner_example :
    sigkilled (kill_with_identity owned (pos 5) (pos 1) true).events ≡ pos 5 ∷ []
kill_with_identity-owner_example =
    kill_with_identity-owner (lock_recorded-Reach true) owned view-IsSeen 5 has_recorded
      (omega arith) (pos 5) (pos 1) true is_killed_again

abbrev pub disk : Disk
disk = record {
  root_exists = true;
  lock_exists = true;
  slot = directory ((text "daemon.pid", text "5\n") ∷ []);
}

-- The daemon leaves the disk as it is.
abbrev pub surroundings : Surroundings
surroundings = record { daemon = stubborn; meanwhile = λ disk. disk }

status_command-alive_example : (status_command delivered lock disk ≡ true) ↔ (
    (pid : ℤ) × (read_identity disk ≡ ok pid)
    × (process_exists delivered ≡ true)
    × (lock.is_file ≡ true)
    × (lock.opens ≡ true)
    × (lock.held ≡ true)
    × (recorded_pid lock.content ≡ some pid))
status_command-alive_example = status_command-alive delivered lock disk

kill_with_identity-told_example :
    (let k = kill_with_identity stubborn (pos 5) (pos 1) true in told k.events ≡ value_of k.ending)
kill_with_identity-told_example = kill_with_identity-told stubborn (pos 5) (pos 1) true
