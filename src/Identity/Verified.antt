-- ===== src/Identity/Verified.antt =====
-- When `verify_session` of tunstrap/identity.py confirms an identity.
use garuda_tunnel.Base.{
  ℕ, ◌<◌, ◌≡◌, refl, ap, ◌↔◌, inl, inr, true, Option, none, some, Text, [], ◌∷◌, ◌++◌, all, ltb,
  arith, ℤ, pos, negsuc, nat_eq, ==-refl, ==→eq, Bool-cases, All,
}
use garuda_tunnel.Str.Number.{show_nat}
use garuda_tunnel.Str.Digits.{IsDigit, show_nat-digits}
use garuda_tunnel.Str.Lines.{int_of-line}
use garuda_tunnel.Identity.{
  match, KillReply, process_exists, int_of_bytes, same_pid, LockView, compare_pid, recorded_pid,
  check_lock, verify_session, pid_line,
}

same_pid→eq : (a b : ℤ) → same_pid a b ≡ true → a ≡ b
unfolding same_pid
same_pid→eq (pos m) (pos n) h = ap pos (==→eq m n h)
same_pid→eq (negsuc m) (negsuc n) h = ap negsuc (==→eq m n h)
same_pid→eq (pos m) (negsuc n) h = cc
same_pid→eq (negsuc m) (pos n) h = cc

pub same_pid_refl : (a : ℤ) → same_pid a a ≡ true
unfolding same_pid
same_pid_refl (pos m) = ==-refl m
same_pid_refl (negsuc m) = ==-refl m

compare_pid-match :
    (recorded : Option ℤ) (pid : ℤ) → compare_pid recorded pid ≡ match → recorded ≡ some pid
unfolding compare_pid
compare_pid-match none pid h = cc
compare_pid-match (some r) pid h = elim (Bool-cases (same_pid r pid)) [
  | inl same ↦ ap some (same_pid→eq r pid same)
  | inr differs ↦ ground arith
]

match-compare_pid : (pid : ℤ) → compare_pid (some pid) pid ≡ match
unfolding compare_pid
match-compare_pid pid = ground (arith, same_pid_refl pid)

-- The identity of a session is confirmed exactly when the process exists, and the lock file is one,
-- can be opened, is locked by another, and records the process id.
pub verify_session-match :
    (reply : KillReply) (lock : LockView) (pid : ℤ)
    → (verify_session reply lock pid ≡ match) ↔ (
        (process_exists reply ≡ true)
        × (lock.is_file ≡ true)
        × (lock.opens ≡ true)
        × (lock.held ≡ true)
        × (recorded_pid lock.content ≡ some pid))
unfolding verify_session check_lock
verify_session-match reply lock pid = (
  λ h.
      let held : (process_exists reply ≡ true)
          × (lock.is_file ≡ true)
          × (lock.opens ≡ true)
          × (lock.held ≡ true)
          × (compare_pid (recorded_pid lock.content) pid ≡ match) =
        ground arith in
      (held.0, held.1, held.2, held.3, compare_pid-match (recorded_pid lock.content) pid held.4),
  λ (alive, file, opens, held, same).
      let agrees : compare_pid (recorded_pid lock.content) pid ≡ match =
        rw (same) (match-compare_pid pid) in
      ground (arith, alive, file, opens, held, agrees),
)

digits-ascii : (s : Text) → All IsDigit s → all (λ c. ltb c 128) (s ++ (10 ∷ [])) ≡ true
digits-ascii [] h = refl
digits-ascii (c ∷ s) h = ground (arith, digits-ascii s h.1)

-- A recorded process id is read back.
pub recorded_pid-pid_line : (n : ℕ) → n < 10000000 → recorded_pid (some (pid_line n)) ≡ some (pos n)
unfolding recorded_pid int_of_bytes pid_line
recorded_pid-pid_line n h =
    ground (arith, digits-ascii (show_nat n) (show_nat-digits n), int_of-line n h)
