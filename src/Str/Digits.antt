-- ===== src/Str/Digits.antt =====
-- Printing numbers with `str` and reading them with `int`.
use Prim.Native.Nat.{◌/◌, ◌%◌}
use garuda_tunnel.Base.{
  ℕ, zero, suc, ◌+◌, ◌*◌, ◌≤◌, ◌<◌, ◌≡◌, refl, Bool, true, false, [], ◌∷◌, Option, none, some, Text,
  nat_eq, ltb, if◌then◌else◌, arith, ℤ, pos, All,
}
use garuda_tunnel.Str.{drop_blank, drop_blank_end, strip_by}
use garuda_tunnel.Str.Number.{
  digit_value, digits_value, unsigned, signed, int_of, show_fuel, show_nat, is_int_space,
  max_int_digits,
}

-- How many digits `show_fuel` prints.
digit_count : ℕ → ℕ → ℕ
digit_count zero n = 0
digit_count (suc fuel) n =
    let more = suc (digit_count fuel (n / 10)) in if ltb n 10 then 1 else more

digit_value-digit : (d : ℕ) → d < 10 → digit_value (48 + d) ≡ some d
unfolding digit_value
digit_value-digit d h = ground arith

digits_value-digit :
    (v k d : ℕ) (after : Bool) (s : Text)
    → d < 10
    → digits_value v k after ((48 + d) ∷ s) ≡ digits_value (v * 10 + d) (suc k) true s
unfolding digits_value
digits_value-digit v k d after s h = rw (digit_value-digit d h, digits_value)

digits_value-show :
    (fuel n : ℕ) (rest : Text)
    → n < fuel
    → digits_value 0 0 false (show_fuel fuel n rest) ≡ digits_value n (digit_count fuel n) true rest
unfolding show_fuel digit_count
digits_value-show zero n rest h = absurd (omega arith)
digits_value-show (suc fuel) n rest h = ground (
  arith,
  digits_value-digit 0 0 n false rest,
  digits_value-show fuel (n / 10) ((48 + n % 10) ∷ rest),
  digits_value-digit (n / 10) (digit_count fuel (n / 10)) (n % 10) true rest,
)

digit_count-le : (fuel n k : ℕ) → digit_count fuel (n / 10) ≤ k → digit_count (suc fuel) n ≤ suc k
unfolding digit_count
digit_count-le fuel n k h = ground arith

digit_count-small : (fuel n : ℕ) → n < 10 → digit_count fuel n ≤ 1
unfolding digit_count
digit_count-small zero n h = omega arith
digit_count-small (suc fuel) n h = ground arith

digit_count-times_ten :
    (bound k : ℕ)
    → ((fuel n : ℕ) → n < bound → digit_count fuel n ≤ k)
    → (fuel n : ℕ) → n < 10 * bound
    → digit_count fuel n ≤ suc k
unfolding digit_count
digit_count-times_ten bound k below zero n h = omega arith
digit_count-times_ten bound k below (suc fuel) n h =
    digit_count-le fuel n k (below fuel (n / 10) (omega arith))

-- A port or a process id has at most seven digits.
digit_count-pid : (fuel n : ℕ) → n < 10000000 → digit_count fuel n ≤ 7
digit_count-pid = digit_count-times_ten 1000000 6 (
    digit_count-times_ten 100000 5 (
      digit_count-times_ten 10000 4 (
        digit_count-times_ten 1000 3
          (digit_count-times_ten 100 2 (digit_count-times_ten 10 1 digit_count-small)))))

abbrev pub IsDigit : ℕ → Type 0
IsDigit c = (48 ≤ c) × (c < 58)

show_fuel-digits :
    (fuel n : ℕ) (rest : Text) → All IsDigit rest → All IsDigit (show_fuel fuel n rest)
unfolding show_fuel
show_fuel-digits zero n rest h = h
show_fuel-digits (suc fuel) n rest h =
    ground (arith, show_fuel-digits fuel (n / 10) ((48 + n % 10) ∷ rest))

pub show_nat-digits : (n : ℕ) → All IsDigit (show_nat n)
unfolding show_nat
show_nat-digits n = show_fuel-digits (suc n) n [] tt

pub is_int_space-digit : (c : ℕ) → IsDigit c → is_int_space c ≡ false
unfolding is_int_space
is_int_space-digit c h = ground arith

pub drop_blank-digits : (s : Text) → All IsDigit s → drop_blank is_int_space s ≡ s
unfolding drop_blank
drop_blank-digits [] h = refl
drop_blank-digits (c ∷ s) h = rw (is_int_space-digit c h.0)

pub drop_blank_end-digits : (s : Text) → All IsDigit s → drop_blank_end is_int_space s ≡ s
unfolding drop_blank_end
drop_blank_end-digits [] h = refl
drop_blank_end-digits (c ∷ s) h =
    ground (arith, is_int_space-digit c h.0, drop_blank_end-digits s h.1)

int_of-digits :
    (s : Text)
    → All IsDigit s
    → int_of s ≡ elim (unsigned s) as (λ _. Option ℤ) [ none ↦ none | some n ↦ some (pos n) ]
unfolding int_of signed strip_by
int_of-digits [] h = unfold unsigned digits_value in refl
int_of-digits (c ∷ s) h =
    rw (drop_blank-digits (c ∷ s) h, drop_blank_end-digits (c ∷ s) h) (ground arith)

-- `int(str(n)) == n` for the numbers of up to seven digits, the ports and process ids among them.
pub int_of-show_nat : (n : ℕ) → n < 10000000 → int_of (show_nat n) ≡ some (pos n)
unfolding unsigned show_nat digits_value max_int_digits
int_of-show_nat n h =
    rw
      (int_of-digits (show_nat n) (show_nat-digits n), digits_value-show (suc n) n [] (omega arith))
      (ground (arith, digit_count-pid (suc n) n h))
