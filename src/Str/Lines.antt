-- ===== src/Str/Lines.antt =====
-- Stripping a line of digits.
use garuda_tunnel.Base.{
  ℕ, ◌<◌, ◌≡◌, refl, subst, Bool, true, false, [], ◌∷◌, ◌++◌, Text, nat_eq, ℕ_discrete, arith, some,
  pos, All,
}
use garuda_tunnel.Str.{drop_blank, drop_blank_end, strip_by, strip, is_space}
use garuda_tunnel.Str.Number.{int_of, show_nat, is_int_space, signed}
use garuda_tunnel.Str.Digits.{
  IsDigit, is_int_space-digit, drop_blank-digits, drop_blank_end-digits, show_nat-digits,
  int_of-show_nat,
}

module _ (blank : ℕ → Bool) (full : (c : ℕ) → IsDigit c → blank c ≡ false)
    (ends : blank 10 ≡ true) where
  drop_blank_end-line : (s : Text) → All IsDigit s → drop_blank_end blank (s ++ (10 ∷ [])) ≡ s
  unfolding drop_blank_end
  drop_blank_end-line [] h = ground (arith, ends)
  drop_blank_end-line (c ∷ s) h = ground (arith, full c h.0, drop_blank_end-line s h.1)

  strip_by-line : (s : Text) → All IsDigit s → strip_by blank (s ++ (10 ∷ [])) ≡ s
  unfolding strip_by drop_blank drop_blank_end
  strip_by-line [] h = ground (arith, ends)
  strip_by-line (c ∷ s) h = ground (arith, full c h.0, drop_blank_end-line (c ∷ s) h)

is_space-digit : (c : ℕ) → IsDigit c → is_space c ≡ false
unfolding is_space
is_space-digit c h = ground arith

newline-is_int_space : is_int_space 10 ≡ true
unfolding is_int_space nat_eq
newline-is_int_space = refl

newline-is_space : is_space 10 ≡ true
unfolding is_space nat_eq ℕ_discrete
newline-is_space = refl

strip_by-digits : (s : Text) → All IsDigit s → strip_by is_int_space s ≡ s
unfolding strip_by
strip_by-digits s h = rw (drop_blank-digits s h) (drop_blank_end-digits s h)

-- `int(f"{n}\n")` and `int(f"{n}\n".strip())`
pub int_of-line : (n : ℕ) → n < 10000000 → int_of (show_nat n ++ (10 ∷ [])) ≡ some (pos n)
unfolding int_of
int_of-line n h =
    rw
      (strip_by-line is_int_space is_int_space-digit newline-is_int_space (show_nat n)
        (show_nat-digits n))
      (subst (λ s. signed s ≡ some (pos n)) (strip_by-digits (show_nat n) (show_nat-digits n))
        (int_of-show_nat n h))

pub int_of-strip_line :
    (n : ℕ) → n < 10000000 → int_of (strip (show_nat n ++ (10 ∷ []))) ≡ some (pos n)
unfolding strip
int_of-strip_line n h =
    rw (strip_by-line is_space is_space-digit newline-is_space (show_nat n) (show_nat-digits n))
      (int_of-show_nat n h)
