-- ===== src/Str/Number.antt =====
-- `int(s)` of Python: blanks around it are dropped, a sign may lead, single underscores may stand
-- between digits, any decimal digit of Unicode counts, and over 4300 digits are refused. `str(n)`
-- of a number that is not negative.
use Prim.Native.Nat.{◌/◌, ◌%◌}
use garuda_tunnel.Base.{
  ℕ, zero, suc, ◌+◌, ◌-◌, ◌*◌, Bool, true, false, ◌&&◌, ◌||◌, List, [], ◌∷◌, Option, none, some,
  Text, nat_eq, ◌==◌, if◌then◌else◌, leb, ltb, ℤ, pos, neg,
}
use garuda_tunnel.Str.{is_space, strip_by}

-- The zeros of the runs of ten decimal digits that Unicode has.
abbrev pub decimal_zeros : List ℕ
decimal_zeros =
    48 ∷ 1632 ∷ 1776 ∷ 1984 ∷ 2406 ∷ 2534 ∷ 2662 ∷ 2790 ∷ 2918 ∷ 3046 ∷ 3174 ∷ 3302 ∷ 3430 ∷ 3558
    ∷ 3664 ∷ 3792 ∷ 3872 ∷ 4160 ∷ 4240 ∷ 6112 ∷ 6160 ∷ 6470 ∷ 6608 ∷ 6784 ∷ 6800 ∷ 6992 ∷ 7088
    ∷ 7232 ∷ 7248 ∷ 42528 ∷ 43216 ∷ 43264 ∷ 43472 ∷ 43504 ∷ 43600 ∷ 44016 ∷ 65296 ∷ 66720 ∷ 68912
    ∷ 69734 ∷ 69872 ∷ 69942 ∷ 70096 ∷ 70384 ∷ 70736 ∷ 70864 ∷ 71248 ∷ 71360 ∷ 71472 ∷ 71904 ∷ 72016
    ∷ 72784 ∷ 73040 ∷ 73120 ∷ 92768 ∷ 92864 ∷ 93008 ∷ 120782 ∷ 120792 ∷ 120802 ∷ 120812 ∷ 120822
    ∷ 123200 ∷ 123632 ∷ 125264 ∷ 130032 ∷ []

unfoldable pub digit_from : List ℕ → ℕ → Option ℕ
digit_from [] c = none
digit_from (z ∷ zs) c = if leb z c && ltb c (z + 10) then some (c - z) else digit_from zs c

unfoldable pub digit_value : ℕ → Option ℕ
unfolding digit_from
digit_value c = digit_from decimal_zeros c

-- The blanks that `int` drops: those of C, and those of Unicode outside ASCII.
unfoldable pub is_int_space : ℕ → Bool
unfolding is_space
is_int_space c = if ltb c 128 then (leb 9 c && leb c 13) || c == 32 else is_space c

-- The digits, from the left; an underscore must stand between two digits.
unfoldable pub digits_value : ℕ → ℕ → Bool → Text → Option (ℕ × ℕ)
digits_value value count after_digit [] = if after_digit then some (value, count) else none
digits_value value count after_digit (c ∷ s) = elim (digit_value c) [
  | some d ↦ digits_value (value * 10 + d) (suc count) true s
  | none ↦
      let rest = digits_value value count false s in if c == b'_' && after_digit then rest else none
]

unfoldable pub max_int_digits : ℕ
max_int_digits = 4300

unfoldable pub unsigned : Text → Option ℕ
unsigned s = elim (digits_value 0 0 false s) [
  | none ↦ none
  | some (value, count) ↦ if ltb max_int_digits count then none else some value
]

unfoldable pub signed : Text → Option ℤ
signed [] = none
signed (c ∷ s) =
    if c == b'-'
    then elim (unsigned s) [ none ↦ none | some n ↦ some (neg n) ]
    else if c == b'+'
    then elim (unsigned s) [ none ↦ none | some n ↦ some (pos n) ]
    else elim (unsigned (c ∷ s)) [ none ↦ none | some n ↦ some (pos n) ]

-- `int(s)`; `none` is the `ValueError`.
unfoldable pub int_of : Text → Option ℤ
int_of s = signed (strip_by is_int_space s)

-- The decimal digits of a number with at most `fuel` of them, before `rest`.
unfoldable pub show_fuel : ℕ → ℕ → Text → Text
show_fuel zero n rest = rest
show_fuel (suc fuel) n rest =
    let more = show_fuel fuel (n / 10) ((48 + n % 10) ∷ rest) in
    if ltb n 10 then (48 + n) ∷ rest else more

-- `str(n)`; `n + 1` digits are more than enough.
unfoldable pub show_nat : ℕ → Text
unfolding show_fuel
show_nat n = show_fuel (suc n) n []
