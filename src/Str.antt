-- ===== src/Str.antt =====
-- The methods of Python's `str` and the `int` constructor, as far as the program uses them, on texts
-- as lists of code points.
pub mod Number
pub mod Laws
pub mod Digits
pub mod Lines
use garuda_tunnel.Base.{
  ℕ, zero, suc, Bool, true, false, ◌&&◌, ◌||◌, List, [], ◌∷◌, ◌++◌, Option, none, some, Text, Eq,
  nat_eq, ◌==◌, if◌then◌else◌, contains, is_empty,
}

-- `s.startswith(p)`
unfoldable pub starts_with : Text → Text → Bool
starts_with s [] = true
starts_with [] (c ∷ p) = false
starts_with (d ∷ s) (c ∷ p) = d == c && starts_with s p

-- `s[1:]`
abbrev pub skip_first : Text → Text
skip_first [] = []
skip_first (c ∷ s) = s

-- `s.partition(c)` for one character, as the parts around its first occurrence; `none` stands for
-- an empty separator.
unfoldable pub cut_first : ℕ → Text → Option (Text × Text)
cut_first c [] = none
cut_first c (d ∷ s) =
    let rest = cut_first c s in
    if d == c
    then some ([], s)
    else elim rest [ none ↦ none | some (before, after) ↦ some (d ∷ before, after) ]

-- `s.rpartition(c)` and `s.rsplit(c, 1)`: the parts around the last occurrence.
unfoldable pub cut_last : ℕ → Text → Option (Text × Text)
cut_last c [] = none
cut_last c (d ∷ s) = elim (cut_last c s) [
  | some (before, after) ↦ some (d ∷ before, after)
  | none ↦ if d == c then some ([], s) else none
]

-- The parts around the first occurrence of the two characters `c d`: `s[:i]` and `s[i + 2:]` for
-- `i = s.find(c + d)`.
unfoldable pub cut_pair : ℕ → ℕ → Text → Option (Text × Text)
cut_pair c d [] = none
cut_pair c d (x ∷ []) = none
cut_pair c d (x ∷ y ∷ s) =
    let rest = cut_pair c d (y ∷ s) in
    if x == c && y == d
    then some ([], s)
    else elim rest [ none ↦ none | some (before, after) ↦ some (x ∷ before, after) ]

-- `s.count(c)`
unfoldable pub count_char : ℕ → Text → ℕ
count_char c [] = 0
count_char c (d ∷ s) = let rest = count_char c s in if d == c then suc rest else rest

-- The code points of which `str.isspace` holds.
abbrev pub unicode_spaces : List ℕ
unicode_spaces =
    9 ∷ 10 ∷ 11 ∷ 12 ∷ 13 ∷ 28 ∷ 29 ∷ 30 ∷ 31 ∷ 32 ∷ 133 ∷ 160 ∷ 5760 ∷ 8192 ∷ 8193 ∷ 8194 ∷ 8195
    ∷ 8196 ∷ 8197 ∷ 8198 ∷ 8199 ∷ 8200 ∷ 8201 ∷ 8202 ∷ 8232 ∷ 8233 ∷ 8239 ∷ 8287 ∷ 12288 ∷ []

unfoldable pub is_space : ℕ → Bool
is_space c = contains unicode_spaces c

-- `s.lstrip()` over a test of what is blank
unfoldable pub drop_blank : (ℕ → Bool) → Text → Text
drop_blank blank [] = []
drop_blank blank (c ∷ s) = let rest = drop_blank blank s in if blank c then rest else c ∷ s

-- `s.rstrip()` over a test of what is blank
unfoldable pub drop_blank_end : (ℕ → Bool) → Text → Text
drop_blank_end blank [] = []
drop_blank_end blank (c ∷ s) =
    let rest = drop_blank_end blank s in if is_empty rest && blank c then [] else c ∷ rest

unfoldable pub strip_by : (ℕ → Bool) → Text → Text
unfolding drop_blank drop_blank_end
strip_by blank s = drop_blank_end blank (drop_blank blank s)

-- `s.strip()`
unfoldable pub strip : Text → Text
unfolding strip_by is_space
strip s = strip_by is_space s

-- `sep.join(parts)` for one character
unfoldable pub join : ℕ → List Text → Text
join c [] = []
join c (s ∷ []) = s
join c (s ∷ t ∷ rest) = s ++ (c ∷ join c (t ∷ rest))
