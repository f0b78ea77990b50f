-- ===== src/Str/Laws.antt =====
-- The cuts of a text.
use garuda_tunnel.Base.{
  ℕ, ◌+◌, ◌≡◌, refl, false, [], ◌∷◌, ◌++◌, none, some, Text, nat_eq, contains, arith,
}
use garuda_tunnel.Str.{cut_first, cut_last, cut_pair, count_char}

pub cut_first-append :
    (c : ℕ) (a b : Text) → contains a c ≡ false → cut_first c (a ++ (c ∷ b)) ≡ some (a, b)
unfolding cut_first
cut_first-append c [] b h = ground arith
cut_first-append c (d ∷ a) b h = ground (arith, cut_first-append c a b)

pub cut_first-none : (c : ℕ) (s : Text) → contains s c ≡ false → cut_first c s ≡ none
unfolding cut_first
cut_first-none c [] h = refl
cut_first-none c (d ∷ s) h = ground (arith, cut_first-none c s)

pub cut_last-none : (c : ℕ) (s : Text) → contains s c ≡ false → cut_last c s ≡ none
unfolding cut_last
cut_last-none c [] h = refl
cut_last-none c (d ∷ s) h = ground (arith, cut_last-none c s)

pub cut_last-none-inv : (c : ℕ) (s : Text) → cut_last c s ≡ none → contains s c ≡ false
unfolding cut_last
cut_last-none-inv c [] h = refl
cut_last-none-inv c (d ∷ s) h = ground (arith, cut_last-none-inv c s)

pub cut_last-append :
    (c : ℕ) (a b : Text) → contains b c ≡ false → cut_last c (a ++ (c ∷ b)) ≡ some (a, b)
unfolding cut_last
cut_last-append c [] b h = ground (arith, cut_last-none c b h)
cut_last-append c (d ∷ a) b h = rw (cut_last-append c a b h)

-- The first part of a cut has no separator in it.
pub cut_first-inv :
    (c : ℕ) (s : Text) {a b : Text}
    → cut_first c s ≡ some (a, b)
    → (s ≡ a ++ (c ∷ b)) × (contains a c ≡ false)
unfolding cut_first
cut_first-inv c [] h = cc
cut_first-inv c (d ∷ s) {a = []} h = ground arith
cut_first-inv c (d ∷ s) {a = x ∷ a} {b} h = ground (arith, cut_first-inv c s {a = a} {b = b})

-- The second part of a cut at the last separator has none.
pub cut_last-inv :
    (c : ℕ) (s : Text) {a b : Text}
    → cut_last c s ≡ some (a, b)
    → (s ≡ a ++ (c ∷ b)) × (contains b c ≡ false)
unfolding cut_last
cut_last-inv c [] h = cc
cut_last-inv c (d ∷ s) {a = []} h = ground (arith, cut_last-none-inv c s)
cut_last-inv c (d ∷ s) {a = x ∷ a} {b} h = ground (arith, cut_last-inv c s {a = a} {b = b})

pub cut_pair-inv :
    (c e : ℕ) (s : Text) {a b : Text} → cut_pair c e s ≡ some (a, b) → s ≡ a ++ (c ∷ e ∷ b)
unfolding cut_pair
cut_pair-inv c e [] h = cc
cut_pair-inv c e (x ∷ []) h = cc
cut_pair-inv c e (x ∷ y ∷ s) {a = []} h = ground arith
cut_pair-inv c e (x ∷ y ∷ s) {a = z ∷ a} {b} h =
    ground (arith, cut_pair-inv c e (y ∷ s) {a = a} {b = b})

pub cut_pair-append :
    (c e : ℕ) (a b : Text) → contains a c ≡ false → cut_pair c e (a ++ (c ∷ e ∷ b)) ≡ some (a, b)
unfolding cut_pair
cut_pair-append c e [] b h = ground arith
cut_pair-append c e (x ∷ []) b h = ground (arith, cut_pair-append c e [] b refl)
cut_pair-append c e (x ∷ y ∷ a) b h = ground (arith, cut_pair-append c e (y ∷ a) b)

pub count_char-absent : (c : ℕ) (s : Text) → contains s c ≡ false → count_char c s ≡ 0
unfolding count_char
count_char-absent c [] h = refl
count_char-absent c (d ∷ s) h = ground (arith, count_char-absent c s)

pub count_char-append :
    (c : ℕ) (s t : Text) → count_char c (s ++ t) ≡ count_char c s + count_char c t
unfolding count_char
count_char-append c [] t = omega arith
count_char-append c (d ∷ s) t = ground (arith, count_char-append c s t)

-- One separator between two texts that have none.
pub count_char-once :
    (c : ℕ) (s t : Text)
    → contains s c ≡ false
    → contains t c ≡ false
    → count_char c (s ++ (c ∷ t)) ≡ 1
unfolding count_char
count_char-once c s t h k =
    rw (count_char-append c s (c ∷ t), count_char-absent c s h)
      (ground (arith, count_char-absent c t k))
