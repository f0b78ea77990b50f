-- ===== src/Schemas/Keys/Accepted.antt =====
-- Which keys `_validate_identifier_key` of tunstrap/schemas.py accepts.
use garuda_tunnel.Base.{
  ℕ, ◌≤◌, ◌≡◌, refl, ap, ◌↔◌, ◌⊎◌, inl, inr, Bool, true, false, not, [], ◌∷◌, ◌++◌, Text, nat_eq,
  ltb, length, ok, arith, All, Bool-cases, &&-left, &&-right, ◌>>◌, raise_if,
}
use garuda_tunnel.Schemas.Keys.{
  Kind, SchemaError, is_key_start, is_key_char, matches_rest, matches_key, validate_identifier_key,
}

abbrev pub IsKeyChar : ℕ → Type 0
IsKeyChar c = is_key_char c ≡ true

-- A nonempty run of letters, digits, underscores and dashes that begins as an identifier does.
abbrev pub IsIdentifier : Text → Type 0
IsIdentifier [] = ⊥
IsIdentifier (c ∷ s) = (is_key_start c ≡ true) × All IsKeyChar s

-- The texts that the pattern matches: identifiers, and identifiers with a newline behind them.
abbrev pub IsAccepted : Text → Type 0
IsAccepted name =
    IsIdentifier name ⊎ ((word : Text) × (name ≡ word ++ (10 ∷ [])) × IsIdentifier word)

RestAccepted : Text → Type 0
RestAccepted s = All IsKeyChar s ⊎ ((t : Text) × (s ≡ t ++ (10 ∷ [])) × All IsKeyChar t)

matches_rest→ : (s : Text) → matches_rest s ≡ true → RestAccepted s
unfolding matches_rest RestAccepted
matches_rest→ [] h = inl tt
matches_rest→ (c ∷ s) h = elim (Bool-cases (is_key_char c)) [
  | inl key ↦ elim (matches_rest→ s (ground arith)) [
    | inl rest ↦ inl (key, rest)
    | inr (t, p, rest) ↦ inr (c ∷ t, ap (λ x. c ∷ x) p, (key, rest))
  ]
  | inr other ↦ inr ([], ground arith, tt)
]

matches_rest-keys : (s : Text) → All IsKeyChar s → matches_rest s ≡ true
unfolding matches_rest
matches_rest-keys [] h = refl
matches_rest-keys (c ∷ s) h = rw h.0 (matches_rest-keys s h.1)

matches_rest-newline : (s : Text) → All IsKeyChar s → matches_rest (s ++ (10 ∷ [])) ≡ true
unfolding matches_rest
matches_rest-newline [] h = ground arith
matches_rest-newline (c ∷ s) h = rw h.0 (matches_rest-newline s h.1)

matches_key-identifier : (name : Text) → IsIdentifier name → matches_key name ≡ true
unfolding matches_key
matches_key-identifier [] h = absurd h
matches_key-identifier (c ∷ s) h = rw h.0 (matches_rest-keys s h.1)

-- A newline at the end of an identifier passes.
pub matches_key-newline : (word : Text) → IsIdentifier word → matches_key (word ++ (10 ∷ [])) ≡ true
unfolding matches_key
matches_key-newline [] h = absurd h
matches_key-newline (c ∷ s) h = rw h.0 (matches_rest-newline s h.1)

matches_key→ : (name : Text) → matches_key name ≡ true → IsAccepted name
unfolding matches_key RestAccepted
matches_key→ [] h = cc
matches_key→ (c ∷ s) h = elim (matches_rest→ s (&&-right _ _ h)) [
  | inl rest ↦ inl (&&-left _ _ h, rest)
  | inr (t, p, rest) ↦ inr (c ∷ t, ap (λ x. c ∷ x) p, (&&-left _ _ h, rest))
]

pub matches_key-IsAccepted : (name : Text) → (matches_key name ≡ true) ↔ IsAccepted name
matches_key-IsAccepted name = (
  matches_key→ name,
  elim [
    | inl key ↦ matches_key-identifier name key
    | inr (word, p, key) ↦ rw p (matches_key-newline word key)
  ],
)

ltb-false : (n : ℕ) → ltb 64 n ≡ false → n ≤ 64
ltb-false n h = ground arith

ltb-le : (n : ℕ) → n ≤ 64 → ltb 64 n ≡ false
ltb-le n h = ground arith

checks→ :
    (long form : Bool) (e f : SchemaError)
    → (raise_if long e >> raise_if (not form) f) ≡ ok tt
    → (long ≡ false) × (form ≡ true)
checks→ long form e f h = ground arith

-- A key passes exactly when it has at most 64 characters and is an identifier, or an identifier
-- with one newline behind it.
pub validate_identifier_key-IsAccepted :
    (kind : Kind) (name : Text)
    → (validate_identifier_key kind name ≡ ok tt) ↔ ((length name ≤ 64) × IsAccepted name)
unfolding validate_identifier_key
validate_identifier_key-IsAccepted kind name = (
  λ h.
      let c = checks→ (ltb 64 (length name)) (matches_key name) _ _ h in
      (ltb-false (length name) c.0, matches_key→ name c.1),
  λ (short, key). rw (ltb-le (length name) short, (matches_key-IsAccepted name).1 key),
)
