-- ===== src/Session/Names.antt =====
-- The names of the files that tunstrap/manager.py materialises through tunstrap/session.py.
use garuda_tunnel.Base.{
  ℕ, ◌≡◌, ◌≢◌, refl, inl, inr, true, false, ◌||◌, [], ◌∷◌, ◌++◌, Text, text, text_eq, nat_eq,
  ℕ_discrete, ◌==◌, contains, is_empty, arith, All,
}
use garuda_tunnel.Schemas.Keys.{is_key_start, is_key_char}
use garuda_tunnel.Schemas.Keys.Accepted.{IsKeyChar, IsIdentifier, IsAccepted}
use garuda_tunnel.Schemas.Node.Targets.{IsKey}
use garuda_tunnel.Session.{is_safe_name}

contains-++ : (xs ys : Text) (x : ℕ) → contains (xs ++ ys) x ≡ contains xs x || contains ys x
contains-++ [] ys x = refl
contains-++ (y ∷ xs) ys x = ground (arith, contains-++ xs ys x)

-- A character that no key has.
module _ (c : ℕ) (rest : is_key_char c ≡ false) (first : is_key_start c ≡ false)
    (not_newline : c ≢ 10) where
  lacks-keys : (s : Text) → All IsKeyChar s → contains s c ≡ false
  lacks-keys [] h = refl
  lacks-keys (d ∷ s) (h, hs) = ground (arith, lacks-keys s hs, h, rest)

  lacks-identifier : (s : Text) → IsIdentifier s → contains s c ≡ false
  lacks-identifier [] h = absurd h
  lacks-identifier (d ∷ s) (h, hs) = ground (arith, lacks-keys s hs, h, first)

  lacks-accepted : (s : Text) → IsAccepted s → contains s c ≡ false
  lacks-accepted s (inl h) = lacks-identifier s h
  lacks-accepted s (inr (word, made, h)) =
      rw (made, contains-++ word (10 ∷ []) c, lacks-identifier word h) (ground (arith, not_newline))

-- `f"{name}-{kname}"`
abbrev pub file_name : Text → Text → Text
file_name name kname = name ++ (text "-" ++ kname)

lacks-file_name :
    (c : ℕ)
    → is_key_char c ≡ false
    → is_key_start c ≡ false
    → c ≢ 10
    → c ≢ b'-'
    → (name kname : Text) → IsKey name
    → IsKey kname
    → contains (file_name name kname) c ≡ false
unfolding text
lacks-file_name c rest first not_newline not_dash name kname h k =
    rw (contains-++ name (text "-" ++ kname) c, lacks-accepted c rest first not_newline name h.1)
      (ground (arith, lacks-accepted c rest first not_newline kname k.1))

differs : (s t : Text) (c : ℕ) → contains s c ≡ false → contains t c ≡ true → s ≢ t
differs s t c h k e = cc

not-== : (s t : Text) → s ≢ t → (s == t) ≡ false
not-== s t h = ground arith

is_empty-middle : (s : Text) (c : ℕ) (t : Text) → is_empty (s ++ (c ∷ t)) ≡ false
is_empty-middle [] c t = refl
is_empty-middle (d ∷ s) c t = refl

-- The names that are given to `materialize` for checked names of a node and of a target are accepted
-- as safe, and none is that of the process id.
pub is_safe_name-file_name :
    (name kname : Text)
    → IsKey name
    → IsKey kname
    → (is_safe_name (file_name name kname) ≡ true) × (file_name name kname ≢ text "daemon.pid")
unfolding is_safe_name text is_key_char is_key_start nat_eq ℕ_discrete
is_safe_name-file_name name kname h k =
    let slash =
      lacks-file_name b'/' refl refl (λ e. ground arith) (λ e. ground arith) name kname h k in
    let back =
      lacks-file_name b'\\' refl refl (λ e. ground arith) (λ e. ground arith) name kname h k in
    let dot =
      lacks-file_name b'.' refl refl (λ e. ground arith) (λ e. ground arith) name kname h k in
    let not_it : (t : Text) → contains t b'.' ≡ true → file_name name kname ≢ t =
      λ t. differs (file_name name kname) t b'.' dot in
    (
      ground (
        arith,
        slash,
        back,
        not-== (file_name name kname) (text ".") (not_it (text ".") refl),
        not-== (file_name name kname) (text "..") (not_it (text "..") refl),
        is_empty-middle name b'-' kname,
      ),
      not_it (text "daemon.pid") refl,
    )
