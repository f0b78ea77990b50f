-- ===== src/CliInput/NamedFlags.antt =====
-- What `parse_named` of tunstrap/cli_input.py accepts.
use garuda_tunnel.Base.{
  ◌≡◌, refl, inl, inr, sym, ap, ap₂, ◌∙◌, ◌≢◌, ◌↔◌, false, List, [], ◌∷◌, ◌++◌, append-nil,
  append_assoc, Text, text_eq, nat_eq, is_empty, contains, ok, arith, Option-cases, All, >>=-eq-ok,
}
use garuda_tunnel.Base.Dict.{
  Dict, insert, has_key, insert_new, NodupKeys, insert-NodupKeys, has_key-NodupKeys,
}
use garuda_tunnel.Str.{cut_first}
use garuda_tunnel.Str.Laws.{cut_first-inv, cut_first-append}
use garuda_tunnel.CliInput.{Label, parse_item, parse_named_from, parse_named}

-- A name without `=`, and a value, neither empty.
abbrev pub IsFlag : Text × Text → Type 0
IsFlag (name, value) = (name ≢ []) × (contains name b'=' ≡ false) × (value ≢ [])

abbrev pub flag : Text × Text → Text
flag (name, value) = name ++ (b'=' ∷ value)

abbrev pub flags : Dict Text Text → List Text
flags [] = []
flags (e ∷ d) = flag e ∷ flags d

parse_item_lem :
    (label : Label) (item : Text) (out : Dict Text Text) (entry : Text × Text)
    → parse_item label item out ≡ ok entry
    → (item ≡ flag entry) × IsFlag entry × (has_key entry.0 out ≡ false)
unfolding parse_item
parse_item_lem label item out (name, value) h = elim (Option-cases (cut_first b'=' item)) [
  | inl fails ↦ ground arith
  | inr ((n, v), cut) ↦
      let (joined, first) = cut_first-inv b'=' item cut in
      let facts : (n ≡ name)
          × (v ≡ value)
          × (is_empty n ≡ false)
          × (is_empty v ≡ false)
          × (has_key n out ≡ false) =
        ground arith in
      (
        rw (← facts.0, ← facts.1) joined,
        ((λ e. ground arith), rw facts.0 at first, (λ e. ground arith)),
        rw (← facts.0) facts.4,
      )
]

parse_item-flag :
    (label : Label) (entry : Text × Text) (out : Dict Text Text)
    → IsFlag entry
    → has_key entry.0 out ≡ false
    → parse_item label (flag entry) out ≡ ok entry
unfolding parse_item
parse_item-flag label ([], value) out f h = absurd (f.0 refl)
parse_item-flag label (c ∷ name, []) out f h = absurd (f.2 refl)
parse_item-flag label (c ∷ name, x ∷ value) out f h =
    ground (arith, cut_first-append b'=' (c ∷ name) (x ∷ value) f.1)

parse_named_from_lem :
    (label : Label) (items : List Text) (out d : Dict Text Text)
    → NodupKeys out
    → parse_named_from label items out ≡ ok d
    → (new : Dict Text Text) × (d ≡ out ++ new) × (items ≡ flags new) × NodupKeys d × All IsFlag new
unfolding parse_named_from
parse_named_from_lem label [] out d u h =
    let same : out ≡ d = cc in ([], sym same ∙ sym (append-nil out), refl, rw (← same) u, tt)
parse_named_from_lem label (item ∷ items) out d u h =
    let (entry, parsed, rest) = >>=-eq-ok (parse_item label item out) _ h in
    let (written, valid, fresh) = parse_item_lem label item out entry parsed in
    let (new, all, others, differ, flags_valid) =
      parse_named_from_lem label items (insert entry.0 entry.1 out) d
        (insert-NodupKeys entry.0 entry.1 out u) rest in
    (
      entry ∷ new,
      all
          ∙ ap (λ o. o ++ new) (insert_new entry.0 entry.1 out fresh)
          ∙ append_assoc out (entry ∷ []) new,
      ap₂ (λ (x : Text) (xs : List Text). x ∷ xs) written others,
      differ,
      (valid, flags_valid),
    )

parse_named_from-flags :
    (label : Label) (d out : Dict Text Text)
    → All IsFlag d
    → NodupKeys (out ++ d)
    → parse_named_from label (flags d) out ≡ ok (out ++ d)
unfolding parse_named_from
parse_named_from-flags label [] out f u = ap ok (sym (append-nil out))
parse_named_from-flags label ((name, value) ∷ d) out f u =
    let fresh = has_key-NodupKeys out name value d u in
    let joined = append_assoc out ((name, value) ∷ []) d in
    rw (parse_item-flag label (name, value) out f.0 fresh, insert_new name value out fresh)
      (parse_named_from-flags label d (out ++ ((name, value) ∷ [])) f.1 (rw joined u)
        ∙ ap ok joined)

-- The flags parse to a dict exactly when they are its entries, written `NAME=VALUE` in order, with
-- differing names; no name has a `=` or is empty, and no value is empty.
pub parse_named-flags :
    (label : Label) (items : List Text) (d : Dict Text Text)
    → (parse_named items label ≡ ok d) ↔ ((items ≡ flags d) × NodupKeys d × All IsFlag d)
unfolding parse_named
parse_named-flags label items d = (
  λ h.
      let (new, all, written, differ, valid) = parse_named_from_lem label items [] d tt h in
      (rw all written, differ, rw all valid),
  λ (written, differ, valid). rw written (parse_named_from-flags label d [] valid differ),
)
