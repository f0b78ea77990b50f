-- ===== src/Schemas/Node/Named.antt =====
-- `_validate_fetch_files` and `_validate_kube_targets` of tunstrap/schemas.py.
use garuda_tunnel.Base.{
  ℕ, List, ◌≤◌, ◌≡◌, false, [], ◌∷◌, Option, none, some, Text, text_eq, ltb, length, is_empty,
  Result, ok, arith, All, >>=-eq-ok, raise_if-eq-ok,
}
use garuda_tunnel.Base.Dict.{Dict}
use garuda_tunnel.Schemas.Keys.{Kind, SchemaError, validate_identifier_key}
use garuda_tunnel.Schemas.Keys.Accepted.{validate_identifier_key-IsAccepted}
use garuda_tunnel.Schemas.Node.{build_values, check_names, validate_named, build_optional}
use garuda_tunnel.Schemas.Node.Targets.{IsKey}

-- The values of a dict that its model built, under names that were checked.
pub record IsNamed {ℓ} {A : Type ℓ} (P : A → Type 0) (d : Dict Text A) : Type 0 where
  pub not_empty : 1 ≤ length d
  pub few : length d ≤ 16
  pub names : All (λ e. IsKey e.0) d
  pub values : All (λ e. P e.1) d

abbrev pub IsOptional {ℓ} : {A : Type ℓ} → (A → Type 0) → Option (Dict Text A) → Type 0
IsOptional P none = Unit
IsOptional P (some d) = IsNamed P d

check_names-IsKey {ℓ} :
    {A : Type ℓ} (kind : Kind) (d : Dict Text A)
    → check_names kind d ≡ ok tt
    → All (λ e. IsKey e.0) d
unfolding check_names
check_names-IsKey kind [] h = tt
check_names-IsKey kind ((name, value) ∷ d) h =
    let (_, first, rest) = >>=-eq-ok (validate_identifier_key kind name) _ h in
    ((validate_identifier_key-IsAccepted kind name).0 first, check_names-IsKey kind d rest)

not_empty_lem {ℓ} : {A : Type ℓ} (d : List A) → is_empty d ≡ false → 1 ≤ length d
not_empty_lem [] h = cc
not_empty_lem (x ∷ d) h = omega arith

at_most_16 : (n : ℕ) → ltb 16 n ≡ false → n ≤ 16
at_most_16 n h = ground arith

validate_named_lem {ℓ} :
    {A : Type ℓ} (kind : Kind) (value : Dict Text A) (d : Option (Dict Text A))
    → validate_named kind (some value) ≡ ok d
    → (d ≡ some value) × (1 ≤ length value) × (length value ≤ 16) × All (λ e. IsKey e.0) value
unfolding validate_named
validate_named_lem kind value d h =
    let (full, h') = raise_if-eq-ok (is_empty value) _ _ h in
    let (few, h'') = raise_if-eq-ok (ltb 16 (length value)) _ _ h' in
    let (_, checked, same) = >>=-eq-ok (check_names kind value) _ h'' in
    (
      cc,
      not_empty_lem value full,
      at_most_16 (length value) few,
      check_names-IsKey kind value checked,
    )

module _ {A : Type 0} (P : A → Type 0) (build : A → Result SchemaError A) where
  build_values-All :
      ((a b : A) → build a ≡ ok b → P b)
      → (raws d : Dict Text A) → build_values build raws ≡ ok d
      → All (λ e. P e.1) d
  unfolding build_values
  build_values-All built [] d h = let same : [] ≡ d = cc in rw (← same) tt
  build_values-All built ((name, raw) ∷ raws) d h =
      let (value, first, h') = >>=-eq-ok (build raw) _ h in
      let (values, rest, h'') = >>=-eq-ok (build_values build raws) _ h' in
      let same : (name, value) ∷ values ≡ d = cc in
      rw (← same) (built raw value first, build_values-All built raws values rest)

  pub build_optional-IsOptional :
      ((a b : A) → build a ≡ ok b → P b)
      → (kind : Kind) (raws built d : Option (Dict Text A)) → build_optional build raws ≡ ok built
      → validate_named kind built ≡ ok d
      → IsOptional P d
  unfolding build_optional validate_named
  build_optional-IsOptional ok_P kind none built d h k = ground arith
  build_optional-IsOptional ok_P kind (some raws) built d h k =
      let (values, made, h') = >>=-eq-ok (build_values build raws) _ h in
      let same : some values ≡ built = cc in
      let named = validate_named_lem kind values d (rw (← same) at k) in
      rw named.0 (record {
        not_empty = named.1;
        few = named.2;
        names = named.3;
        values = build_values-All ok_P raws values made;
      })
