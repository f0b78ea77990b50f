-- ===== src/Base/Dict.antt =====
-- Dicts in insertion order.
use garuda_tunnel.Base.Tests.{if◌then◌else◌, Bool-cases}
use garuda_tunnel.Base.Equality.{Eq, ◌==◌}
use mathlib.Core.Path.{◌≡◌, refl}
use mathlib.Core.Logic.{◌≢◌, inl, inr}
use mathlib.Core.Bool.{Bool, true, false}
use mathlib.Core.Option.{Option, none, some}
use mathlib.Core.List.{List, [], ◌∷◌, ◌++◌}
use native.Mathlib.Omega.{arith}

abbrev pub Dict {ℓ κ} : Type ℓ → Type κ → Type (ℓ ⊔ κ)
Dict K V = List (K × V)

abbrev pub keys {ℓ κ} : {K : Type ℓ} {V : Type κ} → Dict K V → List K
keys [] = []
keys ((k, v) ∷ d) = k ∷ keys d

abbrev pub values {ℓ κ} : {K : Type ℓ} {V : Type κ} → Dict K V → List V
values [] = []
values ((k, v) ∷ d) = v ∷ values d

-- A dict comprehension over the items, `{k: f(v) for k, v in d.items()}`.
abbrev pub map_values {ℓ κ μ} :
    {K : Type ℓ} {V : Type κ} {W : Type μ} → (V → W) → Dict K V → Dict K W
map_values f [] = []
map_values f ((k, v) ∷ d) = (k, f v) ∷ map_values f d

module _ {ℓ κ} {K : Type ℓ} {V : Type κ} ⦃e : Eq K⦄ where
  -- `d.get(k)`
  unfoldable pub lookup : K → Dict K V → Option V
  lookup k [] = none
  lookup k ((j, v) ∷ d) = if k == j then some v else lookup k d

  -- `d[k] = v`
  unfoldable pub insert : K → V → Dict K V → Dict K V
  insert k v [] = (k, v) ∷ []
  insert k v ((j, w) ∷ d) = if k == j then (k, v) ∷ d else (j, w) ∷ insert k v d

  -- `k in d`
  unfoldable pub has_key : K → Dict K V → Bool
  has_key k [] = false
  has_key k ((j, v) ∷ d) = if k == j then true else has_key k d

  pub lookup-insert :
      (j k : K) (v : V) (d : Dict K V)
      → lookup j (insert k v d) ≡ (if j == k then some v else lookup j d)
  unfolding lookup insert
  lookup-insert j k v [] = refl
  lookup-insert j k v (_ ∷ d) = ground (arith, lookup-insert j k v d)

  pub has_key-eq_lookup : (k : K) (d : Dict K V) → lookup k d ≡ none → has_key k d ≡ false
  unfolding lookup has_key
  has_key-eq_lookup k [] h = refl
  has_key-eq_lookup k (_ ∷ d) h = ground (arith, has_key-eq_lookup k d)

  pub lookup-not_has_key : (k : K) (d : Dict K V) → has_key k d ≡ false → lookup k d ≡ none
  unfolding lookup has_key
  lookup-not_has_key k [] h = refl
  lookup-not_has_key k (_ ∷ d) h = ground (arith, lookup-not_has_key k d)

  -- A new key goes to the end.
  pub insert_new :
      (k : K) (v : V) (d : Dict K V) → has_key k d ≡ false → insert k v d ≡ d ++ (k, v) ∷ []
  unfolding insert has_key
  insert_new k v [] h = refl
  insert_new k v (_ ∷ d) h = ground (arith, insert_new k v d)

  pub has_key-insert :
      (j k : K) (v : V) (d : Dict K V)
      → has_key j (insert k v d) ≡ (if j == k then true else has_key j d)
  unfolding has_key insert
  has_key-insert j k v [] = refl
  has_key-insert j k v (_ ∷ d) = ground (arith, has_key-insert j k v d)

  -- No key is listed twice.
  abbrev pub NodupKeys : Dict K V → Type κ
  NodupKeys [] = Unit
  NodupKeys ((k, _) ∷ d) = (lookup k d ≡ none) × NodupKeys d

  pub insert-NodupKeys : (k : K) (v : V) (d : Dict K V) → NodupKeys d → NodupKeys (insert k v d)
  unfolding insert lookup
  insert-NodupKeys k v [] _ = (refl, tt)
  insert-NodupKeys k v ((j, _) ∷ d) (fresh, u) =
      ground (arith, insert-NodupKeys k v d u, lookup-insert j k v d)

  pub lookup-middle :
      (before : Dict K V) (k : K) (v : V) (after : Dict K V)
      → lookup k (before ++ ((k, v) ∷ after)) ≢ none
  unfolding lookup
  lookup-middle [] k v after h = ground arith
  lookup-middle ((j, w) ∷ before) k v after h = ground (arith, lookup-middle before k v after)

  -- Where no key stands twice, a key is none of those before it.
  pub has_key-NodupKeys :
      (before : Dict K V) (k : K) (v : V) (after : Dict K V)
      → NodupKeys (before ++ ((k, v) ∷ after))
      → has_key k before ≡ false
  unfolding has_key
  has_key-NodupKeys [] k v after u = refl
  has_key-NodupKeys ((j, w) ∷ before) k v after u =
      ground (arith, has_key-NodupKeys before k v after u.1, lookup-middle before k v after)

  pub has_key-append_right :
      (k : K) (xs ys : Dict K V) → has_key k ys ≡ true → has_key k (xs ++ ys) ≡ true
  unfolding has_key
  has_key-append_right k [] ys h = h
  has_key-append_right k (_ ∷ xs) ys h = ground (arith, has_key-append_right k xs ys h)

  pub has_key-append_left :
      (k : K) (xs ys : Dict K V) → has_key k xs ≡ true → has_key k (xs ++ ys) ≡ true
  unfolding has_key
  has_key-append_left k [] ys h = cc
  has_key-append_left k (_ ∷ xs) ys h = ground (arith, has_key-append_left k xs ys)

  has_key-absent : (k : K) (d : Dict K V) → has_key k d ≡ true → lookup k d ≢ none
  unfolding has_key lookup
  has_key-absent k [] h = cc
  has_key-absent k (_ ∷ d) h = ground (arith, has_key-absent k d)

  -- Two parts of a dict share no key.
  pub NodupKeys-disjoint :
      (k : K) (xs ys : Dict K V) → NodupKeys (xs ++ ys) → has_key k xs ≡ true → has_key k ys ≡ false
  unfolding has_key
  NodupKeys-disjoint k [] ys u h = cc
  NodupKeys-disjoint k ((j, v) ∷ xs) ys u h = elim (Bool-cases (has_key k ys)) [
    | inr absent ↦ absent
    | inl twice ↦ ground (
      arith,
      has_key-absent k (xs ++ ys) (has_key-append_right k xs ys twice),
      NodupKeys-disjoint k xs ys u.1,
    )
  ]

-- No key of the one dict is in the other.
module _ {ℓ κ μ} {K : Type ℓ} {V : Type κ} {W : Type μ} ⦃e : Eq K⦄ where
  unfoldable pub Fresh : Dict K V → Dict K W → Type 0
  Fresh [] done = Unit
  Fresh ((k, _) ∷ d) done = (has_key k done ≡ false) × Fresh d done

  pub Fresh-nil : (d : Dict K V) (done : Dict K W) → done ≡ [] → Fresh d done
  unfolding Fresh has_key
  Fresh-nil [] done h = tt
  Fresh-nil (_ ∷ d) done h = (ground (arith, h), Fresh-nil d done h)

  pub Fresh-insert :
      (d : Dict K V) (k : K) (w : W) (done : Dict K W)
      → lookup k d ≡ none
      → Fresh d done
      → Fresh d (insert k w done)
  unfolding Fresh lookup
  Fresh-insert [] k w done h f = tt
  Fresh-insert ((j, _) ∷ d) k w done h (f, fs) =
      (ground (arith, has_key-insert j k w done), Fresh-insert d k w done (ground arith) fs)
