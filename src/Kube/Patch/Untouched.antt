-- ===== src/Kube/Patch/Untouched.antt =====
-- What `patch_view` of tunstrap/kube.py changes in the list of clusters, and what stays.
use garuda_tunnel.Base.{
  ◌≡◌, ◌≢◌, refl, inl, inr, true, false, none, some, Text, text, text_eq, ℕ_discrete, ◌==◌, ==-refl,
  if◌then◌else◌, arith, Option-cases,
}
use garuda_tunnel.Value.{Value, str, dict, Items, nil, cons, Fields, get, set, as_dict}
use garuda_tunnel.Value.Laws.{get-set}
use garuda_tunnel.Kube.Config.{is_text, entry_named, find_item}
use garuda_tunnel.Kube.Patch.{patch_entry, patch_item}

name_ne_cluster : (text "name" == text "cluster") ≡ false
unfolding text text_eq ℕ_discrete
name_ne_cluster = refl

-- A new body leaves the name of an entry alone.
pub name-set_cluster :
    (body : Value) (entry : Fields)
    → get (text "name") (set (text "cluster") body entry) ≡ get (text "name") entry
name-set_cluster body entry = rw (get-set, name_ne_cluster)

pub cluster-set_cluster :
    (body : Value) (entry : Fields) → get (text "cluster") (set (text "cluster") body entry) ≡ body
cluster-set_cluster body entry = rw (get-set, ==-refl)

entry_named_lem :
    (v : Value) (name : Text) (entry : Fields)
    → entry_named v name ≡ some entry
    → (as_dict v ≡ some entry) × (is_text (get (text "name") entry) name ≡ true)
unfolding entry_named
entry_named_lem v name entry h = elim (Option-cases (as_dict v)) [
  | inl no_dict ↦ ground arith
  | inr (d, is_dict) ↦ ground arith
]

pub patch_entry_lem :
    (change : Fields → Fields) (entry entry' : Fields)
    → patch_entry change entry ≡ some entry'
    → (body : Fields) × (as_dict (get (text "cluster") entry) ≡ some body)
      × (entry' ≡ set (text "cluster") (dict (change body)) entry)
unfolding patch_entry
patch_entry_lem change entry entry' h = elim (Option-cases (as_dict (get (text "cluster") entry))) [
  | inl no_body ↦ ground arith
  | inr (body, has_body) ↦ (body, has_body, ground arith)
]

-- A patched entry keeps its name.
entry_named-patch_entry :
    (change : Fields → Fields) (v : Value) (entry entry' : Fields) (name : Text)
    → patch_entry change entry ≡ some entry'
    → entry_named (dict entry') name
      ≡ (if is_text (get (text "name") entry) name then some entry' else none)
unfolding entry_named
entry_named-patch_entry change v entry entry' name h =
    let (body, has_body, made) = patch_entry_lem change entry entry' h in
    ground (arith, name-set_cluster (dict (change body)) entry, made)

-- The entry that the patch changes is the one that is found by the name.
pub find_item-patch_item :
    (change : Fields → Fields) (items : Items) (name : Text) (items' : Items)
    → patch_item change items name ≡ some items'
    → (entry entry' : Fields) × (find_item items name ≡ some entry)
      × (patch_entry change entry ≡ some entry')
      × (find_item items' name ≡ some entry')
unfolding patch_item find_item
find_item-patch_item change nil name items' h = cc
find_item-patch_item change (cons v items) name items' h =
    elim (Option-cases (entry_named v name)) [
      | inr (entry, found) ↦ elim (Option-cases (patch_entry change entry)) [
        | inl fails ↦ ground arith
        | inr (entry', patched) ↦
            let same : cons (dict entry') items ≡ items' = ground arith in
            (
              entry,
              entry',
              ground arith,
              patched,
              rw (← same) (
                  ground (
                    arith,
                    entry_named-patch_entry change v entry entry' name patched,
                    (entry_named_lem v name entry found).1,
                  )),
            )
      ]
      | inl other ↦ elim (Option-cases (patch_item change items name)) [
        | inl fails ↦ ground arith
        | inr (rest, patched) ↦
            let (entry, entry', found, made, found') =
              find_item-patch_item change items name rest patched in
            let same : cons v rest ≡ items' = ground arith in
            (entry, entry', ground arith, made, rw (← same) (ground (arith, found')))
      ]
    ]

is_text_ne :
    (v : Value) (name other : Text) → is_text v name ≡ true → name ≢ other → is_text v other ≡ false
unfolding is_text
is_text_ne (str s) name other h differs = ground arith
is_text_ne v name other h differs = cc

entry_named_ne :
    (v : Value) (name other : Text) (entry : Fields)
    → entry_named v name ≡ some entry
    → name ≢ other
    → entry_named v other ≡ none
unfolding entry_named
entry_named_ne v name other entry h differs =
    let (is_dict, named) = entry_named_lem v name entry h in
    ground (arith, is_text_ne (get (text "name") entry) name other named differs)

-- After the patch of an entry of a list, an entry of another name is found as it was before.
pub find_item-patch_item_ne :
    (change : Fields → Fields) (items : Items) (name other : Text) (items' : Items)
    → patch_item change items name ≡ some items'
    → name ≢ other
    → find_item items' other ≡ find_item items other
unfolding patch_item find_item
find_item-patch_item_ne change nil name other items' h differs = cc
find_item-patch_item_ne change (cons v items) name other items' h differs =
    elim (Option-cases (entry_named v name)) [
      | inr (entry, found) ↦ elim (Option-cases (patch_entry change entry)) [
        | inl fails ↦ ground arith
        | inr (entry', patched) ↦
            let same : cons (dict entry') items ≡ items' = ground arith in
            let named = (entry_named_lem v name entry found).1 in
            rw (← same) (
              ground (
                arith,
                entry_named_ne v name other entry found differs,
                entry_named-patch_entry change v entry entry' other patched,
                is_text_ne (get (text "name") entry) name other named differs,
              ))
      ]
      | inl missing ↦ elim (Option-cases (patch_item change items name)) [
        | inl fails ↦ ground arith
        | inr (rest, patched) ↦
            let same : cons v rest ≡ items' = ground arith in
            rw (← same)
              (ground (arith, find_item-patch_item_ne change items name other rest patched differs))
      ]
    ]
