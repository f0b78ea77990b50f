-- ===== src/Kube/Patch/Defined.antt =====
-- When the assertions of `patch_view` in tunstrap/kube.py hold.
use garuda_tunnel.Base.{
  ℕ, ◌≡◌, inl, inr, ap, ◌∙◌, Bool, Option, some, Text, text, text_eq, arith, Option-cases, ok,
}
use garuda_tunnel.Value.{Value, list, dict, Items, nil, cons, Fields, get, set, as_dict}
use garuda_tunnel.Kube.Config.{
  KubeconfigView, entry_named, find_item, find_named, get_or_empty, body_of, full_text,
  parse_document,
}
use garuda_tunnel.Kube.Config.Lookups.{parse_document-IsBuiltOf}
use garuda_tunnel.Kube.Patch.{patch_body, patch_entry, patch_item, patch_list, patch_view}

patch_entry-some :
    (change : Fields → Fields) (entry : Fields) (server : Text)
    → full_text (get (text "server") (body_of (text "cluster") entry)) ≡ some server
    → (entry' : Fields) × (patch_entry change entry ≡ some entry')
unfolding patch_entry body_of get full_text
patch_entry-some change entry server h =
    elim (Option-cases (as_dict (get (text "cluster") entry))) [
      | inl no_body ↦ ground arith
      | inr (body, has_body) ↦
          (set (text "cluster") (dict (change body)) entry, ground (arith, has_body))
    ]

patch_item-some :
    (change : Fields → Fields) (items : Items) (name : Text) (entry entry' : Fields)
    → find_item items name ≡ some entry
    → patch_entry change entry ≡ some entry'
    → (items' : Items) × (patch_item change items name ≡ some items')
unfolding patch_item find_item
patch_item-some change nil name entry entry' found made = cc
patch_item-some change (cons v items) name entry entry' found made =
    elim (Option-cases (entry_named v name)) [
      | inr (first, named) ↦
          let same : first ≡ entry = ground arith in
          let patched : patch_entry change first ≡ some entry' =
            ap (patch_entry change) same ∙ made in
          (cons (dict entry') items, ground (arith, named, patched))
      | inl other ↦
          let (rest, patched) =
            patch_item-some change items name entry entry' (ground arith) made in
          (cons v rest, ground (arith, other, patched))
    ]

patch_list-some :
    (change : Fields → Fields) (v : Value) (name : Text) (entry entry' : Fields)
    → find_named v name ≡ some entry
    → patch_entry change entry ≡ some entry'
    → (items' : Items) × (patch_list change v name ≡ some items')
unfolding patch_list find_named
patch_list-some change (list items) name entry entry' found made =
    patch_item-some change items name entry entry' found made
patch_list-some change v name entry entry' found made = cc

-- A kubeconfig that was parsed can be patched: no assertion of the patch fails.
pub patch_view-some :
    (doc : Fields) (view : KubeconfigView) (port : ℕ) (name : Option Text) (insecure : Bool)
    → parse_document doc ≡ ok view
    → (doc' : Fields) × (patch_view view port name insecure ≡ some doc')
unfolding patch_view
patch_view-some doc view port name insecure parsed =
    let v = (parse_document-IsBuiltOf doc view).0 parsed in
    let (entry', made) =
      patch_entry-some (patch_body port name insecure) v.cluster view.server v.server_text in
    let found : find_named (get_or_empty (text "clusters") view.doc) view.cluster_name
        ≡ some v.cluster =
      ap (λ d. find_named (get_or_empty (text "clusters") d) view.cluster_name) v.whole
      ∙ v.cluster_found in
    let (items', patched) =
      patch_list-some (patch_body port name insecure) (get_or_empty (text "clusters") view.doc)
        view.cluster_name v.cluster entry' found made in
    (set (text "clusters") (list items') view.doc, ground (arith, patched))
