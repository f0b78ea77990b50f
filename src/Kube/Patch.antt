-- ===== src/Kube/Patch.antt =====
-- `patch_view` of tunstrap/kube.py.
pub mod Untouched
pub mod Reparse
pub mod Defined
use garuda_tunnel.Base.{
  ℕ, Bool, true, false, List, [], ◌∷◌, ◌++◌, Option, none, some, Text, text, text_eq, ◌==◌,
  if◌then◌else◌,
}
use garuda_tunnel.Str.Number.{show_nat}
use garuda_tunnel.Value.{
  Value, bool, str, list, dict, Items, nil, cons, Fields, get, set, pop, as_dict,
}
use garuda_tunnel.Kube.Config.{KubeconfigView, entry_named, get_or_empty}

-- `f"https://127.0.0.1:{local_port}"`
unfoldable pub local_endpoint : ℕ → Text
local_endpoint local_port = text "https://127.0.0.1:" ++ show_nat local_port

unfoldable pub set_tls_name : Option Text → Fields → Fields
set_tls_name none body = body
set_tls_name (some name) body = set (text "tls-server-name") (str name) body

-- The changes of the body of the cluster.
unfoldable pub patch_body : ℕ → Option Text → Bool → Fields → Fields
patch_body local_port tls_server_name insecure body =
    let moved = set (text "server") (str (local_endpoint local_port)) body in
    if insecure
    then pop (text "tls-server-name") (
        pop (text "certificate-authority-data")
          (set (text "insecure-skip-tls-verify") (bool true) moved))
    else set_tls_name tls_server_name moved

-- The entry with its body changed in place; `none` is a failed assertion.
unfoldable pub patch_entry : (Fields → Fields) → Fields → Option Fields
patch_entry change entry = elim (as_dict (get (text "cluster") entry)) [
  | none ↦ none
  | some body ↦ some (set (text "cluster") (dict (change body)) entry)
]

-- The list with the first entry of that name patched.
unfoldable pub patch_item : (Fields → Fields) → Items → Text → Option Items
patch_item change nil name = none
patch_item change (cons v items) name = elim (entry_named v name) [
  | some entry ↦ elim (patch_entry change entry) [
    | none ↦ none
    | some entry' ↦ some (cons (dict entry') items)
  ]
  | none ↦ elim (patch_item change items name) [ none ↦ none | some items' ↦ some (cons v items') ]
]

unfoldable pub patch_list : (Fields → Fields) → Value → Text → Option Items
patch_list change (list items) name = patch_item change items name
patch_list change _ name = none

-- The document of the view after the patch.
unfoldable pub patch_view : KubeconfigView → ℕ → Option Text → Bool → Option Fields
patch_view view local_port tls_server_name insecure =
    elim (patch_list (patch_body local_port tls_server_name insecure)
      (get_or_empty (text "clusters") view.doc) view.cluster_name) [
        | none ↦ none
        | some clusters ↦ some (set (text "clusters") (list clusters) view.doc)
      ]
