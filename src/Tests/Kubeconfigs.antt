-- ===== src/Tests/Kubeconfigs.antt =====
-- A small kubeconfig, parsed and patched.
use garuda_tunnel.Base.{
  ◌≡◌, ◌↔◌, refl, false, [], none, some, Text, text, text_eq, nat_eq, ℕ_discrete, ok,
}
use garuda_tunnel.Value.{
  Value, str, list, dict, Items, nil, cons, Fields, end, field, get, set, truthy,
}
use garuda_tunnel.Kube.Config.{
  KubeconfigView, is_text, entry_named, find_item, find_named, get_or_empty, body_of, string_value,
  string_field, full_text, ignored, ignored_in, named_or, text_or, references, build_view,
  parse_members, parse_document,
}
use garuda_tunnel.Kube.Config.Described.{IsViewOf, parse_document-IsViewOf}
use garuda_tunnel.Kube.Patch.{
  local_endpoint, set_tls_name, patch_body, patch_entry, patch_item, patch_list, patch_view,
}
use garuda_tunnel.Kube.Patch.Defined.{patch_view-some}
use garuda_tunnel.Kube.Patch.Reparse.{parse_document-patch_view, patched_view}
use garuda_tunnel.Str.Number.{show_nat}

abbrev named : Text → Text → Fields → Value
named name k body = dict (field (text "name") (str name) (field k (dict body) end))

-- A cluster body with a server.
abbrev cluster_body : Text → Fields
cluster_body server =
    field (text "server") (str server)
      (field (text "certificate-authority-data") (str (text "CA")) end)

abbrev pub document : Text → Fields
document server = field (text "current-context") (str (text "dev")) (
    field (text "contexts")
      (list (
        cons
          (named (text "dev") (text "context")
            (field (text "cluster") (str (text "c")) (field (text "user") (str (text "u")) end)))
          nil))
      (field (text "clusters")
        (list (cons (named (text "c") (text "cluster") (cluster_body server)) nil))
        (field (text "users") (list (cons (named (text "u") (text "user") end) nil)) end)))

abbrev pub view : KubeconfigView
view = record {
  doc = document (text "https://h");
  context_name = text "dev";
  cluster_name = text "c";
  user_name = text "u";
  server = text "https://h";
  certificate_authority_data = text "CA";
  client_certificate_data = [];
  client_key_data = [];
  ignored_contexts = [];
}

pub parsed : parse_document (document (text "https://h")) ≡ ok view
unfolding parse_document text text_or full_text get text_eq ℕ_discrete named_or find_named
    get_or_empty truthy find_item entry_named is_text references body_of parse_members build_view
    string_field nat_eq ignored ignored_in string_value
parsed = refl

pub patched : patch_view view 8443 none false ≡ some (document (text "https://127.0.0.1:8443"))
unfolding patch_view text patch_list get_or_empty truthy get text_eq ℕ_discrete patch_item
    entry_named is_text patch_entry set patch_body set_tls_name local_endpoint show_nat
patched = refl

parse_document-patch_view_example :
    parse_document (document (text "https://127.0.0.1:8443"))
    ≡ ok (patched_view view 8443 false (document (text "https://127.0.0.1:8443")))
parse_document-patch_view_example =
    parse_document-patch_view (document (text "https://h")) view 8443 none false
      (document (text "https://127.0.0.1:8443")) parsed patched

parse_document-IsViewOf_example :
    (parse_document (document (text "https://h")) ≡ ok view)
    ↔ IsViewOf (document (text "https://h")) view
parse_document-IsViewOf_example = parse_document-IsViewOf (document (text "https://h")) view

abbrev two_clusters : Text → Items
two_clusters server =
    cons (named (text "c") (text "cluster") (cluster_body server))
      (cons (named (text "d") (text "cluster") (cluster_body (text "https://d"))) nil)

patch_view-some_example : (doc' : Fields) × (patch_view view 8443 none false ≡ some doc')
patch_view-some_example = patch_view-some (document (text "https://h")) view 8443 none false parsed
