-- ===== src/Kube/Patch/Reparse.antt =====
-- Parsing a kubeconfig that `patch_view` of tunstrap/kube.py has patched.
use garuda_tunnel.Base.{
  ℕ, ◌≡◌, refl, inl, inr, sym, ap, subst, ◌∙◌, Bool, true, false, [], Option, none, some, Text,
  text, text_eq, ℕ_discrete, ◌==◌, ==-refl, if◌then◌else◌, arith, Option-cases, ok,
}
use garuda_tunnel.Value.{Value, null, str, list, dict, Items, nil, cons, Fields, get, set, truthy}
use garuda_tunnel.Value.Laws.{get-set, get-pop}
use garuda_tunnel.Kube.Config.{
  KubeconfigView, find_item, find_named, get_or_empty, body_of, string_value, string_field,
  full_text, parse_document,
}
use garuda_tunnel.Kube.Config.Lookups.{IsBuiltOf, parse_document-IsBuiltOf}
use garuda_tunnel.Kube.Patch.{
  local_endpoint, set_tls_name, patch_body, patch_entry, patch_list, patch_view,
}
use garuda_tunnel.Kube.Patch.Untouched.{cluster-set_cluster, find_item-patch_item, patch_entry_lem}

-- The keys that the program looks up are different texts.
cur_clusters_differ : (text "current-context" == text "clusters") ≡ false
unfolding text text_eq ℕ_discrete
cur_clusters_differ = refl

contexts_clusters_differ : (text "contexts" == text "clusters") ≡ false
unfolding text text_eq ℕ_discrete
contexts_clusters_differ = refl

users_clusters_differ : (text "users" == text "clusters") ≡ false
unfolding text text_eq ℕ_discrete
users_clusters_differ = refl

server_tls_differ : (text "server" == text "tls-server-name") ≡ false
unfolding text text_eq ℕ_discrete
server_tls_differ = refl

server_authority_differ : (text "server" == text "certificate-authority-data") ≡ false
unfolding text text_eq ℕ_discrete
server_authority_differ = refl

server_skip_differ : (text "server" == text "insecure-skip-tls-verify") ≡ false
unfolding text text_eq ℕ_discrete
server_skip_differ = refl

authority_server_differ : (text "certificate-authority-data" == text "server") ≡ false
unfolding text text_eq ℕ_discrete
authority_server_differ = refl

authority_tls_differ : (text "certificate-authority-data" == text "tls-server-name") ≡ false
unfolding text text_eq ℕ_discrete
authority_tls_differ = refl

authority_skip_differ :
    (text "certificate-authority-data" == text "insecure-skip-tls-verify") ≡ false
unfolding text text_eq ℕ_discrete
authority_skip_differ = refl

ruleset lookups = (
  get-set, get-pop, ==-refl, cur_clusters_differ, contexts_clusters_differ, users_clusters_differ,
  server_tls_differ, server_authority_differ, server_skip_differ, authority_server_differ,
  authority_tls_differ, authority_skip_differ,
)

server-patch_body :
    (port : ℕ) (name : Option Text) (insecure : Bool) (body : Fields)
    → get (text "server") (patch_body port name insecure body) ≡ str (local_endpoint port)
unfolding patch_body set_tls_name
server-patch_body port none true body = simp lookups
server-patch_body port none false body = simp lookups
server-patch_body port (some name) true body = simp lookups
server-patch_body port (some name) false body = simp lookups

authority-patch_body :
    (port : ℕ) (name : Option Text) (insecure : Bool) (body : Fields)
    → get (text "certificate-authority-data") (patch_body port name insecure body)
      ≡ (if insecure then null else get (text "certificate-authority-data") body)
unfolding patch_body set_tls_name
authority-patch_body port none true body = simp lookups
authority-patch_body port none false body = simp lookups
authority-patch_body port (some name) true body = simp lookups
authority-patch_body port (some name) false body = simp lookups

-- Another key of the document is as it was.
get_or_empty-clusters_ne :
    (key : Text) (clusters : Value) (doc : Fields)
    → (key == text "clusters") ≡ false
    → get_or_empty key (set (text "clusters") clusters doc) ≡ get_or_empty key doc
unfolding get_or_empty
get_or_empty-clusters_ne key clusters doc h = rw (get-set, h)

get_or_empty-clusters :
    (items : Items) (doc : Fields)
    → get_or_empty (text "clusters") (set (text "clusters") (list items) doc) ≡ list items
unfolding get_or_empty truthy
get_or_empty-clusters nil doc = rw (get-set, ==-refl)
get_or_empty-clusters (cons v items) doc = rw (get-set, ==-refl)

find_named-patch_list :
    (change : Fields → Fields) (v : Value) (name : Text) (items' : Items)
    → patch_list change v name ≡ some items'
    → (entry entry' : Fields) × (find_named v name ≡ some entry)
      × (patch_entry change entry ≡ some entry')
      × (find_item items' name ≡ some entry')
unfolding patch_list find_named
find_named-patch_list change (list items) name items' h =
    find_item-patch_item change items name items' h
find_named-patch_list change v name items' h = cc

-- The body of the patched entry is the changed body.
body_of-patch_entry :
    (change : Fields → Fields) (entry entry' : Fields)
    → patch_entry change entry ≡ some entry'
    → body_of (text "cluster") entry' ≡ change (body_of (text "cluster") entry)
unfolding body_of
body_of-patch_entry change entry entry' h =
    let (body, has_body, made) = patch_entry_lem change entry entry' h in
    rw (made, body_of, cluster-set_cluster (dict (change body)) entry, has_body) refl

patch_view_lem :
    (view : KubeconfigView) (port : ℕ) (name : Option Text) (insecure : Bool) (doc' : Fields)
    → patch_view view port name insecure ≡ some doc'
    → (items' : Items) × (patch_list
          (patch_body port name insecure)
          (get_or_empty (text "clusters") view.doc)
          view.cluster_name
        ≡ some items')
      × (doc' ≡ set (text "clusters") (list items') view.doc)
unfolding patch_view
patch_view_lem view port name insecure doc' h =
    elim (Option-cases (
      patch_list (patch_body port name insecure) (get_or_empty (text "clusters") view.doc)
        view.cluster_name)) [
          | inl fails ↦ ground arith
          | inr (items', patched) ↦ (items', patched, ground arith)
        ]

server_text-patch_body :
    (port : ℕ) (name : Option Text) (insecure : Bool) (body : Fields)
    → full_text (get (text "server") (patch_body port name insecure body))
      ≡ some (local_endpoint port)
unfolding full_text local_endpoint text
server_text-patch_body port name insecure body = rw (server-patch_body port name insecure body)

authority_field-patch_body :
    (port : ℕ) (name : Option Text) (insecure : Bool) (body : Fields) (owner ca : Text)
    → string_field body (text "certificate-authority-data") owner ≡ ok ca
    → string_field (patch_body port name insecure body) (text "certificate-authority-data") owner
      ≡ ok (if insecure then [] else ca)
unfolding string_field string_value
authority_field-patch_body port name true body owner ca h = rw (authority-patch_body)
authority_field-patch_body port name false body owner ca h = rw (authority-patch_body) h

-- The view of the patched document: its server is the local end, and an insecure one has no authority.
abbrev pub patched_view : KubeconfigView → ℕ → Bool → Fields → KubeconfigView
patched_view view port insecure doc' = record view {
  doc = doc';
  server = local_endpoint port;
  certificate_authority_data = if insecure then [] else view.certificate_authority_data;
}

IsBuiltOf-patched :
    (view : KubeconfigView) (port : ℕ) (name : Option Text) (insecure : Bool) (items' : Items)
    → IsBuiltOf view.doc view
    → patch_list
        (patch_body port name insecure)
        (get_or_empty (text "clusters") view.doc)
        view.cluster_name
      ≡ some items'
    → IsBuiltOf
        (set (text "clusters") (list items') view.doc)
        (patched_view view port insecure (set (text "clusters") (list items') view.doc))
unfolding find_named
IsBuiltOf-patched view port name insecure items' v h =
    let (entry, entry', found, patched, found') =
      find_named-patch_list (patch_body port name insecure) _ view.cluster_name items' h in
    let same : entry ≡ v.cluster = cc (found, v.cluster_found) in
    let body' : body_of (text "cluster") entry'
        ≡ patch_body port name insecure (body_of (text "cluster") v.cluster) =
      body_of-patch_entry (patch_body port name insecure) entry entry' patched
      ∙ ap (λ e. patch_body port name insecure (body_of (text "cluster") e)) same in
    record {
      whole = refl;
      current = rw (get-set, cur_clusters_differ) v.current;
      ctx = v.ctx;
      ctx_found =
          rw
            (get_or_empty-clusters_ne (text "contexts") (list items') view.doc
              contexts_clusters_differ)
            v.ctx_found;
      refers = v.refers;
      cluster = entry';
      cluster_found = rw (get_or_empty-clusters items' view.doc) found';
      server_text =
          rw (body')
            (server_text-patch_body port name insecure (body_of (text "cluster") v.cluster));
      user = v.user;
      user_found =
          rw (get_or_empty-clusters_ne (text "users") (list items') view.doc users_clusters_differ)
            v.user_found;
      authority = rw (body') (
          authority_field-patch_body port name insecure (body_of (text "cluster") v.cluster)
            view.cluster_name _ v.authority);
      certificate = v.certificate;
      client_key = v.client_key;
      others =
          rw
            (get_or_empty-clusters_ne (text "contexts") (list items') view.doc
              contexts_clusters_differ)
            v.others;
    }

-- A kubeconfig that was parsed and then patched parses again: to the same names and client
-- credentials, with the local end as its server, and with no certificate authority if it is insecure.
pub parse_document-patch_view :
    (doc : Fields) (view : KubeconfigView) (port : ℕ) (name : Option Text) (insecure : Bool)
    (doc' : Fields)
    → parse_document doc ≡ ok view
    → patch_view view port name insecure ≡ some doc'
    → parse_document doc' ≡ ok (patched_view view port insecure doc')
parse_document-patch_view doc view port name insecure doc' parsed patched =
    let v = (parse_document-IsBuiltOf doc view).0 parsed in
    let (items', h, made) = patch_view_lem view port name insecure doc' patched in
    let whole : IsBuiltOf view.doc view = subst (λ d. IsBuiltOf d view) (sym v.whole) v in
    rw (made)
      ((parse_document-IsBuiltOf _ _).1 (IsBuiltOf-patched view port name insecure items' whole h))
