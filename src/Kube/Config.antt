-- ===== src/Kube/Config.antt =====
-- `KubeconfigView`, `parse_kubeconfig`, `_find_named` and `_string_field` of tunstrap/kube.py. Each
-- object of the document is taken as its own: anchors that share one are not modelled.
pub mod Lookups
pub mod Described
use garuda_tunnel.Base.{
  Bool, true, false, not, ◌||◌, List, [], ◌∷◌, Option, none, some, Text, text, text_eq, ◌==◌,
  if◌then◌else◌, Result, ok, err, ◌>>=◌, ◌>>◌, raise_if,
}
use garuda_tunnel.Value.{
  Value, null, str, list, dict, Items, nil, cons, Fields, end, field, get, truthy, as_dict,
}
use garuda_tunnel.Messages.{
  KubeError, not_yaml, root_not_mapping, no_current_context, context_not_found, context_incomplete,
  context_not_text, cluster_not_found, cluster_has_no_server, user_not_found, field_not_text,
}

-- An ignored context is kept as the value of its `name`, of which the source takes `str`.
pub record KubeconfigView : Type 0 where
  pub doc : Fields
  pub context_name : Text
  pub cluster_name : Text
  pub user_name : Text
  pub server : Text
  pub certificate_authority_data : Text
  pub client_certificate_data : Text
  pub client_key_data : Text
  pub ignored_contexts : List Value

-- `v == name` for a text
unfoldable pub is_text : Value → Text → Bool
is_text (str s) name = s == name
is_text _ name = false

-- An entry that is a mapping with that name.
unfoldable pub entry_named : Value → Text → Option Fields
entry_named v name = elim (as_dict v) [
  | none ↦ none
  | some entry ↦ if is_text (get (text "name") entry) name then some entry else none
]

-- The first entry of the list with that name.
unfoldable pub find_item : Items → Text → Option Fields
find_item nil name = none
find_item (cons v items) name = elim (entry_named v name) [
  | some entry ↦ some entry
  | none ↦ find_item items name
]

unfoldable pub find_named : Value → Text → Option Fields
find_named (list items) name = find_item items name
find_named _ name = none

-- `d.get(k) or []`
unfoldable pub get_or_empty : Text → Fields → Value
get_or_empty k d = if truthy (get k d) then get k d else list nil

-- The body of an entry, `{}` if it is no mapping.
unfoldable pub body_of : Text → Fields → Fields
body_of k entry = elim (as_dict (get k entry)) [ some body ↦ body | none ↦ end ]

unfoldable pub string_value : Value → Text → Text → Result KubeError Text
string_value null name owner = ok []
string_value (str s) name owner = ok s
string_value _ name owner = err (field_not_text owner name)

unfoldable pub string_field : Fields → Text → Text → Result KubeError Text
string_field body name owner = string_value (get name body) name owner

-- `not v or not isinstance(v, str)`, and else the text
unfoldable pub full_text : Value → Option Text
full_text (str []) = none
full_text (str (c ∷ s)) = some (c ∷ s)
full_text _ = none

-- The names of the other contexts.
unfoldable pub ignored : Items → Text → List Value
ignored nil current = []
ignored (cons (dict c) items) current =
    let rest = ignored items current in
    if is_text (get (text "name") c) current then rest else get (text "name") c ∷ rest
ignored (cons _ items) current = ignored items current

unfoldable pub ignored_in : Value → Text → List Value
ignored_in (list items) current = ignored items current
ignored_in _ current = []

unfoldable pub named_or : KubeError → Option Fields → Result KubeError Fields
named_or e none = err e
named_or e (some entry) = ok entry

unfoldable pub text_or : KubeError → Option Text → Result KubeError Text
text_or e none = err e
text_or e (some s) = ok s

-- The cluster and the user of a context.
unfoldable pub references : Fields → Text → Result KubeError (Text × Text)
references ctx_body current = do
  let cluster = get (text "cluster") ctx_body
  let user = get (text "user") ctx_body
  raise_if (not (truthy cluster) || not (truthy user)) (context_incomplete current)
  cluster_name ← text_or (context_not_text current) (full_text cluster)
  user_name ← text_or (context_not_text current) (full_text user)
  ok (cluster_name, user_name)

-- The view, with the strings of the two bodies.
unfoldable pub build_view :
    Fields → Text → Text × Text → Text → Fields → Fields → Result KubeError KubeconfigView
build_view doc current (cluster_name, user_name) server cluster_body user_body = do
  ca ← string_field cluster_body (text "certificate-authority-data") cluster_name
  cert ← string_field user_body (text "client-certificate-data") user_name
  key ← string_field user_body (text "client-key-data") user_name
  ok (record {
    doc = doc;
    context_name = current;
    cluster_name = cluster_name;
    user_name = user_name;
    server = server;
    certificate_authority_data = ca;
    client_certificate_data = cert;
    client_key_data = key;
    ignored_contexts = ignored_in (get_or_empty (text "contexts") doc) current;
  })

-- The cluster and the user that the context refers to.
unfoldable pub parse_members : Fields → Text → Text × Text → Result KubeError KubeconfigView
parse_members doc current refs = do
  cluster ←
      named_or (cluster_not_found refs.0) (find_named (get_or_empty (text "clusters") doc) refs.0)
  let cluster_body = body_of (text "cluster") cluster
  server ← text_or (cluster_has_no_server refs.0) (full_text (get (text "server") cluster_body))
  user ← named_or (user_not_found refs.1) (find_named (get_or_empty (text "users") doc) refs.1)
  build_view doc current refs server cluster_body (body_of (text "user") user)

-- `parse_kubeconfig` behind the loader.
unfoldable pub parse_document : Fields → Result KubeError KubeconfigView
parse_document doc = do
  current ← text_or no_current_context (full_text (get (text "current-context") doc))
  ctx ←
      named_or (context_not_found current) (find_named (get_or_empty (text "contexts") doc) current)
  refs ← references (body_of (text "context") ctx) current
  parse_members doc current refs

-- `load` is the YAML loader, `none` its `YAMLError`.
unfoldable pub parse_kubeconfig : (Text → Option Value) → Text → Result KubeError KubeconfigView
parse_kubeconfig load raw = elim (load raw) [
  | none ↦ err not_yaml
  | some doc ↦ elim (as_dict doc) [ none ↦ err root_not_mapping | some d ↦ parse_document d ]
]
