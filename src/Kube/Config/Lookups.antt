-- ===== src/Kube/Config/Lookups.antt =====
-- `parse_kubeconfig` of tunstrap/kube.py against the lookups that a view stands for.
use garuda_tunnel.Base.{
  ◌≡◌, refl, sym, ap, ap₂, ◌∙◌, ◌↔◌, Option, none, some, Text, text, Result, ok, ◌>>=◌, >>=-eq-ok,
}
use garuda_tunnel.Value.{Fields, get}
use garuda_tunnel.Messages.{
  KubeError, no_current_context, context_not_found, cluster_not_found, cluster_has_no_server,
  user_not_found,
}
use garuda_tunnel.Kube.Config.{
  KubeconfigView, find_named, get_or_empty, body_of, string_field, full_text, ignored_in, named_or,
  text_or, references, build_view, parse_members, parse_document,
}

-- The view is that of the current context: its cluster and its user are found by their names, and
-- the strings are those of their bodies.
pub record IsBuiltOf (doc : Fields) (view : KubeconfigView) : Type 0 where
  pub whole : view.doc ≡ doc
  pub current : full_text (get (text "current-context") doc) ≡ some view.context_name
  pub ctx : Fields
  pub ctx_found : find_named (get_or_empty (text "contexts") doc) view.context_name ≡ some ctx
  pub refers :
      references (body_of (text "context") ctx) view.context_name
      ≡ ok (view.cluster_name, view.user_name)
  pub cluster : Fields
  pub cluster_found :
      find_named (get_or_empty (text "clusters") doc) view.cluster_name ≡ some cluster
  pub server_text :
      full_text (get (text "server") (body_of (text "cluster") cluster)) ≡ some view.server
  pub user : Fields
  pub user_found : find_named (get_or_empty (text "users") doc) view.user_name ≡ some user
  pub authority :
      string_field
        (body_of (text "cluster") cluster)
        (text "certificate-authority-data")
        view.cluster_name
      ≡ ok view.certificate_authority_data
  pub certificate :
      string_field (body_of (text "user") user) (text "client-certificate-data") view.user_name
      ≡ ok view.client_certificate_data
  pub client_key :
      string_field (body_of (text "user") user) (text "client-key-data") view.user_name
      ≡ ok view.client_key_data
  pub others :
      view.ignored_contexts ≡ ignored_in (get_or_empty (text "contexts") doc) view.context_name

-- The steps after `text_or` and `named_or` that returned.
text_or-bind :
    {A : Type 0} (e : KubeError) (o : Option Text) (f : Text → Result KubeError A) {r : A}
    → (text_or e o >>= f) ≡ ok r
    → (s : Text) × (o ≡ some s) × (f s ≡ ok r)
unfolding text_or
text_or-bind e none f h = cc
text_or-bind e (some s) f h = (s, refl, h)

named_or-bind :
    {A : Type 0} (e : KubeError) (o : Option Fields) (f : Fields → Result KubeError A) {r : A}
    → (named_or e o >>= f) ≡ ok r
    → (d : Fields) × (o ≡ some d) × (f d ≡ ok r)
unfolding named_or
named_or-bind e none f h = cc
named_or-bind e (some d) f h = (d, refl, h)

-- The members of a view that is built.
record IsBuilt (doc : Fields) (current server : Text) (refs : Text × Text)
    (cluster_body user_body : Fields) (view : KubeconfigView) : Type 0 where
  whole : view.doc ≡ doc
  context : view.context_name ≡ current
  cluster_ref : view.cluster_name ≡ refs.0
  user_ref : view.user_name ≡ refs.1
  server_kept : view.server ≡ server
  authority :
      string_field cluster_body (text "certificate-authority-data") refs.0
      ≡ ok view.certificate_authority_data
  certificate :
      string_field user_body (text "client-certificate-data") refs.1
      ≡ ok view.client_certificate_data
  client_key : string_field user_body (text "client-key-data") refs.1 ≡ ok view.client_key_data
  others : view.ignored_contexts ≡ ignored_in (get_or_empty (text "contexts") doc) current

build_view→ :
    (doc : Fields) (current server : Text) (refs : Text × Text) (cluster_body user_body : Fields)
    (view : KubeconfigView)
    → build_view doc current refs server cluster_body user_body ≡ ok view
    → IsBuilt doc current server refs cluster_body user_body view
unfolding build_view
build_view→ doc current server refs cluster_body user_body view h =
    let (ca, h1, r1) =
      >>=-eq-ok (string_field cluster_body (text "certificate-authority-data") refs.0) _ h in
    let (cert, h2, r2) =
      >>=-eq-ok (string_field user_body (text "client-certificate-data") refs.1) _ r1 in
    let (key, h3, r3) = >>=-eq-ok (string_field user_body (text "client-key-data") refs.1) _ r2 in
    record {
      whole = cc;
      context = cc;
      cluster_ref = cc;
      user_ref = cc;
      server_kept = cc;
      authority = cc;
      certificate = cc;
      client_key = cc;
      others = cc;
    }

parse_members→ :
    (doc : Fields) (current : Text) (refs : Text × Text) (view : KubeconfigView)
    → parse_members doc current refs ≡ ok view
    → (cluster user : Fields) × (server : Text) × (find_named
          (get_or_empty (text "clusters") doc)
          refs.0
        ≡ some cluster)
      × (full_text (get (text "server") (body_of (text "cluster") cluster)) ≡ some server)
      × (find_named (get_or_empty (text "users") doc) refs.1 ≡ some user)
      × IsBuilt doc current server refs
          (body_of (text "cluster") cluster)
          (body_of (text "user") user)
          view
unfolding parse_members
parse_members→ doc current refs view h =
    let (cluster, h1, r1) = named_or-bind (cluster_not_found refs.0) _ _ h in
    let (server, h2, r2) = text_or-bind (cluster_has_no_server refs.0) _ _ r1 in
    let (user, h3, r3) = named_or-bind (user_not_found refs.1) _ _ r2 in
    (cluster, user, server, h1, h2, h3, build_view→ doc current server refs _ _ view r3)

IsBuiltOf-members :
    (doc : Fields) (current : Text) (ctx : Fields) (refs : Text × Text) (view : KubeconfigView)
    → full_text (get (text "current-context") doc) ≡ some current
    → find_named (get_or_empty (text "contexts") doc) current ≡ some ctx
    → references (body_of (text "context") ctx) current ≡ ok refs
    → ((cluster user : Fields) × (server : Text) × (find_named
            (get_or_empty (text "clusters") doc)
            refs.0
          ≡ some cluster)
        × (full_text (get (text "server") (body_of (text "cluster") cluster)) ≡ some server)
        × (find_named (get_or_empty (text "users") doc) refs.1 ≡ some user)
        × IsBuilt doc current server refs
            (body_of (text "cluster") cluster)
            (body_of (text "user") user)
            view)
    → IsBuiltOf doc view
IsBuiltOf-members doc current ctx (cluster_name, user_name) view h1 h2 h3
      (cluster, user, server, h4, h5, h6, b) =
    record {
      whole = b.whole;
      current = h1 ∙ ap some (sym b.context);
      ctx = ctx;
      ctx_found = ap (find_named (get_or_empty (text "contexts") doc)) b.context ∙ h2;
      refers = cc (b.context, b.cluster_ref, b.user_ref, h3);
      cluster = cluster;
      cluster_found = ap (find_named (get_or_empty (text "clusters") doc)) b.cluster_ref ∙ h4;
      server_text = h5 ∙ ap some (sym b.server_kept);
      user = user;
      user_found = ap (find_named (get_or_empty (text "users") doc)) b.user_ref ∙ h6;
      authority = cc (b.authority, b.cluster_ref);
      certificate = cc (b.certificate, b.user_ref);
      client_key = cc (b.client_key, b.user_ref);
      others = cc (b.others, b.context);
    }

parse_document→ :
    (doc : Fields) (view : KubeconfigView) → parse_document doc ≡ ok view → IsBuiltOf doc view
unfolding parse_document
parse_document→ doc view h =
    let (current, h1, r1) = text_or-bind no_current_context _ _ h in
    let (ctx, h2, r2) = named_or-bind (context_not_found current) _ _ r1 in
    let (refs, h3, r3) =
      >>=-eq-ok (references (body_of (text "context") ctx) current)
        (λ r. parse_members doc current r) r2 in
    IsBuiltOf-members doc current ctx refs view h1 h2 h3 (parse_members→ doc current refs view r3)

-- And back, a stage at a time.
build_view← :
    (doc : Fields) (view : KubeconfigView) (cluster_body user_body : Fields)
    → string_field cluster_body (text "certificate-authority-data") view.cluster_name
      ≡ ok view.certificate_authority_data
    → string_field user_body (text "client-certificate-data") view.user_name
      ≡ ok view.client_certificate_data
    → string_field user_body (text "client-key-data") view.user_name ≡ ok view.client_key_data
    → view.ignored_contexts ≡ ignored_in (get_or_empty (text "contexts") doc) view.context_name
    → view.doc ≡ doc
    → build_view doc view.context_name
        (view.cluster_name, view.user_name)
        view.server
        cluster_body
        user_body
      ≡ ok view
unfolding build_view
build_view← doc view cluster_body user_body h1 h2 h3 h4 h5 =
    rw (h1, h2, h3)
      (ap₂ (λ d cs. ok (record view { doc = d; ignored_contexts = cs })) (sym h5) (sym h4))

parse_members← :
    (doc : Fields) (current : Text) (refs : Text × Text) (cluster user : Fields) (server : Text)
    {r : Result KubeError KubeconfigView}
    → find_named (get_or_empty (text "clusters") doc) refs.0 ≡ some cluster
    → full_text (get (text "server") (body_of (text "cluster") cluster)) ≡ some server
    → find_named (get_or_empty (text "users") doc) refs.1 ≡ some user
    → build_view doc current refs server
        (body_of (text "cluster") cluster)
        (body_of (text "user") user)
      ≡ r
    → parse_members doc current refs ≡ r
unfolding parse_members text_or named_or
parse_members← doc current refs cluster user server h1 h2 h3 h4 = rw (h1, h2, h3) h4

parse_document← :
    (doc : Fields) (current : Text) (ctx : Fields) (refs : Text × Text)
    {r : Result KubeError KubeconfigView}
    → full_text (get (text "current-context") doc) ≡ some current
    → find_named (get_or_empty (text "contexts") doc) current ≡ some ctx
    → references (body_of (text "context") ctx) current ≡ ok refs
    → parse_members doc current refs ≡ r
    → parse_document doc ≡ r
unfolding parse_document text_or named_or
parse_document← doc current ctx refs h1 h2 h3 h4 = rw (h1, h2, h3) h4

-- A kubeconfig parses to a view exactly when the view is that of its current context.
pub parse_document-IsBuiltOf :
    (doc : Fields) (view : KubeconfigView) → (parse_document doc ≡ ok view) ↔ IsBuiltOf doc view
parse_document-IsBuiltOf doc view = (
  parse_document→ doc view,
  λ v.
      parse_document← doc view.context_name v.ctx (view.cluster_name, view.user_name) v.current
        v.ctx_found v.refers
        (parse_members← doc view.context_name (view.cluster_name, view.user_name) v.cluster v.user
          view.server v.cluster_found v.server_text v.user_found
          (build_view← doc view (body_of (text "cluster") v.cluster) (body_of (text "user") v.user)
            v.authority v.certificate v.client_key v.others v.whole)),
)
