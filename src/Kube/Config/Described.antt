-- ===== src/Kube/Config/Described.antt =====
-- `parse_kubeconfig` of tunstrap/kube.py against a description of the document that a view stands for.
use garuda_tunnel.Base.{
  ◌≡◌, ◌≢◌, refl, sym, ap, subst, ◌∙◌, ◌↔◌, ◌⊎◌, inl, inr, true, List, [], ◌∷◌, none, some, Text,
  text, text_eq, not, ◌||◌, ==→eq, ==-refl, arith, ok, Bool-cases, Option-cases,
}
use garuda_tunnel.Value.{
  Value, null, int, str, scalar, list, dict, Items, nil, cons, Fields, end, get, as_dict, truthy,
}
use garuda_tunnel.Kube.Config.{
  KubeconfigView, is_text, entry_named, find_item, find_named, get_or_empty, body_of, string_value,
  string_field, full_text, ignored, ignored_in, text_or, references, parse_document,
}
use garuda_tunnel.Kube.Config.Lookups.{IsBuiltOf, parse_document-IsBuiltOf}

-- A text that is not empty.
abbrev pub IsFullText : Value → Text → Type 0
IsFullText v s = (v ≡ str s) × (s ≢ [])

-- A text, or null for the empty text.
abbrev pub IsString : Value → Text → Type 0
IsString v s = (v ≡ str s) ⊎ ((v ≡ null) × (s ≡ []))

-- A mapping with that name.
abbrev pub IsNamed : Text → Value → Type 0
IsNamed name v = (d : Fields) × (v ≡ dict d) × (get (text "name") d ≡ str name)

-- The first mapping of the list with that name.
pub data IsFirst (name : Text) : Items → Fields → Type 0 where
  here :
      (entry : Fields) (items : Items)
      → get (text "name") entry ≡ str name
      → IsFirst name (cons (dict entry) items) entry
  later :
      (v : Value) (items : Items) (entry : Fields)
      → ¬ IsNamed name v
      → IsFirst name items entry
      → IsFirst name (cons v items) entry

-- What a value is where a mapping is looked for: the empty one if it is none.
abbrev pub IsBody : Value → Fields → Type 0
IsBody v body = (v ≡ dict body) ⊎ ((body ≡ end) × ((d : Fields) → v ≢ dict d))

is_text-eq : (v : Value) (name : Text) → is_text v name ≡ true → v ≡ str name
unfolding is_text
is_text-eq (str s) name h = ap str (==→eq s name h)
is_text-eq null name h = cc
is_text-eq (Value.bool b) name h = cc
is_text-eq (int n) name h = cc
is_text-eq (scalar n) name h = cc
is_text-eq (list items) name h = cc
is_text-eq (dict d) name h = cc

is_text-str : (name : Text) → is_text (str name) name ≡ true
unfolding is_text
is_text-str name = ==-refl name

entry_named-some :
    (v : Value) (name : Text) (entry : Fields)
    → entry_named v name ≡ some entry
    → (v ≡ dict entry) × (get (text "name") entry ≡ str name)
unfolding entry_named
entry_named-some (dict d) name entry h = elim (Bool-cases (is_text (get (text "name") d) name)) [
  | inr other ↦ absurd (ground (arith, other, h))
  | inl same ↦
      let eq : d ≡ entry = ground (arith, same, h) in
      (ap dict eq, subst (λ d. get (text "name") d ≡ str name) eq (is_text-eq _ name same))
]
entry_named-some null name entry h = cc
entry_named-some (Value.bool b) name entry h = cc
entry_named-some (int n) name entry h = cc
entry_named-some (scalar n) name entry h = cc
entry_named-some (list items) name entry h = cc
entry_named-some (str s) name entry h = cc

entry_named-dict :
    (name : Text) (entry : Fields)
    → get (text "name") entry ≡ str name
    → entry_named (dict entry) name ≡ some entry
unfolding entry_named
entry_named-dict name entry h =
    let same : is_text (get (text "name") entry) name ≡ true =
      ap (λ v. is_text v name) h ∙ is_text-str name in
    ground (arith, same)

entry_named-none : (v : Value) (name : Text) → ¬ IsNamed name v → entry_named v name ≡ none
entry_named-none v name other = elim (Option-cases (entry_named v name)) [
  | inl absent ↦ absent
  | inr (d, found) ↦
      let (same, named) = entry_named-some v name d found in absurd (other (d, same, named))
]

find_item→ :
    (items : Items) (name : Text) (entry : Fields)
    → find_item items name ≡ some entry
    → IsFirst name items entry
unfolding find_item
find_item→ nil name entry h = cc
find_item→ (cons v items) name entry h = elim (Option-cases (entry_named v name)) [
  | inr (d, found) ↦
      let (same, named) = entry_named-some v name d found in
      let eq : d ≡ entry = ground (arith, found, h) in
      subst (λ v. IsFirst name (cons v items) entry) (sym (same ∙ ap dict eq))
        (here entry items (subst (λ d. get (text "name") d ≡ str name) eq named))
  | inl absent ↦
      later v items entry
        (λ (d, same, named).
          let found = ap (λ v. entry_named v name) same ∙ entry_named-dict name d named in
          absurd (ground (arith, found, absent)))
        (find_item→ items name entry (ground (arith, absent, h)))
]

find_item← :
    (name : Text) (items : Items) (entry : Fields)
    → IsFirst name items entry
    → find_item items name ≡ some entry
unfolding find_item
find_item← name _ _ (here entry items named) = ground (arith, entry_named-dict name entry named)
find_item← name _ _ (later v items entry other first) =
    ground (arith, entry_named-none v name other, find_item← name items entry first)

-- The list of the document under a key, and its first mapping of a name.
abbrev pub IsEntry : Fields → Text → Text → Fields → Type 0
IsEntry doc k name entry = (items : Items) × (get k doc ≡ list items) × IsFirst name items entry

find_named→ :
    (v : Value) (name : Text) (entry : Fields)
    → find_named v name ≡ some entry
    → (items : Items) × (v ≡ list items) × IsFirst name items entry
unfolding find_named
find_named→ (list items) name entry h = (items, refl, find_item→ items name entry h)
find_named→ null name entry h = cc
find_named→ (Value.bool b) name entry h = cc
find_named→ (int n) name entry h = cc
find_named→ (scalar n) name entry h = cc
find_named→ (dict d) name entry h = cc
find_named→ (str s) name entry h = cc

nothing_in_nil : (name : Text) (entry : Fields) → find_named (list nil) name ≢ some entry
unfolding find_named find_item
nothing_in_nil name entry h = cc

value_text→ : (v : Value) (k owner s : Text) → string_value v k owner ≡ ok s → IsString v s
unfolding string_value
value_text→ null k owner s h = inr (refl, ground (arith, h))
value_text→ (str t) k owner s h = inl (ap str (ground (arith, h)))
value_text→ (Value.bool b) k owner s h = cc
value_text→ (int n) k owner s h = cc
value_text→ (scalar n) k owner s h = cc
value_text→ (list items) k owner s h = cc
value_text→ (dict d) k owner s h = cc

truthy-found :
    (items : Items) (name : Text) (entry : Fields)
    → IsFirst name items entry
    → truthy (list items) ≡ true
unfolding truthy
truthy-found _ name _ (here entry items named) = refl
truthy-found _ name _ (later v items entry other first) = refl

get_or_empty-found :
    (doc : Fields) (k : Text) (items : Items) (name : Text) (entry : Fields)
    → get k doc ≡ list items
    → IsFirst name items entry
    → get_or_empty k doc ≡ list items
unfolding get_or_empty
get_or_empty-found doc k items name entry same first =
    let full : truthy (get k doc) ≡ true = ap truthy same ∙ truthy-found items name entry first in
    ground (arith, full, same)

IsEntry→ :
    (doc : Fields) (k name : Text) (entry : Fields)
    → find_named (get_or_empty k doc) name ≡ some entry
    → IsEntry doc k name entry
unfolding get_or_empty
IsEntry→ doc k name entry h = elim (Bool-cases (truthy (get k doc))) [
  | inl full ↦ find_named→ (get k doc) name entry (ground (arith, full, h))
  | inr empty ↦
      let found : find_named (list nil) name ≡ some entry = ground (arith, empty, h) in
      absurd (nothing_in_nil name entry found)
]

IsEntry← :
    (doc : Fields) (k name : Text) (entry : Fields)
    → IsEntry doc k name entry
    → find_named (get_or_empty k doc) name ≡ some entry
unfolding find_named
IsEntry← doc k name entry (items, same, first) =
    ap (λ v. find_named v name) (get_or_empty-found doc k items name entry same first)
    ∙ find_item← name items entry first

full_text→ : (v : Value) (s : Text) → full_text v ≡ some s → IsFullText v s
unfolding full_text
full_text→ (str []) s h = cc
full_text→ (str (c ∷ r)) s h =
    let same : (c ∷ r) ≡ s = ground (arith, h) in
    (ap str same, λ empty. absurd (ground (arith, same, empty)))
full_text→ null s h = cc
full_text→ (Value.bool b) s h = cc
full_text→ (int n) s h = cc
full_text→ (scalar n) s h = cc
full_text→ (list items) s h = cc
full_text→ (dict d) s h = cc

full_text-str : (s : Text) → s ≢ [] → (full_text (str s) ≡ some s) × (truthy (str s) ≡ true)
unfolding full_text truthy
full_text-str [] full = absurd (full refl)
full_text-str (c ∷ s) full = (refl, refl)

full_text← : (v : Value) (s : Text) → IsFullText v s → (full_text v ≡ some s) × (truthy v ≡ true)
full_text← v s (same, full) =
    subst (λ v. (full_text v ≡ some s) × (truthy v ≡ true)) (sym same) (full_text-str s full)

references→ :
    (body : Fields) (current cluster user : Text)
    → references body current ≡ ok (cluster, user)
    → IsFullText (get (text "cluster") body) cluster × IsFullText (get (text "user") body) user
unfolding references text_or
references→ body current cluster user h =
    elim (Bool-cases
      (not (truthy (get (text "cluster") body)) || not (truthy (get (text "user") body)))) [
        | inl missing ↦ absurd (ground (arith, missing, h))
        | inr given ↦ elim (Option-cases (full_text (get (text "cluster") body))) [
          | inl absent ↦ absurd (ground (arith, given, absent, h))
          | inr (c, has) ↦ elim (Option-cases (full_text (get (text "user") body))) [
            | inl absent ↦ absurd (ground (arith, given, has, absent, h))
            | inr (u, also) ↦
                let same : (c ≡ cluster) × (u ≡ user) = ground (arith, given, has, also, h) in
                (
                  full_text→ _ cluster (has ∙ ap some (same.0)),
                  full_text→ _ user (also ∙ ap some (same.1)),
                )
          ]
        ]
      ]

references← :
    (body : Fields) (current cluster user : Text)
    → IsFullText (get (text "cluster") body) cluster
    → IsFullText (get (text "user") body) user
    → references body current ≡ ok (cluster, user)
unfolding references text_or
references← body current cluster user h1 h2 =
    let (c, c_given) = full_text← _ cluster h1 in
    let (u, u_given) = full_text← _ user h2 in ground (arith, c, c_given, u, u_given)

as_dict-some : (v : Value) (d : Fields) → as_dict v ≡ some d → v ≡ dict d
as_dict-some (dict d) e h = ground (arith, h)
as_dict-some null e h = cc
as_dict-some (Value.bool b) e h = cc
as_dict-some (int n) e h = cc
as_dict-some (scalar n) e h = cc
as_dict-some (list items) e h = cc
as_dict-some (str s) e h = cc

body_of-IsBody : (k : Text) (entry : Fields) → IsBody (get k entry) (body_of k entry)
unfolding body_of
body_of-IsBody k entry = elim (Option-cases (as_dict (get k entry))) [
  | inl absent ↦
      inr (ground (arith, absent), λ d same. absurd (ground (arith, absent, ap as_dict same)))
  | inr (d, has) ↦
      let same : body_of k entry ≡ d = ground (arith, has) in
      inl (as_dict-some _ d has ∙ ap dict (sym same))
]

body_of-eq : (k : Text) (entry body : Fields) → IsBody (get k entry) body → body_of k entry ≡ body
unfolding body_of
body_of-eq k entry body (inl same) = ground (arith, ap as_dict same)
body_of-eq k entry body (inr (empty, other)) = elim (Option-cases (as_dict (get k entry))) [
  | inl absent ↦ ground (arith, absent, empty)
  | inr (d, has) ↦ absurd (other d (as_dict-some _ d has))
]

field_text→ :
    (body : Fields) (k owner s : Text) → string_field body k owner ≡ ok s → IsString (get k body) s
unfolding string_field
field_text→ body k owner s h = value_text→ (get k body) k owner s h

field_text← :
    (body : Fields) (k owner s : Text) → IsString (get k body) s → string_field body k owner ≡ ok s
unfolding string_field string_value
field_text← body k owner s (inl same) = ap (λ v. string_value v k owner) same
field_text← body k owner s (inr (same, empty)) =
    ap (λ v. string_value v k owner) same ∙ ap ok (sym empty)

-- The names of the mappings that have another name than the current one, in order.
pub data AreOthers (current : Text) : Items → List Value → Type 0 where
  no_more : AreOthers current nil []
  skipped :
      (c : Fields) (items : Items) (names : List Value)
      → get (text "name") c ≡ str current
      → AreOthers current items names
      → AreOthers current (cons (dict c) items) names
  other :
      (c : Fields) (items : Items) (names : List Value)
      → get (text "name") c ≢ str current
      → AreOthers current items names
      → AreOthers current (cons (dict c) items) (get (text "name") c ∷ names)
  no_mapping :
      (v : Value) (items : Items) (names : List Value)
      → ((c : Fields) → v ≢ dict c)
      → AreOthers current items names
      → AreOthers current (cons v items) names

ignored-AreOthers :
    (items : Items) (current : Text) → AreOthers current items (ignored items current)
unfolding ignored
ignored-AreOthers nil current = no_more
ignored-AreOthers (cons (dict c) items) current =
    let rest = ignored-AreOthers items current in
    elim (Bool-cases (is_text (get (text "name") c) current)) [
      | inl same ↦
          subst (AreOthers current (cons (dict c) items)) (ground (arith, same))
            (skipped c items _ (is_text-eq _ current same) rest)
      | inr differs ↦
          let unlike : get (text "name") c ≢ str current = λ h.
            absurd (ground (arith, differs, ap (λ v. is_text v current) h, is_text-str current)) in
          subst (AreOthers current (cons (dict c) items)) (ground (arith, differs))
            (other c items _ unlike rest)
    ]
ignored-AreOthers (cons null items) current =
    no_mapping null items _ (λ c h. absurd (ground (arith, h))) (ignored-AreOthers items current)
ignored-AreOthers (cons (Value.bool b) items) current =
    no_mapping (Value.bool b) items _ (λ c h. absurd (ground (arith, h)))
      (ignored-AreOthers items current)
ignored-AreOthers (cons (int n) items) current =
    no_mapping (int n) items _ (λ c h. absurd (ground (arith, h))) (ignored-AreOthers items current)
ignored-AreOthers (cons (str s) items) current =
    no_mapping (str s) items _ (λ c h. absurd (ground (arith, h))) (ignored-AreOthers items current)
ignored-AreOthers (cons (scalar n) items) current =
    no_mapping (scalar n) items _ (λ c h. absurd (ground (arith, h)))
      (ignored-AreOthers items current)
ignored-AreOthers (cons (list vs) items) current =
    no_mapping (list vs) items _ (λ c h. absurd (ground (arith, h)))
      (ignored-AreOthers items current)

ignored-no_mapping :
    (v : Value) (items : Items) (current : Text)
    → ((c : Fields) → v ≢ dict c)
    → ignored (cons v items) current ≡ ignored items current
unfolding ignored
ignored-no_mapping (dict c) items current none_of = absurd (none_of c refl)
ignored-no_mapping null items current none_of = refl
ignored-no_mapping (Value.bool b) items current none_of = refl
ignored-no_mapping (int n) items current none_of = refl
ignored-no_mapping (str s) items current none_of = refl
ignored-no_mapping (scalar n) items current none_of = refl
ignored-no_mapping (list vs) items current none_of = refl

ignored-eq :
    (current : Text) (items : Items) (names : List Value)
    → AreOthers current items names
    → ignored items current ≡ names
unfolding ignored
ignored-eq current _ _ no_more = refl
ignored-eq current _ _ (skipped c items names same rest) =
    let hit : is_text (get (text "name") c) current ≡ true =
      ap (λ v. is_text v current) same ∙ is_text-str current in
    ground (arith, hit, ignored-eq current items names rest)
ignored-eq current _ _ (other c items names differs rest) =
    let ih = ignored-eq current items names rest in
    elim (Bool-cases (is_text (get (text "name") c) current)) [
      | inl same ↦ absurd (differs (is_text-eq _ current same))
      | inr unlike ↦ ground (arith, unlike, ih)
    ]
ignored-eq current _ _ (no_mapping v items names none_of rest) =
    ignored-no_mapping v items current none_of ∙ ignored-eq current items names rest

-- The view is that of the current context of the document: the first context of that name refers to
-- the first cluster and the first user of the names in it, and the strings are those of their bodies,
-- of which the server must not be empty.
pub record IsViewOf (doc : Fields) (view : KubeconfigView) : Type 0 where
  pub whole : view.doc ≡ doc
  pub current : IsFullText (get (text "current-context") doc) view.context_name
  pub contexts : Items
  pub contexts_list : get (text "contexts") doc ≡ list contexts
  pub ctx : Fields
  pub ctx_first : IsFirst view.context_name contexts ctx
  pub ctx_body : Fields
  pub ctx_is : IsBody (get (text "context") ctx) ctx_body
  pub cluster_ref : IsFullText (get (text "cluster") ctx_body) view.cluster_name
  pub user_ref : IsFullText (get (text "user") ctx_body) view.user_name
  pub cluster : Fields
  pub cluster_first : IsEntry doc (text "clusters") view.cluster_name cluster
  pub cluster_body : Fields
  pub cluster_is : IsBody (get (text "cluster") cluster) cluster_body
  pub server_text : IsFullText (get (text "server") cluster_body) view.server
  pub user : Fields
  pub user_first : IsEntry doc (text "users") view.user_name user
  pub user_body : Fields
  pub user_is : IsBody (get (text "user") user) user_body
  pub authority :
      IsString
        (get (text "certificate-authority-data") cluster_body)
        view.certificate_authority_data
  pub certificate :
      IsString (get (text "client-certificate-data") user_body) view.client_certificate_data
  pub client_key : IsString (get (text "client-key-data") user_body) view.client_key_data
  pub others : AreOthers view.context_name contexts view.ignored_contexts

IsViewOf→ : (doc : Fields) (view : KubeconfigView) → IsBuiltOf doc view → IsViewOf doc view
unfolding ignored_in
IsViewOf→ doc view v =
    let (contexts, listed, first) =
      IsEntry→ doc (text "contexts") view.context_name v.ctx v.ctx_found in
    let (cluster_ref, user_ref) =
      references→ (body_of (text "context") v.ctx) view.context_name view.cluster_name
        view.user_name v.refers in
    let same =
      get_or_empty-found doc (text "contexts") contexts view.context_name v.ctx listed first in
    record {
      whole = v.whole;
      current = full_text→ _ view.context_name v.current;
      contexts = contexts;
      contexts_list = listed;
      ctx = v.ctx;
      ctx_first = first;
      ctx_body = body_of (text "context") v.ctx;
      ctx_is = body_of-IsBody (text "context") v.ctx;
      cluster_ref = cluster_ref;
      user_ref = user_ref;
      cluster = v.cluster;
      cluster_first = IsEntry→ doc (text "clusters") view.cluster_name v.cluster v.cluster_found;
      cluster_body = body_of (text "cluster") v.cluster;
      cluster_is = body_of-IsBody (text "cluster") v.cluster;
      server_text = full_text→ _ view.server v.server_text;
      user = v.user;
      user_first = IsEntry→ doc (text "users") view.user_name v.user v.user_found;
      user_body = body_of (text "user") v.user;
      user_is = body_of-IsBody (text "user") v.user;
      authority = field_text→ _ _ view.cluster_name _ v.authority;
      certificate = field_text→ _ _ view.user_name _ v.certificate;
      client_key = field_text→ _ _ view.user_name _ v.client_key;
      others =
          subst (AreOthers view.context_name contexts)
            (sym (v.others ∙ ap (λ u. ignored_in u view.context_name) same))
            (ignored-AreOthers contexts view.context_name);
    }

IsViewOf← : (doc : Fields) (view : KubeconfigView) → IsViewOf doc view → IsBuiltOf doc view
unfolding ignored_in
IsViewOf← doc view v =
    let ctx_same = body_of-eq (text "context") v.ctx v.ctx_body v.ctx_is in
    let cluster_same = body_of-eq (text "cluster") v.cluster v.cluster_body v.cluster_is in
    let user_same = body_of-eq (text "user") v.user v.user_body v.user_is in
    let same =
      get_or_empty-found doc (text "contexts") v.contexts view.context_name v.ctx v.contexts_list
        v.ctx_first in
    record {
      whole = v.whole;
      current = (full_text← _ view.context_name v.current).0;
      ctx = v.ctx;
      ctx_found =
          IsEntry← doc (text "contexts") view.context_name v.ctx
            (v.contexts, v.contexts_list, v.ctx_first);
      refers =
          ap (λ b. references b view.context_name) ctx_same
          ∙ references← v.ctx_body view.context_name view.cluster_name view.user_name v.cluster_ref
              v.user_ref;
      cluster = v.cluster;
      cluster_found = IsEntry← doc (text "clusters") view.cluster_name v.cluster v.cluster_first;
      server_text =
          ap (λ b. full_text (get (text "server") b)) cluster_same
          ∙ (full_text← _ view.server v.server_text).0;
      user = v.user;
      user_found = IsEntry← doc (text "users") view.user_name v.user v.user_first;
      authority =
          ap (λ b. string_field b (text "certificate-authority-data") view.cluster_name)
            cluster_same
          ∙ field_text← _ _ view.cluster_name _ v.authority;
      certificate =
          ap (λ b. string_field b (text "client-certificate-data") view.user_name) user_same
          ∙ field_text← _ _ view.user_name _ v.certificate;
      client_key =
          ap (λ b. string_field b (text "client-key-data") view.user_name) user_same
          ∙ field_text← _ _ view.user_name _ v.client_key;
      others =
          sym (ignored-eq view.context_name v.contexts view.ignored_contexts v.others)
          ∙ sym (ap (λ u. ignored_in u view.context_name) same);
    }

-- A kubeconfig parses to a view exactly when the view is that of its current context.
pub parse_document-IsViewOf :
    (doc : Fields) (view : KubeconfigView) → (parse_document doc ≡ ok view) ↔ IsViewOf doc view
parse_document-IsViewOf doc view =
    let (built, parses) = parse_document-IsBuiltOf doc view in
    (λ h. IsViewOf→ doc view (built h), λ v. parses (IsViewOf← doc view v))
