-- ===== src/Query/Resolution.antt =====
-- src/yodb/query/resolution.py: which sources own the fields of a bound query.
pub mod Outcome
pub mod Uses
pub mod Sources
pub mod Filled
pub mod Total
use Prim.Native.String.{compare}
use Prim.Native.Nat.{Ordering}
use yo_db.Base.{
  String, Bool, true, false, not, ◌&&◌, ◌||◌, Option, none, some, List, [], ◌∷◌, ◌++◌, map,
}
use yo_db.Base.Lists.{keep}
use yo_db.Base.Sorting.{sort_by}
use yo_db.Base.Strings.{◌==◌, ◌<>◌}
use yo_db.Base.Dicts.{Dict, contains, get, has, keys, put}
use yo_db.Base.Tests.{if◌then◌else◌}
use yo_db.Errors.{
  Result, ok, fail, crash, assertion_error, query_catalog_mismatch, source_binding_unavailable,
  source_logical_id_unavailable, require, ◌>>=◌, ◌>>◌, item, each,
}
use yo_db.Catalog.{Catalog, SourceKind, EmbeddingBinding, DatasetResolution}
use yo_db.Query.Models.{
  FieldUse, identity, projection, filter, order, BoundField, BoundFilterExpression, bound_predicate,
  bound_term, bound_all, bound_any, bound_not, BoundFilterExpressions, bnil, bcons,
  BoundExtensionTerm, BoundOrderTerm, BoundQuery,
}
use yo_db.Query.Extensions.{TermRegistry, for_bound, extension_terms?}
use yo_db.Query.Validation.{Digests}

pub data QuerySourceShape : Type 0 where
  single_source multi_source : QuerySourceShape

pub record ResolvedField : Type 0 where
  pub field : BoundField
  pub source_name : String
  pub source_kind : SourceKind
  pub connection_ref : String
  pub resource : String
  pub physical_name : String
  pub uses : List FieldUse

pub record SingleSourceQueryBinding : Type 0 where
  pub source_name : String
  pub source_kind : SourceKind
  pub connection_ref : String
  pub resource : String
  pub logical_id : ResolvedField
  pub fields : List ResolvedField
  pub embeddings : Dict EmbeddingBinding

pub record LogicalIdLink : Type 0 where
  pub from_source : String
  pub from_logical_id : ResolvedField
  pub to_source : String
  pub to_logical_id : ResolvedField

pub record SourceResolvedQuery (V F : Type 0) : Type 0 where
  pub query : BoundQuery V F
  pub shape : QuerySourceShape
  pub identity_source : SingleSourceQueryBinding
  pub sources : List SingleSourceQueryBinding
  pub logical_id_links : List LogicalIdLink
  pub extension_sources : List SingleSourceQueryBinding

-- `use in uses`
abbrev pub same_use : FieldUse → FieldUse → Bool
same_use identity identity = true
same_use projection projection = true
same_use filter filter = true
same_use order order = true
same_use FieldUse.extension FieldUse.extension = true
same_use _ _ = false

abbrev pub has_use : FieldUse → List FieldUse → Bool
has_use u [] = false
has_use u (v ∷ vs) = same_use v u || has_use u vs

-- `uses[name].add(use)`, with the set of a name that has none yet
abbrev pub uses_of : Option (List FieldUse) → List FieldUse
uses_of none = []
uses_of (some us) = us

unfoldable pub add_use : Dict (List FieldUse) → String → FieldUse → Dict (List FieldUse)
add_use uses name use_ =
    let now = uses_of (get uses name) in
    put uses name (if has_use use_ now then now else use_ ∷ now)

add_uses : Dict (List FieldUse) → List String → FieldUse → Dict (List FieldUse)
unfolding add_use
add_uses uses [] use_ = uses
add_uses uses (n ∷ ns) use_ = add_uses (add_use uses n use_) ns use_

add_term_uses : Dict (List FieldUse) → List (BoundField × FieldUse) → Dict (List FieldUse)
unfolding add_use
add_term_uses uses [] = uses
add_term_uses uses ((field, use_) ∷ more) = add_term_uses (add_use uses field.name use_) more

add_terms_uses :
    Dict (List FieldUse) → TermRegistry → List BoundExtensionTerm → Result (Dict (List FieldUse))
unfolding add_term_uses for_bound
add_terms_uses uses terms [] = ok uses
add_terms_uses uses terms (t ∷ ts) = do
  extension ← for_bound terms t
  add_terms_uses (add_term_uses uses (extension.uses t)) terms ts

-- `_fields_for_use`
unfoldable pub fields_for_use : List ResolvedField → FieldUse → List ResolvedField
fields_for_use fields use_ = keep (λ f. has_use use_ f.uses) fields

module _ {V : Type 0} where
  -- `_filter_fields`
  unfoldable mutual
    pub filter_fields : BoundFilterExpression V → List BoundField
    filter_fields (bound_predicate p) = p.field ∷ []
    filter_fields (bound_term t) = []
    filter_fields (bound_all es) = filter_fields_each es
    filter_fields (bound_any es) = filter_fields_each es
    filter_fields (bound_not e) = filter_fields e

    pub filter_fields_each : BoundFilterExpressions V → List BoundField
    filter_fields_each bnil = []
    filter_fields_each (bcons e es) = filter_fields e ++ filter_fields_each es

  unfoldable pub filter_fields? : Option (BoundFilterExpression V) → List BoundField
  unfolding filter_fields
  filter_fields? none = []
  filter_fields? (some e) = filter_fields e

abbrev pub field_name : BoundField → String
field_name f = f.name

abbrev pub order_field_name : BoundOrderTerm → String
order_field_name t = t.field.name

module _ {V F : Type 0} (query : BoundQuery V F) where
  -- `_collect_field_uses`
  unfoldable pub collect_field_uses : TermRegistry → Result (Dict (List FieldUse))
  unfolding add_use add_uses add_terms_uses filter_fields?
  collect_field_uses terms = do
    let selected = add_uses (add_use [] "id" identity) (map field_name query.select) projection
    let filtered = add_uses selected (map field_name (filter_fields? query.where_)) filter
    uses ← add_terms_uses filtered terms (extension_terms? query.where_)
    ok (add_uses uses (map order_field_name query.order_by) order)

  -- `_bound_field_for_name`
  unfoldable pub bound_field_for_name : String → Result BoundField
  bound_field_for_name name = elim (get query.root.spec.fields name) [
    | none ↦ crash assertion_error
    | some spec ↦ ok (record {
      dataset_name = query.root.name;
      scope = query.root.scope;
      name = name;
      spec = spec;
    })
  ]

-- `d.get(name)`, and SOURCE_BINDING_UNAVAILABLE for a missing one
abbrev pub bound_or_fail {ℓ} : {A : Type ℓ} → Option String → Option A → Result A
bound_or_fail location none =
    fail (record { code = source_binding_unavailable; source_name = none; location = location })
bound_or_fail location (some a) = ok a

abbrev by_name {ℓ} : {A : Type ℓ} → String × A → String × A → Ordering
by_name a b = compare a.0 b.0

-- the entry of a `defaultdict`
abbrev pub entry_or_empty {ℓ} : {A : Type ℓ} → Dict (List A) → String → List A
entry_or_empty d k = elim (get d k) [ none ↦ [] | some xs ↦ xs ]

-- `names.update(more)`
abbrev pub add_names : List String → List String → List String
add_names names [] = names
add_names names (n ∷ ns) = if contains n names then add_names names ns else n ∷ add_names names ns

module _ {V F : Type 0} (query : BoundQuery V F) (catalog : Catalog) where
  -- `_resolve_field`
  unfoldable pub resolve_field : String → String → List FieldUse → Result ResolvedField
  unfolding bound_field_for_name
  resolve_field source_name name uses = do
    source ← item (get catalog.sources source_name)
    representation ← item (get source.datasets query.root.name)
    physical ←
        bound_or_fail
          (some
            ("sources." <> source_name <> ".datasets." <> query.root.name <> ".fields." <> name))
          (get representation.fields name)
    field ← bound_field_for_name query name
    ok (record {
      field = field;
      source_name = source_name;
      source_kind = source.kind;
      connection_ref = source.connection_ref;
      resource = representation.resource;
      physical_name = physical.physical_name;
      uses = uses;
    })

  -- `_resolve_logical_id`
  unfoldable pub resolve_logical_id : String → Result ResolvedField
  unfolding resolve_field
  resolve_logical_id source_name = do
    source ← item (get catalog.sources source_name)
    representation ← item (get source.datasets query.root.name)
    require (has representation.fields "id" && contains "id" representation.identity)
        source_logical_id_unavailable
        ("sources." <> source_name <> ".datasets." <> query.root.name <> ".identity")
    resolve_field source_name "id" (identity ∷ [])

  -- `_resolve_source_binding`; the embeddings keep the order of the catalog.
  unfoldable pub resolve_source_binding :
      String → Dict (List FieldUse) → List String → Result SingleSourceQueryBinding
  unfolding resolve_logical_id resolve_field each sort_by
  resolve_source_binding source_name fields embedding_fields = do
    source ← bound_or_fail none (get catalog.sources source_name)
    representation ← bound_or_fail none (get source.datasets query.root.name)
    logical_id ← resolve_logical_id source_name
    resolved ← each (λ (name, uses). resolve_field source_name name uses) (sort_by by_name fields)
    let names = keys fields ++ embedding_fields
    ok (record {
      source_name = source_name;
      source_kind = source.kind;
      connection_ref = source.connection_ref;
      resource = representation.resource;
      logical_id = logical_id;
      fields = resolved;
      embeddings = keep (λ (name, e). contains name names) representation.embeddings;
    })

  -- `_embedding_fields`
  unfoldable pub embedding_fields : String → List String
  embedding_fields source_name = elim (get catalog.sources source_name) [
    | none ↦ []
    | some source ↦ elim (get source.datasets query.root.name) [
      | none ↦ []
      | some representation ↦ keys representation.embeddings
    ]
  ]

  -- the loop over `field_uses.items()` that fills `source_fields`
  unfoldable pub group_by_source :
      DatasetResolution
      → Dict (List FieldUse)
      → Dict (Dict (List FieldUse))
      → Result (Dict (Dict (List FieldUse)))
  group_by_source resolution [] grouped = ok grouped
  group_by_source resolution ((name, uses) ∷ more) grouped = do
    source_name ←
        bound_or_fail (some ("resolution." <> query.root.name <> ".field_sources." <> name))
          (get resolution.field_sources name)
    group_by_source resolution more
        (put grouped source_name (put (entry_or_empty grouped source_name) name uses))

  -- the loop over `source_fields.items()`
  unfoldable pub resolve_bindings :
      Dict (Dict (List FieldUse)) → Result (Dict SingleSourceQueryBinding)
  unfolding resolve_source_binding
  resolve_bindings [] = ok []
  resolve_bindings ((source_name, fields) ∷ more) = do
    binding ← resolve_source_binding source_name fields []
    rest ← resolve_bindings more
    ok ((source_name, binding) ∷ rest)

  -- the loops that fill `extra_names`
  unfoldable pub add_extra :
      Dict SingleSourceQueryBinding → Dict (List String) → List String → Dict (List String)
  unfolding embedding_fields
  add_extra bindings extra [] = extra
  add_extra bindings extra (n ∷ ns) =
      let more = add_extra bindings extra ns in
      if has bindings n
      then more
      else put more n (add_names (embedding_fields n) (entry_or_empty more n))

  unfoldable pub extra_names :
      TermRegistry
      → Dict SingleSourceQueryBinding
      → List BoundExtensionTerm
      → Result (Dict (List String))
  unfolding add_extra for_bound
  extra_names terms bindings [] = ok []
  extra_names terms bindings (t ∷ ts) = do
    extension ← for_bound terms t
    more ← extra_names terms bindings ts
    ok (add_extra bindings more (extension.extra_sources t catalog query.root.name))

  -- the bindings, the identity source first and the others by name
  unfoldable pub other_sources :
      SingleSourceQueryBinding → Dict SingleSourceQueryBinding → List SingleSourceQueryBinding
  unfolding sort_by
  other_sources identity_binding bindings =
      map (λ e. e.1)
        (keep (λ e. not (e.0 == identity_binding.source_name)) (sort_by by_name bindings))

abbrev pub link : SingleSourceQueryBinding → SingleSourceQueryBinding → LogicalIdLink
link a b = record {
  from_source = a.source_name;
  from_logical_id = a.logical_id;
  to_source = b.source_name;
  to_logical_id = b.logical_id;
}

abbrev pub shape_of : List SingleSourceQueryBinding → QuerySourceShape
shape_of [] = single_source
shape_of (_ ∷ _) = multi_source

-- `bindings.get(resolution.identity_source)`
abbrev pub identity_of :
    Dict SingleSourceQueryBinding → DatasetResolution → Result SingleSourceQueryBinding
identity_of bindings resolution = elim (get bindings resolution.identity_source) [
  | none ↦ crash assertion_error
  | some binding ↦ ok binding
]

module _ {V F : Type 0} (query : BoundQuery V F) (catalog : Catalog) (terms : TermRegistry) where
  -- the rest, once the dataset has a resolution that owns `id`
  unfoldable pub resolve_with : DatasetResolution → Result (SourceResolvedQuery V F)
  unfolding collect_field_uses group_by_source resolve_bindings other_sources extra_names each
      resolve_source_binding sort_by
  resolve_with resolution = do
    field_uses ← collect_field_uses query terms
    source_fields ← group_by_source query catalog resolution field_uses []
    bindings ← resolve_bindings query catalog source_fields
    identity_binding ← identity_of bindings resolution
    let others = other_sources query catalog identity_binding bindings
    extra ← extra_names query catalog terms bindings (extension_terms? query.where_)
    extension_sources ←
        each (λ (name, fields). resolve_source_binding query catalog name [] fields)
          (sort_by by_name extra)
    ok (record {
      query = query;
      shape = shape_of others;
      identity_source = identity_binding;
      sources = identity_binding ∷ others;
      logical_id_links = map (link identity_binding) others;
      extension_sources = extension_sources;
    })

  unfoldable pub owns_id : DatasetResolution → Bool
  owns_id resolution = elim (get resolution.field_sources "id") [
    | none ↦ false
    | some owner ↦ owner == resolution.identity_source
  ]

  unfoldable pub resolve_active : Result (SourceResolvedQuery V F)
  unfolding resolve_with owns_id
  resolve_active = do
    resolution ← bound_or_fail (some "from.dataset") (get catalog.resolution query.root.name)
    require (owns_id resolution) source_binding_unavailable
        ("resolution." <> query.root.name <> ".field_sources.id")
    resolve_with resolution

  unfoldable pub resolve_query_sources : Digests → Result (SourceResolvedQuery V F)
  unfolding resolve_active
  resolve_query_sources digests =
      if query.catalog_fingerprint == digests.of_catalog catalog
      then resolve_active
      else fail (record { code = query_catalog_mismatch; source_name = none; location = none })
