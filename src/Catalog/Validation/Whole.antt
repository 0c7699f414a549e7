-- ===== src/Catalog/Validation/Whole.antt =====
-- What `load_catalog` of src/yodb/catalog.py guarantees of a catalog.
use yo_db.Base.{String, ◌≡◌, true, not, Option, none, some, [], ◌∷◌, arith}
use yo_db.Base.Lists.{All, all}
use yo_db.Base.Dicts.{Dict, contains, get, has, keys, has-get, get-has, All-get}
use yo_db.Base.Strings.{◌==◌, is_blank}
use yo_db.Errors.{for_each, item}
use yo_db.Catalog.{
  id, FieldSpec, DatasetSpec, DatasetResolution, RelationshipImplementation, RelationshipSpec,
  Catalog, is_visible, same_type,
}
use yo_db.Catalog.Validation.{
  check, found, requires_public_id, validate_named_mapping, validate_identifier, validate_source,
  claim_sources, validate_embedding_owners, validate_source_field, same_names, validate_resolution,
  validate_resolutions, is_graph, validate_graph_implementation, compare_types, validate_kind,
  validate_implementation, validate_relationship, validate_relationships, validate_catalog,
  load_catalog,
}
use yo_db.Catalog.Validation.Checked.{
  IsIdentifier, Checked, Checked-bind, Checked-weaken, Checked-check, Checked-found, Checked-item,
  Checked-each, Checked-for_each, names-Checked,
}
use yo_db.Catalog.Validation.Valid.{
  IsRepresentation, IsSource, IsMapped, IsResolved, IsKnown, HaveIds, source_field-Checked,
  IsSource-Checked, sources_claimed, resolution-Checked,
}

keys-IsKnown :
    (catalog : Catalog) (rs : Dict DatasetResolution)
    → all (λ n. contains n (keys catalog.datasets)) (keys rs) ≡ true
    → All (IsKnown catalog) rs
keys-IsKnown catalog [] h = tt
keys-IsKnown catalog ((n, r) ∷ rs) h =
    (has-get catalog.datasets n (ground (arith, h)), keys-IsKnown catalog rs (ground (arith, h)))

-- Every dataset has a resolution and every resolution holds.
pub record AreResolved (catalog : Catalog) : Type 0 where
  pub covered : same_names (keys catalog.resolution) (keys catalog.datasets) ≡ true
  pub resolved : All (IsResolved catalog) catalog.resolution

resolutions-Checked :
    (catalog : Catalog)
    → HaveIds catalog
    → Checked (λ _. AreResolved catalog) (validate_resolutions catalog)
unfolding validate_resolutions
resolutions-Checked catalog ids =
    let names = same_names (keys catalog.resolution) (keys catalog.datasets) in
    Checked-bind (λ _. names ≡ true) (λ _. AreResolved catalog) (check names) _
      (Checked-check names)
      λ _ h.
        Checked-weaken (λ _. All (IsResolved catalog) catalog.resolution) (λ _. AreResolved catalog)
          (for_each (validate_resolution catalog) catalog.resolution)
          (Checked-for_each (IsResolved catalog) (IsKnown catalog) (validate_resolution catalog)
            catalog.resolution (resolution-Checked catalog ids)
            (keys-IsKnown catalog catalog.resolution (ground (arith, h))))
          λ _ k. record { covered = h; resolved = k }

-- Both endpoints are mapped.
pub record IsImplemented (catalog : Catalog) (r : RelationshipSpec) (i : RelationshipImplementation)
    : Type 0 where
  pub from_mapped : IsMapped catalog r.from_dataset i.from_endpoint.source i.from_endpoint.field
  pub to_mapped : IsMapped catalog r.to_dataset i.to_endpoint.source i.to_endpoint.field

-- A field that a source maps is a field of the dataset.
mapped-logical :
    (catalog : Catalog) (dataset source field : String)
    → All (IsSource catalog) catalog.sources
    → IsMapped catalog dataset source field
    → (d : DatasetSpec) × ((get catalog.datasets dataset ≡ some d)
        × ((f : FieldSpec) × (get d.fields field ≡ some f)))
mapped-logical catalog dataset source field sources m =
    let s = All-get (IsSource catalog) catalog.sources source sources m.known in
    let r = All-get (IsRepresentation catalog) m.owner.datasets dataset s m.represented in
    (
      r.dataset,
      (
        r.declared,
        has-get r.dataset.fields field (
            All-get (λ f. has r.dataset.fields f.0 ≡ true) m.representation.fields field r.logical
              (has-get m.representation.fields field m.mapped).1),
      ),
    )

-- The lookups that the checks of an implementation make succeed, since both endpoints are mapped.
module _ (catalog : Catalog) (sources : All (IsSource catalog) catalog.sources)
    (r : RelationshipSpec) where
  graph-Checked :
      (i : RelationshipImplementation) (edge : String)
      → IsImplemented catalog r i
      → Checked (λ _. Unit) (validate_graph_implementation catalog r i edge)
  unfolding validate_graph_implementation
  graph-Checked i edge h =
      let same = i.from_endpoint.source == i.to_endpoint.source in
      Checked-bind _ (λ _. Unit) (check (not (is_blank edge))) _
        (Checked-check (not (is_blank edge)))
        λ _ _.
          Checked-bind _ (λ _. Unit) (check same) _ (Checked-check same)
            λ _ _.
              Checked-bind (λ s. get catalog.sources i.from_endpoint.source ≡ some s) (λ _. Unit)
                (item (get catalog.sources i.from_endpoint.source)) _
                (Checked-item (get catalog.sources i.from_endpoint.source)
                  (h.from_mapped.owner, h.from_mapped.known))
                λ s _.
                  Checked-bind _ (λ _. Unit) (check (is_graph s.kind)) _
                    (Checked-check (is_graph s.kind))
                    λ _ _.
                      Checked-bind _ (λ _. Unit) (check (has s.datasets r.from_dataset)) _
                        (Checked-check (has s.datasets r.from_dataset))
                        λ _ _.
                          Checked-weaken _ (λ _. Unit) (check (has s.datasets r.to_dataset))
                            (Checked-check (has s.datasets r.to_dataset)) λ _ _. tt

  types-Checked :
      (i : RelationshipImplementation)
      → IsImplemented catalog r i
      → Checked (λ _. Unit) (compare_types catalog r i)
  unfolding compare_types
  types-Checked i h =
      let (d, (hd, (f, hf))) =
        mapped-logical catalog r.from_dataset i.from_endpoint.source i.from_endpoint.field sources
          h.from_mapped in
      let (e, (he, (g, hg))) =
        mapped-logical catalog r.to_dataset i.to_endpoint.source i.to_endpoint.field sources
          h.to_mapped in
      rw (hd, hf, he, hg)
        (Checked-weaken _ (λ _. Unit) (check (same_type f.type g.type))
          (Checked-check (same_type f.type g.type)) λ _ _. tt)

  kind-Checked :
      (i : RelationshipImplementation) (edge : Option String)
      → IsImplemented catalog r i
      → Checked (λ _. Unit) (validate_kind catalog r i edge)
  unfolding validate_kind
  kind-Checked i none h = types-Checked i h
  kind-Checked i (some edge) h = graph-Checked i edge h

  implementation-Checked :
      (i : RelationshipImplementation)
      → Checked (λ _. IsImplemented catalog r i) (validate_implementation catalog r i)
  unfolding validate_implementation
  implementation-Checked i =
      let Goal = λ (u : Unit {0}). IsImplemented catalog r i in
      let a = i.from_endpoint in
      let b = i.to_endpoint in
      Checked-bind (λ _. IsMapped catalog r.from_dataset a.source a.field) Goal
        (validate_source_field catalog r.from_dataset a.source a.field) _
        (source_field-Checked catalog r.from_dataset a.source a.field)
        λ _ from_mapped.
          Checked-bind (λ _. IsMapped catalog r.to_dataset b.source b.field) Goal
            (validate_source_field catalog r.to_dataset b.source b.field) _
            (source_field-Checked catalog r.to_dataset b.source b.field)
            λ _ to_mapped.
              let both : IsImplemented catalog r i = record {
                from_mapped = from_mapped;
                to_mapped = to_mapped;
              } in
              Checked-weaken (λ _. Unit) Goal (validate_kind catalog r i i.edge_type)
                (kind-Checked i i.edge_type both) λ _ _. both

-- Every implementation of the relationship has mapped endpoints.
abbrev pub IsRelated : Catalog → String × RelationshipSpec → Type 0
IsRelated catalog entry = All (IsImplemented catalog entry.1) entry.1.implementations

relationship-Checked :
    (catalog : Catalog)
    → All (IsSource catalog) catalog.sources
    → (entry : String × RelationshipSpec)
    → Checked (λ _. IsRelated catalog entry) (validate_relationship catalog entry)
unfolding validate_relationship
relationship-Checked catalog sources (name, r) =
    let Goal = λ (u : Unit {0}). IsRelated catalog (name, r) in
    Checked-bind _ Goal (check (has catalog.datasets r.from_dataset)) _
      (Checked-check (has catalog.datasets r.from_dataset))
      λ _ _.
        Checked-bind _ Goal (check (has catalog.datasets r.to_dataset)) _
          (Checked-check (has catalog.datasets r.to_dataset))
          λ _ _.
            Checked-each (IsImplemented catalog r) (validate_implementation catalog r)
              r.implementations (implementation-Checked catalog sources r)

-- What the rest of the program relies on of the active catalog.
pub record IsValid (catalog : Catalog) : Type 0 where
  pub ids : HaveIds catalog
  pub named : All IsIdentifier (keys catalog.sources)
  pub sources : All (IsSource catalog) catalog.sources
  pub resolutions : AreResolved catalog
  pub relationships : All (IsRelated catalog) catalog.relationships

catalog-Checked :
    (catalog : Catalog)
    → HaveIds catalog
    → Checked (λ _. IsValid catalog) (validate_catalog catalog)
unfolding validate_catalog validate_identifier validate_embedding_owners validate_relationships
catalog-Checked catalog ids =
    let Goal = λ (u : Unit {0}). IsValid catalog in
    Checked-bind _ Goal (validate_identifier catalog.metadata.name) _ (Checked-check _) λ _ _.
      Checked-bind (λ _. All IsIdentifier (keys catalog.datasets)) Goal
        (validate_named_mapping (keys catalog.datasets)) _ (names-Checked (keys catalog.datasets))
        λ _ _.
          Checked-bind (λ _. All IsIdentifier (keys catalog.sources)) Goal
            (validate_named_mapping (keys catalog.sources)) _ (names-Checked (keys catalog.sources))
            λ _ named.
              Checked-bind (λ _. All IsIdentifier (keys catalog.relationships)) Goal
                (validate_named_mapping (keys catalog.relationships)) _
                (names-Checked (keys catalog.relationships))
                λ _ _.
                  Checked-bind (λ _. All (λ _. Unit) catalog.datasets) Goal
                    (for_each (λ (name, dataset). validate_named_mapping (keys dataset.fields))
                      catalog.datasets)
                    _
                    (Checked-each (λ _. Unit) _ catalog.datasets
                      λ e.
                        Checked-weaken _ (λ _. Unit) (validate_named_mapping (keys e.1.fields))
                          (names-Checked (keys e.1.fields)) λ _ _. tt)
                    λ _ _.
                      Checked-bind (λ _. All (IsSource catalog) catalog.sources) Goal
                        (for_each (validate_source catalog) catalog.sources) _
                        (Checked-each (IsSource catalog) (validate_source catalog) catalog.sources
                          (IsSource-Checked catalog))
                        λ _ sources.
                          Checked-bind (λ _. Unit) Goal (validate_embedding_owners catalog) _
                            (Checked-bind (λ _. Unit) (λ _. Unit) (claim_sources catalog.sources [])
                              _ (sources_claimed catalog.sources []) λ _ _. tt)
                            λ _ _.
                              Checked-bind (λ _. AreResolved catalog) Goal
                                (validate_resolutions catalog) _ (resolutions-Checked catalog ids)
                                λ _ resolutions.
                                  Checked-weaken
                                    (λ _. All (IsRelated catalog) catalog.relationships) Goal
                                    (validate_relationships catalog)
                                    (Checked-each (IsRelated catalog)
                                      (validate_relationship catalog) catalog.relationships
                                      (relationship-Checked catalog sources))
                                    λ _ relationships. record {
                                      ids = ids;
                                      named = named;
                                      sources = sources;
                                      resolutions = resolutions;
                                      relationships = relationships;
                                    }

id-Checked : (d : DatasetSpec) → Checked (λ _. has d.fields "id" ≡ true) (requires_public_id d)
unfolding requires_public_id
id-Checked d =
    let Goal = λ (u : Unit {0}). has d.fields "id" ≡ true in
    Checked-bind (λ f. get d.fields "id" ≡ some f) Goal (found (get d.fields "id")) _
      (Checked-found (get d.fields "id"))
      λ f h.
        Checked-bind _ Goal (check (same_type f.type id)) _ (Checked-check (same_type f.type id))
          λ _ _.
            Checked-weaken _ Goal (check (is_visible f.visibility))
              (Checked-check (is_visible f.visibility)) λ _ _. get-has d.fields "id" h

-- `load_catalog` either refuses the catalog with a CatalogValidationError, so that no lookup of its
-- checks is a KeyError, or returns it valid: the names of sources are identifiers, every
-- representation maps fields of its dataset, every
-- dataset has a resolution whose owners map their fields and whose identity source maps `id` as an
-- identity and owns it, and every endpoint of a relationship is mapped.
pub load_catalog-IsValid : (catalog : Catalog) → Checked IsValid (load_catalog catalog)
unfolding load_catalog
load_catalog-IsValid catalog =
    Checked-bind (λ _. HaveIds catalog) IsValid
      (for_each (λ (name, dataset). requires_public_id dataset) catalog.datasets) _
      (Checked-each (λ e. has e.1.fields "id" ≡ true) _ catalog.datasets λ e. id-Checked e.1)
      λ _ ids.
        Checked-bind (λ _. IsValid catalog) IsValid (validate_catalog catalog) _
          (catalog-Checked catalog ids) λ _ valid. valid
