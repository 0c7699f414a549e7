-- ===== src/Catalog/Validation.antt =====
-- src/yodb/catalog.py: the checks of a catalog that was read. Every refusal is one exception,
-- `CatalogValidationError`, whose text is not modelled.
pub mod Checked
pub mod Valid
pub mod Whole
use yo_db.Base.{String, Bool, true, false, not, ◌&&◌, ◌||◌, Option, none, some, List, [], ◌∷◌}
use yo_db.Base.Lists.{all}
use yo_db.Base.Dicts.{Dict, contains, get, has, keys}
use yo_db.Base.Strings.{◌==◌, is_blank, is_identifier}
use yo_db.Base.Tests.{if◌then◌else◌}
use yo_db.Errors.{Result, ok, crash, catalog_validation_error, ◌>>=◌, ◌>>◌, for_each, item}
use yo_db.Catalog.{
  id, neo4j, FieldSpec, DatasetSpec, SourceFieldSpec, EmbeddingBinding, SourceDatasetSpec,
  SourceSpec, DatasetResolution, RelationshipImplementation, RelationshipSpec, SourceKind, postgres,
  Catalog, is_text_type, is_visible, same_type,
}

-- `if not test: raise CatalogValidationError(…)`
abbrev pub check : Bool → Result (Unit {0})
check true = ok tt
check false = crash catalog_validation_error

-- `d.get(k)`, and the refusal of a missing key
abbrev pub found {ℓ} : {V : Type ℓ} → Option V → Result V
found none = crash catalog_validation_error
found (some v) = ok v

-- `DatasetSpec.requires_public_id`, whose ValueError pydantic and `_load_document` pass on
unfoldable pub requires_public_id : DatasetSpec → Result (Unit {0})
requires_public_id dataset = do
  identifier ← found (get dataset.fields "id")
  check (same_type identifier.type id)
  check (is_visible identifier.visibility)

-- `_validate_identifier`
unfoldable pub validate_identifier : String → Result (Unit {0})
unfolding is_identifier
validate_identifier value = check (is_identifier value)

-- `_validate_named_mapping`
unfoldable pub validate_named_mapping : List String → Result (Unit {0})
unfolding validate_identifier for_each
validate_named_mapping [] = crash catalog_validation_error
validate_named_mapping (n ∷ ns) = for_each validate_identifier (n ∷ ns)

validate_field_binding : DatasetSpec → String × SourceFieldSpec → Result (Unit {0})
unfolding is_blank
validate_field_binding dataset (name, binding) = do
  check (has dataset.fields name)
  check (not (is_blank binding.physical_name))

validate_embedding : DatasetSpec → SourceDatasetSpec → String × EmbeddingBinding → Result (Unit {0})
unfolding is_blank
validate_embedding dataset representation (name, embedding) = do
  field ← found (get dataset.fields name)
  check (has representation.fields name || contains "id" representation.identity)
  check (field.semantic_eligible && is_text_type field.type)
  check (
      not (is_blank embedding.column)
      && not (is_blank embedding.model)
      && not (is_blank embedding.version))

-- the body of the loop over the datasets of a source
validate_representation : Catalog → String × SourceDatasetSpec → Result (Unit {0})
unfolding is_blank validate_named_mapping for_each validate_field_binding validate_embedding
validate_representation catalog (name, representation) = do
  dataset ← found (get catalog.datasets name)
  check (not (is_blank representation.resource))
  validate_named_mapping (keys representation.fields)
  for_each (validate_field_binding dataset) representation.fields
  for_each (λ identity. check (has representation.fields identity)) representation.identity
  for_each (validate_embedding dataset representation) representation.embeddings

unfoldable pub validate_source : Catalog → String × SourceSpec → Result (Unit {0})
unfolding is_blank validate_named_mapping for_each validate_representation
validate_source catalog (name, source) = do
  check (not (is_blank source.connection_ref))
  validate_named_mapping (keys source.datasets)
  for_each (validate_representation catalog) source.datasets

abbrev is_claimed : String → String → List (String × String) → Bool
is_claimed dataset field [] = false
is_claimed dataset field ((d, f) ∷ seen) =
    (d == dataset && f == field) || is_claimed dataset field seen

-- `_validate_embedding_owners`, one loop of it per function; the keys of `seen` are passed on
claim_fields : String → List String → List (String × String) → Result (List (String × String))
claim_fields dataset [] seen = ok seen
claim_fields dataset (field ∷ fields) seen =
    let rest = claim_fields dataset fields ((dataset, field) ∷ seen) in
    if is_claimed dataset field seen then crash catalog_validation_error else rest

claim_representations :
    Dict SourceDatasetSpec → List (String × String) → Result (List (String × String))
unfolding claim_fields
claim_representations [] seen = ok seen
claim_representations ((dataset, representation) ∷ more) seen = do
  now ← claim_fields dataset (keys representation.embeddings) seen
  claim_representations more now

unfoldable pub claim_sources :
    Dict SourceSpec → List (String × String) → Result (List (String × String))
unfolding claim_representations
claim_sources [] seen = ok seen
claim_sources ((name, source) ∷ sources) seen = do
  now ← claim_representations source.datasets seen
  claim_sources sources now

unfoldable pub validate_embedding_owners : Catalog → Result (Unit {0})
unfolding claim_sources
validate_embedding_owners catalog = do seen ← claim_sources catalog.sources []; ok tt

-- `_validate_source_field`
unfoldable pub validate_source_field : Catalog → String → String → String → Result (Unit {0})
validate_source_field catalog dataset source field = do
  owner ← found (get catalog.sources source)
  representation ← found (get owner.datasets dataset)
  check (has representation.fields field)

-- `set(left) == set(right)`
abbrev pub same_names : List String → List String → Bool
same_names left right = all (λ n. contains n right) left && all (λ n. contains n left) right

-- the body of the loop of `_validate_resolutions`
unfoldable pub validate_resolution : Catalog → String × DatasetResolution → Result (Unit {0})
unfolding validate_source_field for_each
validate_resolution catalog (name, resolution) = do
  validate_source_field catalog name resolution.identity_source "id"
  source ← item (get catalog.sources resolution.identity_source)
  representation ← item (get source.datasets name)
  check (contains "id" representation.identity)
  dataset ← item (get catalog.datasets name)
  check (same_names (keys dataset.fields) (keys resolution.field_sources))
  owner ← item (get resolution.field_sources "id")
  check (owner == resolution.identity_source)
  for_each (λ (field, source). validate_source_field catalog name source field)
      resolution.field_sources

unfoldable pub validate_resolutions : Catalog → Result (Unit {0})
unfolding for_each validate_resolution
validate_resolutions catalog = do
  check (same_names (keys catalog.resolution) (keys catalog.datasets))
  for_each (validate_resolution catalog) catalog.resolution

abbrev is_graph : SourceKind → Bool
is_graph neo4j = true
is_graph postgres = false

-- `_validate_graph_implementation`
validate_graph_implementation :
    Catalog → RelationshipSpec → RelationshipImplementation → String → Result (Unit {0})
unfolding is_blank
validate_graph_implementation catalog relationship implementation edge_type = do
  check (not (is_blank edge_type))
  check (implementation.from_endpoint.source == implementation.to_endpoint.source)
  source ← item (get catalog.sources implementation.from_endpoint.source)
  check (is_graph source.kind)
  check (has source.datasets relationship.from_dataset)
  check (has source.datasets relationship.to_dataset)

-- without an edge type, the two fields have one type
compare_types : Catalog → RelationshipSpec → RelationshipImplementation → Result (Unit {0})
compare_types catalog relationship implementation = do
  from_dataset ← item (get catalog.datasets relationship.from_dataset)
  from_field ← item (get from_dataset.fields implementation.from_endpoint.field)
  to_dataset ← item (get catalog.datasets relationship.to_dataset)
  to_field ← item (get to_dataset.fields implementation.to_endpoint.field)
  check (same_type from_field.type to_field.type)

validate_kind :
    Catalog → RelationshipSpec → RelationshipImplementation → Option String → Result (Unit {0})
unfolding validate_graph_implementation compare_types
validate_kind catalog relationship implementation (some edge) =
    validate_graph_implementation catalog relationship implementation edge
validate_kind catalog relationship implementation none =
    compare_types catalog relationship implementation

validate_implementation :
    Catalog → RelationshipSpec → RelationshipImplementation → Result (Unit {0})
unfolding validate_source_field validate_kind
validate_implementation catalog relationship implementation = do
  let from_endpoint = implementation.from_endpoint
  let to_endpoint = implementation.to_endpoint
  validate_source_field catalog relationship.from_dataset from_endpoint.source from_endpoint.field
  validate_source_field catalog relationship.to_dataset to_endpoint.source to_endpoint.field
  validate_kind catalog relationship implementation implementation.edge_type

validate_relationship : Catalog → String × RelationshipSpec → Result (Unit {0})
unfolding for_each validate_implementation
validate_relationship catalog (name, relationship) = do
  check (has catalog.datasets relationship.from_dataset)
  check (has catalog.datasets relationship.to_dataset)
  for_each (validate_implementation catalog relationship) relationship.implementations

unfoldable pub validate_relationships : Catalog → Result (Unit {0})
unfolding for_each validate_relationship
validate_relationships catalog = for_each (validate_relationship catalog) catalog.relationships

-- `_validate_catalog`
unfoldable pub validate_catalog : Catalog → Result (Unit {0})
unfolding validate_identifier validate_named_mapping for_each validate_source
    validate_embedding_owners validate_resolutions validate_relationships
validate_catalog catalog = do
  validate_identifier catalog.metadata.name
  validate_named_mapping (keys catalog.datasets)
  validate_named_mapping (keys catalog.sources)
  validate_named_mapping (keys catalog.relationships)
  for_each (λ (name, dataset). validate_named_mapping (keys dataset.fields)) catalog.datasets
  for_each (validate_source catalog) catalog.sources
  validate_embedding_owners catalog
  validate_resolutions catalog
  validate_relationships catalog

-- `load_catalog`, of the models that were read
unfoldable pub load_catalog : Catalog → Result Catalog
unfolding for_each requires_public_id validate_catalog
load_catalog catalog = do
  for_each (λ (name, dataset). requires_public_id dataset) catalog.datasets
  validate_catalog catalog
  ok catalog
