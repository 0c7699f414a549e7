-- ===== src/Inspection/Postgres.antt =====
-- src/yodb/inspection/postgres.py: `PostgresCatalogValidator`, which compares a catalog with the
-- facts of one PostgreSQL source. Reading the facts from the system catalogs is I/O.
pub mod Columns
pub mod Matching
use yo_db.Base.{String, Bool, true, false, not, ◌&&◌, Option, none, some, List, [], ◌∷◌, ◌++◌, map}
use yo_db.Base.Lists.{any, length}
use yo_db.Base.Dicts.{Dict, get, contains}
use yo_db.Base.Strings.{◌==◌, ◌<>◌, starts_with}
use yo_db.Base.Tests.{eqb, if◌then◌else◌}
use yo_db.Errors.{Result, ok, item, ◌>>=◌}
use yo_db.Catalog.{
  LogicalType, id, string, text, int, float, bool, timestamp, uuid, json, bytes, postgres,
  SourceFieldSpec, SourceDatasetSpec, Catalog, SourceSpec,
}
use yo_db.Inspection.{
  ResourceKind, table, view, error, PhysicalKey, PhysicalField, PhysicalResource, SourceInspection,
  ValidationFinding, SourceValidationReport, same_kind,
}

-- `_error`
abbrev finding : String → String → ValidationFinding
finding code location = record { severity = error; code = code; location = location }

-- `_postgres_type_family` of a name in lower case
unfoldable pub postgres_type_family : String → String
postgres_type_family normalized =
    if starts_with normalized "vector"
    then "vector"
    else if contains normalized
        ("smallint" ∷ "integer" ∷ "bigint" ∷ "smallserial" ∷ "serial" ∷ "bigserial" ∷ [])
    then "int"
    else if any (starts_with normalized) ("numeric" ∷ "decimal" ∷ "real" ∷ "double precision" ∷ [])
    then "float"
    else if contains normalized ("boolean" ∷ "bool" ∷ [])
    then "bool"
    else if normalized == "uuid"
    then "uuid"
    else if contains normalized ("json" ∷ "jsonb" ∷ [])
    then "json"
    else if normalized == "bytea"
    then "bytes"
    else if any (starts_with normalized) ("timestamp" ∷ "time" ∷ "date" ∷ [])
    then "timestamp"
    else if any (starts_with normalized) ("character" ∷ "varchar" ∷ "text" ∷ "citext" ∷ "name" ∷ [])
    then "string"
    else "other"

abbrev compatible_families : LogicalType → List String
compatible_families id = "int" ∷ "string" ∷ "uuid" ∷ []
compatible_families string = "string" ∷ []
compatible_families text = "string" ∷ []
compatible_families int = "int" ∷ []
compatible_families float = "int" ∷ "float" ∷ []
compatible_families bool = "bool" ∷ []
compatible_families timestamp = "timestamp" ∷ []
compatible_families uuid = "uuid" ∷ []
compatible_families json = "json" ∷ []
compatible_families bytes = "bytes" ∷ []

-- `_type_is_compatible`
unfoldable pub type_is_compatible : LogicalType → String → Bool
type_is_compatible logical_type physical_family =
    contains physical_family (compatible_families logical_type)

-- What the loop over the fields of a representation collects
abbrev pub Checks : Type 0
Checks = List ValidationFinding × List String

abbrev pub type_findings : LogicalType → PhysicalField → String → List ValidationFinding
unfolding type_is_compatible
type_findings logical_type physical_field location =
    if type_is_compatible logical_type physical_field.type_family
    then []
    else (finding "field_type_incompatible" location ∷ [])

-- `catalog.datasets[dataset_name].fields[field_name].type`
unfoldable pub logical_type_of : Catalog → String → String → Result LogicalType
logical_type_of catalog dataset_name field_name = do
  dataset ← item (get catalog.datasets dataset_name)
  field ← item (get dataset.fields field_name)
  ok field.type

-- The body of the loop over the fields
unfoldable pub validate_physical_field :
    Catalog
    → String
    → String
    → SourceDatasetSpec
    → Option PhysicalField
    → String
    → SourceFieldSpec
    → Result Checks
unfolding logical_type_of type_findings
validate_physical_field catalog location dataset_name representation none field_name binding =
    ok (
      finding "field_not_found" (location <> ".fields." <> field_name <> ".physical_name") ∷ [],
      [],
    )
validate_physical_field catalog location dataset_name representation (some field) field_name
      binding =
    do
      logical_type ← logical_type_of catalog dataset_name field_name
      ok (
        type_findings logical_type field (location <> ".fields." <> field_name <> ".physical_name"),
        if contains field_name representation.identity then binding.physical_name ∷ [] else [],
      )

unfoldable pub validate_physical_fields :
    Catalog
    → String
    → String
    → SourceDatasetSpec
    → PhysicalResource
    → Dict SourceFieldSpec
    → Result Checks
unfolding validate_physical_field
validate_physical_fields catalog location dataset_name representation resource [] = ok ([], [])
validate_physical_fields catalog location dataset_name representation resource
      ((field_name, binding) ∷ fields) =
    do
      checks ←
          validate_physical_field catalog location dataset_name representation
            (get resource.fields binding.physical_name) field_name binding
      rest ← validate_physical_fields catalog location dataset_name representation resource fields
      ok (checks.0 ++ rest.0, checks.1 ++ rest.1)

-- `left == right` of two tuples of texts
abbrev pub same_fields : List String → List String → Bool
same_fields [] [] = true
same_fields (x ∷ xs) (y ∷ ys) = x == y && same_fields xs ys
same_fields _ _ = false

abbrev primary_fields : Option PhysicalKey → List String
primary_fields none = []
primary_fields (some key) = key.fields

-- `known_keys`
unfoldable pub known_keys : PhysicalResource → List (List String)
known_keys resource =
    primary_fields resource.primary_key ∷ map (λ key. key.fields) resource.unique_constraints

abbrev pub identity_findings :
    String → SourceDatasetSpec → PhysicalResource → List String → List ValidationFinding
unfolding known_keys
identity_findings location representation resource physical_identity =
    if eqb (length physical_identity) (length representation.identity)
      && not (any (same_fields physical_identity) (known_keys resource))
    then (finding "identity_not_unique" (location <> ".identity") ∷ [])
    else []

abbrev pub is_relation : ResourceKind → Bool
is_relation table = true
is_relation view = true
is_relation _ = false

-- The body of the loop over the datasets, of the resource that was found
unfoldable pub validate_resource :
    Catalog
    → String
    → String
    → SourceDatasetSpec
    → Option PhysicalResource
    → Result (List ValidationFinding)
unfolding validate_physical_fields identity_findings
validate_resource catalog location dataset_name representation none =
    ok (finding "resource_not_found" (location <> ".resource") ∷ [])
validate_resource catalog location dataset_name representation (some resource) =
    if is_relation resource.kind
    then (validate_physical_fields catalog location dataset_name representation resource
          representation.fields
        >>= λ checks. ok (checks.0 ++ identity_findings location representation resource checks.1))
    else ok (finding "resource_kind_incompatible" (location <> ".resource") ∷ [])

unfoldable pub validate_datasets :
    Catalog → SourceInspection → Dict SourceDatasetSpec → Result (List ValidationFinding)
unfolding validate_resource
validate_datasets catalog inspection [] = ok []
validate_datasets catalog inspection ((dataset_name, representation) ∷ datasets) = do
  findings ←
      validate_resource catalog
        ("sources." <> inspection.source_name <> ".datasets." <> dataset_name) dataset_name
        representation (get inspection.resources representation.resource)
  rest ← validate_datasets catalog inspection datasets
  ok (findings ++ rest)

abbrev report_of : SourceInspection → List ValidationFinding → SourceValidationReport
report_of inspection findings = record {
  source_name = inspection.source_name;
  inspected_at = inspection.inspected_at;
  findings = findings;
}

abbrev validate_known :
    Catalog → SourceInspection → Option SourceSpec → Result SourceValidationReport
unfolding validate_datasets
validate_known catalog inspection none = ok (
    report_of inspection
      (finding "catalog_source_not_found" ("sources." <> inspection.source_name) ∷ []))
validate_known catalog inspection (some source) =
    if same_kind source.kind postgres && same_kind inspection.source_kind postgres
    then (validate_datasets catalog inspection source.datasets >>= λ findings.
        ok (report_of inspection findings))
    else ok (
        report_of inspection
          (finding "source_kind_mismatch" ("sources." <> inspection.source_name <> ".kind") ∷ []))

-- `PostgresCatalogValidator.validate`
unfoldable pub validate : Catalog → SourceInspection → Result SourceValidationReport
unfolding validate_known
validate catalog inspection =
    validate_known catalog inspection (get catalog.sources inspection.source_name)
