-- ===== src/Inspection.antt =====
-- src/yodb/inspection/contracts.py and registry.py: the facts an adapter reports about one source,
-- the report of a validator, and the adapters that are registered for each kind of source. Facts
-- that no code of the repository reads are left out. Times are microseconds.
pub mod Postgres
use yo_db.Base.{ℕ, String, Bool, true, false, not, Option, none, some, List, [], ◌∷◌, ◌++◌}
use yo_db.Base.Lists.{any}
use yo_db.Base.Dicts.{Dict}
use yo_db.Base.Strings.{◌==◌}
use yo_db.Base.Tests.{if◌then◌else◌}
use yo_db.Errors.{
  Result, ok, fail, crash, value_error, source_kind_unsupported, ErrorDetail, PythonError, ◌>>=◌,
  ◌>>◌,
}
use yo_db.Catalog.{SourceKind, postgres, neo4j, SourceSpec, Catalog}

pub data ResourceKind : Type 0 where
  table view node_label relationship_type : ResourceKind

pub data FindingSeverity : Type 0 where
  error warning : FindingSeverity

pub record InspectionRequest : Type 0 where
  pub source_name : String
  pub source : SourceSpec

pub record PhysicalField : Type 0 where
  pub name : String
  pub native_type : String
  pub type_family : String

pub record PhysicalKey : Type 0 where
  pub name : String
  pub fields : List String

pub record PhysicalResource : Type 0 where
  pub name : String
  pub kind : ResourceKind
  pub fields : Dict PhysicalField
  pub primary_key : Option PhysicalKey
  pub unique_constraints : List PhysicalKey

pub record SourceInspection : Type 0 where
  pub source_name : String
  pub source_kind : SourceKind
  pub inspected_at : ℕ
  pub resources : Dict PhysicalResource

pub record ValidationFinding : Type 0 where
  pub severity : FindingSeverity
  pub code : String
  pub location : String

pub record SourceValidationReport : Type 0 where
  pub source_name : String
  pub inspected_at : ℕ
  pub findings : List ValidationFinding

abbrev pub is_error : FindingSeverity → Bool
is_error error = true
is_error warning = false

-- `SourceValidationReport.is_valid`
unfoldable pub is_valid : SourceValidationReport → Bool
is_valid report = not (any (λ finding. is_error finding.severity) report.findings)

-- `Field(min_length=1)` of a text, whose refusal is a ValueError
abbrev pub min_length : String → Result (Unit {0})
min_length text = if text == "" then crash value_error else ok tt

-- The model `InspectionRequest`, with the check of its name
unfoldable pub inspection_request : String → SourceSpec → Result InspectionRequest
inspection_request source_name source = do
  min_length source_name
  ok (record { source_name = source_name; source = source })

-- The protocols `SourceInspector` and `SourceCatalogValidator`, which an adapter implements
pub record InspectionAdapterBinding : Type 0 where
  pub source_kind : SourceKind
  pub inspect : InspectionRequest → Result SourceInspection
  pub validate : Catalog → SourceInspection → Result SourceValidationReport

-- `left is right` of two kinds of source
abbrev pub same_kind : SourceKind → SourceKind → Bool
same_kind postgres postgres = true
same_kind neo4j neo4j = true
same_kind _ _ = false

-- `SourceInspectionRegistry`: the bindings in the order they were registered
abbrev pub SourceInspectionRegistry : Type 0
SourceInspectionRegistry = List InspectionAdapterBinding

abbrev find_binding : SourceInspectionRegistry → SourceKind → Option InspectionAdapterBinding
find_binding [] kind = none
find_binding (b ∷ bs) kind = if same_kind b.source_kind kind then some b else find_binding bs kind

abbrev is_registered : Option InspectionAdapterBinding → Bool
is_registered none = false
is_registered (some b) = true

-- `SourceInspectionRegistry.__init__`, from the bindings that are registered already
unfoldable pub register_bindings :
    SourceInspectionRegistry → List InspectionAdapterBinding → Result SourceInspectionRegistry
register_bindings bindings [] = ok bindings
register_bindings bindings (b ∷ bs) =
    let rest = register_bindings (bindings ++ (b ∷ [])) bs in
    if is_registered (find_binding bindings b.source_kind) then crash value_error else rest

abbrev bound_or_unsupported : Option InspectionAdapterBinding → Result InspectionAdapterBinding
bound_or_unsupported none =
    fail (record { code = source_kind_unsupported; source_name = none; location = none })
bound_or_unsupported (some b) = ok b

-- `SourceInspectionRegistry.binding_for`
unfoldable pub binding_for : SourceInspectionRegistry → SourceKind → Result InspectionAdapterBinding
binding_for registry kind = bound_or_unsupported (find_binding registry kind)
