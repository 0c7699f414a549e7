-- ===== src/Runtime.antt =====
-- src/yodb/runtime/contracts.py and service.py: the catalog that is active in one process, and how
-- a refresh loads, inspects and replaces it. The loader and the adapters are interfaces, called
-- afresh at each refresh; `==` of two evaluations is pydantic's. Times are microseconds.
pub mod Evaluating
pub mod Refreshing
pub mod Reachable
use yo_db.Base.{ℕ, String, Bool, true, false, not, ◌&&◌, ◌||◌, Option, none, some, List, [], ◌∷◌}
use yo_db.Base.Lists.{all}
use yo_db.Base.Dicts.{Dict, put, keys}
use yo_db.Base.Strings.{◌==◌}
use yo_db.Base.Tests.{if◌then◌else◌}
use yo_db.Errors.{
  ErrorDetail, PythonError, catalog_validation_error, value_error, Result, ok, fail, crash,
  source_inspection_failed, catalog_load_failed, catalog_runtime_uninitialized, ◌>>=◌, ◌>>◌,
}
use yo_db.Catalog.{SourceSpec, Catalog}
use yo_db.Catalog.Validation.{same_names}
use yo_db.Inspection.{
  SourceInspection, SourceValidationReport, SourceInspectionRegistry, is_valid, min_length,
  inspection_request, binding_for, same_kind,
}

pub data SourceRuntimeStatus : Type 0 where
  valid invalid inspection_failed : SourceRuntimeStatus

pub data RefreshStatus : Type 0 where
  activated rejected load_failed : RefreshStatus

pub record SourceRuntimeState : Type 0 where
  pub source_name : String
  pub status : SourceRuntimeStatus
  pub inspection : Option SourceInspection
  pub validation : Option SourceValidationReport
  pub error : Option ErrorDetail

abbrev consistent_outcome :
    SourceRuntimeStatus
    → Option SourceInspection
    → Option SourceValidationReport
    → Option ErrorDetail
    → Bool
unfolding is_valid
consistent_outcome inspection_failed none none (some e) = true
consistent_outcome valid (some i) (some v) none = is_valid v
consistent_outcome invalid (some i) (some v) e = not (is_valid v)
consistent_outcome _ _ _ _ = false

-- `SourceRuntimeState.requires_consistent_outcome`
unfoldable pub is_consistent_outcome : SourceRuntimeState → Bool
unfolding consistent_outcome
is_consistent_outcome state =
    consistent_outcome state.status state.inspection state.validation state.error

-- The model `SourceRuntimeState`, with its checks
unfoldable pub source_runtime_state : SourceRuntimeState → Result SourceRuntimeState
unfolding is_consistent_outcome
source_runtime_state state = do
  min_length state.source_name
  if is_consistent_outcome state then ok state else crash value_error

-- `SourceRuntimeState.is_healthy`
abbrev pub is_healthy : SourceRuntimeState → Bool
is_healthy state = elim state.status [ valid ↦ true | _ ↦ false ]

pub record CatalogEvaluation : Type 0 where
  pub catalog : Catalog
  pub evaluated_at : ℕ
  pub sources : Dict SourceRuntimeState

-- `CatalogEvaluation.contains_every_configured_source`
unfoldable pub contains_every_configured_source : CatalogEvaluation → Bool
contains_every_configured_source evaluation =
    same_names (keys evaluation.catalog.sources) (keys evaluation.sources)
    && all (λ (name, state). state.source_name == name) evaluation.sources

-- The model `CatalogEvaluation`, with its check
unfoldable pub catalog_evaluation : CatalogEvaluation → Result CatalogEvaluation
unfolding contains_every_configured_source
catalog_evaluation evaluation =
    if contains_every_configured_source evaluation then ok evaluation else crash value_error

-- `CatalogEvaluation.is_activatable`
unfoldable pub is_activatable : CatalogEvaluation → Bool
is_activatable evaluation = all (λ (name, state). is_healthy state) evaluation.sources

pub record CatalogRefreshResult : Type 0 where
  pub status : RefreshStatus
  pub attempted_at : ℕ
  pub candidate : Option CatalogEvaluation
  pub active : Option CatalogEvaluation
  pub error : Option ErrorDetail

-- What the coordinator calls: the adapters, and `==` of two models
pub record RuntimeServices : Type 0 where
  pub registry : SourceInspectionRegistry
  pub same_evaluation : CatalogEvaluation → CatalogEvaluation → Bool

-- `_with_source`
abbrev pub with_source : ErrorDetail → String → ErrorDetail
with_source detail source_name = record {
  code = detail.code;
  source_name = some source_name;
  location = detail.location;
}

abbrev failed_inspection : String → ErrorDetail → SourceRuntimeState
failed_inspection source_name detail = record {
  source_name = source_name;
  status = inspection_failed;
  inspection = none;
  validation = none;
  error = some detail;
}

abbrev inspection_error : String → ErrorDetail
inspection_error source_name = record {
  code = source_inspection_failed;
  source_name = some source_name;
  location = none;
}

-- `raise _invalid_adapter_output(…)` unless the test holds
abbrev require_output : Bool → String → Result (Unit {0})
require_output true source_name = ok tt
require_output false source_name = fail (inspection_error source_name)

-- The status of a source by its report
abbrev inspected : String → SourceInspection → SourceValidationReport → SourceRuntimeState
unfolding is_valid
inspected source_name inspection report = record {
  source_name = source_name;
  status = if is_valid report then valid else invalid;
  inspection = some inspection;
  validation = some report;
  error = none;
}

-- The body of the `try` of `_evaluate`
unfoldable pub try_source :
    SourceInspectionRegistry → Catalog → String → SourceSpec → Result SourceRuntimeState
unfolding binding_for inspection_request source_runtime_state
try_source registry catalog source_name source = do
  adapter ← binding_for registry source.kind
  request ← inspection_request source_name source
  inspection ← adapter.inspect request
  require_output (inspection.source_name == source_name) source_name
  require_output (same_kind inspection.source_kind source.kind) source_name
  report ← adapter.validate catalog inspection
  require_output (report.source_name == source_name) source_name
  source_runtime_state (inspected source_name inspection report)

-- Its two handlers
abbrev handle_source : String → Result SourceRuntimeState → Result SourceRuntimeState
unfolding source_runtime_state
handle_source source_name (ok state) = ok state
handle_source source_name (fail detail) =
    source_runtime_state (failed_inspection source_name (with_source detail source_name))
handle_source source_name (crash python) =
    source_runtime_state (failed_inspection source_name (inspection_error source_name))

unfoldable pub evaluate_source :
    SourceInspectionRegistry → Catalog → String → SourceSpec → Result SourceRuntimeState
unfolding try_source
evaluate_source registry catalog source_name source =
    handle_source source_name (try_source registry catalog source_name source)

-- The loop of `_evaluate`, from the states of the sources before
unfoldable pub evaluate_sources :
    SourceInspectionRegistry
    → Catalog
    → Dict SourceRuntimeState
    → Dict SourceSpec
    → Result (Dict SourceRuntimeState)
unfolding evaluate_source
evaluate_sources registry catalog states [] = ok states
evaluate_sources registry catalog states ((source_name, source) ∷ sources) = do
  state ← evaluate_source registry catalog source_name source
  evaluate_sources registry catalog (put states source_name state) sources

-- `_evaluate`
unfoldable pub evaluate : SourceInspectionRegistry → Catalog → ℕ → Result CatalogEvaluation
unfolding evaluate_sources catalog_evaluation
evaluate registry catalog evaluated_at = do
  states ← evaluate_sources registry catalog [] catalog.sources
  catalog_evaluation (record { catalog = catalog; evaluated_at = evaluated_at; sources = states })

pub record RuntimeState : Type 0 where
  pub active : Option CatalogEvaluation
  pub last_attempt : Option CatalogRefreshResult

-- The state that `InMemoryCatalogRuntime.__init__` leaves
abbrev pub initial_state : RuntimeState
initial_state = record { active = none; last_attempt = none }

-- `require_active`
unfoldable pub require_active : RuntimeState → Result CatalogEvaluation
require_active state = elim state.active [
  | none ↦
      fail (record { code = catalog_runtime_uninitialized; source_name = none; location = none })
  | some evaluation ↦ ok evaluation
]

module _ (services : RuntimeServices) where
  abbrev is_same : Option CatalogEvaluation → CatalogEvaluation → Bool
  is_same none candidate = false
  is_same (some active) candidate = services.same_evaluation active candidate

  abbrev consistent_result :
      RefreshStatus
      → Option CatalogEvaluation
      → Option CatalogEvaluation
      → Option ErrorDetail
      → Bool
  unfolding is_activatable
  consistent_result activated (some candidate) active none = is_same active candidate
  consistent_result rejected (some candidate) active none = not (is_activatable candidate)
  consistent_result load_failed none active (some error) = true
  consistent_result _ _ _ _ = false

  -- `CatalogRefreshResult.requires_consistent_result`
  unfoldable pub is_consistent_result : CatalogRefreshResult → Bool
  unfolding consistent_result
  is_consistent_result result =
      consistent_result result.status result.candidate result.active result.error

  -- `self._record(CatalogRefreshResult(…))`, with the check of the model
  unfoldable pub record_result :
      CatalogRefreshResult → RuntimeState → Result CatalogRefreshResult × RuntimeState
  unfolding is_consistent_result
  record_result result state =
      if is_consistent_result result
      then (ok result, record { active = state.active; last_attempt = some result })
      else (crash value_error, state)

  -- `refresh` of a candidate
  unfoldable pub activate :
      CatalogEvaluation → ℕ → RuntimeState → Result CatalogRefreshResult × RuntimeState
  unfolding record_result is_activatable
  activate candidate attempted_at state =
      if is_activatable candidate
      then record_result
          (record {
            status = activated;
            attempted_at = attempted_at;
            candidate = some candidate;
            active = some candidate;
            error = none;
          })
          (record { active = some candidate; last_attempt = state.last_attempt })
      else record_result
          (record {
            status = rejected;
            attempted_at = attempted_at;
            candidate = some candidate;
            active = state.active;
            error = none;
          })
          state

  abbrev refresh_with :
      Result CatalogEvaluation → ℕ → RuntimeState → Result CatalogRefreshResult × RuntimeState
  unfolding activate
  refresh_with (ok candidate) attempted_at state = activate candidate attempted_at state
  refresh_with (fail detail) attempted_at state = (fail detail, state)
  refresh_with (crash python) attempted_at state = (crash python, state)

  -- `refresh`, given what the clock and the loader return
  unfoldable pub refresh :
      ℕ → Result Catalog → RuntimeState → Result CatalogRefreshResult × RuntimeState
  unfolding evaluate record_result refresh_with
  refresh attempted_at (ok catalog) state =
      refresh_with (evaluate services.registry catalog attempted_at) attempted_at state
  refresh attempted_at (crash catalog_validation_error) state =
      record_result
        (record {
          status = load_failed;
          attempted_at = attempted_at;
          candidate = none;
          active = state.active;
          error = some (record { code = catalog_load_failed; source_name = none; location = none });
        })
        state
  refresh attempted_at (crash python) state = (crash python, state)
  refresh attempted_at (fail detail) state = (fail detail, state)
