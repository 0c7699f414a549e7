-- ===== src/Tests/Runtimes.antt =====
-- A catalog that two PostgreSQL sources confirm, and one that a source does not.
use yo_db.Base.{◌≡◌, refl, true, false, none, some, [], ◌∷◌, String, Option}
use yo_db.Errors.{Result, ok, crash, key_error, value_error}
use yo_db.Base.Dicts.{Dict}
use yo_db.Catalog.{postgres, id, text}
use yo_db.Catalog.Validation.{load_catalog}
use yo_db.Inspection.{
  table, PhysicalField, PhysicalResource, SourceInspection, InspectionAdapterBinding,
  register_bindings,
}
use yo_db.Inspection.Postgres.{validate, type_is_compatible, postgres_type_family}
use yo_db.Inspection.Postgres.Matching.{IsReport, validate-IsReport}
use yo_db.Errors.Returns.{Returns}
use yo_db.Runtime.{
  RuntimeServices, RuntimeState, initial_state, refresh, CatalogRefreshResult, RefreshStatus,
  activated, rejected,
}
use yo_db.Runtime.Refreshing.{IsRefreshed, refresh-IsRefreshed}
use yo_db.Runtime.Reachable.{fresh, refreshed, checked, IsSound, reachable-IsSound}
use yo_db.Tests.Catalogs.{small_catalog, small_catalog-IsValid}

abbrev column : String → PhysicalField
column family = record { name = "c"; native_type = family; type_family = family }

abbrev keyed : String → Dict PhysicalField → PhysicalResource
keyed key fields = record {
  name = "r";
  kind = table;
  fields = fields;
  primary_key = some (record { name = "pkey"; fields = key ∷ [] });
  unique_constraints = [];
}

abbrev resources : Dict PhysicalResource
resources =
    (
      "people",
      keyed "pk"
          (("pk", column "uuid") ∷ ("age_years", column "int") ∷ ("hidden", column "string") ∷ []),
    )
    ∷ ("notes", keyed "person" (("person", column "uuid") ∷ ("body", column "string") ∷ []))
    ∷ []

abbrev reading : Dict PhysicalResource → InspectionAdapterBinding
reading facts = record {
  source_kind = postgres;
  inspect = λ request. ok (record {
    source_name = request.source_name;
    source_kind = postgres;
    inspected_at = 3;
    resources = facts;
  });
  validate = validate;
}

abbrev services : Dict PhysicalResource → RuntimeServices
services facts = record { registry = reading facts ∷ []; same_evaluation = λ left right. true }

abbrev broken : RuntimeServices
broken = record {
  registry =
      record { source_kind = postgres; inspect = λ request. crash key_error; validate = validate }
      ∷ [];
  same_evaluation = λ left right. true;
}

registered : register_bindings [] (reading resources ∷ []) ≡ ok (reading resources ∷ [])
unfolding register_bindings
registered = refl

registered_twice : register_bindings [] (reading [] ∷ reading [] ∷ []) ≡ crash value_error
unfolding register_bindings
registered_twice = refl

refresh-IsRefreshed_example :
    IsRefreshed
      (services resources)
      7
      initial_state
      (ok small_catalog)
      (refresh (services resources) 7 (ok small_catalog) initial_state).0
      (refresh (services resources) 7 (ok small_catalog) initial_state).1
refresh-IsRefreshed_example =
    refresh-IsRefreshed (services resources) (λ e. refl) 7 (ok small_catalog) initial_state
      ((refl, (refl, tt)), (refl, (refl, tt)))

abbrev second_state : RuntimeState
unfolding refresh
second_state = (refresh (services resources) 7 (load_catalog small_catalog) initial_state).1

abbrev third_state : RuntimeState
unfolding refresh
third_state = (refresh broken 8 (load_catalog small_catalog) second_state).1

reachable-IsSound_example : IsSound third_state
unfolding third_state second_state
reachable-IsSound_example = reachable-IsSound third_state (
    refreshed broken 8 (load_catalog small_catalog) second_state (λ e. refl) (checked small_catalog)
      (refreshed (services resources) 7 (load_catalog small_catalog) initial_state (λ e. refl)
        (checked small_catalog) fresh))

abbrev status_of : Result CatalogRefreshResult → Option RefreshStatus
status_of (ok result) = some result.status
status_of _ = none

first_activates :
    status_of (refresh (services resources) 7 (load_catalog small_catalog) initial_state).0
    ≡ some activated
unfolding refresh load_catalog validate
first_activates = refl

then_rejected :
    status_of (refresh broken 8 (load_catalog small_catalog) second_state).0 ≡ some rejected
unfolding refresh load_catalog validate second_state
then_rejected = refl

abbrev main_facts : SourceInspection
main_facts = record {
  source_name = "main";
  source_kind = postgres;
  inspected_at = 3;
  resources = resources;
}

validate-IsReport_example :
    Returns (IsReport small_catalog main_facts) (validate small_catalog main_facts)
validate-IsReport_example = validate-IsReport small_catalog main_facts small_catalog-IsValid

-- PostgreSQL's `bigint` holds an identity, but no text.
bigint_fits : type_is_compatible id (postgres_type_family "bigint") ≡ true
unfolding type_is_compatible postgres_type_family
bigint_fits = refl

bigint_misfits : type_is_compatible text (postgres_type_family "bigint") ≡ false
unfolding type_is_compatible postgres_type_family
bigint_misfits = refl

kept_active : third_state.active ≡ second_state.active
unfolding refresh load_catalog validate third_state second_state
kept_active = refl

missing_facts :
    status_of (refresh (services []) 7 (load_catalog small_catalog) initial_state).0 ≡ some rejected
unfolding refresh load_catalog validate
missing_facts = refl
