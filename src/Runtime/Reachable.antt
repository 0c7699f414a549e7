-- ===== src/Runtime/Reachable.antt =====
-- What every sequence of refreshes keeps.
use mathlib.Core.Path.{subst, sym}
use yo_db.Base.{ℕ, ◌≡◌, refl, inl, inr, true, Option, some, []}
use yo_db.Base.Tests.{Bool-cases, Option-cases}
use yo_db.Errors.{PythonError, Result, ok, fail, crash, catalog_validation_error, value_error, Safe}
use yo_db.Errors.Ensures.{Ensures, Ensures-bind, Ensures-self, Ensures-weaken, Ensures-if}
use yo_db.Inspection.{SourceInspectionRegistry}
use yo_db.Catalog.Validation.Checked.{Checked}
use yo_db.Catalog.{Catalog}
use yo_db.Catalog.Validation.{load_catalog}
use yo_db.Catalog.Validation.Whole.{IsValid, load_catalog-IsValid}
use yo_db.Runtime.{
  CatalogEvaluation, CatalogRefreshResult, RuntimeServices, RuntimeState, initial_state,
  is_activatable, contains_every_configured_source, catalog_evaluation, evaluate, evaluate_sources,
  is_consistent_result, record_result, activate, refresh_with, refresh, require_active,
}
use yo_db.Runtime.Refreshing.{IsReflexive}

-- What the rest of the program may rely on of an evaluation that is active.
pub record IsServing (evaluation : CatalogEvaluation) : Type 0 where
  pub catalog : IsValid evaluation.catalog
  pub healthy : is_activatable evaluation ≡ true
  pub complete : contains_every_configured_source evaluation ≡ true

-- The active evaluation may be served, and is what the last attempt reports.
pub record IsSound (state : RuntimeState) : Type 0 where
  pub serving : (e : CatalogEvaluation) → state.active ≡ some e → IsServing e
  pub reported : (r : CatalogRefreshResult) → state.last_attempt ≡ some r → r.active ≡ state.active

-- What the loader of the program can do: read a document and check it, or raise.
pub data IsLoad : Result Catalog → Type 0 where
  checked : (document : Catalog) → IsLoad (load_catalog document)
  raised : (python : PythonError) → IsLoad (crash python)

-- The states of a process after refreshes at any times, with any answers of loader and adapters.
pub data IsReachable : RuntimeState → Type 0 where
  fresh : IsReachable initial_state
  refreshed :
      (services : RuntimeServices) (attempted_at : ℕ) (loaded : Result Catalog)
      (state : RuntimeState)
      → IsReflexive services
      → IsLoad loaded
      → IsReachable state
      → IsReachable (refresh services attempted_at loaded state).1

Checked-Ensures : (r : Result Catalog) → Checked IsValid r → Ensures IsValid r
Checked-Ensures (ok c) h = h
Checked-Ensures (fail e) h = tt
Checked-Ensures (crash e) h = tt

Ensures-load : (loaded : Result Catalog) → IsLoad loaded → Ensures IsValid loaded
Ensures-load _ (checked document) =
    Checked-Ensures (load_catalog document) (load_catalog-IsValid document)
Ensures-load _ (raised python) = tt

-- The candidate is of the loaded catalog, with a state for each of its sources.
evaluate-Ensures :
    (registry : SourceInspectionRegistry) (catalog : Catalog) (evaluated_at : ℕ)
    → Ensures
        (λ e. (e.catalog ≡ catalog) × (contains_every_configured_source e ≡ true))
        (evaluate registry catalog evaluated_at)
unfolding evaluate catalog_evaluation
evaluate-Ensures registry catalog evaluated_at =
    let Goal : CatalogEvaluation → Type 0 =
      λ e. (e.catalog ≡ catalog) × (contains_every_configured_source e ≡ true) in
    Ensures-bind (λ _. Unit) Goal (evaluate_sources registry catalog [] catalog.sources) _
      (Ensures-self (λ _. Unit) _ λ _ _. tt)
      λ states _.
        let e : CatalogEvaluation = record {
          catalog = catalog;
          evaluated_at = evaluated_at;
          sources = states;
        } in
        Ensures-if Goal (contains_every_configured_source e) (ok e) (crash value_error)
          (λ h. (refl, h)) λ _. tt

-- A result that is recorded beside the evaluation it reports.
recorded-IsSound :
    (result : CatalogRefreshResult) (active : Option CatalogEvaluation)
    → result.active ≡ active
    → ((e : CatalogEvaluation) → active ≡ some e → IsServing e)
    → IsSound (record { active = active; last_attempt = some result })
recorded-IsSound result active same serving = record {
  serving = serving;
  reported = λ r h. cc (h, same);
}

module _ (services : RuntimeServices) (reflexive : IsReflexive services) (attempted_at : ℕ)
    (state : RuntimeState) (sound : IsSound state) where
  activate-IsSound :
      (candidate : CatalogEvaluation)
      → IsValid candidate.catalog
      → contains_every_configured_source candidate ≡ true
      → IsSound (activate services candidate attempted_at state).1
  unfolding activate record_result is_consistent_result
  activate-IsSound candidate catalog complete = elim (Bool-cases (is_activatable candidate)) [
    | inl healthy ↦
        rw (healthy, reflexive candidate)
          (recorded-IsSound _ (some candidate) refl λ e h.
            subst IsServing (cc h)
              (record { catalog = catalog; healthy = healthy; complete = complete }))
    | inr unhealthy ↦ rw unhealthy (recorded-IsSound _ state.active refl sound.serving)
  ]

  refresh_with-IsSound :
      (candidate : Result CatalogEvaluation)
      → Ensures (λ e. IsValid e.catalog × (contains_every_configured_source e ≡ true)) candidate
      → IsSound (refresh_with services candidate attempted_at state).1
  unfolding refresh_with
  refresh_with-IsSound (ok e) (catalog, complete) = activate-IsSound e catalog complete
  refresh_with-IsSound (fail detail) h = sound
  refresh_with-IsSound (crash python) h = sound

  refresh-IsSound :
      (loaded : Result Catalog)
      → Ensures IsValid loaded
      → IsSound (refresh services attempted_at loaded state).1
  unfolding refresh record_result is_consistent_result
  refresh-IsSound (ok catalog) h =
      refresh_with-IsSound (evaluate services.registry catalog attempted_at) (
        Ensures-weaken (λ e. (e.catalog ≡ catalog) × (contains_every_configured_source e ≡ true))
          (λ e. IsValid e.catalog × (contains_every_configured_source e ≡ true))
          (evaluate services.registry catalog attempted_at)
          (evaluate-Ensures services.registry catalog attempted_at)
          λ e k. (subst IsValid (sym k.0) h, k.1))
  refresh-IsSound (fail detail) h = sound
  refresh-IsSound (crash catalog_validation_error) h =
      recorded-IsSound _ state.active refl sound.serving
  refresh-IsSound (crash python) h = sound

-- After any sequence of refreshes, with any answers of the loader and the adapters, the active
-- evaluation, if there is one, is of a valid catalog, has one healthy state for each configured
-- source, and is the one that the last attempt reports.
pub reachable-IsSound : (state : RuntimeState) → IsReachable state → IsSound state
reachable-IsSound _ fresh = record { serving = λ e h. cc h; reported = λ r h. cc h }
reachable-IsSound _ (refreshed services attempted_at loaded state reflexive load before) =
    refresh-IsSound services reflexive attempted_at state (reachable-IsSound state before) loaded
      (Ensures-load loaded load)

-- Whatever happened before, `require_active` gives an evaluation that may be served, or
-- CATALOG_RUNTIME_UNINITIALIZED.
pub require_active-IsServing :
    (state : RuntimeState) → IsReachable state → Safe IsServing (require_active state)
unfolding require_active
require_active-IsServing state reachable = elim (Option-cases state.active) [
  | inl missing ↦ rw missing tt
  | inr (e, found) ↦ rw found ((reachable-IsSound state reachable).serving e found)
]
