-- ===== src/Runtime/Refreshing.antt =====
-- What a refresh does to the active catalog.
use mathlib.Core.Path.{subst, sym}
use yo_db.Base.{ℕ, ◌≡◌, refl, ◌↔◌, inl, inr, true, false, some}
use yo_db.Base.Lists.{All}
use yo_db.Base.Dicts.{IsDict}
use yo_db.Base.Strings.{◌==◌}
use yo_db.Base.Tests.{Bool-cases}
use yo_db.Errors.{Result, ok, fail, crash, catalog_validation_error}
use yo_db.Errors.Returns.{Returns-value}
use yo_db.Catalog.{Catalog}
use yo_db.Runtime.{
  CatalogEvaluation, CatalogRefreshResult, RuntimeServices, RuntimeState, activated, rejected,
  load_failed, is_activatable, evaluate, is_consistent_result, record_result, activate, refresh,
}
use yo_db.Runtime.Evaluating.{IsConfirmed, evaluate-AreJudged}

-- The attempt swapped the candidate in, or kept the active evaluation and says why.
pub data IsRefreshed (services : RuntimeServices) (attempted_at : ℕ) (state : RuntimeState)
    : Result Catalog → Result CatalogRefreshResult → RuntimeState → Type 0 where
  swapped :
      (catalog : Catalog) (candidate : CatalogEvaluation) (result : CatalogRefreshResult)
      → candidate.catalog ≡ catalog
      → All (λ s. IsConfirmed services.registry catalog s.0 s.1) catalog.sources
      → result.status ≡ activated
      → result.candidate ≡ some candidate
      → IsRefreshed services attempted_at state
          (ok catalog)
          (ok result)
          (record { active = some candidate; last_attempt = some result })
  kept :
      (catalog : Catalog) (candidate : CatalogEvaluation) (result : CatalogRefreshResult)
      → candidate.catalog ≡ catalog
      → (All (λ s. IsConfirmed services.registry catalog s.0 s.1) catalog.sources → ⊥)
      → result.status ≡ rejected
      → result.candidate ≡ some candidate
      → IsRefreshed services attempted_at state
          (ok catalog)
          (ok result)
          (record { active = state.active; last_attempt = some result })
  unloaded :
      (result : CatalogRefreshResult)
      → result.status ≡ load_failed
      → IsRefreshed services attempted_at state
          (crash catalog_validation_error)
          (ok result)
          (record { active = state.active; last_attempt = some result })

-- What the loader gives: the catalog or its refusal, a dict of sources with names.
abbrev pub IsLoaded : Result Catalog → Type 0
IsLoaded (ok catalog) = All (λ e. e.0 == "" ≡ false) catalog.sources × IsDict catalog.sources
IsLoaded (fail detail) = ⊥
IsLoaded (crash python) = python ≡ catalog_validation_error

-- `==` of an evaluation with itself.
abbrev pub IsReflexive : RuntimeServices → Type 0
IsReflexive services = (e : CatalogEvaluation) → services.same_evaluation e e ≡ true

module _ (services : RuntimeServices) (reflexive : IsReflexive services) where
  activate-IsRefreshed :
      (catalog : Catalog) (candidate : CatalogEvaluation) (attempted_at : ℕ) (state : RuntimeState)
      → candidate.catalog ≡ catalog
      → (is_activatable candidate ≡ true
          ↔ All (λ s. IsConfirmed services.registry catalog s.0 s.1) catalog.sources)
      → IsRefreshed services attempted_at state
          (ok catalog)
          (activate services candidate attempted_at state).0
          (activate services candidate attempted_at state).1
  unfolding activate record_result is_consistent_result
  activate-IsRefreshed catalog candidate attempted_at state same confirmed =
      elim (Bool-cases (is_activatable candidate)) [
        | inl healthy ↦
            rw (healthy, reflexive candidate)
              (swapped catalog candidate _ same (confirmed.0 healthy) refl refl)
        | inr unhealthy ↦
            rw unhealthy
              (kept catalog candidate _ same (λ k. cc (confirmed.1 k, unhealthy)) refl refl)
      ]

  -- When the loader gives a catalog whose sources have names, each once, or refuses it, and an
  -- evaluation equals itself, `refresh` returns, whatever the adapters answer or raise. If every
  -- source is confirmed, the candidate replaces the active evaluation; otherwise the attempt is
  -- rejected, or reported as not loaded, and the active evaluation stays.
  pub refresh-IsRefreshed :
      (attempted_at : ℕ) (loaded : Result Catalog) (state : RuntimeState)
      → IsLoaded loaded
      → IsRefreshed services attempted_at state loaded
          (refresh services attempted_at loaded state).0
          (refresh services attempted_at loaded state).1
  unfolding refresh record_result is_consistent_result
  refresh-IsRefreshed attempted_at (ok catalog) state (named, distinct) =
      let (e, (evaluated, (same, (judged, confirmed)))) =
        Returns-value _ (evaluate services.registry catalog attempted_at)
          (evaluate-AreJudged services.registry catalog attempted_at named distinct) in
      rw evaluated (activate-IsRefreshed catalog e attempted_at state same confirmed)
  refresh-IsRefreshed attempted_at (fail detail) state h = elim h [ ]
  refresh-IsRefreshed attempted_at (crash python) state h =
      subst
        (λ p.
          IsRefreshed services attempted_at state (crash p)
            (refresh services attempted_at (crash p) state).0
            (refresh services attempted_at (crash p) state).1)
        (sym h) (unloaded _ refl)
