-- ===== src/Runtime/Evaluating.antt =====
-- What `_evaluate` finds of each configured source.
use mathlib.Core.List.{append_assoc}
use mathlib.Core.Path.{subst}
use yo_db.Base.{
  ℕ, String, ◌≡◌, refl, sym, ap, ◌∙◌, ◌↔◌, inl, inr, Bool, true, false, [], ◌∷◌, ◌++◌, arith,
}
use yo_db.Base.Lists.{All, all, append_nil}
use yo_db.Base.Dicts.{Dict, IsDict, put, put-new, keys, has, contains-put, all-contains_self}
use yo_db.Base.Strings.{◌==◌, eq_iff, eq_refl}
use yo_db.Base.Tests.{Bool-cases}
use yo_db.Errors.{ErrorDetail, Result, ok, fail, crash, ◌>>=◌, ◌>>◌}
use yo_db.Errors.Returns.{Returns, Returns-bind, Returns-weaken, Returns-ok}
use yo_db.Catalog.{SourceSpec, Catalog}
use yo_db.Inspection.{
  SourceInspection, SourceValidationReport, InspectionAdapterBinding, SourceInspectionRegistry,
  is_valid, inspection_request, binding_for, same_kind,
}
use yo_db.Runtime.{
  SourceRuntimeState, CatalogEvaluation, is_consistent_outcome, source_runtime_state, is_healthy,
  contains_every_configured_source, catalog_evaluation, is_activatable, try_source, evaluate_source,
  evaluate_sources, evaluate, inspected, failed_inspection, require_output, handle_source,
}

module _ (registry : SourceInspectionRegistry) (catalog : Catalog) where
  -- An adapter for the source reports facts of this source, and of its kind, in which the validator
  -- of that adapter finds no error.
  pub record IsConfirmed (source_name : String) (source : SourceSpec) : Type 0 where
    pub adapter : InspectionAdapterBinding
    pub registered : binding_for registry source.kind ≡ ok adapter
    pub inspection : SourceInspection
    pub answered :
        adapter.inspect (record { source_name = source_name; source = source }) ≡ ok inspection
    pub same_source : inspection.source_name == source_name ≡ true
    pub same_source_kind : same_kind inspection.source_kind source.kind ≡ true
    pub report : SourceValidationReport
    pub reported : adapter.validate catalog inspection ≡ ok report
    pub same_report : report.source_name == source_name ≡ true
    pub no_errors : is_valid report ≡ true

  -- The state is of the source, passes the checks of its model, and is healthy just when the source
  -- is confirmed.
  pub record IsJudged (source_name : String) (source : SourceSpec) (state : SourceRuntimeState)
      : Type 0 where
    pub named : state.source_name == source_name ≡ true
    pub consistent : is_consistent_outcome state ≡ true
    pub healthy : is_healthy state ≡ true ↔ IsConfirmed source_name source

  -- What the `try` gives: a healthy state of a confirmed source, an unhealthy one, or an exception.
  IsTried : String → SourceSpec → Result SourceRuntimeState → Type 0
  IsTried source_name source (ok state) = IsJudged source_name source state
  IsTried source_name source (fail e) = IsConfirmed source_name source → ⊥
  IsTried source_name source (crash e) = IsConfirmed source_name source → ⊥

  module _ (source_name : String) (source : SourceSpec) (named : source_name == "" ≡ false) where
    -- A step whose value a confirmation gives too.
    IsTried-bind :
        {A : Type 0} (m : Result A) (f : A → Result SourceRuntimeState)
        → (IsConfirmed source_name source → (a : A) × (m ≡ ok a))
        → ((a : A) → m ≡ ok a → IsTried source_name source (f a))
        → IsTried source_name source (m >>= f)
    unfolding IsTried
    IsTried-bind (ok a) f c h = h a refl
    IsTried-bind (fail e) f c h = λ k. cc (c k).1
    IsTried-bind (crash e) f c h = λ k. cc (c k).1

    IsTried-require :
        (b : Bool) (r : Result SourceRuntimeState)
        → (IsConfirmed source_name source → b ≡ true)
        → (b ≡ true → IsTried source_name source r)
        → IsTried source_name source (require_output b source_name >> r)
    unfolding IsTried
    IsTried-require true r c h = h refl
    IsTried-require false r c h = λ k. cc (c k)

    -- A consistent state is built.
    state-ok :
        (state : SourceRuntimeState)
        → state.source_name ≡ source_name
        → is_consistent_outcome state ≡ true
        → source_runtime_state state ≡ ok state
    unfolding source_runtime_state
    state-ok state same consistent = rw (same, named, consistent) refl

    inspected-IsJudged :
        (inspection : SourceInspection) (report : SourceValidationReport)
        → (is_valid report ≡ true → IsConfirmed source_name source)
        → (IsConfirmed source_name source → is_valid report ≡ true)
        → IsJudged source_name source (inspected source_name inspection report)
    unfolding inspected is_consistent_outcome
    inspected-IsJudged inspection report confirmed clean_if = elim (Bool-cases (is_valid report)) [
      | inl clean ↦ record {
        named = eq_refl source_name;
        consistent = ground (arith, clean);
        healthy = ((λ _. confirmed clean), λ _. rw clean refl);
      }
      | inr findings ↦ record {
        named = eq_refl source_name;
        consistent = ground (arith, findings);
        healthy = ((λ h. ground (arith, h, findings)), λ c. cc (clean_if c, findings));
      }
    ]

    -- The model of a source that was inspected and validated.
    inspected-IsTried :
        (inspection : SourceInspection) (report : SourceValidationReport)
        → (is_valid report ≡ true → IsConfirmed source_name source)
        → (IsConfirmed source_name source → is_valid report ≡ true)
        → IsTried source_name source
            (source_runtime_state (inspected source_name inspection report))
    unfolding IsTried inspected
    inspected-IsTried inspection report confirmed clean_if =
        let judged = inspected-IsJudged inspection report confirmed clean_if in
        rw (state-ok (inspected source_name inspection report) refl judged.consistent) judged

    -- The state that a handler builds.
    failed-IsJudged :
        (detail : ErrorDetail)
        → (IsConfirmed source_name source → ⊥)
        → Returns
            (IsJudged source_name source)
            (source_runtime_state (failed_inspection source_name detail))
    unfolding is_consistent_outcome
    failed-IsJudged detail refused =
        rw (state-ok (failed_inspection source_name detail) refl refl) record {
          named = eq_refl source_name;
          consistent = refl;
          healthy = ((λ h. cc), λ c. elim (refused c) [ ]);
        }

    handle_source-IsJudged :
        (tried : Result SourceRuntimeState)
        → IsTried source_name source tried
        → Returns (IsJudged source_name source) (handle_source source_name tried)
    unfolding IsTried handle_source
    handle_source-IsJudged (ok state) h = h
    handle_source-IsJudged (fail detail) h = failed-IsJudged _ h
    handle_source-IsJudged (crash python) h = failed-IsJudged _ h

    request-ok :
        inspection_request source_name source
        ≡ ok (record { source_name = source_name; source = source })
    unfolding inspection_request
    request-ok = rw named refl

    try_source-IsTried : IsTried source_name source (try_source registry catalog source_name source)
    unfolding try_source
    try_source-IsTried =
        let q = request-ok in
        IsTried-bind (binding_for registry source.kind) _ (λ c. (c.adapter, c.registered))
          λ adapter a.
            IsTried-bind (inspection_request source_name source) _ (λ c. (_, q))
              λ request p.
                IsTried-bind (adapter.inspect request) _ (λ c. (c.inspection, cc))
                  λ inspection i.
                    IsTried-require (inspection.source_name == source_name) _ (λ c. cc)
                      λ s.
                        IsTried-require (same_kind inspection.source_kind source.kind) _ (λ c. cc)
                          λ k.
                            IsTried-bind (adapter.validate catalog inspection) _
                              (λ c. (c.report, cc))
                              λ report r.
                                IsTried-require (report.source_name == source_name) _ (λ c. cc)
                                  λ t.
                                    inspected-IsTried inspection report
                                      (λ clean. record {
                                        adapter = adapter;
                                        registered = a;
                                        inspection = inspection;
                                        answered = cc;
                                        same_source = s;
                                        same_source_kind = k;
                                        report = report;
                                        reported = r;
                                        same_report = t;
                                        no_errors = clean;
                                      })
                                      λ c. cc

    -- The handlers give an unhealthy state.
    pub evaluate_source-IsJudged :
        Returns (IsJudged source_name source) (evaluate_source registry catalog source_name source)
    unfolding evaluate_source
    evaluate_source-IsJudged = handle_source-IsJudged _ try_source-IsTried

  -- One state for each source, in the order of the catalog.
  pub data AreJudged : Dict SourceSpec → Dict SourceRuntimeState → Type 0 where
    no_sources : AreJudged [] []
    next_source :
        (source_name : String) (source : SourceSpec) (sources : Dict SourceSpec)
        (state : SourceRuntimeState) (states : Dict SourceRuntimeState)
        → IsJudged source_name source state
        → AreJudged sources states
        → AreJudged ((source_name, source) ∷ sources) ((source_name, state) ∷ states)

  All-new :
      (states : Dict SourceRuntimeState) (name : String) (state : SourceRuntimeState)
      (sources : Dict SourceSpec)
      → All (λ e. has states e.0 ≡ false) sources
      → has sources name ≡ false
      → All (λ e. has (put states name state) e.0 ≡ false) sources
  All-new states name state [] h new = tt
  All-new states name state ((n, s) ∷ sources) h new = (
    ground (arith, h.0, contains-put states name n state, eq_iff n name, eq_iff name n),
    All-new states name state sources h.1 (ground arith),
  )

  no_states :
      (sources : Dict SourceSpec) → All (λ e. has {V = SourceRuntimeState} [] e.0 ≡ false) sources
  no_states [] = tt
  no_states (s ∷ sources) = (refl, no_states sources)

  evaluate_sources-AreJudged :
      (states : Dict SourceRuntimeState) (sources : Dict SourceSpec)
      → All (λ e. e.0 == "" ≡ false) sources
      → IsDict sources
      → All (λ e. has states e.0 ≡ false) sources
      → Returns
          (λ out. (new : Dict SourceRuntimeState) × ((out ≡ states ++ new) × AreJudged sources new))
          (evaluate_sources registry catalog states sources)
  unfolding evaluate_sources
  evaluate_sources-AreJudged states [] named distinct new =
      ([], (sym (append_nil states), no_sources))
  evaluate_sources-AreJudged states ((name, source) ∷ sources) named distinct new =
      Returns-bind (IsJudged name source) _ (evaluate_source registry catalog name source) _
        (evaluate_source-IsJudged name source named.0)
        λ state judged.
          let fresh = new.0 in
          Returns-weaken _ _ (evaluate_sources registry catalog (put states name state) sources)
            (evaluate_sources-AreJudged (put states name state) sources named.1 distinct.1
              (All-new states name state sources new.1 distinct.0))
            λ out (rest, (same, rest_judged)). (
              (name, state) ∷ rest,
              (
                same
                    ∙ ap (λ d. d ++ rest) (put-new states name state fresh)
                    ∙ append_assoc states ((name, state) ∷ []) rest,
                next_source name source sources state rest judged rest_judged,
              ),
            )

  -- Every source is named by its key, and there is a state for each.
  AreJudged-keys :
      (sources : Dict SourceSpec) (states : Dict SourceRuntimeState)
      → AreJudged sources states
      → keys states ≡ keys sources
  AreJudged-keys [] [] no_sources = refl
  AreJudged-keys _ _ (next_source n s sources t states j js) =
      ap (λ k. n ∷ k) (AreJudged-keys sources states js)

  AreJudged-named :
      (sources : Dict SourceSpec) (states : Dict SourceRuntimeState)
      → AreJudged sources states
      → all (λ (name, state). state.source_name == name) states ≡ true
  AreJudged-named [] [] no_sources = refl
  AreJudged-named _ _ (next_source n s sources t states j js) =
      ground (arith, j.named, AreJudged-named sources states js)

  -- All the states are healthy just when all the sources are confirmed.
  AreJudged-healthy :
      (sources : Dict SourceSpec) (states : Dict SourceRuntimeState)
      → AreJudged sources states
      → all (λ (name, state). is_healthy state) states ≡ true
        ↔ All (λ s. IsConfirmed s.0 s.1) sources
  AreJudged-healthy [] [] no_sources = ((λ _. tt), λ _. refl)
  AreJudged-healthy _ _ (next_source n s sources t states j js) =
      let rest = AreJudged-healthy sources states js in
      (
        (λ h. (j.healthy.0 (ground (arith, h)), rest.0 (ground (arith, h)))),
        λ k. rw (j.healthy.1 k.0) (rest.1 k.1),
      )

  catalog_evaluation-ok :
      (e : CatalogEvaluation) → AreJudged e.catalog.sources e.sources → catalog_evaluation e ≡ ok e
  unfolding catalog_evaluation contains_every_configured_source
  catalog_evaluation-ok e judged =
      rw
        (
          AreJudged-keys e.catalog.sources e.sources judged,
          all-contains_self (keys e.catalog.sources),
          AreJudged-named e.catalog.sources e.sources judged,
        )
        refl

  activatable_iff :
      (e : CatalogEvaluation)
      → AreJudged catalog.sources e.sources
      → is_activatable e ≡ true ↔ All (λ s. IsConfirmed s.0 s.1) catalog.sources
  unfolding is_activatable
  activatable_iff e judged = AreJudged-healthy catalog.sources e.sources judged

  -- On a catalog whose sources have names, each once, `_evaluate` returns, whatever the adapters
  -- answer or raise. The evaluation has one state for each source, in their order, and may be
  -- activated just when every source is confirmed by its adapter.
  pub evaluate-AreJudged :
      (evaluated_at : ℕ)
      → All (λ e. e.0 == "" ≡ false) catalog.sources
      → IsDict catalog.sources
      → Returns
          (λ e.
            (e.catalog ≡ catalog)
            × (AreJudged catalog.sources e.sources
                × (is_activatable e ≡ true ↔ All (λ s. IsConfirmed s.0 s.1) catalog.sources)))
          (evaluate registry catalog evaluated_at)
  unfolding evaluate
  evaluate-AreJudged evaluated_at named distinct =
      Returns-bind _ _ (evaluate_sources registry catalog [] catalog.sources) _
        (evaluate_sources-AreJudged [] catalog.sources named distinct (no_states catalog.sources))
        λ out (states, (same, judged)).
          let e : CatalogEvaluation = record {
            catalog = catalog;
            evaluated_at = evaluated_at;
            sources = out;
          } in
          let every = subst (AreJudged catalog.sources) (sym same) judged in
          Returns-ok _ (catalog_evaluation e) (catalog_evaluation-ok e every)
            (refl, (every, activatable_iff e every))
