-- ===== src/Planning/Scans/Single.antt =====
-- What the one source of a single-source query is asked to read.
use yo_db.Base.{
  ℕ, ◌≡◌, refl, inl, inr, Bool, true, false, ◌&&◌, Option, none, some, List, [], ◌∷◌, arith,
}
use yo_db.Base.Tests.{if◌then◌else◌, Option-cases}
use yo_db.Errors.{ok, ◌>>=◌}
use yo_db.Errors.Ensures.{Ensures, Ensures-bind, Ensures-self}
use yo_db.Query.Models.{BoundFilterExpression, BoundOrderTerm}
use yo_db.Query.Resolution.{SingleSourceQueryBinding, SourceResolvedQuery, single_source}
use yo_db.Planning.Capabilities.{SourceCapabilities, PlannerPolicy}
use yo_db.Planning.Contracts.{RemoteScan}
use yo_db.Planning.Adapter.{
  SourceOperationRequest, PushdownDecision, SourcePlanningRegistry, is_requested, plan_remote_scan,
  adapter_for,
}
use yo_db.Planning.Adapter.Placement.{IsPlacement, plan_remote_scan-IsPlacement}
use yo_db.Planning.Scans.{
  ScanPlan, ScanProgress, effective_limit, request_of, add_scan, scan_of, page_is_pushed,
  plan_source, plan_sources, plan_scans, first_progress, fully, is_single,
}

-- The source enforces everything, or the filter alone, or nothing; and the plan says which.
pub data IsScanned {V : Type 0} (filter : Option (BoundFilterExpression V))
    (terms : List BoundOrderTerm) (limit : ℕ) (scan : RemoteScan V) : Bool → Bool → Type 0 where
  everything :
      scan.pushed_filter ≡ filter
      → scan.order_by ≡ terms
      → scan.limit ≡ some limit
      → IsScanned filter terms limit scan true true
  filter_only :
      scan.pushed_filter ≡ filter → scan.limit ≡ none → IsScanned filter terms limit scan true false
  nothing :
      scan.pushed_filter ≡ none → scan.limit ≡ none → IsScanned filter terms limit scan false false

module _ {V : Type 0} (filter : Option (BoundFilterExpression V)) (terms : List BoundOrderTerm)
    (limit : ℕ) (scan : RemoteScan V) where
  is_everything :
      (fully page : Bool)
      → fully ≡ true
      → page ≡ true
      → scan.pushed_filter ≡ filter
      → scan.order_by ≡ terms
      → scan.limit ≡ some limit
      → IsScanned filter terms limit scan fully page
  is_everything fully page h k same ordered limited = rw (h, k) (everything same ordered limited)

  is_filter_only :
      (fully page : Bool)
      → fully ≡ true
      → page ≡ false
      → scan.pushed_filter ≡ filter
      → scan.limit ≡ none
      → IsScanned filter terms limit scan fully page
  is_filter_only fully page h k same unlimited = rw (h, k) (filter_only same unlimited)

  is_nothing :
      (fully page : Bool)
      → fully ≡ false
      → page ≡ false
      → scan.pushed_filter ≡ none
      → scan.limit ≡ none
      → IsScanned filter terms limit scan fully page
  is_nothing fully page h k same unlimited = rw (h, k) (nothing same unlimited)

  when_complete :
      (fully complete page before : Bool)
      → complete ≡ true
      → IsScanned filter terms limit scan fully page
      → IsScanned filter terms limit scan fully (if complete then page else before)
  when_complete fully complete page before h k = rw h k

requested_self : {A : Type 0} (o : Option A) → is_requested o o ≡ true
requested_self none = refl
requested_self (some a) = refl

module _ {V F : Type 0} (registry : SourcePlanningRegistry) (policy : PlannerPolicy)
    (resolved : SourceResolvedQuery V F) where
  module _ (caps : SourceCapabilities) (source : SingleSourceQueryBinding)
      (requested : SourceOperationRequest V) (made : PushdownDecision V)
      (placed : IsPlacement caps source requested made) (limit : ℕ)
      (given : requested.limit ≡ some limit) where
    abbrev Scanned : Bool → Bool → Type 0
    Scanned fully page =
        IsScanned requested.filter requested.order_by limit
          (scan_of registry policy resolved caps source requested made) fully page

    accepted-IsScanned :
        (accepted : Option ℕ)
        → made.accepted_limit ≡ accepted
        → made.accepted_filter ≡ requested.filter
        → Scanned
            (is_requested made.accepted_filter requested.filter)
            (page_is_pushed registry policy resolved requested made)
    unfolding scan_of
    accepted-IsScanned none h same =
        is_filter_only _ _ _ _ _ _ (rw same (requested_self requested.filter))
          (rw (h, given) (ground arith)) same h
    accepted-IsScanned (some n) h same =
        let (ordered, (limited, capable)) = placed.limited n h in
        is_everything _ _ _ _ _ _ (rw same (requested_self requested.filter))
          (rw (same, requested_self requested.filter, ordered.order, h, limited) (ground arith))
          same ordered.order (cc (h, limited, given))

    refused-IsScanned :
        (e : BoundFilterExpression V) (accepted : Option ℕ)
        → made.accepted_limit ≡ accepted
        → requested.filter ≡ some e
        → made.accepted_filter ≡ none
        → made.residual_filter ≡ requested.filter
        → Scanned
            (is_requested made.accepted_filter requested.filter)
            (page_is_pushed registry policy resolved requested made)
    unfolding scan_of
    refused-IsScanned e none h wanted refused left_over =
        is_nothing _ _ _ _ _ _ (rw (refused, wanted) refl) (rw (refused, wanted) refl) refused h
    refused-IsScanned e (some n) h wanted refused left_over =
        cc ((placed.limited n h).0.enforced, left_over, wanted)

    made-IsScanned :
        Scanned
          (is_requested made.accepted_filter requested.filter)
          (page_is_pushed registry policy resolved requested made)
    made-IsScanned = elim placed.filter [
      | inl (same, done) ↦ accepted-IsScanned made.accepted_limit refl same
      | inr (refused, left_over) ↦ elim (Option-cases requested.filter) [
        | inl missing ↦ accepted-IsScanned made.accepted_limit refl (cc (refused, missing))
        | inr (e, wanted) ↦ refused-IsScanned e made.accepted_limit refl wanted refused left_over
      ]
    ]

  -- One read of the one source, with what it leaves to the coordinator.
  pub record IsSingle (source : SingleSourceQueryBinding) (limit : ℕ) (scan_plan : ScanPlan V)
      : Type 0 where
    pub limited : effective_limit resolved.query ≡ ok limit
    pub scan : RemoteScan V
    pub only : scan_plan.scans ≡ scan ∷ []
    pub read : scan.source ≡ source
    pub whole : scan.key_filter ≡ none
    pub unranked : scan.vector_search ≡ none
    pub scanned :
        IsScanned resolved.query.where_ resolved.query.order_by limit scan scan_plan.fully_pushed
          scan_plan.page_pushed

  module _ (source : SingleSourceQueryBinding) where
    abbrev single_plan : ScanProgress V → ScanPlan V
    single_plan progress = record {
      scans = progress.scans;
      fully_pushed = progress.every_source_accepted;
      page_pushed = progress.page_pushed;
    }

    abbrev Single : ScanPlan V → Type 0
    Single scan_plan = (limit : ℕ) × IsSingle source limit scan_plan

    request-Ensures :
        Ensures
          (λ requested.
            (limit : ℕ) × ((effective_limit resolved.query ≡ ok limit)
              × ((requested.limit ≡ some limit)
                  × ((requested.filter ≡ resolved.query.where_)
                      × ((requested.order_by ≡ resolved.query.order_by)
                          × (requested.complete_result ≡ true))))))
          (request_of registry policy resolved true source)
    unfolding request_of
    request-Ensures =
        Ensures-bind (λ limit. effective_limit resolved.query ≡ ok limit) _
          (effective_limit resolved.query) _ (Ensures-self _ _ λ _ h. h)
          λ limit h. (limit, (h, (refl, (refl, (refl, refl)))))

    plan_source-Single :
        Ensures
          (λ progress. Single (single_plan progress))
          (plan_source registry policy resolved true source first_progress)
    unfolding plan_source add_scan scan_of
    plan_source-Single =
        Ensures-bind _ _ (request_of registry policy resolved true source) _ request-Ensures
          λ requested (limit, (h, (limited, (filter, (order, complete))))).
            Ensures-bind (λ _. Unit) _ (adapter_for registry source.source_kind) _
              (Ensures-self (λ _. Unit) _ λ _ _. tt)
              λ caps _.
                Ensures-bind (IsPlacement caps source requested) _
                  (plan_remote_scan caps source requested) _
                  (plan_remote_scan-IsPlacement caps source requested)
                  λ made placed. (
                    limit,
                    record {
                      limited = h;
                      scan = scan_of registry policy resolved caps source requested made;
                      only = refl;
                      read = refl;
                      whole = refl;
                      unranked = refl;
                      scanned =
                          rw (← filter, ← order)
                            (when_complete _ _ _ _ _ requested.complete_result _ false complete
                              (made-IsScanned caps source requested made placed limit limited));
                    },
                  )

    sources-Single :
        (complete : Bool) (sources : List SingleSourceQueryBinding)
        → complete ≡ true
        → sources ≡ source ∷ []
        → Ensures
            (λ p. Single p)
            (plan_sources registry policy resolved complete sources first_progress >>= λ progress.
              ok (record {
                scans = progress.scans;
                fully_pushed = fully registry policy resolved complete progress;
                page_pushed = progress.page_pushed;
              }))
    unfolding plan_sources
    sources-Single complete sources h k =
        rw (h, k)
          (Ensures-bind (λ progress. Single (single_plan progress)) _
            (plan_source registry policy resolved true source first_progress >>= λ next. ok next) _
            (Ensures-bind (λ progress. Single (single_plan progress)) _
              (plan_source registry policy resolved true source first_progress) _ plan_source-Single
              λ _ q. q)
            λ progress q. q)

    pub plan_scans-Single :
        resolved.shape ≡ single_source
        → resolved.sources ≡ source ∷ []
        → Ensures
            (λ p. (limit : ℕ) × IsSingle source limit p)
            (plan_scans registry policy resolved true)
    unfolding plan_scans
    plan_scans-Single single only =
        sources-Single (is_single registry policy resolved resolved.shape && true) resolved.sources
          (rw single refl) only
