-- ===== src/Planning/Scans.antt =====
-- src/yodb/planning/operators/base.py and scan.py: what each source is asked to read, and how much of
-- the query it enforces. The check that an adapter keeps the projection is left out: an adapter made
-- of capabilities always does.
pub mod Single
use mathlib.Core.Option
use yo_db.Base.{
  ℕ, String, Bool, true, false, not, ◌&&◌, ◌||◌, Option, none, some, List, [], ◌∷◌, ◌++◌, map, ◌+◌,
  min, zero, suc,
}
use yo_db.Base.Lists.{length, all, any, keep}
use yo_db.Base.Strings.{◌==◌}
use yo_db.Base.Dicts.{Dict, get, has, put, contains}
use yo_db.Base.Tests.{eqb, if◌then◌else◌}
use yo_db.Errors.{
  Result, ok, fail, crash, assertion_error, value_error, source_capability_unavailable,
  query_feature_not_supported, key_error, item, each, fail_at, ◌>>=◌, ◌>>◌,
}
use yo_db.Query.Models.{
  BoundFilterExpression, BoundFilterExpressions, bound_all, list_expressions, BoundOrderTerm,
  BoundExtensionTerm, BoundQuery,
}
use yo_db.Query.Extensions.{extension_terms?}
use yo_db.Query.Resolution.{
  ResolvedField, SingleSourceQueryBinding, SourceResolvedQuery, QuerySourceShape, single_source,
  multi_source,
}
use yo_db.Planning.Expressions.{
  top_level_conjuncts?, top_level_conjuncts, filter_fields, holds_when_every_field_is_null,
}
use yo_db.Planning.Capabilities.{SourceCapabilities, PlannerPolicy}
use yo_db.Planning.Adapter.{
  SourceOperationRequest, PushdownDecision, SourcePlanningRegistry, is_some, is_requested,
  plan_remote_scan, adapter_for,
}
use yo_db.Planning.Contracts.{
  RemoteScan, AssemblyStep, RecordAssembly, PhysicalNode, remote_scan, record_assembly,
  coordinator_filter, coordinator_sort_page, result_project, default_schedule, scan_name,
}

-- `services.row_cap`
unfoldable pub row_cap : PlannerPolicy → SourceCapabilities → ℕ
row_cap policy caps = elim caps.maximum_rows [
  | none ↦ policy.maximum_rows_per_source
  | some declared ↦ min policy.maximum_rows_per_source declared
]

abbrev bounded : ℕ → Option ℕ → ℕ
bounded first none = first
bounded first (some maximum) = min first maximum

abbrev first_or_assert : Option ℕ → Option ℕ → Result ℕ
first_or_assert none maximum = crash assertion_error
first_or_assert (some first) maximum = ok (bounded first maximum)

-- `effective_limit`
unfoldable pub effective_limit : {V F : Type 0} → BoundQuery V F → Result ℕ
effective_limit query = first_or_assert query.page.first query.constraints.maximum_results

-- `deduplicate_fields`, of the names seen before
unfoldable pub deduplicate_fields : List String → List ResolvedField → List ResolvedField
deduplicate_fields seen [] = []
deduplicate_fields seen (f ∷ fields) =
    let again = deduplicate_fields seen fields in
    let new = deduplicate_fields (f.field.name ∷ seen) fields in
    if contains f.field.name seen then again else f ∷ new

-- `source_projection`
unfoldable pub source_projection : SingleSourceQueryBinding → List ResolvedField
unfolding deduplicate_fields
source_projection source = deduplicate_fields [] (source.logical_id ∷ source.fields)

-- `fields_to_source`: later sources replace earlier ones, and the identity source owns `id`
abbrev own_fields : String → List ResolvedField → Dict String → Dict String
own_fields source_name [] owners = owners
own_fields source_name (f ∷ fields) owners =
    own_fields source_name fields (put owners f.field.name source_name)

abbrev own_sources : List SingleSourceQueryBinding → Dict String → Dict String
own_sources [] owners = owners
own_sources (s ∷ sources) owners = own_sources sources (own_fields s.source_name s.fields owners)

-- The one owner of all the names, if there is one
abbrev is_owner : Dict String → String → String → Bool
is_owner owners owner name = elim (get owners name) [ none ↦ false | some other ↦ other == owner ]

unfoldable pub single_owner : Dict String → List String → Option String
single_owner owners [] = none
single_owner owners (name ∷ names) = elim (get owners name) [
  | none ↦ none
  | some owner ↦ if all (is_owner owners owner) names then some owner else none
]

module _ {V : Type 0} where
  abbrev may_push : String → BoundFilterExpression V → String → Bool
  may_push identity conjunct owner =
      owner == identity || not (holds_when_every_field_is_null conjunct)

  -- The conjuncts that a source is given
  unfoldable pub conjuncts_for :
      Dict String
      → String
      → String
      → List (BoundFilterExpression V)
      → List (BoundFilterExpression V)
  unfolding single_owner
  conjuncts_for owners identity source_name conjuncts =
      keep
        (λ c. elim (single_owner owners (filter_fields c)) [
          | none ↦ false
          | some owner ↦ owner == source_name && may_push identity c owner
        ])
        conjuncts

  abbrev conjoined : List (BoundFilterExpression V) → Option (BoundFilterExpression V)
  conjoined [] = none
  conjoined (e ∷ []) = some e
  conjoined (e ∷ es) = some (bound_all (list_expressions (e ∷ es)))

module _ {V F : Type 0} where
  -- `source_local_filters` of one source
  unfoldable pub source_local_filter :
      SourceResolvedQuery V F → SingleSourceQueryBinding → Option (BoundFilterExpression V)
  unfolding conjuncts_for
  source_local_filter resolved source =
      let identity = resolved.identity_source.source_name in
      let owners = put (own_sources resolved.sources []) "id" identity in
      conjoined (
        conjuncts_for owners identity source.source_name
          (top_level_conjuncts? resolved.query.where_))

-- What each source will enforce. An order is accepted whole or not at all, so `==` compares lengths.
pub record ScanPlan (V : Type 0) : Type 0 where
  pub scans : List (RemoteScan V)
  pub fully_pushed : Bool
  pub page_pushed : Bool

-- What the loop over the sources keeps
pub record ScanProgress (V : Type 0) : Type 0 where
  pub scans : List (RemoteScan V)
  pub pushed_conjuncts : ℕ
  pub every_source_accepted : Bool
  pub page_pushed : Bool

abbrev pub first_progress : {V : Type 0} → ScanProgress V
first_progress = record {
  scans = [];
  pushed_conjuncts = 0;
  every_source_accepted = true;
  page_pushed = false;
}

abbrev same_limit : Option ℕ → Option ℕ → Bool
same_limit none none = true
same_limit (some m) (some n) = eqb m n
same_limit _ _ = false

module _ {V F : Type 0} (registry : SourcePlanningRegistry) (policy : PlannerPolicy)
    (resolved : SourceResolvedQuery V F) where
  -- The request of one source; a complete one has the order and the page of the query.
  unfoldable pub request_of : Bool → SingleSourceQueryBinding → Result (SourceOperationRequest V)
  unfolding effective_limit source_projection source_local_filter
  request_of true source = do
    limit ← effective_limit resolved.query
    ok (record {
      projection = source_projection source;
      filter = resolved.query.where_;
      order_by = resolved.query.order_by;
      limit = some limit;
      complete_result = true;
    })
  request_of false source = ok (record {
    projection = source_projection source;
    filter = source_local_filter resolved source;
    order_by = [];
    limit = none;
    complete_result = false;
  })

  abbrev pub page_is_pushed : SourceOperationRequest V → PushdownDecision V → Bool
  page_is_pushed requested made =
      is_requested made.accepted_filter requested.filter
      && eqb (length made.accepted_order) (length requested.order_by)
      && same_limit made.accepted_limit requested.limit

  abbrev pub needs_guard : SourceOperationRequest V → PushdownDecision V → Bool
  needs_guard requested made =
      not requested.complete_result || not (same_limit made.accepted_limit requested.limit)

  unfoldable pub scan_of :
      SourceCapabilities
      → SingleSourceQueryBinding
      → SourceOperationRequest V
      → PushdownDecision V
      → RemoteScan V
  unfolding row_cap
  scan_of caps source requested made = record {
    source = source;
    projection = requested.projection;
    pushed_filter = made.accepted_filter;
    order_by = made.accepted_order;
    limit = made.accepted_limit;
    maximum_rows = if needs_guard requested made then some (row_cap policy caps) else none;
    key_filter = none;
    vector_search = none;
    key_lookup_limit = Option.map (λ lookup. lookup.maximum_keys) caps.key_lookup;
  }

  -- What a source adds to the progress
  unfoldable pub add_scan :
      SourceCapabilities
      → SingleSourceQueryBinding
      → SourceOperationRequest V
      → PushdownDecision V
      → ScanProgress V
      → ScanProgress V
  unfolding scan_of
  add_scan caps source requested made progress = record {
    scans = progress.scans ++ (scan_of caps source requested made ∷ []);
    pushed_conjuncts =
        progress.pushed_conjuncts
        + (if is_requested made.accepted_filter requested.filter
            then length (top_level_conjuncts? requested.filter)
            else 0);
    every_source_accepted =
        progress.every_source_accepted && is_requested made.accepted_filter requested.filter;
    page_pushed =
        if requested.complete_result then page_is_pushed requested made else progress.page_pushed;
  }

  unfoldable pub plan_source :
      Bool → SingleSourceQueryBinding → ScanProgress V → Result (ScanProgress V)
  unfolding request_of adapter_for plan_remote_scan add_scan
  plan_source complete source progress = do
    requested ← request_of complete source
    caps ← adapter_for registry source.source_kind
    made ← plan_remote_scan caps source requested
    ok (add_scan caps source requested made progress)

  unfoldable pub plan_sources :
      Bool → List SingleSourceQueryBinding → ScanProgress V → Result (ScanProgress V)
  unfolding plan_source
  plan_sources complete [] progress = ok progress
  plan_sources complete (source ∷ sources) progress = do
    next ← plan_source complete source progress
    plan_sources complete sources next

  abbrev is_single : QuerySourceShape → Bool
  is_single single_source = true
  is_single multi_source = false

  abbrev fully : Bool → ScanProgress V → Bool
  fully complete progress =
      if complete
      then progress.every_source_accepted
      else progress.every_source_accepted
        && eqb progress.pushed_conjuncts (length (top_level_conjuncts? resolved.query.where_))

  -- `ScanOperator.plan`
  unfoldable pub plan_scans : Bool → Result (ScanPlan V)
  unfolding plan_sources
  plan_scans allow_complete = do
    let complete = is_single resolved.shape && allow_complete
    progress ← plan_sources complete resolved.sources first_progress
    ok (record {
      scans = progress.scans;
      fully_pushed = fully complete progress;
      page_pushed = progress.page_pushed;
    })
