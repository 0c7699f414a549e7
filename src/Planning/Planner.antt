-- ===== src/Planning/Planner.antt =====
-- src/yodb/planning/operators (filter.py, order_page.py, project.py, and `build` of combine.py) and
-- planner.py: one executable plan of a resolved query. The extension operators are an interface: the
-- filter that remains after their claims, and how the chosen strategies prepare the scans and build
-- their nodes. The choice among candidate plans is an interface too, which gives a schedule or none.
-- Notes, descriptions and digests are left out.
pub mod Selected
pub mod Answered
use mathlib.Core.Option
use yo_db.Base.{
  ℕ, String, Bool, true, false, not, ◌&&◌, ◌||◌, Option, none, some, List, [], ◌∷◌, ◌++◌, map, ◌+◌,
  min, zero, suc,
}
use yo_db.Base.Lists.{length, all, any, keep}
use yo_db.Base.Strings.{◌==◌}
use yo_db.Base.Dicts.{Dict, get, has, put, contains}
use yo_db.Base.Tests.{eqb, if◌then◌else◌}
use yo_db.Errors.{
  Result, ok, fail, crash, assertion_error, value_error, source_capability_unavailable,
  query_feature_not_supported, key_error, item, each, fail_at, ◌>>=◌, ◌>>◌,
}
use yo_db.Query.Models.{
  BoundFilterExpression, BoundFilterExpressions, bound_all, list_expressions, BoundOrderTerm,
  BoundExtensionTerm, BoundQuery,
}
use yo_db.Query.Extensions.{extension_terms?}
use yo_db.Query.Resolution.{
  ResolvedField, SingleSourceQueryBinding, SourceResolvedQuery, QuerySourceShape, single_source,
  multi_source,
}
use yo_db.Planning.Expressions.{
  top_level_conjuncts?, top_level_conjuncts, filter_fields, holds_when_every_field_is_null,
}
use yo_db.Planning.Capabilities.{SourceCapabilities, PlannerPolicy}
use yo_db.Planning.Adapter.{
  SourceOperationRequest, PushdownDecision, SourcePlanningRegistry, is_some, is_requested,
  plan_remote_scan, adapter_for,
}
use yo_db.Planning.Contracts.{
  RemoteScan, AssemblyStep, RecordAssembly, PhysicalNode, remote_scan, record_assembly,
  coordinator_filter, coordinator_sort_page, result_project, default_schedule, scan_name,
}
use yo_db.Planning.Scans.{ScanPlan, effective_limit, plan_scans}

-- `FilterOperator.build`
unfoldable pub build_filter :
    {V : Type 0} → PhysicalNode V → Option (BoundFilterExpression V) → Bool → PhysicalNode V
build_filter node expression fully_pushed =
    if fully_pushed then node else coordinator_filter node expression

-- `OrderPageOperator.build`
unfoldable pub build_order_page :
    {V F : Type 0} → PhysicalNode V → BoundQuery V F → Bool → Result (PhysicalNode V)
unfolding effective_limit
build_order_page node query true = ok node
build_order_page node query false = do
  limit ← effective_limit query
  ok (coordinator_sort_page node query.order_by (some limit))

-- `fields.setdefault(…)` of the projections of the scans
abbrev pub default_fields : List ResolvedField → Dict ResolvedField → Dict ResolvedField
default_fields [] found = found
default_fields (f ∷ fields) found =
    default_fields fields (if has found f.field.name then found else put found f.field.name f)

abbrev pub projected_fields :
    {V : Type 0} → List (RemoteScan V) → Dict ResolvedField → Dict ResolvedField
projected_fields [] found = found
projected_fields (scan ∷ scans) found =
    projected_fields scans (default_fields scan.projection found)

-- `ProjectOperator.projection`
unfoldable pub projection_of :
    {V F : Type 0} → BoundQuery V F → List (RemoteScan V) → Result (List ResolvedField)
unfolding each
projection_of query scans = each (λ f. item (get (projected_fields scans []) f.name)) query.select

-- `_field_named("id", projection)`
abbrev check_id : List ResolvedField → Result (Unit {0})
check_id projection =
    if any (λ f. f.field.name == "id") projection then ok tt else crash assertion_error

-- `ProjectOperator.build`
unfoldable pub build_project :
    {V F : Type 0} → PhysicalNode V → BoundQuery V F → List (RemoteScan V) → Result (PhysicalNode V)
unfolding projection_of
build_project node query scans = do
  projection ← projection_of query scans
  check_id projection
  ok (result_project node projection)

abbrev transfer_keys : ℕ → Option ℕ
transfer_keys zero = none
transfer_keys (suc n) = some (suc n)

-- `CombineOperator.build`
unfoldable pub build_assembly :
    {V : Type 0}
    → PlannerPolicy
    → RemoteScan V
    → List (RemoteScan V)
    → List AssemblyStep
    → RecordAssembly V
unfolding default_schedule
build_assembly policy first contributors schedule =
    let required_names = map scan_name (keep (λ c. is_some c.pushed_filter) contributors) in
    record {
      anchor = first;
      contributors = contributors;
      required_contributor_matches = required_names;
      maximum_transfer_keys = transfer_keys policy.maximum_transfer_keys;
      maximum_key_batches = policy.maximum_key_batches;
      schedule = elim schedule [
        | [] ↦ default_schedule first contributors required_names
        | step ∷ steps ↦ step ∷ steps
      ];
    }

-- The reads: one scan, or an assembly of several. Unpacking no scan is a ValueError.
unfoldable pub build_reads :
    {V : Type 0} → PlannerPolicy → List (RemoteScan V) → List AssemblyStep → Result (PhysicalNode V)
unfolding build_assembly
build_reads policy [] schedule = crash value_error
build_reads policy (scan ∷ []) schedule = ok (remote_scan scan)
build_reads policy (first ∷ second ∷ scans) schedule =
    ok (record_assembly (build_assembly policy first (second ∷ scans) schedule))

-- A claim of an extension operator, and how the strategy that was chosen for it is built
pub record Strategy (V : Type 0) : Type 0 where
  pub prepare : List (RemoteScan V) → List (RemoteScan V)
  pub build : PhysicalNode V → PhysicalNode V

-- The extensions that claim a term of the query, with the filter that remains for the others; and
-- the choices for a plan of the scans.
pub record PlanningExtensions (V : Type 0) : Type 0 where
  pub claims : Bool
  pub remaining : Option (BoundFilterExpression V)
  pub strategies : ScanPlan V → Result (List (Strategy V))
  pub schedule : ScanPlan V → List AssemblyStep

abbrev refuse_unclaimed : List BoundExtensionTerm → Result (Unit {0})
refuse_unclaimed [] = ok tt
refuse_unclaimed (t ∷ ts) = fail_at query_feature_not_supported "where"

abbrev prepare_all : {V : Type 0} → List (Strategy V) → List (RemoteScan V) → List (RemoteScan V)
prepare_all [] scans = scans
prepare_all (s ∷ strategies) scans = prepare_all strategies (s.prepare scans)

abbrev build_all : {V : Type 0} → List (Strategy V) → PhysicalNode V → PhysicalNode V
build_all [] node = node
build_all (s ∷ strategies) node = build_all strategies (s.build node)

abbrev core_of :
    {V F : Type 0}
    → SourceResolvedQuery V F
    → Option (BoundFilterExpression V)
    → SourceResolvedQuery V F
core_of resolved remaining = record {
  query = record {
    root = resolved.query.root;
    select = resolved.query.select;
    where_ = remaining;
    order_by = resolved.query.order_by;
    page = resolved.query.page;
    constraints = resolved.query.constraints;
    query_fingerprint = resolved.query.query_fingerprint;
    catalog_fingerprint = resolved.query.catalog_fingerprint;
  };
  shape = resolved.shape;
  identity_source = resolved.identity_source;
  sources = resolved.sources;
  logical_id_links = resolved.logical_id_links;
  extension_sources = resolved.extension_sources;
}

-- `FederatedPhysicalPlanner.plan`, of what the extensions claimed
unfoldable pub plan :
    {V F : Type 0}
    → SourcePlanningRegistry
    → PlannerPolicy
    → PlanningExtensions V
    → SourceResolvedQuery V F
    → Result (PhysicalNode V)
unfolding plan_scans build_reads build_filter build_order_page build_project
plan registry policy extensions resolved = do
  refuse_unclaimed (extension_terms? extensions.remaining)
  scan_plan ←
      plan_scans registry policy (core_of resolved extensions.remaining) (not extensions.claims)
  strategies ← extensions.strategies scan_plan
  let scans = prepare_all strategies scan_plan.scans
  reads ← build_reads policy scans (extensions.schedule scan_plan)
  let filtered = build_filter reads extensions.remaining scan_plan.fully_pushed
  paged ← build_order_page (build_all strategies filtered) resolved.query scan_plan.page_pushed
  build_project paged resolved.query scans
