-- ===== src/Planning/Planner/Answered.antt =====
-- The plan of a single-source query answers it.
use mathlib.Core.Path.{subst}
use yo_db.Base.{
  ℕ, ◌≡◌, ◌⊎◌, String, refl, ap, inl, inr, Bool, true, false, Option, none, some, List, [], ◌∷◌,
  map,
}
use yo_db.Base.Lists.{All}
use yo_db.Base.Dicts.{Dict, get, has, put, All-put, All-get}
use yo_db.Base.Tests.{either_holds, Option-cases, if◌then◌else◌}
use yo_db.Errors.{ok, item, each, ◌>>=◌}
use yo_db.Errors.Ensures.{Ensures, Ensures-bind, Ensures-self}
use yo_db.Query.Models.{BoundField, BoundFilterExpression, BoundQuery}
use yo_db.Query.Extensions.{extension_terms?}
use yo_db.Query.Resolution.{
  ResolvedField, SingleSourceQueryBinding, SourceResolvedQuery, single_source,
}
use yo_db.Execution.Rows.{Objects, Row}
use yo_db.Execution.Rows.Order.{Comparable}
use yo_db.Execution.Scans.{Sources}
use yo_db.Execution.Operators.{FederatedExecutionPolicy, public_name, project_row, execute}
use yo_db.Planning.Capabilities.{PlannerPolicy}
use yo_db.Planning.Adapter.{SourcePlanningRegistry}
use yo_db.Planning.Contracts.{
  RemoteScan, PhysicalNode, remote_scan, coordinator_filter, coordinator_sort_page,
}
use yo_db.Planning.Scans.{ScanPlan, effective_limit, plan_scans}
use yo_db.Planning.Scans.Single.{IsScanned, everything, filter_only, IsSingle, plan_scans-Single}
use yo_db.Planning.Planner.{
  PlanningExtensions, build_filter, build_order_page, build_project, build_reads, default_fields,
  projected_fields, projection_of, check_id, refuse_unclaimed, plan,
}
use yo_db.Planning.Planner.Selected.{
  IsHonest, IsSelection, everything-Selected, filter_only-Selected, nothing-Selected,
}

-- No extension operator claims a term of the query.
abbrev pub unclaimed : {V : Type 0} → Option (BoundFilterExpression V) → PlanningExtensions V
unclaimed filter = record {
  claims = false;
  remaining = filter;
  strategies = λ scan_plan. ok [];
  schedule = λ scan_plan. [];
}

-- The answer of a query over a table: the selected fields of a selection of its rows, ordered by the
-- coordinator's comparisons or by the source's.
pub record IsAnswered {V F : Type 0} (objects orders : Objects V) (query : BoundQuery V F)
    (table answer : List (Row V)) : Type 0 where
  pub limit : ℕ
  pub limited : effective_limit query ≡ ok limit
  pub page : List (Row V)
  pub selection :
      IsSelection objects objects query.where_ query.order_by limit table page
      ⊎ IsSelection objects orders query.where_ query.order_by limit table page
  pub projected : answer ≡ map (project_row (map (λ f. f.name) query.select)) page

-- A dict of fields by their names
abbrev AreNamed : Dict ResolvedField → Type 0
AreNamed found = All (λ e. e.1.field.name ≡ e.0) found

default_fields-AreNamed :
    (fields : List ResolvedField) (found : Dict ResolvedField)
    → AreNamed found
    → AreNamed (default_fields fields found)
default_fields-AreNamed [] found h = h
default_fields-AreNamed (f ∷ fields) found h =
    default_fields-AreNamed fields
      (if has found f.field.name then found else put found f.field.name f)
      (either_holds AreNamed (has found f.field.name) found (put found f.field.name f) h
        (All-put (λ e. e.1.field.name ≡ e.0) found f.field.name f h refl))

projected_fields-AreNamed :
    {V : Type 0} (scans : List (RemoteScan V)) (found : Dict ResolvedField)
    → AreNamed found
    → AreNamed (projected_fields scans found)
projected_fields-AreNamed [] found h = h
projected_fields-AreNamed (scan ∷ scans) found h =
    projected_fields-AreNamed scans (default_fields scan.projection found)
      (default_fields-AreNamed scan.projection found h)

named_field :
    (found : Dict ResolvedField) (name : String)
    → AreNamed found
    → Ensures (λ f. public_name f ≡ name) (item (get found name))
named_field found name h = elim (Option-cases (get found name)) [
  | inl missing ↦ rw missing tt
  | inr (f, there) ↦ rw there (All-get (λ e. e.1.field.name ≡ e.0) found name h there)
]

named_fields :
    (found : Dict ResolvedField) (fields : List BoundField)
    → AreNamed found
    → Ensures
        (λ projection. map public_name projection ≡ map (λ f. f.name) fields)
        (each (λ f. item (get found f.name)) fields)
unfolding each
named_fields found [] h = refl
named_fields found (f ∷ fields) h =
    Ensures-bind _ (λ projection. map public_name projection ≡ map (λ f. f.name) (f ∷ fields))
      (item (get found f.name)) _ (named_field found f.name h)
      λ r e.
        Ensures-bind _ (λ projection. map public_name projection ≡ map (λ f. f.name) (f ∷ fields))
          (each (λ f. item (get found f.name)) fields) _ (named_fields found fields h)
          λ projection k. cc (e, k)

-- The columns of a projection are the selected fields, in their order.
projection_of-names :
    {V F : Type 0} (query : BoundQuery V F) (scans : List (RemoteScan V))
    → Ensures
        (λ projection. map public_name projection ≡ map (λ f. f.name) query.select)
        (projection_of query scans)
unfolding projection_of
projection_of-names query scans =
    named_fields (projected_fields scans []) query.select (projected_fields-AreNamed scans [] tt)

module _ {V F : Type 0} (objects orders : Objects V) (laws : Comparable objects)
    (execution : FederatedExecutionPolicy) (sources : Sources V)
    (tables : SingleSourceQueryBinding → List (Row V))
    (honest : IsHonest objects orders tables sources) (registry : SourcePlanningRegistry)
    (policy : PlannerPolicy) (resolved : SourceResolvedQuery V F)
    (source : SingleSourceQueryBinding) where
  abbrev Answers : PhysicalNode V → Type 0
  Answers node =
      Ensures (IsAnswered objects orders resolved.query (tables source))
        (execute objects execution sources node)

  -- Nodes whose rows are a selection of the table.
  abbrev Selects : SingleSourceQueryBinding → ℕ → PhysicalNode V → Type 0
  Selects s limit node =
      Ensures
        (λ page.
          IsSelection objects objects resolved.query.where_ resolved.query.order_by limit (tables s)
            page
          ⊎ IsSelection objects orders resolved.query.where_ resolved.query.order_by limit
              (tables s) page)
        (execute objects execution sources node)

  project-Answers :
      (limit : ℕ) (scans : List (RemoteScan V)) (node : PhysicalNode V)
      → effective_limit resolved.query ≡ ok limit
      → Selects source limit node
      → Ensures Answers (build_project node resolved.query scans)
  unfolding build_project execute
  project-Answers limit scans node limited selects =
      Ensures-bind _ Answers (projection_of resolved.query scans) _
        (projection_of-names resolved.query scans)
        λ projection named.
          Ensures-bind (λ _. Unit) Answers (check_id projection) _
            (Ensures-self (λ _. Unit) _ λ _ _. tt)
            λ _ _.
              Ensures-bind _ (IsAnswered objects orders resolved.query (tables source))
                (execute objects execution sources node) _ selects
                λ page selection. record {
                  limit = limit;
                  limited = limited;
                  page = page;
                  selection = selection;
                  projected = ap (λ names. map (project_row names) page) named;
                }

  page-Selects :
      (limit : ℕ) (scan : RemoteScan V) (fully page : Bool)
      → effective_limit resolved.query ≡ ok limit
      → scan.source ≡ source
      → scan.key_filter ≡ none
      → scan.vector_search ≡ none
      → IsScanned resolved.query.where_ resolved.query.order_by limit scan fully page
      → Ensures (Selects source limit) (
          build_order_page
            (build_filter (remote_scan scan) resolved.query.where_ fully)
            resolved.query
            page)
  unfolding build_order_page build_filter
  page-Selects limit scan fully page limited read whole plain (everything f o l) =
      subst (λ s. Selects s limit (remote_scan scan)) read
        (everything-Selected objects orders laws execution sources tables honest
          resolved.query.where_ resolved.query.order_by limit scan whole plain f o l)
  page-Selects limit scan fully page limited read whole plain (filter_only f l) = rw limited (
      subst
        (λ s.
          Selects s limit
            (coordinator_sort_page (remote_scan scan) resolved.query.order_by (some limit)))
        read
        (filter_only-Selected objects orders laws execution sources tables honest
          resolved.query.where_ resolved.query.order_by limit scan whole plain f l))
  page-Selects limit scan fully page limited read whole plain (IsScanned.nothing f l) = rw limited (
      subst
        (λ s. Selects s limit (
          coordinator_sort_page (coordinator_filter (remote_scan scan) resolved.query.where_)
            resolved.query.order_by (some limit)))
        read
        (nothing-Selected objects orders laws execution sources tables honest resolved.query.where_
          resolved.query.order_by limit scan whole plain f l))

  reads-Answers :
      (limit : ℕ) (scan_plan : ScanPlan V)
      → IsSingle registry policy resolved source limit scan_plan
      → Ensures Answers (
          build_reads policy scan_plan.scans [] >>= λ reads.
          build_order_page
            (build_filter reads resolved.query.where_ scan_plan.fully_pushed)
            resolved.query
            scan_plan.page_pushed
          >>= λ paged. build_project paged resolved.query scan_plan.scans)
  unfolding build_reads
  reads-Answers limit scan_plan single = rw (single.only) (
      Ensures-bind (Selects source limit) Answers _ _
        (page-Selects limit single.scan scan_plan.fully_pushed scan_plan.page_pushed single.limited
          single.read single.whole single.unranked single.scanned)
        λ node selects. project-Answers limit (single.scan ∷ []) node single.limited selects)

  -- Of a query over one source whose terms no extension claims, when the source keeps the promises
  -- of its capabilities (it returns the rows of its table of which a pushed filter is TRUE, in a
  -- pushed order, up to a pushed limit) and the coordinator's comparisons are comparisons: whatever
  -- the capabilities and the limits, a plan that `plan` returns, if its execution returns, answers
  -- the query. The answer is the selected fields, and no others, of the first rows, up to the page size in force and
  -- in the requested order (by the coordinator's comparisons or the source's), of the rows of the
  -- table of which the whole filter is TRUE.
  pub plan-Answers :
      resolved.shape ≡ single_source
      → resolved.sources ≡ source ∷ []
      → Ensures
          (λ node.
            Ensures
              (IsAnswered objects orders resolved.query (tables source))
              (execute objects execution sources node))
          (plan registry policy (unclaimed resolved.query.where_) resolved)
  unfolding plan
  plan-Answers single only =
      Ensures-bind (λ _. Unit) Answers (refuse_unclaimed (extension_terms? resolved.query.where_)) _
        (Ensures-self (λ _. Unit) _ λ _ _. tt)
        λ _ _.
          Ensures-bind _ Answers (plan_scans registry policy resolved true) _
            (plan_scans-Single registry policy resolved source single only)
            λ scan_plan (limit, facts). reads-Answers limit scan_plan facts
