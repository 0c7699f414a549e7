-- ===== src/Tests/Plans.antt =====
-- Requests over people of an age, placed at PostgreSQL.
use yo_db.Base.{ℕ, ◌≡◌, refl, true, false, Option, none, some, List, [], ◌∷◌}
use yo_db.Base.Lists.{All}
use yo_db.Errors.{Result, ok, ◌>>=◌}
use yo_db.Errors.Ensures.{Ensures, Ensures-bind, Ensures-weaken}
use yo_db.Errors.Returns.{Returns}
use yo_db.Catalog.{postgres, id, public}
use yo_db.Query.Models.{BoundField, BoundQuery}
use yo_db.Query.Resolution.{
  ResolvedField, SingleSourceQueryBinding, SourceResolvedQuery, single_source,
}
use yo_db.OperatorKinds.{OperatorKind, operator_specs, operator_catalog, spec_of}
use yo_db.OperatorKinds.Catalogued.{IsSpecOf, operator_catalog-IsSpecOf}
use yo_db.Planning.Capabilities.{
  postgres_capabilities, checked_capabilities, default_planner_policy, checked_planner_policy,
  view_of,
}
use yo_db.Planning.Capabilities.Support.{agrees, operator_support-agrees}
use yo_db.Planning.Adapter.{SourceOperationRequest, PushdownDecision, plan_remote_scan}
use yo_db.Planning.Adapter.Placement.{IsPlacement, plan_remote_scan-IsPlacement}
use yo_db.Execution.Rows.{Row, truth}
use yo_db.Execution.Scans.{Sources}
use yo_db.Execution.Operators.{filter_rows, order_page, execute}
use yo_db.Execution.Operators.Page.{filter_rows-IsFiltered, order_page-IsPage}
use yo_db.Planning.Planner.{plan}
use yo_db.Planning.Planner.Selected.{IsRead, IsHonest}
use yo_db.Planning.Planner.Answered.{IsAnswered, unclaimed, plan-Answers}
use yo_db.Query.Extensions.{extension_terms}
use yo_db.Tests.Catalogs.{field_of}
use yo_db.Tests.Filters.{
  numbers, numbers-Comparable, age, age_policy, ages, row_of, older, by_age, age_field,
}

operator_catalog_example :
    Ensures
      (λ specs. (kind : OperatorKind) → Returns (IsSpecOf specs kind) (spec_of specs kind))
      (operator_catalog operator_specs)
operator_catalog_example = operator_catalog-IsSpecOf operator_specs

shipped_is_accepted : operator_catalog operator_specs ≡ ok operator_specs
unfolding operator_catalog operator_specs
shipped_is_accepted = refl

operator_support_example :
    All (λ spec. agrees spec (view_of postgres_capabilities spec.kind) ≡ true) operator_specs
operator_support_example = operator_support-agrees postgres_capabilities

postgres_is_checked : checked_capabilities postgres_capabilities ≡ ok postgres_capabilities
unfolding checked_capabilities postgres_capabilities
postgres_is_checked = refl

default_is_checked : checked_planner_policy default_planner_policy ≡ ok default_planner_policy
unfolding checked_planner_policy
default_is_checked = refl

abbrev id_field : BoundField
id_field = record {
  dataset_name = "people";
  scope = "people";
  name = "id";
  spec = field_of id public false;
}

abbrev id_column : ResolvedField
id_column = record {
  field = id_field;
  source_name = "main";
  source_kind = postgres;
  connection_ref = "main_db";
  resource = "people";
  physical_name = "pk";
  uses = [];
}

abbrev pub people_source : SingleSourceQueryBinding
people_source = record {
  source_name = "main";
  source_kind = postgres;
  connection_ref = "main_db";
  resource = "people";
  logical_id = id_column;
  fields = age_field ∷ [];
  embeddings = [];
}

abbrev whole_request : SourceOperationRequest ℕ
whole_request = record {
  projection = age_field ∷ [];
  filter = some older;
  order_by = by_age;
  limit = some 2;
  complete_result = true;
}

abbrev limit_of : Result (PushdownDecision ℕ) → Option ℕ
limit_of (ok made) = made.accepted_limit
limit_of _ = none

limit_is_placed :
    limit_of (plan_remote_scan postgres_capabilities people_source whole_request) ≡ some 2
unfolding plan_remote_scan postgres_capabilities
limit_is_placed = refl

plan_remote_scan_example :
    Ensures
      (IsPlacement postgres_capabilities people_source whole_request)
      (plan_remote_scan postgres_capabilities people_source whole_request)
plan_remote_scan_example =
    plan_remote_scan-IsPlacement postgres_capabilities people_source whole_request

abbrev people_table : SingleSourceQueryBinding → List (Row ℕ)
people_table source = row_of 35 ∷ row_of 20 ∷ row_of 50 ∷ row_of 40 ∷ []

-- A source that filters, orders and cuts as the coordinator does.
abbrev honest_source : Sources ℕ
honest_source = record {
  execute = λ scan. filter_rows numbers scan.pushed_filter (people_table scan.source) >>= λ rows.
      order_page numbers age_policy scan.order_by scan.limit rows;
}

honest_source-IsHonest : IsHonest numbers numbers people_table honest_source
honest_source-IsHonest = λ scan h k.
    Ensures-bind _ (IsRead numbers numbers (people_table scan.source) scan)
      (filter_rows numbers scan.pushed_filter (people_table scan.source)) _
      (filter_rows-IsFiltered numbers scan.pushed_filter (people_table scan.source))
      λ rows filtered.
        Ensures-weaken _ (IsRead numbers numbers (people_table scan.source) scan)
          (order_page numbers age_policy scan.order_by scan.limit rows)
          (order_page-IsPage numbers numbers-Comparable age_policy scan.order_by scan.limit rows)
          λ page paged. record { filtered = rows; selected = filtered; paged = paged }

abbrev people_query : BoundQuery ℕ ℕ
people_query = record {
  root = record { name = "people"; scope = "people"; spec = record { fields = [] } };
  select = id_field ∷ age ∷ [];
  where_ = some older;
  order_by = by_age;
  page = record { first = some 2 };
  constraints = record {
    maximum_results = none;
    maximum_latency_ms = none;
    maximum_cost = none;
    minimum_quality = none;
  };
  query_fingerprint = "";
  catalog_fingerprint = "";
}

abbrev people_resolved : SourceResolvedQuery ℕ ℕ
people_resolved = record {
  query = people_query;
  shape = single_source;
  identity_source = people_source;
  sources = people_source ∷ [];
  logical_id_links = [];
  extension_sources = [];
}

plan-Answers_example :
    Ensures
      (λ node.
        Ensures
          (IsAnswered numbers numbers people_query (people_table people_source))
          (execute numbers age_policy honest_source node))
      (plan
        (postgres_capabilities ∷ [])
        default_planner_policy
        (unclaimed (some older))
        people_resolved)
plan-Answers_example =
    plan-Answers numbers numbers numbers-Comparable age_policy honest_source people_table
      honest_source-IsHonest (postgres_capabilities ∷ []) default_planner_policy people_resolved
      people_source refl refl

-- PostgreSQL filters, orders and cuts; the coordinator only projects.
planned_two :
    ages (
      plan
        (postgres_capabilities ∷ [])
        default_planner_policy
        (unclaimed (some older))
        people_resolved
      >>= λ node. execute numbers age_policy honest_source node)
    ≡ some 50 ∷ some 40 ∷ []
unfolding plan execute truth postgres_capabilities extension_terms
planned_two = refl
