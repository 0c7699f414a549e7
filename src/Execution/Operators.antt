-- ===== src/Execution/Operators.antt =====
-- src/yodb/execution/operators: filter.py, order_page.py, project.py and the dispatch of
-- base.py, over the nodes of src/yodb/planning/contracts.py. The clock and the trace of a run are not modelled.
pub mod Page
use yo_db.Base.{ℕ, String, Bool, true, false, ◌&&◌, Option, none, some, List, [], ◌∷◌, map}
use yo_db.Base.Lists.{length, take}
use yo_db.Base.Sorting.{sort_by}
use yo_db.Base.Dicts.{contains}
use yo_db.Base.Tests.{ltb, eqb, if◌then◌else◌}
use yo_db.Errors.{
  Result, ok, fail, crash, assertion_error, value_error, query_row_limit_exceeded,
  query_coordinator_limit_exceeded, ◌>>=◌, ◌>>◌,
}
use yo_db.Query.Models.{BoundFilterExpression, BoundOrderTerm}
use yo_db.Query.Resolution.{ResolvedField}
use yo_db.Planning.Contracts.{
  RemoteScan, RecordAssembly, PhysicalNode, remote_scan, record_assembly, coordinator_filter,
  coordinator_sort_page, result_project,
}
use yo_db.Execution.Scans.{Sources, scan_rows}
use yo_db.Execution.Assembly.{assemble}
use yo_db.Execution.Rows.{Objects, Row, matches, compare_rows}

pub record FederatedExecutionPolicy : Type 0 where
  pub maximum_coordinator_rows : ℕ

-- `__post_init__`
unfoldable pub checked_execution_policy : FederatedExecutionPolicy → Result FederatedExecutionPolicy
checked_execution_policy policy =
    if eqb policy.maximum_coordinator_rows 0 then crash value_error else ok policy

-- `rows[:first]`
abbrev pub first_rows {ℓ} : {A : Type ℓ} → Option ℕ → List A → List A
first_rows none rows = rows
first_rows (some n) rows = take n rows

abbrev pub public_name : ResolvedField → String
public_name f = f.field.name

-- `row for … if test`, where no test is the AssertionError of an unknown expression
abbrev add_if : {V : Type 0} → Option Bool → Row V → Result (List (Row V)) → Result (List (Row V))
add_if none row rest = crash assertion_error
add_if (some true) row rest = rest >>= λ kept. ok (row ∷ kept)
add_if (some false) row rest = rest

module _ {V : Type 0} (objects : Objects V) where
  -- `filter.execute`; a filter that cannot be decided is an AssertionError.
  unfoldable pub filter_rows :
      Option (BoundFilterExpression V) → List (Row V) → Result (List (Row V))
  unfolding matches
  filter_rows e [] = ok []
  filter_rows e (row ∷ rows) = add_if (matches objects e row) row (filter_rows e rows)

  ordered : List BoundOrderTerm → List (Row V) → List (Row V)
  unfolding sort_by compare_rows
  ordered [] rows = rows
  ordered (t ∷ terms) rows = sort_by (compare_rows objects (t ∷ terms)) rows

  -- `order_page.execute`
  unfoldable pub order_page :
      FederatedExecutionPolicy
      → List BoundOrderTerm
      → Option ℕ
      → List (Row V)
      → Result (List (Row V))
  unfolding ordered
  order_page policy terms first rows =
      if ltb policy.maximum_coordinator_rows (length rows)
      then fail
          (record { code = query_coordinator_limit_exceeded; source_name = none; location = none })
      else ok (first_rows first (ordered terms rows))

-- `project.execute` of a row
unfoldable pub project_row : {V : Type 0} → List String → Row V → Row V
project_row names row = λ name. if contains name names then row name else none

-- `ExecutionContext.execute` with the handlers of these nodes
unfoldable pub execute :
    {V : Type 0}
    → Objects V
    → FederatedExecutionPolicy
    → Sources V
    → PhysicalNode V
    → Result (List (Row V))
unfolding scan_rows assemble filter_rows order_page project_row
execute objects policy sources (remote_scan node) = scan_rows sources node
execute objects policy sources (record_assembly node) = assemble objects sources node
execute objects policy sources (coordinator_filter input e) = do
  rows ← execute objects policy sources input
  filter_rows objects e rows
execute objects policy sources (coordinator_sort_page input terms first) = do
  rows ← execute objects policy sources input
  order_page objects policy terms first rows
execute objects policy sources (result_project input projection) = do
  rows ← execute objects policy sources input
  ok (map (project_row (map public_name projection)) rows)
