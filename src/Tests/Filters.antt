-- ===== src/Tests/Filters.antt =====
-- Filters over rows of numbers.
use yo_db.Base.{ℕ, ◌≡◌, ◌↔◌, refl, true, false, Option, none, some, List, [], ◌∷◌, map, arith}
use yo_db.Base.Lists.{All}
use yo_db.Base.Tests.{ltb, eqb, if◌then◌else◌}
use yo_db.Base.Strings.{◌==◌}
use yo_db.Base.Sorting.{at_most, reversed}
use yo_db.Errors.{Result, ok, crash, assertion_error}
use yo_db.Errors.Ensures.{Ensures}
use yo_db.Catalog.{int, public, postgres}
use yo_db.Query.Resolution.{ResolvedField}
use yo_db.Query.Models.{
  ComparisonOperator, gt, is_null, desc, BoundField, BoundFilterExpression, bound_predicate,
  bound_term, bound_all, bound_any, bound_not, bnil, bcons, bound_semantic, BoundOrderTerm,
}
use yo_db.Query.Policy.{default_policy}
use yo_db.Query.Extensions.{strip_terms, validate_placement, extension_terms}
use yo_db.Query.Semantic.{default_terms, is_bound_semantic}
use yo_db.Execution.Rows.{Objects, Row, holds, truth, predicate_truth, compare_rows}
use yo_db.Execution.Rows.Kleene.{negate_each, truth-de_morgan}
use yo_db.Execution.Rows.Order.{Comparable, compare_rows-preorder}
use yo_db.Planning.Contracts.{
  RemoteScan, remote_scan, coordinator_filter, coordinator_sort_page, result_project,
}
use yo_db.Execution.Scans.{Sources}
use yo_db.Execution.Operators.{FederatedExecutionPolicy, execute}
use yo_db.Execution.Operators.Page.{IsAnswer, execute-IsAnswer}
use yo_db.Planning.Expressions.{
  conjunctive_predicates, top_level_conjuncts, top_level_conjuncts?, holds_when_every_field_is_null,
  filter_fields,
}
use yo_db.Planning.Expressions.Conjuncts.{truth-top_level_conjuncts, truth-conjunctive_predicates}
use yo_db.Planning.Expressions.Nulls.{truth-holds_when_every_field_is_null}
use yo_db.Planning.Expressions.Frame.{truth-filter_fields}
use yo_db.Planning.Expressions.Stripped.{IsStripped, strip_terms-IsStripped}
use yo_db.Planning.Expressions.Placed.{IsWithin, IsPlaced, validate_placement-IsPlaced}
use yo_db.Tests.Catalogs.{field_of}

-- Rows of natural numbers.
abbrev pub numbers : Objects ℕ
numbers = record {
  equal = eqb;
  less = λ a b. some (ltb a b);
  repr_less = λ a b. false;
  str_contains = λ a b. false;
  str_starts_with = λ a b. false;
  members = λ a. [];
  sorted_by_str = λ values. values;
}

pub numbers-Comparable : Comparable numbers
numbers-Comparable = record {
  equal_refl = λ a. ground arith;
  equal_sym = λ a b. ground arith;
  equal_left = λ a b c h. ground arith;
  before_left = λ a b c h. ground arith;
  before_right = λ a b c h. ground arith;
  before_total = λ a b h. ground arith;
  before_trans = λ a b c h i j k. (ground arith, ground arith);
}

abbrev pub age : BoundField
age = record {
  dataset_name = "people";
  scope = "default";
  name = "age";
  spec = field_of int public false;
}

abbrev compares : ComparisonOperator → Option ℕ → BoundFilterExpression ℕ
compares operator value =
    bound_predicate
      (record { field = age; operator = operator; value = value; value_supplied = true })

abbrev pub older : BoundFilterExpression ℕ
older = compares gt (some 30)

abbrev ageless : BoundFilterExpression ℕ
ageless = compares is_null none

abbrev pub row_of : ℕ → Row ℕ
row_of n name = if name == "age" then some n else none

abbrev pub by_age : List BoundOrderTerm
by_age = record { field = age; direction = desc } ∷ []

abbrev pub either : BoundFilterExpression ℕ
either = bound_any (bcons older (bcons ageless bnil))

-- a filter of a semantic condition and a predicate
abbrev pub semantic_and_older : BoundFilterExpression ℕ
semantic_and_older = bound_all (bcons (bound_term (bound_semantic age "old")) (bcons older bnil))

strip_terms_example :
    IsStripped is_bound_semantic
      (top_level_conjuncts semantic_and_older)
      (strip_terms semantic_and_older is_bound_semantic)
strip_terms_example = strip_terms-IsStripped is_bound_semantic semantic_and_older

-- `strip_terms` of a semantic condition beside an `any`, which `validate_placement` accepts
strips_no_any :
    strip_terms
      (bound_all (bcons (bound_term (bound_semantic age "old")) (bcons either bnil)))
      is_bound_semantic
    ≡ crash assertion_error
unfolding strip_terms
strips_no_any = refl

semantic_placed : validate_placement (some semantic_and_older) default_terms default_policy ≡ ok tt
unfolding validate_placement extension_terms
semantic_placed = refl

validate_placement_example :
    All (IsWithin (some semantic_and_older) default_policy) default_terms
    × All (IsPlaced default_terms) (top_level_conjuncts? (some semantic_and_older))
validate_placement_example =
    validate_placement-IsPlaced (some semantic_and_older) default_terms default_policy
      semantic_placed

compare_rows_example :
    ((a b : Row ℕ) → compare_rows numbers by_age b a ≡ reversed (compare_rows numbers by_age a b))
    × ((a b c : Row ℕ)
        → at_most (compare_rows numbers by_age a b) ≡ true
        → at_most (compare_rows numbers by_age b c) ≡ true
        → at_most (compare_rows numbers by_age a c) ≡ true)
compare_rows_example = compare_rows-preorder numbers by_age numbers-Comparable

conjuncts_example :
    (truth numbers (bound_all (bcons older bnil)) (row_of 40) ≡ some holds)
    ↔ All
        (λ c. truth numbers c (row_of 40) ≡ some holds)
        (top_level_conjuncts (bound_all (bcons older bnil)))
conjuncts_example = truth-top_level_conjuncts numbers (bound_all (bcons older bnil)) (row_of 40)

older_predicate :
    conjunctive_predicates older
    ≡ some (record { field = age; operator = gt; value = some 30; value_supplied = true } ∷ [])
unfolding conjunctive_predicates
older_predicate = refl

predicates_example :
    (truth numbers older (row_of 40) ≡ some holds)
    ↔ All
        (λ p. predicate_truth numbers p (row_of 40 p.field.name) ≡ some holds)
        (record { field = age; operator = gt; value = some 30; value_supplied = true } ∷ [])
predicates_example = truth-conjunctive_predicates numbers older (row_of 40) _ older_predicate

nulls_example :
    (truth numbers either (λ name. none) ≡ some holds)
    ↔ (holds_when_every_field_is_null either ≡ true)
unfolding filter_fields
nulls_example =
    truth-holds_when_every_field_is_null numbers either (λ name. none) (tt, (tt, tt))
      (refl, (refl, tt))

frame_example : truth numbers either (row_of 7) ≡ truth numbers either (λ name. some 7)
unfolding filter_fields
frame_example = truth-filter_fields numbers either (row_of 7) (λ name. some 7) (refl, (refl, tt))

de_morgan_example :
    (truth numbers (bound_not (bound_any (bcons older bnil))) (row_of 3)
      ≡ truth numbers (bound_all (negate_each (bcons older bnil))) (row_of 3))
    × (truth numbers (bound_not (bound_all (bcons older bnil))) (row_of 3)
        ≡ truth numbers (bound_any (negate_each (bcons older bnil))) (row_of 3))
    × (truth numbers (bound_not (bound_not ageless)) (row_of 3) ≡ truth numbers ageless (row_of 3))
de_morgan_example = truth-de_morgan numbers ageless (bcons older bnil) (row_of 3)

abbrev pub age_source : Sources ℕ
age_source = record { execute = λ scan. ok (row_of 35 ∷ row_of 20 ∷ row_of 50 ∷ row_of 40 ∷ []) }

abbrev pub age_policy : FederatedExecutionPolicy
age_policy = record { maximum_coordinator_rows = 10 }

abbrev pub age_field : ResolvedField
age_field = record {
  field = age;
  source_name = "main";
  source_kind = postgres;
  connection_ref = "main_db";
  resource = "people";
  physical_name = "age_years";
  uses = [];
}

abbrev pub age_scan : RemoteScan ℕ
age_scan = record {
  source = record {
    source_name = "main";
    source_kind = postgres;
    connection_ref = "main_db";
    resource = "people";
    logical_id = age_field;
    fields = age_field ∷ [];
    embeddings = [];
  };
  projection = age_field ∷ [];
  pushed_filter = none;
  order_by = [];
  limit = none;
  maximum_rows = some 5;
  key_filter = none;
  vector_search = none;
  key_lookup_limit = none;
}

abbrev pub ages : Result (List (Row ℕ)) → List (Option ℕ)
ages (ok rows) = map (λ row. row "age") rows
ages _ = []

-- the two oldest of those over 30
oldest_two :
    ages (
      execute numbers age_policy age_source (
        result_project
          (coordinator_sort_page
            (coordinator_filter (remote_scan age_scan) (some older))
            by_age
            (some 2))
          (age_field ∷ [])))
    ≡ some 50 ∷ some 40 ∷ []
unfolding execute truth
oldest_two = refl

execute_example :
    Ensures
      (IsAnswer numbers
        (some older)
        by_age
        (some 2)
        (age_field ∷ [])
        (execute numbers age_policy age_source (remote_scan age_scan)))
      (execute numbers age_policy age_source (
        result_project
          (coordinator_sort_page
            (coordinator_filter (remote_scan age_scan) (some older))
            by_age
            (some 2))
          (age_field ∷ [])))
execute_example =
    execute-IsAnswer numbers age_policy age_source (remote_scan age_scan) (some older) by_age
      (some 2) (age_field ∷ []) numbers-Comparable
