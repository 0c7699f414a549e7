-- ===== src/Tests/Joins.antt =====
-- A left join of people and their orders, by numbers.
use yo_db.Base.{
  ℕ, ◌≡◌, refl, Bool, true, false, Option, none, some, List, [], ◌∷◌, map, arith, ◌||◌,
}
use yo_db.Base.Lists.{length, keep}
use yo_db.Base.Strings.{◌==◌}
use yo_db.Base.Tests.{ltb, if◌then◌else◌}
use yo_db.Errors.{Result, ok, fail, crash, recursion_error, query_row_limit_exceeded}
use yo_db.Errors.Ensures.{Ensures}
use yo_db.Catalog.{int, public}
use yo_db.Execution.Rows.{Row}
use yo_db.Execution.Join.{HashJoin, Sides, group_rows, group_of, join_rows, probe, execute_join}
use yo_db.Execution.Join.Groups.{has_key, group_rows-keep}
use yo_db.Execution.Join.Nested.{nested_loop, join_rows-nested_loop}
use yo_db.Execution.Join.Fuel.{end_if, probe-terminates}
use yo_db.Tests.Catalogs.{field_of}
use yo_db.Tests.Filters.{numbers, numbers-Comparable}

abbrev left_join : HashJoin
left_join = record {
  driver_is_left = true;
  driver_key = "id";
  probe_key = "person";
  alias = "orders";
  optional = true;
  left_columns = "id" ∷ [];
  right_columns = "total" ∷ [];
  order = [];
  first = 10;
  policy = record {
    batch_size = 2;
    maximum_driver_rows = 5;
    maximum_probe_rows = 5;
    maximum_joined_rows = 5;
  };
}

abbrev person : ℕ → Row ℕ
person n name = if name == "id" then some n else none

abbrev an_order : ℕ → ℕ → ℕ → Row ℕ
an_order id person total name =
    if name == "id"
    then some id
    else if name == "person"
    then some person
    else if name == "total"
    then some total
    else none

abbrev orders : List (Row ℕ)
orders = an_order 7 1 70 ∷ an_order 8 3 80 ∷ an_order 9 1 90 ∷ []

abbrev people_rows : List (Row ℕ)
people_rows = person 1 ∷ person 2 ∷ person 3 ∷ []

abbrev has_some_key : Row ℕ → List ℕ → Bool
has_some_key row [] = false
has_some_key row (k ∷ ks) = has_key numbers (row "person") k || has_some_key row ks

-- The source refuses more than one key at a time.
abbrev sides : Sides ℕ
sides = record {
  driver = ok people_rows;
  probe = λ keys budget.
      if ltb 1 (length keys)
      then fail (record { code = query_row_limit_exceeded; source_name = none; location = none })
      else ok (keep (λ r. has_some_key r keys) orders);
}

abbrev totals : Result (List (Row ℕ)) → List (Option ℕ × Option ℕ)
totals (ok rows) = map (λ r. (r "id", r "orders.total")) rows
totals _ = []

left_join-totals :
    totals (execute_join numbers (field_of int public false) left_join sides)
    ≡ (some 1, some 70) ∷ (some 1, some 90) ∷ (some 2, none) ∷ (some 3, some 80) ∷ []
unfolding execute_join
left_join-totals = refl

group_rows_example :
    group_of numbers (group_rows numbers "person" orders []) 1
    ≡ keep (λ r. has_key numbers (r "person") 1) orders
group_rows_example = group_rows-keep numbers "person" orders 1 numbers-Comparable

join_rows_example :
    Ensures
      (λ out. out ≡ nested_loop numbers left_join orders people_rows)
      (join_rows numbers left_join (group_rows numbers "person" orders []) people_rows [])
join_rows_example = join_rows-nested_loop numbers left_join people_rows orders numbers-Comparable

sides_return : (keys : List ℕ) (budget : ℕ) → ¬ (sides.probe keys budget ≡ crash recursion_error)
sides_return keys budget =
    end_if numbers left_join sides (ltb 1 (length keys))
      (fail (record { code = query_row_limit_exceeded; source_name = none; location = none }))
      (ok (keep (λ r. has_some_key r keys) orders)) (λ _ same. cc) (λ same. cc)

probe_example :
    ¬ (probe numbers left_join sides 2 (1 ∷ 3 ∷ []) [] ≡ crash recursion_error)
    × (probe numbers left_join sides 2 (1 ∷ 3 ∷ []) []
        ≡ probe numbers left_join sides 5 (1 ∷ 3 ∷ []) [])
probe_example =
    probe-terminates numbers left_join sides 5 (1 ∷ 3 ∷ []) [] sides_return (omega arith)
      (omega arith)
