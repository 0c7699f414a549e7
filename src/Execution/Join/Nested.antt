-- ===== src/Execution/Join/Nested.antt =====
-- The join in memory is a nested loop over the driving and the probing rows.
use mathlib.Core.List.{append_assoc}
use yo_db.Base.{◌≡◌, refl, sym, ap, ◌∙◌, Option, none, some, List, [], ◌∷◌, ◌++◌}
use yo_db.Base.Lists.{keep, length, append_nil}
use yo_db.Base.Tests.{ltb}
use yo_db.Errors.Ensures.{Ensures, Ensures-if, Ensures-weaken}
use yo_db.Execution.Rows.{Objects, Row}
use yo_db.Execution.Rows.Order.{Comparable}
use yo_db.Execution.Join.{HashJoin, group_rows, group_of?, join_rows, joined_with}
use yo_db.Execution.Join.Groups.{has_key, group_rows-keep}

module _ {V : Type 0} (objects : Objects V) (node : HashJoin) (probe_rows : List (Row V)) where
  -- The probing rows with the key of a driving row; a missing key matches none.
  abbrev pub scan_of : Option V → List (Row V)
  scan_of none = []
  scan_of (some k) = keep (λ r. has_key objects (r node.probe_key) k) probe_rows

  -- Every driving row, in order, with each probing row of its key, in order; a row without any
  -- stays in a left join.
  abbrev pub nested_loop : List (Row V) → List (Row V)
  unfolding joined_with
  nested_loop [] = []
  nested_loop (row ∷ rows) =
      joined_with objects node row (scan_of (row node.driver_key)) ++ nested_loop rows

  module _ (laws : Comparable objects) where
    group_of-scan_of :
        (key : Option V)
        → group_of? objects (group_rows objects node.probe_key probe_rows []) key ≡ scan_of key
    group_of-scan_of none = refl
    group_of-scan_of (some k) = group_rows-keep objects node.probe_key probe_rows k laws

    -- The rows that were joined before stand first, and the bound holds of all of them.
    abbrev IsJoin : List (Row V) → List (Row V) → List (Row V) → Type 0
    IsJoin rows joined out = out ≡ joined ++ nested_loop rows

    join_rows-IsJoin :
        (rows joined : List (Row V))
        → Ensures
            (IsJoin rows joined)
            (join_rows objects node (group_rows objects node.probe_key probe_rows []) rows joined)
    unfolding join_rows
    join_rows-IsJoin [] joined = sym (append_nil joined)
    join_rows-IsJoin (row ∷ rows) joined =
        let groups = group_rows objects node.probe_key probe_rows [] in
        let found = group_of? objects groups (row node.driver_key) in
        let now = joined ++ joined_with objects node row found in
        let scanned = joined_with objects node row (scan_of (row node.driver_key)) in
        let same : now ≡ joined ++ scanned =
          ap (λ ms. joined ++ joined_with objects node row ms)
            (group_of-scan_of (row node.driver_key)) in
        Ensures-if (IsJoin (row ∷ rows) joined) (ltb node.policy.maximum_joined_rows (length now)) _
          (join_rows objects node groups rows now) (λ _. tt)
          λ _.
            Ensures-weaken (IsJoin rows now) (IsJoin (row ∷ rows) joined)
              (join_rows objects node groups rows now) (join_rows-IsJoin rows now)
              λ out h.
                h
                ∙ ap (λ l. l ++ nested_loop rows) same
                ∙ append_assoc joined scanned (nested_loop rows)

-- On comparable objects, the rows that a join returns before it orders them are those of a nested
-- loop over the driving and the probing rows, in the same order.
pub join_rows-nested_loop :
    {V : Type 0} (objects : Objects V) (node : HashJoin) (driver_rows probe_rows : List (Row V))
    → Comparable objects
    → Ensures
        (λ out. out ≡ nested_loop objects node probe_rows driver_rows)
        (join_rows objects node (group_rows objects node.probe_key probe_rows []) driver_rows [])
join_rows-nested_loop objects node driver_rows probe_rows laws =
    join_rows-IsJoin objects node probe_rows laws driver_rows []
