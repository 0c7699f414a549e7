-- ===== src/Execution/Join.antt =====
-- src/yodb/execution/operators/join.py and src/yodb/planning/operators/join.py: the in-memory join
-- of two plans. Running a side is an interface: the driving plan, and the probing plan for a batch
-- of keys and a budget of rows. The clock is not modelled. Rows are taken to have their key columns,
-- as the plans of the sides select them; a NULL key never matches.
pub mod Groups
pub mod Nested
pub mod Fuel
use Prim.Native.String.{slice, count}
use yo_db.Base.{
  ℕ, zero, suc, ◌+◌, ◌-◌, ◌/◌, String, Bool, true, false, not, ◌&&◌, ◌||◌, Option, none, some, List,
  [], ◌∷◌, ◌++◌, map,
}
use yo_db.Base.Lists.{length, take, drop}
use yo_db.Base.Sorting.{sort_by}
use yo_db.Base.Dicts.{contains}
use yo_db.Base.Strings.{◌==◌, ◌<>◌, starts_with}
use yo_db.Base.Tests.{ltb, eqb, if◌then◌else◌}
use yo_db.Errors.{
  recursion_error, ErrorCode, ErrorDetail, Result, ok, fail, crash, value_error,
  query_row_limit_exceeded, query_coordinator_limit_exceeded, ◌>>=◌, ◌>>◌,
}
use yo_db.Catalog.{FieldSpec}
use yo_db.Query.Models.{SortDirection, asc, desc, BoundOrderTerm}
use yo_db.Execution.Rows.{Objects, Row, compare_rows}
use yo_db.Execution.Operators.{project_row}

pub record JoinPolicy : Type 0 where
  pub batch_size : ℕ
  pub maximum_driver_rows : ℕ
  pub maximum_probe_rows : ℕ
  pub maximum_joined_rows : ℕ

-- `__post_init__`
unfoldable pub checked_join_policy : JoinPolicy → Result JoinPolicy
checked_join_policy policy =
    if eqb policy.batch_size 0
      || eqb policy.maximum_driver_rows 0
      || eqb policy.maximum_probe_rows 0
      || eqb policy.maximum_joined_rows 0
    then crash value_error
    else ok policy

pub record OrderSpec : Type 0 where
  pub column : String
  pub descending : Bool

-- `driver_is_left` is `driver_side == "left"`.
pub record HashJoin : Type 0 where
  pub driver_is_left : Bool
  pub driver_key : String
  pub probe_key : String
  pub alias : String
  pub optional : Bool
  pub left_columns : List String
  pub right_columns : List String
  pub order : List OrderSpec
  pub first : ℕ
  pub policy : JoinPolicy

-- `_side` of the driving plan, and of `probe_for(keys, budget)`
pub record Sides (V : Type 0) : Type 0 where
  pub driver : Result (List (Row V))
  pub probe : List V → ℕ → Result (List (Row V))

abbrev pub over {ℓ} : {A : Type ℓ} → ErrorCode → Result A
over code = fail (record { code = code; source_name = none; location = none })

abbrev pub is_row_limit : ErrorCode → Bool
is_row_limit query_row_limit_exceeded = true
is_row_limit _ = false

abbrev columns : HashJoin → List String
columns node = node.left_columns ++ map (λ n. node.alias <> "." <> n) node.right_columns

-- `row[name] = value`
abbrev set_cell : {V : Type 0} → Row V → String → Option V → Row V
set_cell row key value = λ name. if key == name then value else row name

-- the columns of the traversed side that only order
ordering_names : String → List OrderSpec → List String
ordering_names alias [] = []
ordering_names alias (o ∷ os) =
    let rest = ordering_names alias os in
    if starts_with o.column (alias <> ".")
    then slice o.column (count alias + 1) (count o.column) ∷ rest
    else rest

abbrev cell_of : {V : Type 0} → Option (Row V) → String → Option V
cell_of none name = none
cell_of (some row) name = row name

set_cells : {V : Type 0} → String → Option (Row V) → List String → Row V → Row V
set_cells alias right [] row = row
set_cells alias right (n ∷ ns) row =
    set_cells alias right ns (set_cell row (alias <> "." <> n) (cell_of right n))

-- `_merge`
unfoldable pub merge : {V : Type 0} → HashJoin → Row V → Option (Row V) → Row V
unfolding set_cells ordering_names
merge node left right =
    set_cells node.alias right
      (node.right_columns ++ ordering_names node.alias node.order ++ ("id" ∷ [])) left

module _ {V : Type 0} (objects : Objects V) where
  open objects use {equal}

  is_key : V → List V → Bool
  is_key k [] = false
  is_key k (j ∷ js) = equal j k || is_key k js

  -- `list(dict.fromkeys(…))` of the keys that are not None
  add_keys : String → List (Row V) → List V → List V
  unfolding is_key
  add_keys name [] keys = keys
  add_keys name (row ∷ rows) keys = elim (row name) [
    | none ↦ add_keys name rows keys
    | some k ↦ add_keys name rows (if is_key k keys then keys else keys ++ (k ∷ []))
  ]

  -- `by_key.setdefault(key, []).append(row)`
  unfoldable pub add_to_group : List (V × List (Row V)) → V → Row V → List (V × List (Row V))
  add_to_group [] k row = (k, row ∷ []) ∷ []
  add_to_group ((j, rows) ∷ groups) k row =
      let rest = add_to_group groups k row in
      if equal j k then (j, rows ++ (row ∷ [])) ∷ groups else (j, rows) ∷ rest

  unfoldable pub group_rows :
      String → List (Row V) → List (V × List (Row V)) → List (V × List (Row V))
  unfolding add_to_group
  group_rows name [] groups = groups
  group_rows name (row ∷ rows) groups = elim (row name) [
    | none ↦ group_rows name rows groups
    | some k ↦ group_rows name rows (add_to_group groups k row)
  ]

  -- `by_key.get(key, ())`
  abbrev pub group_of : List (V × List (Row V)) → V → List (Row V)
  group_of [] k = []
  group_of ((j, rows) ∷ groups) k = if equal j k then rows else group_of groups k

  abbrev group_of? : List (V × List (Row V)) → Option V → List (Row V)
  group_of? groups none = []
  group_of? groups (some k) = group_of groups k

  -- `_probe` after its read: the rows are collected, within the bound; a batch that overflows a
  -- read guard is read in halves.
  after_read :
      HashJoin
      → List V
      → List (Row V)
      → Result (List (Row V))
      → Result (List (Row V))
      → Result (List (Row V))
  after_read node keys collected (ok rows) halves =
      let all_rows = collected ++ rows in
      if ltb node.policy.maximum_probe_rows (length all_rows)
      then over query_coordinator_limit_exceeded
      else ok all_rows
  after_read node keys collected (fail e) halves =
      if is_row_limit e.code && ltb 1 (length keys) then halves else fail e
  after_read node keys collected (crash e) halves = crash e

  -- `_probe`; halving keys ends, and the fuel is their number. Without fuel it is Python's
  -- RecursionError.
  unfoldable pub probe : HashJoin → Sides V → ℕ → List V → List (Row V) → Result (List (Row V))
  unfolding after_read
  probe node sides zero keys collected = crash recursion_error
  probe node sides (suc fuel) keys collected =
      let middle = length keys / 2 in
      let halves = probe node sides fuel (take middle keys) collected >>= λ left.
      probe node sides fuel (drop middle keys) left in
      after_read node keys collected
        (sides.probe keys (node.policy.maximum_probe_rows - length collected + 1)) halves

  -- the loop over `range(0, len(keys), batch_size)`, on fuel for the number of keys
  probe_batches : HashJoin → Sides V → ℕ → List V → List (Row V) → Result (List (Row V))
  unfolding probe
  probe_batches node sides fuel [] collected = ok collected
  probe_batches node sides zero (k ∷ keys) collected = ok collected
  probe_batches node sides (suc fuel) (k ∷ keys) collected = do
    let batch = take node.policy.batch_size (k ∷ keys)
    now ← probe node sides (length batch) batch collected
    probe_batches node sides fuel (drop node.policy.batch_size (k ∷ keys)) now

  -- the rows that one driving row joins to
  unfoldable pub joined_with : HashJoin → Row V → List (Row V) → List (Row V)
  unfolding merge
  joined_with node row [] = if node.optional then merge node row none ∷ [] else []
  joined_with node row (m ∷ ms) =
      map
        (λ match.
          if node.driver_is_left then merge node row (some match) else merge node match (some row))
        (m ∷ ms)

  unfoldable pub join_rows :
      HashJoin → List (V × List (Row V)) → List (Row V) → List (Row V) → Result (List (Row V))
  unfolding joined_with
  join_rows node groups [] joined = ok joined
  join_rows node groups (row ∷ rows) joined =
      let now = joined ++ joined_with node row (group_of? groups (row node.driver_key)) in
      let rest = join_rows node groups rows now in
      if ltb node.policy.maximum_joined_rows (length now)
      then over query_coordinator_limit_exceeded
      else rest

  -- `_Term`: what `compare_rows` reads of an order term, the name and the direction
  term_of : FieldSpec → String → Bool → BoundOrderTerm
  term_of spec column descending = record {
    field = record { dataset_name = ""; scope = ""; name = column; spec = spec };
    direction = if descending then desc else asc;
  }

  join_terms : FieldSpec → HashJoin → List BoundOrderTerm
  unfolding term_of
  join_terms spec node =
      map (λ o. term_of spec o.column o.descending) node.order
      ++ (term_of spec "id" false ∷ term_of spec (node.alias <> ".id") false ∷ [])

  -- `execute` of the join; the specification of a field is nowhere read.
  unfoldable pub execute_join : FieldSpec → HashJoin → Sides V → Result (List (Row V))
  unfolding add_keys probe_batches group_rows join_rows join_terms sort_by compare_rows project_row
  execute_join spec node sides = do
    driver_rows ← sides.driver
    if ltb node.policy.maximum_driver_rows (length driver_rows)
        then over query_row_limit_exceeded
        else ok tt
    let keys = add_keys node.driver_key driver_rows []
    probe_rows ← probe_batches node sides (length keys) keys []
    let groups = group_rows node.probe_key probe_rows []
    joined ← join_rows node groups driver_rows []
    let sorted = sort_by (compare_rows objects (join_terms spec node)) joined
    ok (map (project_row (columns node)) (take node.first sorted))
