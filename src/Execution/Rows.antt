-- ===== src/Execution/Rows.antt =====
-- src/yodb/execution/operators/rows.py: row semantics that YoDb applies itself. The objects in a
-- row are whatever a driver returns, so their comparisons are an interface; `None` is the value
-- that a row lacks.
pub mod Kleene
pub mod Order
use Prim.Native.Nat.{Ordering}
use mathlib.Core.Option
use yo_db.Base.{
  ℕ, String, ◌≡◌, refl, Bool, true, false, not, ◌&&◌, ◌||◌, Option, none, some, List, [], ◌∷◌,
}
use yo_db.Base.Tests.{if◌then◌else◌}
use yo_db.Base.Sorting.{reversed}
use yo_db.Query.Models.{
  ComparisonOperator, eq, ne, one_of, not_in, is_null, is_not_null, gt, gte, lt, lte, contains,
  starts_with, SortDirection, asc, desc, BoundPredicate, BoundFilterExpression, bound_predicate,
  bound_term, bound_all, bound_any, bound_not, BoundFilterExpressions, bnil, bcons, BoundOrderTerm,
}

-- Python's operators on the objects of rows and of filters. `less` is `none` where `<` raises a
-- TypeError; `members` gives the elements of a tuple, `none` standing for a `None` among them;
-- `sorted_by_str` is `sorted(values, key=str)`.
pub record Objects (V : Type 0) : Type 0 where
  pub equal : V → V → Bool
  pub less : V → V → Option Bool
  pub repr_less : V → V → Bool
  pub str_contains : V → Option V → Bool
  pub str_starts_with : V → Option V → Bool
  pub members : V → List (Option V)
  pub sorted_by_str : List V → List V

-- `bool | None`
pub data Truth : Type 0 where
  holds fails unknown : Truth

abbrev pub of_bool : Bool → Truth
of_bool true = holds
of_bool false = fails

-- A row: `row.get(name)`, where a missing column and a NULL are both `None`.
abbrev pub Row : Type 0 → Type 0
Row V = String → Option V

-- `none` is the AssertionError of an unknown expression.
abbrev pub Evaluation : Type 0
Evaluation = Option Truth

-- `None if value is None else not value`
abbrev pub negated : Truth → Truth
negated holds = fails
negated fails = holds
negated unknown = unknown

-- `predicate_truth` of a row without a value
abbrev pub absent_truth : ComparisonOperator → Truth
absent_truth is_null = holds
absent_truth is_not_null = fails
absent_truth _ = unknown

-- a comparison under `try: … except TypeError: return False`
abbrev or_false : Option Bool → Truth
or_false none = fails
or_false (some b) = of_bool b

abbrev pub directed : SortDirection → Ordering → Ordering
directed asc o = o
directed desc o = reversed o

abbrev pub then_by : Ordering → Ordering → Ordering
then_by Ordering.eq o = o
then_by o _ = o

module _ {V : Type 0} (objects : Objects V) where
  open objects use {equal, less, str_contains, str_starts_with, members}

  -- `actual in values`
  is_member : V → List (Option V) → Bool
  is_member actual [] = false
  is_member actual (none ∷ values) = is_member actual values
  is_member actual (some v ∷ values) = equal actual v || is_member actual values

  has_none : List (Option V) → Bool
  has_none [] = false
  has_none (none ∷ values) = true
  has_none (some v ∷ values) = has_none values

  -- `a >= b` of Python objects
  abbrev less_or_equal : V → V → Option Bool
  less_or_equal a b = elim (less a b) [ none ↦ none | some b' ↦ some (b' || equal a b) ]

  -- `predicate_truth` of a value: `none` is a TypeError, from a membership test in `None`.
  present_truth : ComparisonOperator → V → Option V → Evaluation
  unfolding is_member has_none
  present_truth is_null actual expected = some fails
  present_truth is_not_null actual expected = some holds
  present_truth contains actual expected = some (of_bool (str_contains actual expected))
  present_truth starts_with actual expected = some (of_bool (str_starts_with actual expected))
  present_truth eq actual none = some fails
  present_truth ne actual none = some holds
  present_truth one_of actual none = none
  present_truth not_in actual none = none
  present_truth gt actual none = some fails
  present_truth gte actual none = some fails
  present_truth lt actual none = some fails
  present_truth lte actual none = some fails
  present_truth eq actual (some v) = some (of_bool (equal actual v))
  present_truth ne actual (some v) = some (of_bool (not (equal actual v)))
  present_truth one_of actual (some v) = some (of_bool (is_member actual (members v)))
  present_truth not_in actual (some v) =
      some (if has_none (members v) then unknown else of_bool (not (is_member actual (members v))))
  present_truth gt actual (some v) = some (or_false (less v actual))
  present_truth gte actual (some v) = some (or_false (less_or_equal v actual))
  present_truth lt actual (some v) = some (or_false (less actual v))
  present_truth lte actual (some v) = some (or_false (less_or_equal actual v))

  unfoldable pub predicate_truth : BoundPredicate V → Option V → Evaluation
  unfolding present_truth
  predicate_truth p none = some (absent_truth p.operator)
  predicate_truth p (some actual) = present_truth p.operator actual p.value

  -- `truth`, with the loops of `_and` and `_or`, which stop at the first FALSE or TRUE. The Boolean
  -- is their variable `unknown`.
  unfoldable mutual
    unfolding predicate_truth

    pub truth : BoundFilterExpression V → Row V → Evaluation
    truth (bound_predicate p) row = predicate_truth p (row p.field.name)
    truth (bound_term t) row = none
    truth (bound_all es) row = truth_and es row false
    truth (bound_any es) row = truth_or es row false
    truth (bound_not e) row = Option.map negated (truth e row)

    pub truth_and : BoundFilterExpressions V → Row V → Bool → Evaluation
    truth_and bnil row seen = some (if seen then unknown else holds)
    truth_and (bcons e es) row seen = elim (truth e row) [
      | none ↦ none
      | some fails ↦ some fails
      | some holds ↦ truth_and es row seen
      | some unknown ↦ truth_and es row true
    ]

    pub truth_or : BoundFilterExpressions V → Row V → Bool → Evaluation
    truth_or bnil row seen = some (if seen then unknown else fails)
    truth_or (bcons e es) row seen = elim (truth e row) [
      | none ↦ none
      | some holds ↦ some holds
      | some fails ↦ truth_or es row seen
      | some unknown ↦ truth_or es row true
    ]

  -- `truth(None, row)` is True
  abbrev pub truth? : Option (BoundFilterExpression V) → Row V → Evaluation
  truth? none row = some holds
  truth? (some e) row = truth e row

  -- `truth(expression, row) is True`; an AssertionError is `none`
  unfoldable pub matches : Option (BoundFilterExpression V) → Row V → Option Bool
  matches e row = elim (truth? e row) [ none ↦ none | some holds ↦ some true | some _ ↦ some false ]

  -- The comparison of two objects that are not `None` and not equal.
  abbrev pub before : V → V → Bool
  before first second = elim (less first second) [
    | none ↦ objects.repr_less first second
    | some b ↦ b
  ]

  -- One round of the loop of `compare_rows`: `eq` is `continue`.
  unfoldable pub compare_cells : SortDirection → Option V → Option V → Ordering
  compare_cells direction none none = Ordering.eq
  compare_cells direction none (some _) = directed direction Ordering.gt
  compare_cells direction (some _) none = directed direction Ordering.lt
  compare_cells direction (some first) (some second) =
      if equal first second
      then Ordering.eq
      else directed direction (if before first second then Ordering.lt else Ordering.gt)

  -- The sign of the number that `compare_rows` returns.
  unfoldable pub compare_rows : List BoundOrderTerm → Row V → Row V → Ordering
  unfolding compare_cells
  compare_rows [] left right = Ordering.eq
  compare_rows (t ∷ terms) left right =
      then_by (compare_cells t.direction (left t.field.name) (right t.field.name))
        (compare_rows terms left right)
