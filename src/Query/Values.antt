-- ===== src/Query/Values.antt =====
-- src/yodb/query/validation.py: operators and values of predicates. What Python's `UUID`,
-- `datetime.fromisoformat` and `float` do with a value is an interface.
pub mod Typed
use yo_db.Base.{
  ℕ, suc, String, Bool, true, false, not, ◌&&◌, ◌||◌, Option, none, some, List, [], ◌∷◌,
}
use yo_db.Base.Lists.{length}
use yo_db.Base.Strings.{◌<>◌, show, is_blank}
use yo_db.Base.Tests.{ltb, if◌then◌else◌}
use yo_db.Errors.{
  Result, ok, crash, overflow_error, fail_at, map_indexed, require, query_value_type_invalid,
  query_operator_not_supported, query_limit_invalid, ◌>>=◌, ◌>>◌,
}
use yo_db.Catalog.{
  LogicalType, id, string, text, int, float, bool, timestamp, uuid, json, bytes, is_text_type,
}
use yo_db.Query.Models.{
  ComparisonOperator, eq, ne, one_of, not_in, is_null, is_not_null, gt, gte, lt, lte, contains,
  starts_with, Predicate,
}
use yo_db.Query.Raw.{ℤ, Float, is_finite, Raw, raws_list}
use yo_db.Query.Raw
use yo_db.Query.Policy.{QueryValidationPolicy}

-- `datetime.fromisoformat(text)` and `astimezone(UTC)`: a ValueError, a time without a zone, a time
-- that has no UTC time in the range of `datetime`, or microseconds of UTC.
pub data Timestamp : Type 0 where
  malformed naive out_of_range : Timestamp
  aware : ℕ → Timestamp

-- `str(UUID(text))` with `none` for a ValueError, and `float(n)` with `none` for an OverflowError.
pub record Builtins : Type 0 where
  pub uuid_of : String → Option String
  pub timestamp_of : String → Timestamp
  pub float_of : ℤ → Option Float

-- A normalised value.
pub data Scalar : Type 0 where
  text_value : String → Scalar
  integer_value : ℤ → Scalar
  float_value : Float → Scalar
  bool_value : Bool → Scalar
  instant_value : ℕ → Scalar

pub data BoundValue : Type 0 where
  single : Scalar → BoundValue
  several : List Scalar → BoundValue

-- membership in `_EQUALITY_OPERATORS`, `_RANGE_OPERATORS` and `_TEXT_OPERATORS`
abbrev pub is_equality : ComparisonOperator → Bool
is_equality eq = true
is_equality ne = true
is_equality one_of = true
is_equality not_in = true
is_equality is_null = true
is_equality is_not_null = true
is_equality _ = false

abbrev pub is_range : ComparisonOperator → Bool
is_range gt = true
is_range gte = true
is_range lt = true
is_range lte = true
is_range _ = false

abbrev pub is_text_operator : ComparisonOperator → Bool
is_text_operator contains = true
is_text_operator starts_with = true
is_text_operator _ = false

-- `operator in {IS_NULL, IS_NOT_NULL}` and `operator in {IN, NOT_IN}`
abbrev pub is_null_test : ComparisonOperator → Bool
is_null_test is_null = true
is_null_test is_not_null = true
is_null_test _ = false

abbrev pub is_list_operator : ComparisonOperator → Bool
is_list_operator one_of = true
is_list_operator not_in = true
is_list_operator _ = false

-- `_EQUALITY_TYPES`, and the types of ranges
abbrev pub is_equality_type : LogicalType → Bool
is_equality_type json = false
is_equality_type bytes = false
is_equality_type _ = true

abbrev pub is_range_type : LogicalType → Bool
is_range_type int = true
is_range_type float = true
is_range_type timestamp = true
is_range_type _ = false

abbrev pub is_none {ℓ} : {A : Type ℓ} → Option A → Bool
is_none none = true
is_none (some _) = false

-- `_validate_operator`
unfoldable pub validate_operator : LogicalType → Predicate Raw → String → Result (Unit {0})
validate_operator type p location = do
  require (not (is_equality p.operator && not (is_equality_type type))) query_operator_not_supported
      (location <> ".op")
  require (not (is_range p.operator && not (is_range_type type))) query_operator_not_supported
      (location <> ".op")
  require (not (is_text_operator p.operator && not (is_text_type type)))
      query_operator_not_supported (location <> ".op")
  if is_null_test p.operator
      then require (not p.value_supplied) query_value_type_invalid (location <> ".value")
      else require (p.value_supplied && not (is_none p.value)) query_value_type_invalid
          (location <> ".value")

-- `_type_error`
abbrev type_error_at : String → Result Scalar
type_error_at location = fail_at query_value_type_invalid location

module _ (builtins : Builtins) where
  open builtins use {uuid_of, timestamp_of, float_of}

  normalize_uuid : Option String → String → Result Scalar
  normalize_uuid none location = type_error_at location
  normalize_uuid (some s) location = ok (text_value s)

  normalize_timestamp : Timestamp → String → Result Scalar
  normalize_timestamp malformed location = type_error_at location
  normalize_timestamp naive location = type_error_at location
  normalize_timestamp out_of_range location = crash overflow_error
  normalize_timestamp (aware t) location = ok (instant_value t)

  -- `math.isfinite(value)` and `float(value)` raise an OverflowError for the same integers.
  normalize_float : Option Float → String → Result Scalar
  normalize_float none location = crash overflow_error
  normalize_float (some x) location =
      if is_finite x then ok (float_value x) else type_error_at location

  -- `_normalize_scalar`
  normalize_scalar : LogicalType → Raw → String → Result Scalar
  unfolding normalize_uuid normalize_timestamp normalize_float
  normalize_scalar id (Raw.str s) location =
      if is_blank s then type_error_at location else ok (text_value s)
  normalize_scalar string (Raw.str s) location = ok (text_value s)
  normalize_scalar text (Raw.str s) location = ok (text_value s)
  normalize_scalar uuid (Raw.str s) location = normalize_uuid (uuid_of s) location
  normalize_scalar int (Raw.int n) location = ok (integer_value n)
  normalize_scalar float (Raw.int n) location = normalize_float (float_of n) location
  normalize_scalar float (Raw.float x) location = normalize_float (some x) location
  normalize_scalar bool (Raw.bool b) location = ok (bool_value b)
  normalize_scalar timestamp (Raw.str s) location = normalize_timestamp (timestamp_of s) location
  normalize_scalar _ _ location = type_error_at location

  -- the list of IN and NOT_IN
  normalize_list : LogicalType → List Raw → String → QueryValidationPolicy → Result BoundValue
  unfolding normalize_scalar
  normalize_list type [] location policy = fail_at query_value_type_invalid location
  normalize_list type (x ∷ xs) location policy = do
    require (not (ltb policy.maximum_in_values (length (x ∷ xs)))) query_limit_invalid location
    values ←
        map_indexed (λ i v. normalize_scalar type v (location <> "[" <> show i <> "]")) 0 (x ∷ xs)
    ok (several values)

  -- the value of IN and NOT_IN must be a list
  normalize_members : LogicalType → Option Raw → String → QueryValidationPolicy → Result BoundValue
  unfolding normalize_list
  normalize_members type (some (Raw.list xs)) location policy =
      normalize_list type (raws_list xs) location policy
  normalize_members type _ location policy = fail_at query_value_type_invalid location

  -- a `None` is no value of any type
  normalize_single : LogicalType → Option Raw → String → Result BoundValue
  unfolding normalize_scalar
  normalize_single type none location = fail_at query_value_type_invalid location
  normalize_single type (some v) location = do
    value ← normalize_scalar type v location
    ok (single value)

  -- `_normalize_predicate_value`
  unfoldable pub normalize_predicate_value :
      LogicalType → Predicate Raw → String → QueryValidationPolicy → Result (Option BoundValue)
  unfolding normalize_members normalize_single
  normalize_predicate_value type p location policy =
      if is_null_test p.operator
      then ok none
      else if is_list_operator p.operator
      then (do v ← normalize_members type p.value (location <> ".value") policy; ok (some v))
      else (do v ← normalize_single type p.value (location <> ".value"); ok (some v))
