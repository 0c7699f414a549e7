-- ===== src/Query/Values/Typed.antt =====
-- A normalised value fits its operator and the logical type of its field.
use yo_db.Base.{
  ◌≤◌, ◌<◌, String, ◌≡◌, refl, Bool, true, false, not, Option, none, some, List, [], ◌∷◌, arith,
}
use yo_db.Base.Lists.{All, length}
use yo_db.Base.Strings.{◌<>◌, show, is_blank}
use yo_db.Base.Tests.{ltb, if◌then◌else◌}
use yo_db.Errors.{Result, ok, fail, crash, ◌>>=◌, map_indexed, require, query_limit_invalid}
use yo_db.Errors.Ensures.{Ensures, Ensures-bind, Ensures-require, Ensures-map_indexed}
use yo_db.Catalog.{LogicalType, id, string, text, int, float, bool, timestamp, uuid, is_text_type}
use yo_db.Query.Models.{ComparisonOperator, Predicate}
use yo_db.Query.Raw.{Raw, is_finite, raws_list}
use yo_db.Query.Policy.{QueryValidationPolicy}
use yo_db.Query.Values.{
  Builtins, Scalar, text_value, integer_value, float_value, bool_value, instant_value, BoundValue,
  single, several, is_equality, is_range, is_text_operator, is_null_test, is_list_operator,
  is_equality_type, is_range_type, validate_operator, normalize_scalar, normalize_list,
  normalize_members, normalize_single, normalize_predicate_value,
}

-- The values of a logical type.
abbrev pub HasType : LogicalType → Scalar → Type 0
HasType id (text_value s) = is_blank s ≡ false
HasType string (text_value s) = Unit
HasType text (text_value s) = Unit
HasType uuid (text_value s) = Unit
HasType int (integer_value n) = Unit
HasType float (float_value x) = is_finite x ≡ true
HasType bool (bool_value b) = Unit
HasType timestamp (instant_value t) = Unit
HasType _ _ = ⊥

-- No value for a test for NULL, a list within the limits for IN and NOT_IN, else one value.
abbrev pub Conforms : QueryValidationPolicy → LogicalType → Bool → Bool → Option BoundValue → Type 0
Conforms policy type true _ value = value ≡ none
Conforms policy type false true (some (several vs)) =
    All (HasType type) vs × (0 < length vs) × (length vs ≤ policy.maximum_in_values)
Conforms policy type false false (some (single v)) = HasType type v
Conforms policy type false _ _ = ⊥

-- The operator is one of those that the validator allows for the type.
abbrev pub Supports : LogicalType → ComparisonOperator → Type 0
Supports type o =
    (is_equality o ≡ true → is_equality_type type ≡ true)
    × (is_range o ≡ true → is_range_type type ≡ true)
    × (is_text_operator o ≡ true → is_text_type type ≡ true)

pub validate_operator-Supports :
    (type : LogicalType) (p : Predicate Raw) (location : String)
    → Ensures (λ _. Supports type p.operator) (validate_operator type p location)
unfolding validate_operator
validate_operator-Supports type p location = ground arith

module _ (builtins : Builtins) where
  scalar_typed :
      (type : LogicalType) (v : Raw) (location : String)
      → Ensures (HasType type) (normalize_scalar builtins type v location)
  unfolding normalize_scalar
  scalar_typed id (Raw.str s) location = ground arith
  scalar_typed string (Raw.str s) location = tt
  scalar_typed text (Raw.str s) location = tt
  scalar_typed uuid (Raw.str s) location = ground arith
  scalar_typed int (Raw.int n) location = tt
  scalar_typed float (Raw.int n) location = ground arith
  scalar_typed float (Raw.float x) location = ground arith
  scalar_typed bool (Raw.bool b) location = tt
  scalar_typed timestamp (Raw.str s) location = ground arith
  scalar_typed _ _ location = tt

  list_typed :
      (type : LogicalType) (xs : List Raw) (location : String) (policy : QueryValidationPolicy)
      → Ensures
          (λ v. Conforms policy type false true (some v))
          (normalize_list builtins type xs location policy)
  unfolding normalize_list
  list_typed type [] location policy = tt
  list_typed type (x ∷ xs) location policy =
      let Post = λ (v : BoundValue). Conforms policy type false true (some v) in
      Ensures-bind (λ _. not (ltb policy.maximum_in_values (length (x ∷ xs))) ≡ true) Post
        (require (not (ltb policy.maximum_in_values (length (x ∷ xs)))) query_limit_invalid
          location)
        _ (Ensures-require _ query_limit_invalid location)
        λ _ short.
          Ensures-bind (λ ys. All (HasType type) ys × (length ys ≡ length (x ∷ xs))) Post
            (map_indexed
              (λ i v. normalize_scalar builtins type v (location <> "[" <> show i <> "]")) 0
              (x ∷ xs))
            _ (Ensures-map_indexed (HasType type) _ 0 (x ∷ xs) (λ i v. scalar_typed type v _))
            λ ys h. (h.0, ground arith, ground arith)

  members_typed :
      (type : LogicalType) (o : Option Raw) (location : String) (policy : QueryValidationPolicy)
      → Ensures
          (λ v. Conforms policy type false true (some v))
          (normalize_members builtins type o location policy)
  unfolding normalize_members
  members_typed type (some (Raw.list xs)) location policy =
      list_typed type (raws_list xs) location policy
  members_typed type (some _) location policy = tt
  members_typed type none location policy = tt

  single_typed :
      (type : LogicalType) (o : Option Raw) (location : String) (policy : QueryValidationPolicy)
      → Ensures
          (λ v. Conforms policy type false false (some v))
          (normalize_single builtins type o location)
  unfolding normalize_single
  single_typed type none location policy = tt
  single_typed type (some v) location policy =
      Ensures-bind (HasType type) (λ v. Conforms policy type false false (some v))
        (normalize_scalar builtins type v location) _ (scalar_typed type v location) λ s h. h

  Ensures-some :
      (P : Option BoundValue → Type 0) (r : Result BoundValue)
      → Ensures (λ v. P (some v)) r
      → Ensures P (r >>= λ v. ok (some v))
  Ensures-some P (ok v) h = h
  Ensures-some P (fail e) h = tt
  Ensures-some P (crash e) h = tt

  pub normalize_predicate_value-Conforms :
      (type : LogicalType) (p : Predicate Raw) (location : String) (policy : QueryValidationPolicy)
      → Ensures
          (Conforms policy type (is_null_test p.operator) (is_list_operator p.operator))
          (normalize_predicate_value builtins type p location policy)
  unfolding normalize_predicate_value
  normalize_predicate_value-Conforms type p location policy =
      value_typed (is_null_test p.operator) (is_list_operator p.operator)
    where
      value_typed :
          (null_test list_test : Bool)
          → Ensures (Conforms policy type null_test list_test) (
              if null_test
              then ok none
              else if list_test
              then (do
                v ← normalize_members builtins type p.value (location <> ".value") policy
                ok (some v))
              else (do
                v ← normalize_single builtins type p.value (location <> ".value")
                ok (some v)))
      value_typed true b = refl
      value_typed false true =
          Ensures-some (Conforms policy type false true) _
            (members_typed type p.value (location <> ".value") policy)
      value_typed false false =
          Ensures-some (Conforms policy type false false) _
            (single_typed type p.value (location <> ".value") policy)
