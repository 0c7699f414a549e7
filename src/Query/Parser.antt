-- ===== src/Query/Parser.antt =====
-- src/yodb/query/parser.py: strict parsing of an untrusted query. Nesting is counted down: a
-- filter at depth `d` is parsed with `maximum_depth + 1 - d` levels left, and `remaining` is the
-- budget's `remaining_terms`. A check that the parser leaves behind with an exception loses both.
pub mod Request
pub mod Limits
pub mod Defaults
use yo_db.Base.{
  ℕ, zero, suc, ◌-◌, String, Bool, true, false, not, ◌&&◌, ◌||◌, Option, none, some, List, [], ◌∷◌,
}
use yo_db.Base.Lists.{length, keep, any}
use yo_db.Base.Dicts.{contains}
use yo_db.Base.Strings.{◌==◌, ◌<>◌, show}
use yo_db.Base.Tests.{eqb, if◌then◌else◌}
use yo_db.Errors.{
  Result, ok, fail, crash, key_error, ErrorCode, fail_at, map_indexed, query_shape_invalid,
  query_feature_not_supported, query_limit_invalid, query_expression_invalid,
  query_operator_not_supported, require, ◌>>=◌, ◌>>◌,
}
use yo_db.Query.Models.{
  ComparisonOperator, eq, ne, one_of, not_in, is_null, is_not_null, gt, gte, lt, lte, starts_with,
  SortDirection, asc, desc, DatasetReference, Predicate, FilterExpression, predicate, term, all_of,
  any_of, not_of, FilterExpressions, nil, cons, OrderTerm, PageRequest, QueryConstraints,
  QueryRequest, ExtensionTerm,
}
use yo_db.Query.Raw.{
  ℤ, pos, negsuc, Raw, null, int, float, Raws, Entries, Number, integer, real, not_positive,
  entry_at, entry_names, raws_list,
}
use yo_db.Query.Raw
use yo_db.Query.Shape.{mapping_of, list_of, non_empty_string, reject_unknown}
use yo_db.Query.Extensions.{TermExtension, TermRegistry, registry_keys}

-- `_fail` with no location
abbrev fail_plain {ℓ} : {A : Type ℓ} → ErrorCode → Result A
fail_plain code = fail (record { code = code; source_name = none; location = none })

-- `_Budget.enter`, where the depth is one of the levels that are left
enter : ℕ → String → Result ℕ
enter zero location = fail_at query_limit_invalid location
enter (suc remaining) location = ok remaining

-- `ComparisonOperator(text)`
unfoldable pub operator_named : String → Option ComparisonOperator
operator_named s =
    if s == "eq"
    then some eq
    else if s == "ne"
    then some ne
    else if s == "in"
    then some one_of
    else if s == "not_in"
    then some not_in
    else if s == "is_null"
    then some is_null
    else if s == "is_not_null"
    then some is_not_null
    else if s == "gt"
    then some gt
    else if s == "gte"
    then some gte
    else if s == "lt"
    then some lt
    else if s == "lte"
    then some lte
    else if s == "contains"
    then some ComparisonOperator.contains
    else if s == "starts_with"
    then some starts_with
    else none

-- `value.get("value")`, where a null is `None` too
abbrev supplied : Option Raw → Option Raw
supplied (some null) = none
supplied o = o

abbrev is_some {ℓ} : {A : Type ℓ} → Option A → Bool
is_some none = false
is_some (some _) = true

-- `Predicate(field, operator, value, value_supplied)` under `try: … except ValueError`
build_predicate :
    String → Option ComparisonOperator → Option Raw → String → Result (FilterExpression Raw)
build_predicate field none value location = fail_at query_operator_not_supported (location <> ".op")
build_predicate field (some operator) value location = ok (
    predicate (record {
      field = field;
      operator = operator;
      value = supplied value;
      value_supplied = is_some value;
    }))

-- the predicate at the end of `_parse_expression`
parse_predicate : Entries → String → Result (FilterExpression Raw)
unfolding reject_unknown non_empty_string build_predicate
parse_predicate value location = do
  reject_unknown value ("field" ∷ "op" ∷ "value" ∷ []) location
  field ← non_empty_string (entry_at value "field") (location <> ".field")
  text ← non_empty_string (entry_at value "op") (location <> ".op")
  build_predicate field (operator_named text) (entry_at value "value") location

-- the first extension whose key the mapping has
abbrev first_extension : TermRegistry → Entries → Option TermExtension
first_extension [] value = none
first_extension (e ∷ es) value =
    if contains e.key (entry_names value) then some e else first_extension es value

-- A parsed filter with the terms that the budget has left.
abbrev Parsed : Type 0
Parsed = FilterExpression Raw × ℕ

-- `value[extension.key]`, parsed
parse_term_body : TermExtension → Option Raw → String → ℕ → Result Parsed
parse_term_body extension none location remaining = crash key_error
parse_term_body extension (some body) location remaining = do
  parsed ← extension.parse body (location <> "." <> extension.key)
  ok (term parsed, remaining)

parse_term : TermExtension → Entries → String → ℕ → Result Parsed
unfolding parse_term_body
parse_term extension value location remaining =
    if eqb (length (entry_names value)) 1
    then parse_term_body extension (entry_at value extension.key) location remaining
    else fail_at query_expression_invalid location

-- `keys & {"all", "any", "not"}`
abbrev boolean_keys : Entries → List String
boolean_keys value = keep (λ k. contains k ("all" ∷ "any" ∷ "not" ∷ [])) (entry_names value)

module _ (parse_child : Raw → String → ℕ → Result Parsed) where
  -- the children of `all` and `any`, read in order from one budget
  parse_children : Raws → String → ℕ → ℕ → Result (FilterExpressions Raw × ℕ)
  parse_children Raws.nil prefix index remaining = ok (nil, remaining)
  parse_children (Raws.cons x xs) prefix index remaining = do
    (e, left) ← parse_child x (prefix <> "[" <> show index <> "]") remaining
    (es, end) ← parse_children xs prefix (suc index) left
    ok (cons e es, end)

  parse_items : (FilterExpressions Raw → FilterExpression Raw) → Raws → String → ℕ → Result Parsed
  unfolding parse_children
  parse_items build Raws.nil location remaining = fail_at query_expression_invalid location
  parse_items build (Raws.cons x xs) location remaining = do
    (es, left) ← parse_children (Raws.cons x xs) location 0 remaining
    ok (build es, left)

  parse_list : (FilterExpressions Raw → FilterExpression Raw) → Raw → String → ℕ → Result Parsed
  unfolding list_of parse_items
  parse_list build raw location remaining = do
    children ← list_of raw location
    parse_items build children location remaining

  parse_not : Raw → String → ℕ → Result Parsed
  parse_not raw location remaining = do
    (e, left) ← parse_child raw location remaining
    ok (not_of e, left)

  -- the branch of the one Boolean key, with `value[kind]`
  parse_boolean : String → Option Raw → String → ℕ → Result Parsed
  unfolding parse_list parse_not
  parse_boolean kind none location remaining = crash key_error
  parse_boolean kind (some child) location remaining =
      if kind == "not"
      then parse_not child (location <> ".not") remaining
      else if kind == "all"
      then parse_list all_of child (location <> ".all") remaining
      else parse_list any_of child (location <> ".any") remaining

  parse_plain : List String → Entries → String → ℕ → Result Parsed
  unfolding parse_boolean parse_predicate
  parse_plain [] value location remaining = do e ← parse_predicate value location; ok (e, remaining)
  parse_plain (kind ∷ others) value location remaining =
      if eqb (length (entry_names value)) 1 && eqb (length others) 0
      then parse_boolean kind (entry_at value kind) location remaining
      else fail_at query_expression_invalid location

  parse_value : Option TermExtension → Entries → String → ℕ → Result Parsed
  unfolding parse_term parse_plain
  parse_value (some extension) value location remaining =
      parse_term extension value location remaining
  parse_value none value location remaining =
      parse_plain (boolean_keys value) value location remaining

  parse_body : TermRegistry → Raw → String → ℕ → Result Parsed
  unfolding mapping_of parse_value
  parse_body terms raw location remaining = do
    value ← mapping_of raw location
    parse_value (first_extension terms value) value location remaining

-- `_parse_expression`
unfoldable pub parse_expression : TermRegistry → ℕ → Raw → String → ℕ → Result Parsed
unfolding enter parse_body
parse_expression terms zero raw location remaining = fail_at query_limit_invalid location
parse_expression terms (suc levels) raw location remaining = do
  left ← enter remaining location
  parse_body (parse_expression terms levels) terms raw location left
