-- ===== src/Query/Validation.antt =====
-- src/yodb/query/validation.py: `bind_query`. The digests of src/yodb/query/fingerprint.py are an
-- interface: SHA-256 of a payload, where the encoding to JSON refuses a NaN.
pub mod Filters
pub mod Bound
use yo_db.Base.{
  ℕ, suc, String, Bool, true, false, not, ◌&&◌, ◌||◌, Option, none, some, List, [], ◌∷◌, ◌++◌, map,
}
use yo_db.Base.Strings.{◌==◌, ◌<>◌, show}
use yo_db.Base.Dicts.{Dict, get, contains}
use yo_db.Base.Tests.{ltb, if◌then◌else◌}
use yo_db.Errors.{
  Result, ok, crash, value_error, fail_at, map_indexed, require, dataset_not_found,
  query_limit_invalid, query_operator_not_supported, ◌>>=◌, ◌>>◌,
}
use yo_db.Catalog.{Catalog, FieldSpec, DatasetSpec, LogicalType, json, bytes, is_visible}
use yo_db.Query.Models.{
  asc, FilterExpression, predicate, term, all_of, any_of, not_of, FilterExpressions, nil, cons,
  ExtensionTerm, BoundExtensionTerm, OrderTerm, PageRequest, QueryConstraints, QueryRequest,
  BoundField, BoundDataset, BoundFilterExpression, bound_predicate, bound_term, bound_all,
  bound_any, bound_not, BoundFilterExpressions, bnil, bcons, BoundOrderTerm, BoundQuery, Predicate,
}
use yo_db.Query.Raw.{Float, nan, Raw, Number, real, exceeds_one}
use yo_db.Query.Policy.{QueryValidationPolicy}
use yo_db.Query.Extensions.{
  TermExtension, TermRegistry, for_parsed, for_bound, extension_terms?, validate_placement,
}
use yo_db.Query.Fields.{bind_public_field}
use yo_db.Query.Values.{Builtins, BoundValue, is_none, validate_operator, normalize_predicate_value}

-- The payload of `query_fingerprint`.
pub record QueryPayload : Type 0 where
  pub dataset : BoundDataset
  pub select : List BoundField
  pub filter : Option (BoundFilterExpression BoundValue)
  pub order_by : List BoundOrderTerm
  pub maximum_results : Option ℕ
  pub minimum_quality : Option Number

pub record Digests : Type 0 where
  pub of_catalog : Catalog → String
  pub of_query : QueryPayload → String

abbrev pub payload_of :
    BoundDataset
    → List BoundField
    → Option (BoundFilterExpression BoundValue)
    → List BoundOrderTerm
    → QueryConstraints Number
    → QueryPayload
payload_of root select filter order_by constraints = record {
  dataset = root;
  select = select;
  filter = filter;
  order_by = order_by;
  maximum_results = constraints.maximum_results;
  minimum_quality = constraints.minimum_quality;
}

-- `json.dumps(…, allow_nan=False)` of a number
abbrev is_nan : Option Number → Bool
is_nan (some (real nan)) = true
is_nan _ = false

unfoldable pub query_fingerprint : Digests → QueryPayload → Result String
query_fingerprint digests payload =
    if is_nan payload.minimum_quality then crash value_error else ok (digests.of_query payload)

bind_predicate :
    Builtins
    → Predicate Raw
    → BoundDataset
    → String
    → QueryValidationPolicy
    → Result (BoundFilterExpression BoundValue)
unfolding bind_public_field validate_operator normalize_predicate_value
bind_predicate builtins p root location policy = do
  field ← bind_public_field root p.field (location <> ".field")
  validate_operator field.spec.type p location
  value ← normalize_predicate_value builtins field.spec.type p location policy
  ok (
      bound_predicate (record {
        field = field;
        operator = p.operator;
        value = value;
        value_supplied = p.value_supplied;
      }))

module _ (builtins : Builtins) (root : BoundDataset) (policy : QueryValidationPolicy)
    (terms : TermRegistry) where
  bind_term : ExtensionTerm → String → Result (BoundFilterExpression BoundValue)
  unfolding for_parsed
  bind_term t location = do
    extension ← for_parsed terms t
    bound ← extension.bind t root location policy
    ok (bound_term bound)

  -- `_bind_expression`
  unfoldable mutual
    unfolding bind_predicate bind_term

    pub bind_expression : FilterExpression Raw → String → Result (BoundFilterExpression BoundValue)
    bind_expression (predicate p) location = bind_predicate builtins p root location policy
    bind_expression (term t) location = bind_term t location
    bind_expression (all_of es) location = do
      bound ← bind_each es (location <> ".all[") 0
      ok (bound_all bound)
    bind_expression (any_of es) location = do
      bound ← bind_each es (location <> ".any[") 0
      ok (bound_any bound)
    bind_expression (not_of e) location = do
      bound ← bind_expression e (location <> ".not")
      ok (bound_not bound)

    pub bind_each : FilterExpressions Raw → String → ℕ → Result (BoundFilterExpressions BoundValue)
    bind_each nil prefix index = ok bnil
    bind_each (cons e es) prefix index = do
      bound ← bind_expression e (prefix <> show index <> "]")
      rest ← bind_each es prefix (suc index)
      ok (bcons bound rest)

  unfoldable pub bind_where :
      Option (FilterExpression Raw) → Result (Option (BoundFilterExpression BoundValue))
  unfolding bind_expression
  bind_where none = ok none
  bind_where (some e) = do bound ← bind_expression e "where"; ok (some bound)

-- whether a logical type has an order: neither JSON nor BYTES
abbrev pub is_orderable : LogicalType → Bool
is_orderable json = false
is_orderable bytes = false
is_orderable _ = true

bind_order_term : BoundDataset → ℕ → OrderTerm → Result BoundOrderTerm
unfolding bind_public_field
bind_order_term root index t = do
  field ← bind_public_field root t.field ("order_by[" <> show index <> "].field")
  require (is_orderable field.spec.type) query_operator_not_supported
      ("order_by[" <> show index <> "].field")
  ok (record { field = field; direction = t.direction })

-- `_bind_order`
unfoldable pub bind_order : List OrderTerm → BoundDataset → Result (List BoundOrderTerm)
unfolding bind_order_term
bind_order terms root = map_indexed (bind_order_term root) 0 terms

-- `terms and terms[-1].field.name == "id"`
abbrev pub ends_with_id : List BoundOrderTerm → Bool
ends_with_id [] = false
ends_with_id (t ∷ []) = t.field.name == "id"
ends_with_id (t ∷ u ∷ us) = ends_with_id (u ∷ us)

-- `_with_id_tiebreaker`
unfoldable pub with_id_tiebreaker :
    List BoundOrderTerm → BoundDataset → Result (List BoundOrderTerm)
unfolding bind_public_field
with_id_tiebreaker terms root = if ends_with_id terms then ok terms else do
  field ← bind_public_field root "id" "order_by"
  ok (terms ++ (record { field = field; direction = asc } ∷ []))

-- the names of the public fields, in the order of the catalog
public_names : Dict FieldSpec → List String
public_names [] = []
public_names ((name, spec) ∷ fields) =
    let rest = public_names fields in if is_visible spec.visibility then name ∷ rest else rest

selected_names : Option (List String) → DatasetSpec → List String
unfolding public_names
selected_names (some names) dataset = names
selected_names none dataset = public_names dataset.fields

unfoldable pub bind_select : Option (List String) → BoundDataset → Result (List BoundField)
unfolding selected_names bind_public_field
bind_select select root = do
  let names = selected_names select root.spec
  fields ← map_indexed (λ i name. bind_public_field root name ("select[" <> show i <> "]")) 0 names
  if contains "id" names
      then ok fields
      else (do field ← bind_public_field root "id" "select"; ok (field ∷ fields))

-- `page or PageRequest()`, and the size of the page
page_size : Option PageRequest → QueryValidationPolicy → ℕ
page_size none policy = policy.default_page_size
page_size (some page) policy = elim page.first [ none ↦ policy.default_page_size | some n ↦ n ]

-- `_validate_page`
unfoldable pub validate_page : Option PageRequest → QueryValidationPolicy → Result PageRequest
unfolding page_size
validate_page page policy =
    let first = page_size page policy in
    if ltb policy.maximum_page_size first
    then fail_at query_limit_invalid "page.first"
    else ok (record { first = some first })

abbrev exceeds : Option ℕ → ℕ → Bool
exceeds none bound = false
exceeds (some n) bound = ltb bound n

abbrev quality_exceeds_one : Option Number → Bool
quality_exceeds_one none = false
quality_exceeds_one (some x) = exceeds_one x

-- `_validate_constraints`
unfoldable pub validate_constraints :
    QueryConstraints Number → QueryValidationPolicy → Result (Unit {0})
validate_constraints constraints policy = do
  require (not (exceeds constraints.maximum_results policy.maximum_page_size)) query_limit_invalid
      "constraints.maximum_results"
  require (not (quality_exceeds_one constraints.minimum_quality)) query_limit_invalid
      "constraints.minimum_quality"

-- `any(terms.for_bound(term).uses_minimum_quality for term in …)`
any_uses_quality : TermRegistry → List BoundExtensionTerm → Result Bool
unfolding for_bound
any_uses_quality terms [] = ok false
any_uses_quality terms (t ∷ ts) = do
  extension ← for_bound terms t
  if extension.uses_minimum_quality then ok true else any_uses_quality terms ts

-- a quality bar needs a term that it applies to
check_quality : TermRegistry → Option Number → List BoundExtensionTerm → Result (Unit {0})
unfolding any_uses_quality
check_quality terms none ts = ok tt
check_quality terms (some _) ts = do
  used ← any_uses_quality terms ts
  require used query_limit_invalid "constraints.minimum_quality"

-- `request.constraints or QueryConstraints()`
abbrev pub constraints_or_default : Option (QueryConstraints Number) → QueryConstraints Number
constraints_or_default (some c) = c
constraints_or_default none = record {
  maximum_results = none;
  maximum_latency_ms = none;
  maximum_cost = none;
  minimum_quality = none;
}

abbrev pub bound_root : QueryRequest Raw Number → DatasetSpec → BoundDataset
bound_root request spec = record {
  name = request.root.dataset;
  scope = request.root.scope;
  spec = spec;
}

module _ (builtins : Builtins) (digests : Digests) (policy : QueryValidationPolicy)
    (terms : TermRegistry) where
  -- `bind_query` after the dataset is found
  bind_to : QueryRequest Raw Number → Catalog → BoundDataset → Result (BoundQuery BoundValue Number)
  unfolding bind_select bind_where validate_placement bind_order with_id_tiebreaker validate_page
      validate_constraints check_quality query_fingerprint
  bind_to request catalog root = do
    select ← bind_select request.select root
    filter ← bind_where builtins root policy terms request.where_
    validate_placement filter terms policy
    order ← bind_order request.order_by root
    effective ← with_id_tiebreaker order root
    page ← validate_page request.page policy
    let constraints = constraints_or_default request.constraints
    validate_constraints constraints policy
    check_quality terms constraints.minimum_quality (extension_terms? filter)
    fingerprint ← query_fingerprint digests (payload_of root select filter effective constraints)
    ok (record {
      root = root;
      select = select;
      where_ = filter;
      order_by = effective;
      page = page;
      constraints = constraints;
      query_fingerprint = fingerprint;
      catalog_fingerprint = digests.of_catalog catalog;
    })

  bind_found :
      QueryRequest Raw Number → Catalog → Option DatasetSpec → Result (BoundQuery BoundValue Number)
  unfolding bind_to
  bind_found request catalog none = fail_at dataset_not_found "from.dataset"
  bind_found request catalog (some spec) = bind_to request catalog (bound_root request spec)

  unfoldable pub bind_query :
      QueryRequest Raw Number → Catalog → Result (BoundQuery BoundValue Number)
  unfolding bind_found
  bind_query request catalog =
      bind_found request catalog (get catalog.datasets request.root.dataset)
