-- ===== src/Query/Parser/Request.antt =====
-- src/yodb/query/parser.py: the parts of a query around its filter, and `parse_query`.
pub mod Valid
use yo_db.Base.{
  ℕ, zero, suc, String, Bool, true, false, not, ◌&&◌, ◌||◌, Option, none, some, List, [], ◌∷◌,
}
use yo_db.Base.Lists.{any}
use yo_db.Base.Dicts.{contains}
use yo_db.Base.Strings.{◌==◌, ◌<>◌, show}
use yo_db.Base.Tests.{if◌then◌else◌}
use yo_db.Errors.{
  Result, ok, fail_at, map_indexed, query_shape_invalid, query_feature_not_supported,
  query_limit_invalid, ◌>>=◌, ◌>>◌,
}
use yo_db.Query.Models.{
  SortDirection, asc, desc, DatasetReference, OrderTerm, PageRequest, QueryConstraints,
  QueryRequest, FilterExpression,
}
use yo_db.Query.Raw.{
  ℤ, pos, negsuc, Raw, null, Raws, Entries, Number, integer, real, not_positive, entry_at,
  entry_names, raws_list,
}
use yo_db.Query.Raw
use yo_db.Query.Shape.{mapping_of, list_of, non_empty_string, reject_unknown}
use yo_db.Query.Extensions.{TermRegistry, registry_keys}
use yo_db.Query.Parser.{fail_plain, parse_expression, is_some}

abbrev pub maximum_expression_depth : ℕ
maximum_expression_depth = 32

abbrev pub maximum_expression_terms : ℕ
maximum_expression_terms = 1000

-- `value.get(key, default)`
abbrev get_or : Option Raw → Raw → Raw
get_or none default = default
get_or (some v) default = v

-- `_parse_from`
unfoldable pub parse_from : Raw → Result DatasetReference
unfolding mapping_of reject_unknown non_empty_string
parse_from raw = do
  value ← mapping_of raw "from"
  reject_unknown value ("dataset" ∷ "as" ∷ []) "from"
  dataset ← non_empty_string (entry_at value "dataset") "from.dataset"
  scope ← non_empty_string (some (get_or (entry_at value "as") (Raw.str dataset))) "from.as"
  ok (record { dataset = dataset; scope = scope })

-- `len(set(fields)) != len(fields)`
abbrev pub has_duplicate : List String → Bool
has_duplicate [] = false
has_duplicate (x ∷ xs) = contains x xs || has_duplicate xs

-- `_parse_select` of a value that is not `None`
parse_names : Raw → Result (List String)
unfolding list_of non_empty_string
parse_names raw = do
  values ← list_of raw "select"
  fields ←
      map_indexed (λ i v. non_empty_string (some v) ("select[" <> show i <> "]")) 0
        (raws_list values)
  if has_duplicate fields then fail_at query_shape_invalid "select" else ok fields

unfoldable pub parse_select : Option Raw → Result (Option (List String))
unfolding parse_names
parse_select none = ok none
parse_select (some null) = ok none
parse_select (some raw) = do fields ← parse_names raw; ok (some fields)

-- `SortDirection(text)`
direction_named : String → String → Result SortDirection
direction_named text location =
    if text == "asc"
    then ok asc
    else if text == "desc"
    then ok desc
    else fail_at query_shape_invalid location

-- one round of the loop of `_parse_order_by`, given the fields seen
parse_order_term : List String → Raw → String → Result OrderTerm
unfolding mapping_of reject_unknown non_empty_string direction_named
parse_order_term seen raw location = do
  value ← mapping_of raw location
  reject_unknown value ("field" ∷ "direction" ∷ []) location
  field ← non_empty_string (entry_at value "field") (location <> ".field")
  if contains field seen then fail_at query_shape_invalid (location <> ".field") else ok tt
  text ← non_empty_string (entry_at value "direction") (location <> ".direction")
  direction ← direction_named text (location <> ".direction")
  ok (record { field = field; direction = direction })

parse_order_terms : List String → ℕ → List Raw → Result (List OrderTerm)
parse_order_terms seen index [] = ok []
parse_order_terms seen index (raw ∷ raws) = do
  term ← parse_order_term seen raw ("order_by[" <> show index <> "]")
  terms ← parse_order_terms (term.field ∷ seen) (suc index) raws
  ok (term ∷ terms)

-- `_parse_order_by`
unfoldable pub parse_order_by : Option Raw → Result (List OrderTerm)
unfolding list_of parse_order_terms parse_order_term
parse_order_by none = ok []
parse_order_by (some null) = ok []
parse_order_by (some raw) = do
  values ← list_of raw "order_by"
  parse_order_terms [] 0 (raws_list values)

-- a positive `int`, or `None`
positive_integer : Option Raw → String → Result (Option ℕ)
positive_integer none location = ok none
positive_integer (some null) location = ok none
positive_integer (some (Raw.int (pos (suc n)))) location = ok (some (suc n))
positive_integer (some _) location = fail_at query_limit_invalid location

-- an `int` or `float` for which `candidate <= 0` is not true, or `None`
positive_number : Option Raw → String → Result (Option Number)
positive_number none location = ok none
positive_number (some null) location = ok none
positive_number (some (Raw.int n)) location =
    if not_positive (integer n) then fail_at query_limit_invalid location else ok (some (integer n))
positive_number (some (Raw.float x)) location =
    if not_positive (real x) then fail_at query_limit_invalid location else ok (some (real x))
positive_number (some _) location = fail_at query_limit_invalid location

-- `_parse_page`
unfoldable pub parse_page : Raw → Result PageRequest
unfolding mapping_of reject_unknown positive_integer
parse_page raw = do
  value ← mapping_of raw "page"
  reject_unknown value ("first" ∷ []) "page"
  first ← positive_integer (entry_at value "first") "page.first"
  ok (record { first = first })

-- `_parse_constraints`
unfoldable pub parse_constraints : Raw → Result (QueryConstraints Number)
unfolding mapping_of reject_unknown positive_integer positive_number
parse_constraints raw = do
  value ← mapping_of raw "constraints"
  reject_unknown value
      ("maximum_results" ∷ "maximum_latency_ms" ∷ "maximum_cost" ∷ "minimum_quality" ∷ [])
      "constraints"
  results ← positive_integer (entry_at value "maximum_results") "constraints.maximum_results"
  latency ← positive_integer (entry_at value "maximum_latency_ms") "constraints.maximum_latency_ms"
  cost ← positive_number (entry_at value "maximum_cost") "constraints.maximum_cost"
  quality ← positive_number (entry_at value "minimum_quality") "constraints.minimum_quality"
  ok (record {
    maximum_results = results;
    maximum_latency_ms = latency;
    maximum_cost = cost;
    minimum_quality = quality;
  })

-- `f(root[key]) if key in root else None`
abbrev optional {ℓ} : {A : Type ℓ} → Option Raw → (Raw → Result A) → Result (Option A)
optional none f = ok none
optional (some raw) f = do a ← f raw; ok (some a)

-- the loop over `terms.keys()`: a term is no key of a query
reject_terms : List String → Entries → Result (Unit {0})
reject_terms [] root = ok tt
reject_terms (key ∷ ks) root =
    let rest = reject_terms ks root in
    if contains key (entry_names root) then fail_at query_feature_not_supported key else rest

query_from : Option Raw → Result DatasetReference
unfolding parse_from
query_from none = fail_at query_shape_invalid "from"
query_from (some raw) = parse_from raw

parse_where : TermRegistry → (maximum_depth maximum_terms : ℕ) → Raw → Result (FilterExpression Raw)
unfolding parse_expression
parse_where terms maximum_depth maximum_terms raw = do
  (e, left) ← parse_expression terms maximum_depth raw "where" maximum_terms
  ok e

unfoldable pub parse_query :
    TermRegistry → (maximum_depth maximum_terms : ℕ) → Raw → Result (QueryRequest Raw Number)
unfolding mapping_of reject_unknown reject_terms query_from parse_select parse_where parse_order_by
    parse_page parse_constraints
parse_query terms maximum_depth maximum_terms raw = do
  root ← mapping_of raw "query"
  if contains "traverse" (entry_names root) then fail_plain query_feature_not_supported else ok tt
  reject_terms (registry_keys terms) root
  reject_unknown root ("from" ∷ "select" ∷ "where" ∷ "order_by" ∷ "page" ∷ "constraints" ∷ [])
      "query"
  if is_some (entry_at root "from") then ok tt else fail_at query_shape_invalid "from"
  dataset ← query_from (entry_at root "from")
  select ← parse_select (entry_at root "select")
  filter ← optional (entry_at root "where") (parse_where terms maximum_depth maximum_terms)
  order_by ← parse_order_by (entry_at root "order_by")
  page ← optional (entry_at root "page") parse_page
  constraints ← optional (entry_at root "constraints") parse_constraints
  ok (record {
    root = dataset;
    select = select;
    where_ = filter;
    order_by = order_by;
    page = page;
    constraints = constraints;
  })
