-- ===== src/Query/Models.antt =====
-- src/yodb/query/models.py: the logical query before and after it is bound to a catalog. A filter
-- is over a type of values: what the parser read, what the validator normalised, or the values of
-- rows. An extension term keeps its class (the only one in the repository is the semantic
-- condition of src/yodb/query/semantic.py; `foreign` stands for a class registered elsewhere).
use yo_db.Base.{ℕ, String, Bool, Option, List, [], ◌∷◌}
use yo_db.Catalog.{FieldSpec, DatasetSpec}

pub data ComparisonOperator : Type 0 where
  eq ne one_of not_in is_null is_not_null gt gte lt lte contains starts_with : ComparisonOperator

pub data SortDirection : Type 0 where
  asc desc : SortDirection

pub record DatasetReference : Type 0 where
  pub dataset : String
  pub scope : String

pub record Predicate (V : Type 0) : Type 0 where
  pub field : String
  pub operator : ComparisonOperator
  pub value : Option V
  pub value_supplied : Bool

pub data ExtensionTerm : Type 0 where
  semantic_predicate : (field proposition : String) → ExtensionTerm
  foreign : (class_name : String) → ExtensionTerm

pub data FieldUse : Type 0 where
  identity projection filter order extension : FieldUse

-- `FilterExpression`, with the tuples of expressions as a type of the block.
mutual
  pub data FilterExpression (V : Type 0) : Type 0 where
    predicate : Predicate V → FilterExpression V
    term : ExtensionTerm → FilterExpression V
    all_of : FilterExpressions V → FilterExpression V
    any_of : FilterExpressions V → FilterExpression V
    not_of : FilterExpression V → FilterExpression V

  pub data FilterExpressions (V : Type 0) : Type 0 where
    nil : FilterExpressions V
    cons : FilterExpression V → FilterExpressions V → FilterExpressions V

pub record OrderTerm : Type 0 where
  pub field : String
  pub direction : SortDirection

pub record PageRequest : Type 0 where
  pub first : Option ℕ

-- `F` holds the numbers of Python that `maximum_cost` and `minimum_quality` may be.
pub record QueryConstraints (F : Type 0) : Type 0 where
  pub maximum_results : Option ℕ
  pub maximum_latency_ms : Option ℕ
  pub maximum_cost : Option F
  pub minimum_quality : Option F

pub record QueryRequest (V F : Type 0) : Type 0 where
  pub root : DatasetReference
  pub select : Option (List String)
  pub where_ : Option (FilterExpression V)
  pub order_by : List OrderTerm
  pub page : Option PageRequest
  pub constraints : Option (QueryConstraints F)

pub record BoundField : Type 0 where
  pub dataset_name : String
  pub scope : String
  pub name : String
  pub spec : FieldSpec

pub record BoundDataset : Type 0 where
  pub name : String
  pub scope : String
  pub spec : DatasetSpec

pub record BoundPredicate (V : Type 0) : Type 0 where
  pub field : BoundField
  pub operator : ComparisonOperator
  pub value : Option V
  pub value_supplied : Bool

pub data BoundExtensionTerm : Type 0 where
  bound_semantic : (field : BoundField) (proposition : String) → BoundExtensionTerm
  bound_foreign : (class_name : String) → BoundExtensionTerm

mutual
  pub data BoundFilterExpression (V : Type 0) : Type 0 where
    bound_predicate : BoundPredicate V → BoundFilterExpression V
    bound_term : BoundExtensionTerm → BoundFilterExpression V
    bound_all : BoundFilterExpressions V → BoundFilterExpression V
    bound_any : BoundFilterExpressions V → BoundFilterExpression V
    bound_not : BoundFilterExpression V → BoundFilterExpression V

  pub data BoundFilterExpressions (V : Type 0) : Type 0 where
    bnil : BoundFilterExpressions V
    bcons : BoundFilterExpression V → BoundFilterExpressions V → BoundFilterExpressions V

pub record BoundOrderTerm : Type 0 where
  pub field : BoundField
  pub direction : SortDirection

pub record BoundQuery (V F : Type 0) : Type 0 where
  pub root : BoundDataset
  pub select : List BoundField
  pub where_ : Option (BoundFilterExpression V)
  pub order_by : List BoundOrderTerm
  pub page : PageRequest
  pub constraints : QueryConstraints F
  pub query_fingerprint : String
  pub catalog_fingerprint : String

-- The tuple of expressions as a list.
abbrev pub expressions_list :
    {V : Type 0} → BoundFilterExpressions V → List (BoundFilterExpression V)
expressions_list bnil = []
expressions_list (bcons e es) = e ∷ expressions_list es

abbrev pub list_expressions :
    {V : Type 0} → List (BoundFilterExpression V) → BoundFilterExpressions V
list_expressions [] = bnil
list_expressions (e ∷ es) = bcons e (list_expressions es)
