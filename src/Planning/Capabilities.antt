-- ===== src/Planning/Capabilities.antt =====
-- src/yodb/planning/capabilities.py, policy.py and postgres.py: what a source declares that it
-- does exactly, what that means for each operator, and the limits of the planner. Sets are lists
-- of members; the details of a support, texts for readers, are left out.
pub mod Support
use yo_db.Base.{
  ℕ, String, Bool, true, false, not, ◌&&◌, ◌||◌, Option, none, some, List, [], ◌∷◌, map,
}
use yo_db.Base.Lists.{any}
use yo_db.Base.Tests.{eqb, ltb, if◌then◌else◌}
use yo_db.Errors.{Result, ok, crash, value_error, ◌>>◌}
use yo_db.Catalog.{
  SourceKind, postgres, LogicalType, id, string, text, int, float, bool, timestamp, uuid,
  VectorMetric, cosine, l2, inner_product, same_type,
}
use yo_db.Query.Models.{
  ComparisonOperator, eq, ne, one_of, not_in, is_null, is_not_null, gt, gte, lt, lte, contains,
  starts_with,
}
use yo_db.OperatorKinds.{
  OperatorKind, OperatorSpec, scan, filter, project, order, limit, combine, join, key_lookup,
  vector_search, semantic_filter, is_empty,
}

pub data BooleanOperator : Type 0 where
  all_terms any_term not_term : BooleanOperator

pub data TextOrdering : Type 0 where
  code_point source_defined : TextOrdering

pub record KeyLookupCapability : Type 0 where
  pub maximum_keys : ℕ

pub record VectorSearchCapability : Type 0 where
  pub metrics : List VectorMetric
  pub combines_with_filters : Bool
  pub maximum_shortlist : Option ℕ

pub record SourceCapabilities : Type 0 where
  pub source_kind : SourceKind
  pub filter_operators : List ComparisonOperator
  pub filterable_types : List LogicalType
  pub boolean_operators : List BooleanOperator
  pub supports_order : Bool
  pub supports_limit : Bool
  pub orderable_types : List LogicalType
  pub text_ordering : TextOrdering
  pub maximum_rows : Option ℕ
  pub key_lookup : Option KeyLookupCapability
  pub vector_search : Option VectorSearchCapability

-- `value is not None and value < 1`
abbrev below_one : Option ℕ → Bool
below_one none = false
below_one (some n) = ltb n 1

abbrev forbid : Bool → Result (Unit {0})
forbid true = crash value_error
forbid false = ok tt

-- `KeyLookupCapability.__post_init__`
unfoldable pub checked_key_lookup : KeyLookupCapability → Result KeyLookupCapability
checked_key_lookup lookup = if ltb lookup.maximum_keys 1 then crash value_error else ok lookup

-- `VectorSearchCapability.__post_init__`
unfoldable pub checked_vector_search : VectorSearchCapability → Result VectorSearchCapability
checked_vector_search search =
    forbid (is_empty search.metrics) >> (forbid (below_one search.maximum_shortlist) >> ok search)

-- `SourceCapabilities.__post_init__`
unfoldable pub checked_capabilities : SourceCapabilities → Result SourceCapabilities
checked_capabilities caps =
    forbid (below_one caps.maximum_rows)
    >> (forbid (caps.supports_limit && not caps.supports_order) >> ok caps)

abbrev operator_place : ComparisonOperator → ℕ
operator_place eq = 0
operator_place ne = 1
operator_place one_of = 2
operator_place not_in = 3
operator_place is_null = 4
operator_place is_not_null = 5
operator_place gt = 6
operator_place gte = 7
operator_place lt = 8
operator_place lte = 9
operator_place contains = 10
operator_place starts_with = 11

-- `operator in caps.filter_operators`
abbrev pub has_operator : ComparisonOperator → List ComparisonOperator → Bool
has_operator operator operators =
    any (λ o. eqb (operator_place o) (operator_place operator)) operators

abbrev same_combinator : BooleanOperator → BooleanOperator → Bool
same_combinator all_terms all_terms = true
same_combinator any_term any_term = true
same_combinator not_term not_term = true
same_combinator _ _ = false

-- `operator in caps.boolean_operators`
abbrev pub has_combinator : BooleanOperator → List BooleanOperator → Bool
has_combinator operator operators = any (same_combinator operator) operators

-- `kind.value in types`
abbrev pub has_type : LogicalType → List LogicalType → Bool
has_type type types = any (same_type type) types

pub record PlannerPolicy : Type 0 where
  pub maximum_rows_per_source : ℕ
  pub maximum_transfer_keys : ℕ
  pub maximum_key_batches : ℕ

abbrev pub default_planner_policy : PlannerPolicy
default_planner_policy = record {
  maximum_rows_per_source = 10000;
  maximum_transfer_keys = 1000;
  maximum_key_batches = 20;
}

-- `PlannerPolicy.__post_init__`
unfoldable pub checked_planner_policy : PlannerPolicy → Result PlannerPolicy
checked_planner_policy policy =
    if ltb policy.maximum_rows_per_source 1 || ltb policy.maximum_key_batches 1
    then crash value_error
    else ok policy

-- `_SCALAR_TYPES`
abbrev scalar_types : List LogicalType
scalar_types = id ∷ string ∷ text ∷ int ∷ float ∷ bool ∷ timestamp ∷ uuid ∷ []

-- `POSTGRES_CAPABILITIES`
unfoldable pub postgres_capabilities : SourceCapabilities
postgres_capabilities = record {
  source_kind = postgres;
  filter_operators = eq ∷ ne ∷ one_of ∷ not_in ∷ is_null ∷ is_not_null ∷ gt ∷ gte ∷ lt ∷ lte ∷ [];
  filterable_types = scalar_types;
  boolean_operators = all_terms ∷ any_term ∷ not_term ∷ [];
  supports_order = true;
  supports_limit = true;
  orderable_types = scalar_types;
  text_ordering = source_defined;
  maximum_rows = none;
  key_lookup = some (record { maximum_keys = 5000 });
  vector_search = some (record {
    metrics = cosine ∷ l2 ∷ inner_product ∷ [];
    combines_with_filters = true;
    maximum_shortlist = none;
  });
}

pub data SupportLevel : Type 0 where
  source coordinator unavailable : SupportLevel

pub record OperatorSupport : Type 0 where
  pub kind : OperatorKind
  pub level : SupportLevel
  pub strategies : List String

abbrev supported : OperatorKind → SupportLevel → List String → OperatorSupport
supported kind level strategies = record { kind = kind; level = level; strategies = strategies }

abbrev pushed : List String
pushed = "push_to_source" ∷ "run_in_yodb" ∷ []

abbrev in_yodb : List String
in_yodb = "run_in_yodb" ∷ []

abbrev key_lookup_view : Option KeyLookupCapability → OperatorSupport
key_lookup_view none = supported key_lookup unavailable []
key_lookup_view (some lookup) = supported key_lookup source ("in_list" ∷ [])

abbrev vector_search_view : Option VectorSearchCapability → OperatorSupport
vector_search_view none = supported vector_search unavailable []
vector_search_view (some search) = supported vector_search source ("ranked_read" ∷ [])

abbrev combine_view : Option KeyLookupCapability → OperatorSupport
combine_view none = supported combine coordinator ("read_order" ∷ [])
combine_view (some lookup) = supported combine coordinator ("read_order" ∷ "restrict_by_ids" ∷ [])

abbrev semantic_support : Option VectorSearchCapability → OperatorSupport
semantic_support none = supported semantic_filter coordinator ("verify_all" ∷ [])
semantic_support (some search) =
    supported semantic_filter coordinator ("verify_all" ∷ "vector_shortlist" ∷ [])

-- The registered views, and what an operator without one has
unfoldable pub view_of : SourceCapabilities → OperatorKind → OperatorSupport
view_of caps scan = supported scan source ("plain" ∷ [])
view_of caps filter =
    if is_empty caps.filter_operators
    then supported filter coordinator in_yodb
    else supported filter source pushed
view_of caps project = supported project source ("push_columns" ∷ [])
view_of caps order =
    if caps.supports_order
    then supported order source pushed
    else supported order coordinator in_yodb
view_of caps limit =
    if caps.supports_limit
    then supported limit source pushed
    else supported limit coordinator in_yodb
view_of caps key_lookup = key_lookup_view caps.key_lookup
view_of caps vector_search = vector_search_view caps.vector_search
view_of caps combine = combine_view caps.key_lookup
view_of caps join = supported join coordinator ("driver_left" ∷ "driver_right" ∷ [])
view_of caps semantic_filter = semantic_support caps.vector_search
view_of caps kind = supported kind unavailable []

-- `operator_support`, of the specs of a catalog of operators
unfoldable pub operator_support : List OperatorSpec → SourceCapabilities → List OperatorSupport
unfolding view_of
operator_support specs caps = map (λ spec. view_of caps spec.kind) specs
