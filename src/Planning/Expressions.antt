-- ===== src/Planning/Expressions.antt =====
-- src/yodb/planning/expressions.py: helpers over bound filters. `filter_shape` only builds the
-- payload of a digest and is not modelled.
pub mod Conjuncts
pub mod Nulls
pub mod Frame
pub mod Stripped
pub mod Placed
use yo_db.Base.{String, Bool, true, false, ◌||◌, Option, none, some, List, [], ◌∷◌, ◌++◌}
use yo_db.Base.Tests.{if◌then◌else◌}
use yo_db.Query.Models.{
  ComparisonOperator, is_null, is_not_null, BoundPredicate, BoundFilterExpression, bound_predicate,
  bound_term, bound_all, bound_any, bound_not, BoundFilterExpressions, bnil, bcons,
}
use yo_db.Execution.Rows.{Truth, holds, fails, unknown, negated}

-- the tuples of the children, `None` if one of them is
abbrev join_predicates {ℓ} : {A : Type ℓ} → Option (List A) → Option (List A) → Option (List A)
join_predicates none rest = none
join_predicates (some xs) none = none
join_predicates (some xs) (some ys) = some (xs ++ ys)

-- `value in parts`
abbrev has_fails : List Truth → Bool
has_fails [] = false
has_fails (fails ∷ ts) = true
has_fails (_ ∷ ts) = has_fails ts

abbrev has_holds : List Truth → Bool
has_holds [] = false
has_holds (holds ∷ ts) = true
has_holds (_ ∷ ts) = has_holds ts

abbrev has_unknown : List Truth → Bool
has_unknown [] = false
has_unknown (unknown ∷ ts) = true
has_unknown (_ ∷ ts) = has_unknown ts

-- `_on_nulls` of a predicate
abbrev operator_on_nulls : ComparisonOperator → Truth
operator_on_nulls is_null = holds
operator_on_nulls is_not_null = fails
operator_on_nulls _ = unknown

abbrev pub is_true : Truth → Bool
is_true holds = true
is_true _ = false

module _ {V : Type 0} where
  unfoldable mutual
    pub conjunctive_predicates : BoundFilterExpression V → Option (List (BoundPredicate V))
    conjunctive_predicates (bound_predicate p) = some (p ∷ [])
    conjunctive_predicates (bound_term t) = none
    conjunctive_predicates (bound_all es) = conjunctive_predicates_all es
    conjunctive_predicates (bound_any es) = none
    conjunctive_predicates (bound_not e) = none

    pub conjunctive_predicates_all : BoundFilterExpressions V → Option (List (BoundPredicate V))
    conjunctive_predicates_all bnil = some []
    conjunctive_predicates_all (bcons e es) =
        join_predicates (conjunctive_predicates e) (conjunctive_predicates_all es)

  unfoldable mutual
    pub top_level_conjuncts : BoundFilterExpression V → List (BoundFilterExpression V)
    top_level_conjuncts (bound_predicate p) = bound_predicate p ∷ []
    top_level_conjuncts (bound_term t) = bound_term t ∷ []
    top_level_conjuncts (bound_all es) = top_level_conjuncts_all es
    top_level_conjuncts (bound_any es) = bound_any es ∷ []
    top_level_conjuncts (bound_not e) = bound_not e ∷ []

    pub top_level_conjuncts_all : BoundFilterExpressions V → List (BoundFilterExpression V)
    top_level_conjuncts_all bnil = []
    top_level_conjuncts_all (bcons e es) = top_level_conjuncts e ++ top_level_conjuncts_all es

  unfoldable mutual
    pub on_nulls : BoundFilterExpression V → Truth
    on_nulls (bound_predicate p) = operator_on_nulls p.operator
    on_nulls (bound_term t) = unknown
    on_nulls (bound_all es) =
        let parts = on_nulls_each es in
        if has_fails parts then fails else if has_unknown parts then unknown else holds
    on_nulls (bound_any es) =
        let parts = on_nulls_each es in
        if has_holds parts then holds else if has_unknown parts then unknown else fails
    on_nulls (bound_not e) = negated (on_nulls e)

    pub on_nulls_each : BoundFilterExpressions V → List Truth
    on_nulls_each bnil = []
    on_nulls_each (bcons e es) = on_nulls e ∷ on_nulls_each es

  unfoldable pub holds_when_every_field_is_null : BoundFilterExpression V → Bool
  unfolding on_nulls
  holds_when_every_field_is_null e = is_true (on_nulls e)

  unfoldable mutual
    pub filter_fields : BoundFilterExpression V → List String
    filter_fields (bound_predicate p) = p.field.name ∷ []
    filter_fields (bound_term t) = []
    filter_fields (bound_all es) = filter_fields_each es
    filter_fields (bound_any es) = filter_fields_each es
    filter_fields (bound_not e) = filter_fields e

    pub filter_fields_each : BoundFilterExpressions V → List String
    filter_fields_each bnil = []
    filter_fields_each (bcons e es) = filter_fields e ++ filter_fields_each es

-- The filter of a query may be absent.
abbrev pub conjunctive_predicates? :
    {V : Type 0} → Option (BoundFilterExpression V) → Option (List (BoundPredicate V))
conjunctive_predicates? none = some []
conjunctive_predicates? (some e) = conjunctive_predicates e

abbrev pub top_level_conjuncts? :
    {V : Type 0} → Option (BoundFilterExpression V) → List (BoundFilterExpression V)
top_level_conjuncts? none = []
top_level_conjuncts? (some e) = top_level_conjuncts e
