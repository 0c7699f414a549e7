-- ===== src/Planning/Expressions/Nulls.antt =====
-- What a filter says of a record that has no row in a source.
use yo_db.Base.{String, ◌≡◌, ◌↔◌, refl, ap, Bool, true, false, none, some, arith}
use yo_db.Base.Tests.{if◌then◌else◌}
use yo_db.Base.Lists.{All, All-append_iff}
use yo_db.Query.Models.{
  ComparisonOperator, BoundFilterExpression, bound_predicate, bound_term, bound_all, bound_any,
  bound_not, BoundFilterExpressions, bnil, bcons,
}
use yo_db.Execution.Rows.{
  Objects, Row, holds, fails, unknown, truth, truth_and, truth_or, absent_truth,
}
use yo_db.Planning.Expressions.{
  on_nulls, on_nulls_each, operator_on_nulls, has_fails, has_holds, has_unknown,
  holds_when_every_field_is_null, filter_fields, filter_fields_each,
}

-- The filter has no extension term, which only an extension can answer.
abbrev mutual
  pub IsPlain : {V : Type 0} → BoundFilterExpression V → Type 0
  IsPlain (bound_predicate p) = Unit
  IsPlain (bound_term t) = ⊥
  IsPlain (bound_all es) = ArePlain es
  IsPlain (bound_any es) = ArePlain es
  IsPlain (bound_not e) = IsPlain e

  pub ArePlain : {V : Type 0} → BoundFilterExpressions V → Type 0
  ArePlain bnil = Unit
  ArePlain (bcons e es) = IsPlain e × ArePlain es

module _ {V : Type 0} (objects : Objects V) (row : Row V) where
  abbrev AbsentAt : String → Type 0
  AbsentAt name = row name ≡ none

  absent_operator : (o : ComparisonOperator) → absent_truth o ≡ operator_on_nulls o
  absent_operator o = ground arith

  mutual
    unfolding truth on_nulls filter_fields

    truth_of_nulls :
        (e : BoundFilterExpression V)
        → IsPlain e
        → All AbsentAt (filter_fields e)
        → truth objects e row ≡ some (on_nulls e)
    truth_of_nulls (bound_predicate p) plain h = rw h.0 (ap some (absent_operator p.operator))
    truth_of_nulls (bound_term t) plain h = absurd plain
    truth_of_nulls (bound_all es) plain h = and_of_nulls es false plain h
    truth_of_nulls (bound_any es) plain h = or_of_nulls es false plain h
    truth_of_nulls (bound_not e) plain h = rw (truth_of_nulls e plain h)

    and_of_nulls :
        (es : BoundFilterExpressions V) (seen : Bool)
        → ArePlain es
        → All AbsentAt (filter_fields_each es)
        → truth_and objects es row seen
          ≡ some (
              let parts = on_nulls_each es in
              if has_fails parts
              then fails
              else if has_unknown parts
              then unknown
              else if seen
              then unknown
              else holds)
    and_of_nulls bnil seen plain h = refl
    and_of_nulls (bcons e es) seen plain h =
        let (here, there) =
          (All-append_iff AbsentAt (filter_fields e) (filter_fields_each es)).0 h in
        ground (
          arith,
          truth_of_nulls e plain.0 here,
          and_of_nulls es seen plain.1 there,
          and_of_nulls es true plain.1 there,
        )

    or_of_nulls :
        (es : BoundFilterExpressions V) (seen : Bool)
        → ArePlain es
        → All AbsentAt (filter_fields_each es)
        → truth_or objects es row seen
          ≡ some (
              let parts = on_nulls_each es in
              if has_holds parts
              then holds
              else if has_unknown parts
              then unknown
              else if seen
              then unknown
              else fails)
    or_of_nulls bnil seen plain h = refl
    or_of_nulls (bcons e es) seen plain h =
        let (here, there) =
          (All-append_iff AbsentAt (filter_fields e) (filter_fields_each es)).0 h in
        ground (
          arith,
          truth_of_nulls e plain.0 here,
          or_of_nulls es seen plain.1 there,
          or_of_nulls es true plain.1 there,
        )

-- For a filter without extension terms, `holds_when_every_field_is_null` decides whether it is TRUE
-- of every row that lacks all the fields that it mentions.
pub truth-holds_when_every_field_is_null :
    {V : Type 0} (objects : Objects V) (e : BoundFilterExpression V) (row : Row V)
    → IsPlain e
    → All (λ name. row name ≡ none) (filter_fields e)
    → (truth objects e row ≡ some holds) ↔ (holds_when_every_field_is_null e ≡ true)
unfolding holds_when_every_field_is_null
truth-holds_when_every_field_is_null objects e row plain h =
    ground (arith, truth_of_nulls objects row e plain h)
