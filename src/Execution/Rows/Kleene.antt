-- ===== src/Execution/Rows/Kleene.antt =====
-- The three-valued logic of `truth`.
use mathlib.Core.Option
use yo_db.Base.{◌≡◌, Bool, true, false, arith}
use yo_db.Query.Models.{
  BoundFilterExpression, bound_all, bound_any, bound_not, BoundFilterExpressions, bnil, bcons,
}
use yo_db.Execution.Rows.{Objects, Row, negated, truth, truth_and, truth_or}

-- `not` of each expression
abbrev pub negate_each : {V : Type 0} → BoundFilterExpressions V → BoundFilterExpressions V
negate_each bnil = bnil
negate_each (bcons e es) = bcons (bound_not e) (negate_each es)

module _ {V : Type 0} (objects : Objects V) (row : Row V) where
  not_or :
      (es : BoundFilterExpressions V) (seen : Bool)
      → Option.map negated (truth_or objects es row seen)
        ≡ truth_and objects (negate_each es) row seen
  unfolding truth
  not_or bnil seen = ground arith
  not_or (bcons e es) seen = ground (arith, not_or es seen, not_or es true)

  not_and :
      (es : BoundFilterExpressions V) (seen : Bool)
      → Option.map negated (truth_and objects es row seen)
        ≡ truth_or objects (negate_each es) row seen
  unfolding truth
  not_and bnil seen = ground arith
  not_and (bcons e es) seen = ground (arith, not_and es seen, not_and es true)

-- De Morgan's laws hold of the short-circuiting evaluation: `not` over `any` is `all` over the
-- negations, `not` over `all` is `any` over them, and `not` twice is the expression, in each case
-- with the same errors.
pub truth-de_morgan :
    {V : Type 0} (objects : Objects V) (e : BoundFilterExpression V) (es : BoundFilterExpressions V)
    (row : Row V)
    → (truth objects (bound_not (bound_any es)) row
        ≡ truth objects (bound_all (negate_each es)) row)
      × (truth objects (bound_not (bound_all es)) row
          ≡ truth objects (bound_any (negate_each es)) row)
      × (truth objects (bound_not (bound_not e)) row ≡ truth objects e row)
unfolding truth
truth-de_morgan objects e es row =
    (not_or objects row es false, not_and objects row es false, ground arith)
