-- ===== src/Planning/Expressions/Frame.antt =====
-- A filter reads only the fields that it mentions.
use yo_db.Base.{String, ◌≡◌, refl, Bool, true, false, arith}
use yo_db.Base.Lists.{All, All-append_iff}
use yo_db.Query.Models.{
  BoundFilterExpression, bound_predicate, bound_term, bound_all, bound_any, bound_not,
  BoundFilterExpressions, bnil, bcons,
}
use yo_db.Execution.Rows.{Objects, Row, truth, truth_and, truth_or}
use yo_db.Planning.Expressions.{filter_fields, filter_fields_each}

module _ {V : Type 0} (objects : Objects V) (left right : Row V) where
  abbrev AgreeAt : String → Type 0
  AgreeAt name = left name ≡ right name

  mutual
    unfolding truth filter_fields

    agree :
        (e : BoundFilterExpression V)
        → All AgreeAt (filter_fields e)
        → truth objects e left ≡ truth objects e right
    agree (bound_predicate p) h = rw h.0
    agree (bound_term t) h = refl
    agree (bound_all es) h = agree_and es false h
    agree (bound_any es) h = agree_or es false h
    agree (bound_not e) h = rw (agree e h)

    agree_and :
        (es : BoundFilterExpressions V) (seen : Bool)
        → All AgreeAt (filter_fields_each es)
        → truth_and objects es left seen ≡ truth_and objects es right seen
    agree_and bnil seen h = refl
    agree_and (bcons e es) seen h =
        let (here, there) =
          (All-append_iff AgreeAt (filter_fields e) (filter_fields_each es)).0 h in
        ground (arith, agree e here, agree_and es seen there, agree_and es true there)

    agree_or :
        (es : BoundFilterExpressions V) (seen : Bool)
        → All AgreeAt (filter_fields_each es)
        → truth_or objects es left seen ≡ truth_or objects es right seen
    agree_or bnil seen h = refl
    agree_or (bcons e es) seen h =
        let (here, there) =
          (All-append_iff AgreeAt (filter_fields e) (filter_fields_each es)).0 h in
        ground (arith, agree e here, agree_or es seen there, agree_or es true there)

-- Two rows that agree on every field that `filter_fields` lists give a filter the same truth.
pub truth-filter_fields :
    {V : Type 0} (objects : Objects V) (e : BoundFilterExpression V) (left right : Row V)
    → All (λ name. left name ≡ right name) (filter_fields e)
    → truth objects e left ≡ truth objects e right
truth-filter_fields objects e left right = agree objects left right e
