-- ===== src/Planning/Expressions/Placed.antt =====
-- `validate_placement` of src/yodb/query/extensions.py, against the top-level conjuncts.
use yo_db.Base.{ℕ, suc, String, ◌≡◌, ◌≤◌, true, false, ◌&&◌, Option, none, some, [], ◌∷◌, arith}
use yo_db.Base.Lists.{All, All-append_iff, length}
use yo_db.Base.Strings.{◌<>◌, show}
use yo_db.Base.Tests.{ltb}
use yo_db.Errors.{ok, fail_at, query_expression_invalid, query_limit_invalid, ◌>>=◌}
use yo_db.Errors.Ensures.{
  Ensures, Ensures-ok, Ensures-self, Ensures-weaken, Ensures-bind, Ensures-if,
}
use yo_db.Query.Models.{
  BoundExtensionTerm, BoundFilterExpression, bound_predicate, bound_term, bound_all, bound_any,
  bound_not, BoundFilterExpressions, bnil, bcons,
}
use yo_db.Query.Policy.{QueryValidationPolicy, limit}
use yo_db.Query.Extensions.{
  TermExtension, TermRegistry, for_bound, extension_terms, extension_terms_each, terms_of_type,
  check_conjunctive, check_each, check_counts, validate_placement,
}
use yo_db.Planning.Expressions.{top_level_conjuncts, top_level_conjuncts_all, top_level_conjuncts?}

-- A term of a registered type that may stand anywhere.
pub record StandsAnywhere (terms : TermRegistry) (t : BoundExtensionTerm) : Type 0 where
  pub extension : TermExtension
  pub found : for_bound terms t ≡ ok extension
  pub anywhere : extension.conjunctive_only ≡ false

-- Inside a conjunct that is not itself a term, every term may stand anywhere.
abbrev pub IsPlaced : {V : Type 0} → TermRegistry → BoundFilterExpression V → Type 0
IsPlaced terms (bound_term t) = Unit
IsPlaced terms e = All (StandsAnywhere terms) (extension_terms e)

module _ {V : Type 0} (terms : TermRegistry) where
  mutual
    unfolding check_conjunctive extension_terms

    -- Below an `any` or a `not`.
    below :
        (e : BoundFilterExpression V) (location : String)
        → Ensures
            (λ _. All (StandsAnywhere terms) (extension_terms e))
            (check_conjunctive e terms false location)
    below (bound_predicate p) location = tt
    below (bound_term t) location =
        Ensures-bind (λ x. for_bound terms t ≡ ok x) (λ _. All (StandsAnywhere terms) (t ∷ []))
          (for_bound terms t) _ (Ensures-self _ (for_bound terms t) (λ _ h. h))
          λ x found.
            Ensures-if (λ _. All (StandsAnywhere terms) (t ∷ [])) (x.conjunctive_only && true)
              (fail_at query_expression_invalid location) (ok tt) (λ _. tt)
              λ free. (record { extension = x; found = found; anywhere = ground (arith, free) }, tt)
    below (bound_all es) location = below_each es (location <> ".all[") 0
    below (bound_any es) location = below_each es (location <> ".any[") 0
    below (bound_not e) location = below e (location <> ".not")

    below_each :
        (es : BoundFilterExpressions V) (prefix : String) (index : ℕ)
        → Ensures
            (λ _. All (StandsAnywhere terms) (extension_terms_each es))
            (check_each es terms false prefix index)
    below_each bnil prefix index = tt
    below_each (bcons e es) prefix index =
        Ensures-bind (λ _. All (StandsAnywhere terms) (extension_terms e))
          (λ _. All (StandsAnywhere terms) (extension_terms_each (bcons e es)))
          (check_conjunctive e terms false (prefix <> show index <> "]")) _
          (below e (prefix <> show index <> "]"))
          λ _ h.
            Ensures-weaken (λ _. All (StandsAnywhere terms) (extension_terms_each es)) _
              (check_each es terms false prefix (suc index)) (below_each es prefix (suc index))
              λ _ k.
                (All-append_iff (StandsAnywhere terms) (extension_terms e)
                    (extension_terms_each es)).1
                  (h, k)

  mutual
    unfolding check_conjunctive extension_terms top_level_conjuncts

    at_top :
        (e : BoundFilterExpression V) (location : String)
        → Ensures
            (λ _. All (IsPlaced terms) (top_level_conjuncts e))
            (check_conjunctive e terms true location)
    at_top (bound_predicate p) location = (tt, tt)
    at_top (bound_term t) location =
        Ensures-self _ (check_conjunctive {V = V} (bound_term t) terms true location)
          (λ _ _. (tt, tt))
    at_top (bound_all es) location = at_top_each es (location <> ".all[") 0
    at_top (bound_any es) location =
        Ensures-weaken (λ _. All (StandsAnywhere terms) (extension_terms_each es)) _
          (check_each es terms false (location <> ".any[") 0)
          (below_each es (location <> ".any[") 0) (λ _ h. (h, tt))
    at_top (bound_not e) location =
        Ensures-weaken (λ _. All (StandsAnywhere terms) (extension_terms e)) _
          (check_conjunctive e terms false (location <> ".not")) (below e (location <> ".not"))
          (λ _ h. (h, tt))

    at_top_each :
        (es : BoundFilterExpressions V) (prefix : String) (index : ℕ)
        → Ensures
            (λ _. All (IsPlaced terms) (top_level_conjuncts_all es))
            (check_each es terms true prefix index)
    at_top_each bnil prefix index = tt
    at_top_each (bcons e es) prefix index =
        Ensures-bind (λ _. All (IsPlaced terms) (top_level_conjuncts e))
          (λ _. All (IsPlaced terms) (top_level_conjuncts_all (bcons e es)))
          (check_conjunctive e terms true (prefix <> show index <> "]")) _
          (at_top e (prefix <> show index <> "]"))
          λ _ h.
            Ensures-weaken (λ _. All (IsPlaced terms) (top_level_conjuncts_all es)) _
              (check_each es terms true prefix (suc index)) (at_top_each es prefix (suc index))
              λ _ k.
                (All-append_iff (IsPlaced terms) (top_level_conjuncts e)
                    (top_level_conjuncts_all es)).1
                  (h, k)

-- The filter has no more terms of a type than its limit.
abbrev pub IsWithin :
    {V : Type 0} → Option (BoundFilterExpression V) → QueryValidationPolicy → TermExtension → Type 0
IsWithin e policy x = length (terms_of_type e x.is_bound) ≤ limit policy x.key x.maximum

counts-IsWithin :
    {V : Type 0} (e : Option (BoundFilterExpression V)) (terms : TermRegistry)
    (policy : QueryValidationPolicy)
    → Ensures (λ _. All (IsWithin e policy) terms) (check_counts e terms policy)
unfolding check_counts
counts-IsWithin e [] policy = tt
counts-IsWithin e (x ∷ xs) policy =
    let most = limit policy x.key x.maximum in
    let count = length (terms_of_type e x.is_bound) in
    Ensures-if (λ _. All (IsWithin e policy) (x ∷ xs)) (ltb most count)
      (fail_at query_limit_invalid "where") (check_counts e xs policy) (λ _. tt)
      λ few.
        Ensures-weaken (λ _. All (IsWithin e policy) xs) _ (check_counts e xs policy)
          (counts-IsWithin e xs policy) λ _ h. (ground arith, h)

-- A filter that `validate_placement` accepts has no more terms of each registered type than its
-- limit, and a term that may only be ANDed is a top-level conjunct, never inside another one.
pub validate_placement-IsPlaced :
    {V : Type 0} (e : Option (BoundFilterExpression V)) (terms : TermRegistry)
    (policy : QueryValidationPolicy)
    → validate_placement e terms policy ≡ ok tt
    → All (IsWithin e policy) terms × All (IsPlaced terms) (top_level_conjuncts? e)
unfolding validate_placement
validate_placement-IsPlaced {V} none terms policy h = (
  Ensures-ok _ (check_counts {V = V} none terms policy) (counts-IsWithin {V = V} none terms policy)
      h,
  tt,
)
validate_placement-IsPlaced (some e) terms policy h =
    Ensures-ok
      (λ _. All (IsWithin (some e) policy) terms × All (IsPlaced terms) (top_level_conjuncts e))
      (check_counts (some e) terms policy >>= λ _. check_conjunctive e terms true "where")
      (Ensures-bind (λ _. All (IsWithin (some e) policy) terms) _
        (check_counts (some e) terms policy) _ (counts-IsWithin (some e) terms policy)
        λ _ counts.
          Ensures-weaken (λ _. All (IsPlaced terms) (top_level_conjuncts e)) _
            (check_conjunctive e terms true "where") (at_top terms e "where")
            λ _ placed. (counts, placed))
      h
