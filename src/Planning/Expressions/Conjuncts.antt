-- ===== src/Planning/Expressions/Conjuncts.antt =====
-- What the split of a filter into conjuncts and predicates means for rows.
use mathlib.Core.Path.{subst}
use mathlib.Core.List.{map-append}
use yo_db.Base.{
  ◌≡◌, ◌↔◌, refl, sym, ap, map, true, false, Option, none, some, List, [], ◌∷◌, ◌++◌, arith,
}
use yo_db.Base.Lists.{All, All-append_iff, All-map_iff}
use yo_db.Query.Models.{
  BoundPredicate, BoundFilterExpression, bound_predicate, bound_term, bound_all, bound_any,
  bound_not, BoundFilterExpressions, bnil, bcons,
}
use yo_db.Execution.Rows.{Objects, Row, holds, truth, truth_and, predicate_truth}
use yo_db.Planning.Expressions.{
  join_predicates, conjunctive_predicates, conjunctive_predicates_all, top_level_conjuncts,
  top_level_conjuncts_all,
}

-- The parts that `join_predicates` put together.
join_parts {ℓ} :
    {A : Type ℓ} (a b : Option (List A)) (ps : List A)
    → join_predicates a b ≡ some ps
    → (xs ys : List A) × (a ≡ some xs) × (b ≡ some ys) × (xs ++ ys ≡ ps)
join_parts none b ps h = cc
join_parts (some xs) none ps h = cc
join_parts (some xs) (some ys) ps h = (xs, ys, refl, refl, cc)

module _ {V : Type 0} (objects : Objects V) (row : Row V) where
  abbrev Holds : BoundFilterExpression V → Type 0
  Holds e = truth objects e row ≡ some holds

  abbrev HoldsAt : BoundPredicate V → Type 0
  HoldsAt p = predicate_truth objects p (row p.field.name) ≡ some holds

  -- Once an UNKNOWN was seen, a conjunction is not TRUE.
  truth_and-seen : (es : BoundFilterExpressions V) → ¬ (truth_and objects es row true ≡ some holds)
  unfolding truth
  truth_and-seen bnil h = cc
  truth_and-seen (bcons e es) h = ground (arith, truth_and-seen es)

  truth_and-cons :
      (e : BoundFilterExpression V) (es : BoundFilterExpressions V)
      → (truth_and objects (bcons e es) row false ≡ some holds)
        ↔ (Holds e × (truth_and objects es row false ≡ some holds))
  unfolding truth
  truth_and-cons e es = ground (arith, truth_and-seen es)

  mutual
    unfolding truth top_level_conjuncts

    conjuncts_iff : (e : BoundFilterExpression V) → Holds e ↔ All Holds (top_level_conjuncts e)
    conjuncts_iff (bound_predicate p) = ((λ h. (h, tt)), (λ h. h.0))
    conjuncts_iff (bound_term t) = ((λ h. (h, tt)), (λ h. h.0))
    conjuncts_iff (bound_all es) = conjuncts-All_iff es
    conjuncts_iff (bound_any es) = ((λ h. (h, tt)), (λ h. h.0))
    conjuncts_iff (bound_not e) = ((λ h. (h, tt)), (λ h. h.0))

    conjuncts-All_iff :
        (es : BoundFilterExpressions V)
        → (truth_and objects es row false ≡ some holds) ↔ All Holds (top_level_conjuncts_all es)
    conjuncts-All_iff bnil = ((λ _. tt), (λ _. refl))
    conjuncts-All_iff (bcons e es) =
        let step = truth_and-cons e es in
        let split = All-append_iff Holds (top_level_conjuncts e) (top_level_conjuncts_all es) in
        (
          (λ h. split.1 ((conjuncts_iff e).0 (step.0 h).0, (conjuncts-All_iff es).0 (step.0 h).1)),
          (λ h. step.1 ((conjuncts_iff e).1 (split.0 h).0, (conjuncts-All_iff es).1 (split.0 h).1)),
        )

-- A filter is TRUE of a row exactly when each of its top-level conjuncts is, so that conjuncts may
-- be decided by different sources.
pub truth-top_level_conjuncts :
    {V : Type 0} (objects : Objects V) (e : BoundFilterExpression V) (row : Row V)
    → (truth objects e row ≡ some holds)
      ↔ All (λ c. truth objects c row ≡ some holds) (top_level_conjuncts e)
truth-top_level_conjuncts objects e row = conjuncts_iff objects row e

mutual
  unfolding conjunctive_predicates top_level_conjuncts

  conjuncts_of_predicates :
      {V : Type 0} (e : BoundFilterExpression V) (ps : List (BoundPredicate V))
      → conjunctive_predicates e ≡ some ps
      → top_level_conjuncts e ≡ map bound_predicate ps
  conjuncts_of_predicates (bound_predicate p) ps h = ap (map bound_predicate) {x = p ∷ []} (cc)
  conjuncts_of_predicates (bound_term t) ps h = cc
  conjuncts_of_predicates (bound_all es) ps h = conjuncts_of_predicates_all es ps h
  conjuncts_of_predicates (bound_any es) ps h = cc
  conjuncts_of_predicates (bound_not e) ps h = cc

  conjuncts_of_predicates_all :
      {V : Type 0} (es : BoundFilterExpressions V) (ps : List (BoundPredicate V))
      → conjunctive_predicates_all es ≡ some ps
      → top_level_conjuncts_all es ≡ map bound_predicate ps
  conjuncts_of_predicates_all bnil ps h = ap (map bound_predicate) {x = []} (cc)
  conjuncts_of_predicates_all (bcons e es) ps h =
      let (xs, ys, hx, hy, same) = join_parts _ _ ps h in
      rw (← same, map-append, conjuncts_of_predicates e xs hx, conjuncts_of_predicates_all es ys hy)

-- A filter that is a conjunction of predicates is TRUE of a row exactly when each predicate is TRUE
-- of the row's value of its field.
pub truth-conjunctive_predicates :
    {V : Type 0} (objects : Objects V) (e : BoundFilterExpression V) (row : Row V)
    (ps : List (BoundPredicate V))
    → conjunctive_predicates e ≡ some ps
    → (truth objects e row ≡ some holds)
      ↔ All (λ p. predicate_truth objects p (row p.field.name) ≡ some holds) ps
truth-conjunctive_predicates objects e row ps h =
    let split = truth-top_level_conjuncts objects e row in
    let each = All-map_iff (λ c. truth objects c row ≡ some holds) bound_predicate ps in
    let same = conjuncts_of_predicates e ps h in
    (
      (λ t. unfold truth in each.0 (subst (All _) same (split.0 t))),
      (λ t. split.1 (subst (All _) (sym same) (unfold truth in each.1 t))),
    )
