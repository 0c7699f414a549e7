-- ===== src/Planning/Expressions/Stripped.antt =====
-- `strip_terms` of src/yodb/query/extensions.py, against the top-level conjuncts of the filter.
use yo_db.Base.{
  ◌≡◌, refl, sym, ◌∙◌, not, Bool, true, false, Option, none, some, List, [], ◌∷◌, ◌++◌, arith,
}
use yo_db.Base.Lists.{all, all-append, append_nil, keep, keep-append}
use yo_db.Base.Tests.{if◌then◌else◌}
use yo_db.Errors.{Result, ok, fail, crash, assertion_error, ◌>>=◌}
use yo_db.Query.Models.{
  BoundExtensionTerm, BoundFilterExpression, bound_predicate, bound_term, bound_all, bound_any,
  bound_not, BoundFilterExpressions, bnil, bcons,
}
use yo_db.Query.Extensions.{strip_terms, strip_terms_each, add_part, rebuilt}
use yo_db.Planning.Expressions.{top_level_conjuncts, top_level_conjuncts_all, top_level_conjuncts?}

module _ {V : Type 0} where
  -- a conjunct that is a predicate or a term
  abbrev pub is_simple : BoundFilterExpression V → Bool
  is_simple (bound_any es) = false
  is_simple (bound_not e) = false
  is_simple _ = true

  -- a conjunct that is not a term of the type
  abbrev pub unclaimed : (BoundExtensionTerm → Bool) → BoundFilterExpression V → Bool
  unclaimed is_bound (bound_term t) = not (is_bound t)
  unclaimed is_bound _ = true

  conjuncts-rebuilt :
      (es : BoundFilterExpressions V)
      → top_level_conjuncts? (rebuilt es) ≡ top_level_conjuncts_all es
  unfolding top_level_conjuncts
  conjuncts-rebuilt bnil = refl
  conjuncts-rebuilt (bcons e bnil) = sym (append_nil (top_level_conjuncts e))
  conjuncts-rebuilt (bcons e (bcons f es)) = refl

  conjuncts-add_part :
      (part : Option (BoundFilterExpression V)) (es : BoundFilterExpressions V)
      → top_level_conjuncts_all (add_part part es)
        ≡ top_level_conjuncts? part ++ top_level_conjuncts_all es
  unfolding top_level_conjuncts
  conjuncts-add_part none es = refl
  conjuncts-add_part (some e) es = refl

  module _ (is_bound : BoundExtensionTerm → Bool) where
    -- Without an `any` or a `not` among the conjuncts, the result has the other conjuncts, in
    -- order; with one, the call ends in an AssertionError.
    abbrev pub IsStripped :
        List (BoundFilterExpression V) → Result (Option (BoundFilterExpression V)) → Type 0
    IsStripped cs (ok part) =
        (all is_simple cs ≡ true) × (top_level_conjuncts? part ≡ keep (unclaimed is_bound) cs)
    IsStripped cs (fail e) = ⊥
    IsStripped cs (crash e) = (all is_simple cs ≡ false) × (e ≡ assertion_error)

    abbrev AreStripped : List (BoundFilterExpression V) → Result (BoundFilterExpressions V) → Type 0
    AreStripped cs (ok es) =
        (all is_simple cs ≡ true) × (top_level_conjuncts_all es ≡ keep (unclaimed is_bound) cs)
    AreStripped cs (fail e) = ⊥
    AreStripped cs (crash e) = (all is_simple cs ≡ false) × (e ≡ assertion_error)

    rebuilt-IsStripped :
        (cs : List (BoundFilterExpression V)) (r : Result (BoundFilterExpressions V))
        → AreStripped cs r
        → IsStripped cs (r >>= λ kept. ok (rebuilt kept))
    rebuilt-IsStripped cs (ok es) h = (h.0, conjuncts-rebuilt es ∙ h.1)
    rebuilt-IsStripped cs (fail e) h = h
    rebuilt-IsStripped cs (crash e) h = h

    add_part-AreStripped :
        (cs ds : List (BoundFilterExpression V)) (r : Result (Option (BoundFilterExpression V)))
        (s : Result (BoundFilterExpressions V))
        → IsStripped cs r
        → AreStripped ds s
        → AreStripped (cs ++ ds) (r >>= λ part. (s >>= λ rest. ok (add_part part rest)))
    add_part-AreStripped cs ds (ok part) (ok es) h k = (
      (all-append is_simple cs ds ∙ ground (arith, h.0, k.0)),
      conjuncts-add_part part es ∙ ground (arith, h.1, k.1, keep-append (unclaimed is_bound) cs ds),
    )
    add_part-AreStripped cs ds (ok part) (fail e) h k = k
    add_part-AreStripped cs ds (ok part) (crash e) h k =
        (all-append is_simple cs ds ∙ ground (arith, h.0, k.0), k.1)
    add_part-AreStripped cs ds (fail e) s h k = h
    add_part-AreStripped cs ds (crash e) s h k =
        (all-append is_simple cs ds ∙ ground (arith, h.0), h.1)

    term-IsStripped :
        (t : BoundExtensionTerm) (b : Bool)
        → is_bound t ≡ b
        → IsStripped (bound_term t ∷ []) (ok (if b then none else some (bound_term t)))
    unfolding top_level_conjuncts
    term-IsStripped t true h = (refl, rw h refl)
    term-IsStripped t false h = (refl, rw h refl)

    mutual
      unfolding strip_terms top_level_conjuncts

      strip_one :
          (e : BoundFilterExpression V)
          → IsStripped (top_level_conjuncts e) (strip_terms e is_bound)
      strip_one (bound_predicate p) = (refl, refl)
      strip_one (bound_term t) = term-IsStripped t (is_bound t) refl
      strip_one (bound_all es) =
          rebuilt-IsStripped (top_level_conjuncts_all es) (strip_terms_each es is_bound)
            (strip_each es)
      strip_one (bound_any es) = (refl, refl)
      strip_one (bound_not e) = (refl, refl)

      strip_each :
          (es : BoundFilterExpressions V)
          → AreStripped (top_level_conjuncts_all es) (strip_terms_each es is_bound)
      strip_each bnil = (refl, refl)
      strip_each (bcons e es) =
          add_part-AreStripped (top_level_conjuncts e) (top_level_conjuncts_all es)
            (strip_terms e is_bound) (strip_terms_each es is_bound) (strip_one e) (strip_each es)

-- `strip_terms` removes the claimed terms from the top-level conjuncts and nothing else. It
-- succeeds exactly when no conjunct is an `any` or a `not`; else it is an AssertionError.
pub strip_terms-IsStripped :
    {V : Type 0} (is_bound : BoundExtensionTerm → Bool) (e : BoundFilterExpression V)
    → IsStripped is_bound (top_level_conjuncts e) (strip_terms e is_bound)
strip_terms-IsStripped is_bound e = strip_one is_bound e
