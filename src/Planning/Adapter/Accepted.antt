-- ===== src/Planning/Adapter/Accepted.antt =====
-- What an adapter accepts.
use yo_db.Base.{String, ◌≡◌, refl, ◌↔◌, inl, inr, Bool, true, false, List, [], ◌∷◌, ◌++◌, arith}
use yo_db.Base.Lists.{All, All-append_iff}
use yo_db.Base.Dicts.{contains}
use yo_db.Base.Tests.{if◌then◌else◌, Bool-cases}
use yo_db.Query.Models.{
  BoundPredicate, BoundFilterExpression, bound_predicate, bound_term, bound_all, bound_any,
  bound_not, BoundFilterExpressions, bnil, bcons, BoundExtensionTerm,
}
use yo_db.Query.Extensions.{extension_terms, extension_terms_each}
use yo_db.Planning.Capabilities.{
  SourceCapabilities, BooleanOperator, all_terms, any_term, not_term, has_operator, has_combinator,
  has_type,
}
use yo_db.Planning.Adapter.{accepts, accepts_each}

no_terms : (ts us : List BoundExtensionTerm) → ts ++ us ≡ [] → (ts ≡ []) × (us ≡ [])
no_terms [] us h = (refl, h)
no_terms (t ∷ ts) us h = cc h

module _ {V : Type 0} where
  mutual
    -- The predicates, and the combinators, that occur in a filter.
    pub predicates_of : BoundFilterExpression V → List (BoundPredicate V)
    predicates_of (bound_predicate p) = p ∷ []
    predicates_of (bound_term t) = []
    predicates_of (bound_all es) = predicates_of_each es
    predicates_of (bound_any es) = predicates_of_each es
    predicates_of (bound_not e) = predicates_of e

    pub predicates_of_each : BoundFilterExpressions V → List (BoundPredicate V)
    predicates_of_each bnil = []
    predicates_of_each (bcons e es) = predicates_of e ++ predicates_of_each es

  mutual
    pub combinators_of : BoundFilterExpression V → List BooleanOperator
    combinators_of (bound_predicate p) = []
    combinators_of (bound_term t) = []
    combinators_of (bound_all es) = all_terms ∷ combinators_of_each es
    combinators_of (bound_any es) = any_term ∷ combinators_of_each es
    combinators_of (bound_not e) = not_term ∷ combinators_of e

    pub combinators_of_each : BoundFilterExpressions V → List BooleanOperator
    combinators_of_each bnil = []
    combinators_of_each (bcons e es) = combinators_of e ++ combinators_of_each es

  module _ (caps : SourceCapabilities) (names : List String) where
    -- The predicate is on a field of the source, by an operator and of a type that it declares.
    pub record IsFilterable (p : BoundPredicate V) : Type 0 where
      pub owned : contains p.field.name names ≡ true
      pub operator : has_operator p.operator caps.filter_operators ≡ true
      pub type : has_type p.field.spec.type caps.filterable_types ≡ true

    -- Everything in the filter is declared, and no extension term is in it.
    pub record IsDeclared (predicates : List (BoundPredicate V))
        (combinators : List BooleanOperator) (terms : List BoundExtensionTerm) : Type 0 where
      pub filterable : All IsFilterable predicates
      pub combined : All (λ c. has_combinator c caps.boolean_operators ≡ true) combinators
      pub plain : terms ≡ []

    IsDeclared-append :
        (ps qs : List (BoundPredicate V)) (cs ds : List BooleanOperator)
        (ts us : List BoundExtensionTerm)
        → IsDeclared (ps ++ qs) (cs ++ ds) (ts ++ us) ↔ (IsDeclared ps cs ts × IsDeclared qs ds us)
    IsDeclared-append ps qs cs ds ts us =
        let predicates = All-append_iff IsFilterable ps qs in
        let combinators =
          All-append_iff (λ c. has_combinator c caps.boolean_operators ≡ true) cs ds in
        (
          (λ h.
              let (p, q) = predicates.0 h.filterable in
              let (c, d) = combinators.0 h.combined in
              (
                record { filterable = p; combined = c; plain = (no_terms ts us h.plain).0 },
                record { filterable = q; combined = d; plain = (no_terms ts us h.plain).1 },
              )),
          λ (h, k). record {
            filterable = predicates.1 (h.filterable, k.filterable);
            combined = combinators.1 (h.combined, k.combined);
            plain = rw (h.plain, k.plain) refl;
          },
        )

    IsDeclared-under :
        (c : BooleanOperator) (b : Bool) (ps : List (BoundPredicate V)) (cs : List BooleanOperator)
        (ts : List BoundExtensionTerm)
        → (b ≡ true ↔ IsDeclared ps cs ts)
        → (if has_combinator c caps.boolean_operators then b else false) ≡ true
          ↔ IsDeclared ps (c ∷ cs) ts
    IsDeclared-under c b ps cs ts inner =
        elim (Bool-cases (has_combinator c caps.boolean_operators)) [
          | inl has ↦ rw has (
            (λ h. record {
              filterable = (inner.0 h).filterable;
              combined = (has, (inner.0 h).combined);
              plain = (inner.0 h).plain;
            }),
            λ h.
                inner.1
                  (record { filterable = h.filterable; combined = h.combined.1; plain = h.plain }),
          )
          | inr lacks ↦ rw lacks ((λ h. cc h), λ h. cc (h.combined.0, lacks))
        ]

    mutual
      unfolding accepts extension_terms predicates_of combinators_of

      pub accepts_iff :
          (e : BoundFilterExpression V)
          → accepts caps names e ≡ true
            ↔ IsDeclared (predicates_of e) (combinators_of e) (extension_terms e)
      accepts_iff (bound_predicate p) = (
        (λ h. record {
          filterable = (
            record {
              owned = ground (arith, h);
              operator = ground (arith, h);
              type = ground (arith, h);
            },
            tt,
          );
          combined = tt;
          plain = refl;
        }),
        λ h. rw (h.filterable.0.owned, h.filterable.0.operator) h.filterable.0.type,
      )
      accepts_iff (bound_term t) = ((λ h. cc h), λ h. cc h.plain)
      accepts_iff (bound_all es) = IsDeclared-under all_terms _ _ _ _ (accepts_each_iff es)
      accepts_iff (bound_any es) = IsDeclared-under any_term _ _ _ _ (accepts_each_iff es)
      accepts_iff (bound_not e) = IsDeclared-under not_term _ _ _ _ (accepts_iff e)

      accepts_each_iff :
          (es : BoundFilterExpressions V)
          → accepts_each caps names es ≡ true
            ↔ IsDeclared (predicates_of_each es) (combinators_of_each es) (extension_terms_each es)
      accepts_each_iff bnil =
          ((λ _. record { filterable = tt; combined = tt; plain = refl }), λ _. refl)
      accepts_each_iff (bcons e es) =
          let first = accepts_iff e in
          let rest = accepts_each_iff es in
          let split =
            IsDeclared-append (predicates_of e) (predicates_of_each es) (combinators_of e)
              (combinators_of_each es) (extension_terms e) (extension_terms_each es) in
          (
            (λ h. split.1 (first.0 (ground (arith, h)), rest.0 (ground (arith, h)))),
            λ h. let (k, l) = split.0 h in rw (first.1 k) (rest.1 l),
          )
