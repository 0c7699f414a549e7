-- ===== src/Planning/Capabilities/Support.antt =====
-- The catalog of operators and the support that a source gives agree.
use yo_db.Base.{◌≡◌, refl, inl, inr, Bool, true, false, not, ◌&&◌, ◌||◌, [], ◌∷◌}
use yo_db.Base.Lists.{All, all}
use yo_db.Base.Dicts.{contains}
use yo_db.Base.Tests.{Bool-cases, Option-cases}
use yo_db.OperatorKinds.{
  OperatorSpec, operator_specs, same_operator, is_implemented, is_empty, plain, scan, filter, order,
  limit, combine, key_lookup, vector_search, semantic_filter, relational, support, extension,
}
use yo_db.Planning.Capabilities.{
  SourceCapabilities, OperatorSupport, SupportLevel, unavailable, view_of,
}

abbrev is_unavailable : SupportLevel → Bool
is_unavailable unavailable = true
is_unavailable _ = false

-- The support is of the operator, names only strategies that its spec lists, names some just when
-- the operator can run, and can run only an operator that is implemented.
abbrev pub agrees : OperatorSpec → OperatorSupport → Bool
unfolding same_operator
agrees spec given =
    same_operator given.kind spec.kind
    && all (λ s. contains s spec.strategies) given.strategies
    && (is_empty given.strategies || not (is_unavailable given.level))
    && (not (is_empty given.strategies) || is_unavailable given.level)
    && (is_implemented spec || is_unavailable given.level)

module _ (caps : SourceCapabilities) where
  abbrev Agrees : OperatorSpec → Type 0
  Agrees spec = agrees spec (view_of caps spec.kind) ≡ true

  filter-Agrees : Agrees (plain filter relational ("push_to_source" ∷ "run_in_yodb" ∷ []) [])
  unfolding agrees view_of
  filter-Agrees = elim (Bool-cases (is_empty caps.filter_operators)) [
    | inl none' ↦ rw none' refl
    | inr some' ↦ rw some' refl
  ]

  order-Agrees : Agrees (plain order relational ("push_to_source" ∷ "run_in_yodb" ∷ []) [])
  unfolding agrees view_of
  order-Agrees = elim (Bool-cases caps.supports_order) [
    | inl can ↦ rw can refl
    | inr cannot ↦ rw cannot refl
  ]

  limit-Agrees :
      Agrees (plain limit relational ("push_to_source" ∷ "run_in_yodb" ∷ []) (order ∷ []))
  unfolding agrees view_of
  limit-Agrees = elim (Bool-cases caps.supports_limit) [
    | inl can ↦ rw can refl
    | inr cannot ↦ rw cannot refl
  ]

  combine-Agrees :
      Agrees (plain combine relational ("read_order" ∷ "restrict_by_ids" ∷ []) (scan ∷ []))
  unfolding agrees view_of
  combine-Agrees = elim (Option-cases caps.key_lookup) [
    | inl missing ↦ rw missing refl
    | inr (lookup, given) ↦ rw given refl
  ]

  key_lookup-Agrees : Agrees (plain key_lookup support ("in_list" ∷ []) [])
  unfolding agrees view_of
  key_lookup-Agrees = elim (Option-cases caps.key_lookup) [
    | inl missing ↦ rw missing refl
    | inr (lookup, given) ↦ rw given refl
  ]

  vector_search-Agrees : Agrees (plain vector_search support ("ranked_read" ∷ []) [])
  unfolding agrees view_of
  vector_search-Agrees = elim (Option-cases caps.vector_search) [
    | inl missing ↦ rw missing refl
    | inr (search', given) ↦ rw given refl
  ]

  semantic_filter-Agrees :
      Agrees (plain semantic_filter extension ("verify_all" ∷ "vector_shortlist" ∷ []) [])
  unfolding agrees view_of
  semantic_filter-Agrees = elim (Option-cases caps.vector_search) [
    | inl missing ↦ rw missing refl
    | inr (search', given) ↦ rw given refl
  ]

  -- Whatever a source declares, the support it gives to each operator of the catalog agrees with
  -- the operator's spec: it names only strategies that the spec lists, some of them just when the
  -- operator can run, and an operator that is only planned cannot.
  pub operator_support-agrees :
      All (λ spec. agrees spec (view_of caps spec.kind) ≡ true) operator_specs
  unfolding operator_specs agrees view_of
  operator_support-agrees = (
    refl,
    (
      filter-Agrees,
      (
        refl,
        (
          order-Agrees,
          (
            limit-Agrees,
            (
              combine-Agrees,
              (
                refl,
                (
                  refl,
                  (
                    refl,
                    (
                      refl,
                      (
                        refl,
                        (
                          key_lookup-Agrees,
                          (vector_search-Agrees, (semantic_filter-Agrees, (refl, tt))),
                        ),
                      ),
                    ),
                  ),
                ),
              ),
            ),
          ),
        ),
      ),
    ),
  )
