-- ===== src/OperatorKinds/Catalogued.antt =====
-- What a catalog of operators that was accepted has.
use yo_db.Base.{
  ℕ, zero, suc, ◌≡◌, ◌∙◌, sym, refl, ap, inl, inr, Bool, true, false, not, ◌&&◌, List, [], ◌∷◌,
  arith,
}
use yo_db.Base.Lists.{All, all, any}
use yo_db.Base.Tests.{Bool-cases}
use yo_db.Errors.{ok, crash, value_error, item}
use yo_db.Errors.Returns.{Returns}
use yo_db.Errors.Ensures.{Ensures, Ensures-if}
use yo_db.OperatorKinds.{
  OperatorKind, OperatorSpec, operator_kinds, place, is_implemented, is_empty, same_operator,
  has_kind, by_kind, is_sound_spec, operator_catalog, find_spec, spec_of, scan, filter, project,
  order, limit, combine, join, aggregate, group_by, distinct, union, key_lookup, vector_search,
  semantic_filter, traverse,
}

-- What holds of the members of the enumeration holds of every kind.
all_operators :
    (kind : OperatorKind) (p : OperatorKind → Bool) → all p operator_kinds ≡ true → p kind ≡ true
all_operators scan p h = ground (arith, h)
all_operators filter p h = ground (arith, h)
all_operators project p h = ground (arith, h)
all_operators order p h = ground (arith, h)
all_operators limit p h = ground (arith, h)
all_operators combine p h = ground (arith, h)
all_operators join p h = ground (arith, h)
all_operators aggregate p h = ground (arith, h)
all_operators group_by p h = ground (arith, h)
all_operators distinct p h = ground (arith, h)
all_operators union p h = ground (arith, h)
all_operators key_lookup p h = ground (arith, h)
all_operators vector_search p h = ground (arith, h)
all_operators semantic_filter p h = ground (arith, h)
all_operators traverse p h = ground (arith, h)

-- A member of the enumeration by its place
abbrev kind_in : List OperatorKind → ℕ → OperatorKind
kind_in [] n = traverse
kind_in (k ∷ ks) zero = k
kind_in (k ∷ ks) (suc n) = kind_in ks n

abbrev kind_at : ℕ → OperatorKind
kind_at n = kind_in operator_kinds n

kind_at-place : (kind : OperatorKind) → kind_at (place kind) ≡ kind
kind_at-place scan = refl
kind_at-place filter = refl
kind_at-place project = refl
kind_at-place order = refl
kind_at-place limit = refl
kind_at-place combine = refl
kind_at-place join = refl
kind_at-place aggregate = refl
kind_at-place group_by = refl
kind_at-place distinct = refl
kind_at-place union = refl
kind_at-place key_lookup = refl
kind_at-place vector_search = refl
kind_at-place semantic_filter = refl
kind_at-place traverse = refl

same_operator-same : (l r : OperatorKind) → same_operator l r ≡ true → l ≡ r
unfolding same_operator
same_operator-same l r h = sym (kind_at-place l) ∙ ap kind_at (ground (arith, h)) ∙ kind_at-place r

same_operator_refl : (l r : OperatorKind) → l ≡ r → same_operator l r ≡ true
unfolding same_operator
same_operator_refl l r h = ground (arith, ap place h)

-- `get` finds the kind, and a spec of it.
find_spec-found :
    (specs : List OperatorSpec) (kind : OperatorKind)
    → has_kind specs kind ≡ true
    → Returns (λ s. s.kind ≡ kind) (item (find_spec specs kind))
unfolding find_spec has_kind
find_spec-found [] kind h = cc
find_spec-found (s ∷ specs) kind h = elim (Bool-cases (same_operator s.kind kind)) [
  | inl same ↦ rw same (same_operator-same s.kind kind same)
  | inr other ↦ rw other (find_spec-found specs kind (ground (arith, h, other)))
]

-- What a catalog has for a kind: a spec of the kind. The operators that it requires are others, and
-- the catalog has a spec of each. It names strategies just when it is implemented.
pub record IsSpecOf (specs : List OperatorSpec) (kind : OperatorKind) (spec : OperatorSpec)
    : Type 0 where
  pub of_kind : spec.kind ≡ kind
  pub requires : All (λ r. ¬ (r ≡ kind) × Returns (λ s. s.kind ≡ r) (spec_of specs r)) spec.requires
  pub strategies : is_implemented spec ≡ not (is_empty spec.strategies)

requires-All :
    (specs : List OperatorSpec) (own kind : OperatorKind) (rs : List OperatorKind)
    → own ≡ kind
    → all (has_kind specs) rs ≡ true
    → any (same_operator own) rs ≡ false
    → All (λ r. ¬ (r ≡ kind) × Returns (λ s. s.kind ≡ r) (spec_of specs r)) rs
unfolding spec_of
requires-All specs own kind [] e h k = tt
requires-All specs own kind (r ∷ rs) e h k = (
  (
    (λ same. ground (arith, k, same_operator_refl own r (e ∙ sym same))),
    find_spec-found specs r (ground (arith, h)),
  ),
  requires-All specs own kind rs e (ground (arith, h)) (ground (arith, k)),
)

find_spec-IsSpecOf :
    (specs all_specs : List OperatorSpec) (kind : OperatorKind)
    → all (is_sound_spec all_specs) specs ≡ true
    → has_kind specs kind ≡ true
    → Returns (IsSpecOf all_specs kind) (item (find_spec specs kind))
unfolding find_spec has_kind is_sound_spec
find_spec-IsSpecOf [] all_specs kind sound h = cc
find_spec-IsSpecOf (s ∷ specs) all_specs kind sound h =
    elim (Bool-cases (same_operator s.kind kind)) [
      | inl same ↦ rw same (record {
        of_kind = same_operator-same s.kind kind same;
        requires =
            requires-All all_specs s.kind kind s.requires (same_operator-same s.kind kind same)
              (ground (arith, sound)) (ground (arith, sound));
        strategies = ground (arith, sound);
      })
      | inr other ↦ rw other (
          find_spec-IsSpecOf specs all_specs kind (ground (arith, sound))
            (ground (arith, h, other)))
    ]

-- A catalog of operators that `OperatorCatalog` accepts returns for every kind of operator a spec
-- of it. The operators that the spec requires are others, and the catalog returns a spec of each
-- of them; and the spec names strategies just when it is implemented.
pub operator_catalog-IsSpecOf :
    (given : List OperatorSpec)
    → Ensures
        (λ specs. (kind : OperatorKind) → Returns (IsSpecOf specs kind) (spec_of specs kind))
        (operator_catalog given)
unfolding operator_catalog spec_of
operator_catalog-IsSpecOf given =
    let specs = by_kind [] given in
    Ensures-if (λ found. (kind : OperatorKind) → Returns (IsSpecOf found kind) (spec_of found kind))
      (all (has_kind specs) operator_kinds && all (is_sound_spec specs) specs) (ok specs)
      (crash value_error)
      (λ accepted kind.
        find_spec-IsSpecOf specs specs kind (ground (arith, accepted))
          (all_operators kind (has_kind specs) (ground (arith, accepted))))
      (λ _. tt)
