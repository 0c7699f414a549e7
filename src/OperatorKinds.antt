-- ===== src/OperatorKinds.antt =====
-- src/yodb/operators/kinds.py: the operators that exist or are planned, and the checks of their
-- catalog. Titles and summaries are left out.
pub mod Catalogued
use yo_db.Base.{
  ℕ, String, ◌≡◌, refl, Bool, true, false, not, ◌&&◌, ◌||◌, Option, none, some, List, [], ◌∷◌,
}
use yo_db.Base.Lists.{all, any, keep}
use yo_db.Base.Tests.{eqb, if◌then◌else◌}
use yo_db.Errors.{Result, ok, crash, value_error, key_error, item}

pub data OperatorKind : Type 0 where
  scan filter project order limit combine join aggregate group_by distinct union : OperatorKind
  key_lookup vector_search semantic_filter traverse : OperatorKind

pub data OperatorCategory : Type 0 where
  relational support extension : OperatorCategory

pub data OperatorStatus : Type 0 where
  implemented planned : OperatorStatus

pub record OperatorSpec : Type 0 where
  pub kind : OperatorKind
  pub category : OperatorCategory
  pub status : OperatorStatus
  pub strategies : List String
  pub requires : List OperatorKind

-- the members of the enumeration, in order
abbrev pub operator_kinds : List OperatorKind
operator_kinds =
    scan ∷ filter ∷ project ∷ order ∷ limit ∷ combine ∷ join ∷ aggregate ∷ group_by ∷ distinct
    ∷ union ∷ key_lookup ∷ vector_search ∷ semantic_filter ∷ traverse ∷ []

abbrev place : OperatorKind → ℕ
place scan = 0
place filter = 1
place project = 2
place order = 3
place limit = 4
place combine = 5
place join = 6
place aggregate = 7
place group_by = 8
place distinct = 9
place union = 10
place key_lookup = 11
place vector_search = 12
place semantic_filter = 13
place traverse = 14

-- `left is right` of two kinds
unfoldable pub same_operator : OperatorKind → OperatorKind → Bool
same_operator left right = eqb (place left) (place right)

-- `OperatorSpec.implemented`
abbrev pub is_implemented : OperatorSpec → Bool
is_implemented spec = elim spec.status [ implemented ↦ true | planned ↦ false ]

abbrev pub is_empty {ℓ} : {A : Type ℓ} → List A → Bool
is_empty [] = true
is_empty (x ∷ xs) = false

abbrev pub plain : OperatorKind → OperatorCategory → List String → List OperatorKind → OperatorSpec
plain kind category strategies requires = record {
  kind = kind;
  category = category;
  status = implemented;
  strategies = strategies;
  requires = requires;
}

abbrev pub future : OperatorKind → OperatorCategory → List OperatorKind → OperatorSpec
future kind category requires = record {
  kind = kind;
  category = category;
  status = planned;
  strategies = [];
  requires = requires;
}

-- `_SPECS`
unfoldable pub operator_specs : List OperatorSpec
operator_specs =
    plain scan relational ("plain" ∷ []) []
    ∷ plain filter relational ("push_to_source" ∷ "run_in_yodb" ∷ []) []
    ∷ plain project relational ("push_columns" ∷ []) []
    ∷ plain order relational ("push_to_source" ∷ "run_in_yodb" ∷ []) []
    ∷ plain limit relational ("push_to_source" ∷ "run_in_yodb" ∷ []) (order ∷ [])
    ∷ plain combine relational ("read_order" ∷ "restrict_by_ids" ∷ []) (scan ∷ [])
    ∷ plain join relational ("driver_left" ∷ "driver_right" ∷ []) (scan ∷ [])
    ∷ future aggregate relational []
    ∷ future group_by relational (aggregate ∷ [])
    ∷ future distinct relational []
    ∷ future union relational []
    ∷ plain key_lookup support ("in_list" ∷ []) []
    ∷ plain vector_search support ("ranked_read" ∷ []) []
    ∷ plain semantic_filter extension ("verify_all" ∷ "vector_shortlist" ∷ []) []
    ∷ future traverse extension []
    ∷ []

-- The specs by kind: a later one replaces an earlier one at its place.
abbrev put_spec : List OperatorSpec → OperatorSpec → List OperatorSpec
unfolding same_operator
put_spec [] spec = spec ∷ []
put_spec (s ∷ specs) spec =
    let rest = put_spec specs spec in
    if same_operator s.kind spec.kind then spec ∷ specs else s ∷ rest

abbrev pub by_kind : List OperatorSpec → List OperatorSpec → List OperatorSpec
unfolding put_spec
by_kind found [] = found
by_kind found (s ∷ specs) = by_kind (put_spec found s) specs

-- `kind in self._specs`
abbrev pub has_kind : List OperatorSpec → OperatorKind → Bool
unfolding same_operator
has_kind specs kind = any (λ s. same_operator s.kind kind) specs

-- The checks of one spec
unfoldable pub is_sound_spec : List OperatorSpec → OperatorSpec → Bool
unfolding has_kind same_operator
is_sound_spec specs spec =
    all (has_kind specs) spec.requires
    && not (any (same_operator spec.kind) spec.requires)
    && (if is_implemented spec then not (is_empty spec.strategies) else is_empty spec.strategies)

-- `OperatorCatalog.__init__`
unfoldable pub operator_catalog : List OperatorSpec → Result (List OperatorSpec)
unfolding by_kind has_kind is_sound_spec
operator_catalog given =
    let specs = by_kind [] given in
    if all (has_kind specs) operator_kinds && all (is_sound_spec specs) specs
    then ok specs
    else crash value_error

abbrev find_spec : List OperatorSpec → OperatorKind → Option OperatorSpec
unfolding same_operator
find_spec [] kind = none
find_spec (s ∷ specs) kind =
    let rest = find_spec specs kind in if same_operator s.kind kind then some s else rest

-- `OperatorCatalog.get`
unfoldable pub spec_of : List OperatorSpec → OperatorKind → Result OperatorSpec
unfolding find_spec
spec_of specs kind = item (find_spec specs kind)

-- `implemented` and `planned`
unfoldable pub implemented_specs : List OperatorSpec → List OperatorSpec
implemented_specs specs = keep is_implemented specs

unfoldable pub planned_specs : List OperatorSpec → List OperatorSpec
planned_specs specs = keep (λ s. not (is_implemented s)) specs
