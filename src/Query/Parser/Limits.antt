-- ===== src/Query/Parser/Limits.antt =====
-- What the budget of the parser guarantees of a filter.
use yo_db.Base.{
  ℕ, zero, suc, ◌+◌, ◌≤◌, max, String, ◌≡◌, refl, ◌≢◌, inl, inr, true, false, ◌&&◌, Option, none,
  some, List, [], ◌∷◌, arith,
}
use yo_db.Base.Lists.{All, All-weaken, All-keep, length}
use yo_db.Base.Strings.{◌==◌, eq_refl, ◌<>◌, is_blank, show}
use yo_db.Base.Dicts.{contains, All-contains}
use yo_db.Base.Tests.{eqb, Bool-cases}
use yo_db.Errors.{Result, Safe, Safe-bind, Safe-if, fail_at, query_expression_invalid}
use yo_db.Query.Models.{
  FilterExpression, predicate, term, all_of, any_of, not_of, FilterExpressions, nil, cons,
}
use yo_db.Query.Raw.{Raw, RawKey, Raws, Entries, entry_at, entry_names}
use yo_db.Query.Shape.{mapping_of, list_of, non_empty_string, reject_unknown}
use yo_db.Query.Extensions.{TermExtension, TermRegistry}
use yo_db.Query.Parser.{
  parse_predicate, first_extension, Parsed, parse_term_body, parse_term, parse_children,
  parse_value, parse_items, parse_list, parse_not, parse_boolean, boolean_keys, parse_plain,
  parse_body, parse_expression,
}

mutual
  -- The nodes of a filter.
  pub size : {V : Type 0} → FilterExpression V → ℕ
  size (predicate p) = 1
  size (term t) = 1
  size (all_of es) = suc (sizes es)
  size (any_of es) = suc (sizes es)
  size (not_of e) = suc (size e)

  pub sizes : {V : Type 0} → FilterExpressions V → ℕ
  sizes nil = 0
  sizes (cons e es) = size e + sizes es

mutual
  -- The nodes on the longest way down.
  pub depth : {V : Type 0} → FilterExpression V → ℕ
  depth (predicate p) = 1
  depth (term t) = 1
  depth (all_of es) = suc (depths es)
  depth (any_of es) = suc (depths es)
  depth (not_of e) = suc (depth e)

  pub depths : {V : Type 0} → FilterExpressions V → ℕ
  depths nil = 0
  depths (cons e es) = max (depth e) (depths es)

-- The parser of each registered term raises only structured errors.
abbrev pub TermsAreSafe : TermRegistry → Type 0
TermsAreSafe terms =
    All (λ e. (raw : Raw) (location : String) → Safe (λ _. Unit {0}) (e.parse raw location)) terms

-- The filter fits the levels, and took one term of the budget for each node.
abbrev Fits : ℕ → ℕ → Parsed → Type 0
Fits levels remaining (e, left) = (depth e ≤ levels) × (size e + left ≡ remaining)

abbrev FitAll : ℕ → ℕ → FilterExpressions Raw × ℕ → Type 0
FitAll levels remaining (es, left) = (depths es ≤ levels) × (sizes es + left ≡ remaining)

pub Safe-shape :
    (raw : Raw) (location : String)
    → Safe (λ _. Unit {0}) (mapping_of raw location) × Safe (λ _. Unit {0}) (list_of raw location)
unfolding mapping_of list_of
Safe-shape raw location = ground arith

pub Safe-reject :
    (es : Entries) (allowed : List String) (location : String)
    → Safe (λ _. Unit {0}) (reject_unknown es allowed location)
unfolding reject_unknown
Safe-reject es allowed location = ground arith

pub Safe-non_empty_string :
    (o : Option Raw) (location : String)
    → Safe (λ s. is_blank s ≡ false) (non_empty_string o location)
unfolding non_empty_string
Safe-non_empty_string (some (Raw.str s)) location = ground arith
Safe-non_empty_string (some _) location = tt
Safe-non_empty_string none location = tt

-- One node, of depth one.
abbrev IsLeaf : FilterExpression Raw → Type 0
IsLeaf e = (depth e ≡ 1) × (size e ≡ 1)

predicate_fits :
    (value : Entries) (location : String) → Safe IsLeaf (parse_predicate value location)
unfolding parse_predicate depth size
predicate_fits value location = ground arith

-- A key of a mapping has a value.
names_there : (es : Entries) → All (λ k. entry_at es k ≢ none) (entry_names es)
names_there Entries.end = tt
names_there (Entries.entry (RawKey.name j) v es) = (
  (λ h. ground (arith, eq_refl j)),
  All-weaken _ _ (entry_names es) (λ k there h. ground (arith, there)) (names_there es),
)
names_there (Entries.entry RawKey.other_key v es) = names_there es

-- a key among the names has a value
All-named :
    (value : Entries) (k : String) → contains k (entry_names value) ≡ true → entry_at value k ≢ none
All-named value k found =
    All-contains (λ j. entry_at value j ≢ none) k (entry_names value) (names_there value) found

-- The extension that was found has its key in the mapping, and a safe parser.
abbrev Usable : Entries → Option TermExtension → Type 0
Usable value none = Unit
Usable value (some e) =
    (entry_at value e.key ≢ none)
    × ((raw : Raw) (location : String) → Safe (λ _. Unit {0}) (e.parse raw location))

first-Usable :
    (terms : TermRegistry) (value : Entries)
    → TermsAreSafe terms
    → Usable value (first_extension terms value)
first-Usable [] value safe = tt
first-Usable (e ∷ es) value safe = elim (Bool-cases (contains e.key (entry_names value))) [
  | inl found ↦ rw found (All-named value e.key found, safe.0)
  | inr absent ↦ rw absent (first-Usable es value safe.1)
]

module _ (levels : ℕ) (parse_child : Raw → String → ℕ → Result Parsed)
    (fits : (raw : Raw) (location : String) (n : ℕ)
      → Safe (Fits levels n) (parse_child raw location n)) where
  children_fit :
      (xs : Raws) (prefix : String) (index n : ℕ)
      → Safe (FitAll levels n) (parse_children parse_child xs prefix index n)
  unfolding parse_children depths sizes
  children_fit Raws.nil prefix index n = ground arith
  children_fit (Raws.cons x xs) prefix index n =
      Safe-bind (Fits levels n) (FitAll levels n)
        (parse_child x (prefix <> "[" <> show index <> "]") n) _ (fits x _ n)
        λ (e, left) p.
          Safe-bind (FitAll levels left) (FitAll levels n)
            (parse_children parse_child xs prefix (suc index) left) _
            (children_fit xs prefix (suc index) left) λ (es, end) q. ground arith

  not-Fits :
      (raw : Raw) (location : String) (n : ℕ)
      → Safe (Fits (suc levels) (suc n)) (parse_not parse_child raw location n)
  unfolding parse_not depth size
  not-Fits raw location n =
      Safe-bind (Fits levels n) (Fits (suc levels) (suc n)) (parse_child raw location n) _
        (fits raw location n) λ (e, left) p. ground arith

  module _ (build : FilterExpressions Raw → FilterExpression Raw)
      (deeper : (es : FilterExpressions Raw) → depth (build es) ≡ suc (depths es))
      (larger : (es : FilterExpressions Raw) → size (build es) ≡ suc (sizes es)) where
    items_fit :
        (xs : Raws) (location : String) (n : ℕ)
        → Safe (Fits (suc levels) (suc n)) (parse_items parse_child build xs location n)
    unfolding parse_items
    items_fit Raws.nil location n = tt
    items_fit (Raws.cons x xs) location n =
        Safe-bind (FitAll levels n) (Fits (suc levels) (suc n))
          (parse_children parse_child (Raws.cons x xs) location 0 n) _
          (children_fit (Raws.cons x xs) location 0 n)
          λ (es, left) p. omega (arith, deeper es, larger es)

    list-Fits :
        (raw : Raw) (location : String) (n : ℕ)
        → Safe (Fits (suc levels) (suc n)) (parse_list parse_child build raw location n)
    unfolding parse_list
    list-Fits raw location n =
        Safe-bind (λ _. Unit {0}) (Fits (suc levels) (suc n)) (list_of raw location) _
          (Safe-shape raw location).1 λ xs _. items_fit xs location n

  boolean-Fits :
      (kind : String) (o : Option Raw) (location : String) (n : ℕ)
      → o ≢ none
      → Safe (Fits (suc levels) (suc n)) (parse_boolean parse_child kind o location n)
  unfolding parse_boolean depth size
  boolean-Fits kind none location n there = absurd (there refl)
  boolean-Fits kind (some child) location n there =
      Safe-if (Fits (suc levels) (suc n)) (kind == "not") _ _ (λ _. not-Fits child _ n)
        λ _.
          Safe-if (Fits (suc levels) (suc n)) (kind == "all") _ _
            (λ _. list-Fits all_of (λ es. refl) (λ es. refl) child _ n)
            λ _. list-Fits any_of (λ es. refl) (λ es. refl) child _ n

  plain-Fits :
      (ks : List String) (value : Entries) (location : String) (n : ℕ)
      → All (λ k. entry_at value k ≢ none) ks
      → Safe (Fits (suc levels) (suc n)) (parse_plain parse_child ks value location n)
  unfolding parse_plain
  plain-Fits [] value location n there =
      Safe-bind (λ e. (depth e ≡ 1) × (size e ≡ 1)) (Fits (suc levels) (suc n))
        (parse_predicate value location) _ (predicate_fits value location) λ e p. omega arith
  plain-Fits (kind ∷ others) value location n there =
      Safe-if (Fits (suc levels) (suc n))
        (eqb (length (entry_names value)) 1 && eqb (length others) 0) _
        (fail_at query_expression_invalid location)
        (λ _. boolean-Fits kind (entry_at value kind) location n there.0) λ _. tt

  term-Fits :
      (e : TermExtension) (o : Option Raw) (location : String) (n : ℕ)
      → o ≢ none
      → ((raw : Raw) (location : String) → Safe (λ _. Unit {0}) (e.parse raw location))
      → Safe (Fits (suc levels) (suc n)) (parse_term_body e o location n)
  unfolding parse_term_body depth size
  term-Fits e none location n there safe = absurd (there refl)
  term-Fits e (some body) location n there safe =
      Safe-bind (λ _. Unit {0}) (Fits (suc levels) (suc n)) (e.parse body _) _ (safe body _)
        λ t _. omega arith

  value-Fits :
      (found : Option TermExtension) (value : Entries) (location : String) (n : ℕ)
      → Usable value found
      → Safe (Fits (suc levels) (suc n)) (parse_value parse_child found value location n)
  unfolding parse_value parse_term
  value-Fits none value location n usable =
      plain-Fits (boolean_keys value) value location n
        (All-keep _ _ (entry_names value) (names_there value))
  value-Fits (some e) value location n usable =
      Safe-if (Fits (suc levels) (suc n)) (eqb (length (entry_names value)) 1) _
        (fail_at query_expression_invalid location)
        (λ _. term-Fits e (entry_at value e.key) location n usable.0 usable.1) λ _. tt

  body-Fits :
      (terms : TermRegistry) (raw : Raw) (location : String) (n : ℕ)
      → TermsAreSafe terms
      → Safe (Fits (suc levels) (suc n)) (parse_body parse_child terms raw location n)
  unfolding parse_body
  body-Fits terms raw location n safe =
      Safe-bind (λ _. Unit {0}) (Fits (suc levels) (suc n)) (mapping_of raw location) _
        (Safe-shape raw location).0
        λ value _.
          value-Fits (first_extension terms value) value location n (first-Usable terms value safe)

parse-Fits :
    (terms : TermRegistry) (levels : ℕ) (raw : Raw) (location : String) (n : ℕ)
    → TermsAreSafe terms
    → Safe (Fits levels n) (parse_expression terms levels raw location n)
unfolding parse_expression
parse-Fits terms zero raw location n safe = tt
parse-Fits terms (suc levels) raw location zero safe = tt
parse-Fits terms (suc levels) raw location (suc n) safe =
    body-Fits levels (parse_expression terms levels)
      (λ child place left. parse-Fits terms levels child place left safe) terms raw location n safe

-- Where the parsers of the registered terms raise nothing but structured errors, parsing a filter
-- raises nothing else, and a filter that it returns nests at most `levels` deep and has as many
-- nodes as were taken from the budget, so at most `remaining`.
pub parse_expression-Safe :
    (terms : TermRegistry) (levels : ℕ) (raw : Raw) (location : String) (remaining : ℕ)
    → TermsAreSafe terms
    → Safe
        (λ (e, left). (depth e ≤ levels) × (size e + left ≡ remaining))
        (parse_expression terms levels raw location remaining)
parse_expression-Safe = parse-Fits
