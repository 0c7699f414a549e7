-- ===== src/Query/Validation/Filters.antt =====
-- The filter of a bound query is over public fields, with operators and values of their types.
use yo_db.Base.{ℕ, suc, String, ◌≡◌, refl, Bool, true, false, Option, none, some, [], ◌∷◌}
use Prim.Native.String.{count}
use yo_db.Base.Strings.{◌<>◌, show, is_blank}
use yo_db.Errors.Ensures.{Ensures, Ensures-if, Ensures-self, Ensures-bind}
use yo_db.Query.Models.{
  FilterExpression, predicate, term, all_of, any_of, not_of, FilterExpressions, nil, cons,
  ExtensionTerm, foreign, semantic_predicate, BoundExtensionTerm, bound_semantic, bound_foreign,
  BoundDataset, BoundFilterExpression, bound_predicate, bound_term, bound_all, bound_any, bound_not,
  BoundFilterExpressions, bnil, bcons, BoundPredicate, Predicate,
}
use yo_db.Query.Raw.{Raw}
use yo_db.Query.Policy.{QueryValidationPolicy, limit}
use yo_db.Query.Extensions.{TermExtension, TermRegistry, find_extension, for_parsed}
use yo_db.Query.Semantic.{semantic_term, bind_semantic, strip, maximum_proposition_chars}
use yo_db.Catalog.{is_text_type}
use yo_db.Base.Lists.{All}
use yo_db.Base.Tests.{ltb, if◌then◌else◌}
use yo_db.Errors.{
  ErrorCode, Result, ok, fail, crash, ◌>>◌, fail_at, query_operator_not_supported,
  query_value_type_invalid, query_limit_invalid,
}
use yo_db.Query.Fields.{bind_public_field, IsPublicField, bind_public_field-IsPublicField}
use yo_db.Query.Values.{
  Builtins, BoundValue, is_null_test, is_list_operator, validate_operator,
  normalize_predicate_value,
}
use yo_db.Query.Values.Typed.{
  Conforms, Supports, validate_operator-Supports, normalize_predicate_value-Conforms,
}
use yo_db.Query.Validation.{bind_predicate, bind_term, bind_expression, bind_each, bind_where}

-- A predicate over a public field, with an operator of its type and a value that conforms.
pub record IsTyped (policy : QueryValidationPolicy) (root : BoundDataset)
    (p : BoundPredicate BoundValue) : Type 0 where
  pub field : IsPublicField root p.field
  pub supported : Supports p.field.spec.type p.operator
  pub conforms :
      Conforms policy p.field.spec.type
        (is_null_test p.operator)
        (is_list_operator p.operator)
        p.value

pub bound_field :
    (root : BoundDataset) (name location : String)
    → Ensures (λ f. IsPublicField root f × (f.name ≡ name)) (bind_public_field root name location)
bound_field root name location =
    Ensures-self _ (bind_public_field root name location)
      (bind_public_field-IsPublicField root name location)

-- The check passes only when the test holds.
only_if :
    (b : Bool) (c : ErrorCode) (l : String)
    → Ensures (λ _. b ≡ true) (if b then ok tt else fail_at c l)
only_if true c l = refl
only_if false c l = tt

after_checks :
    {A : Type 0} (P : A → Type 0) (first second : Result (Unit {0})) (a : A)
    → P a
    → Ensures P (first >> (second >> ok a))
after_checks P (ok _) (ok _) a h = h
after_checks P (ok _) (fail e) a h = tt
after_checks P (ok _) (crash e) a h = tt
after_checks P (fail e) second a h = tt
after_checks P (crash e) second a h = tt

-- A semantic condition is on a public text field that semantic conditions may search.
abbrev pub IsPublicTerm : BoundDataset → BoundExtensionTerm → Type 0
IsPublicTerm root (bound_semantic field proposition) =
    IsPublicField root field
    × ((is_text_type field.spec.type ≡ true) × (field.spec.semantic_eligible ≡ true))
IsPublicTerm root (bound_foreign class_name) = Unit

-- What the extension binds is such a condition, or a term of another class.
abbrev pub BindsPublic : QueryValidationPolicy → TermExtension → Type 0
BindsPublic policy extension =
    (root : BoundDataset) (t : ExtensionTerm) (location : String)
    → Ensures (IsPublicTerm root) (extension.bind t root location policy)

pub semantic_term-BindsPublic : (policy : QueryValidationPolicy) → BindsPublic policy semantic_term
unfolding bind_semantic
semantic_term-BindsPublic policy root (foreign c) location = tt
semantic_term-BindsPublic policy root (semantic_predicate name text) location =
    Ensures-bind (λ f. IsPublicField root f × (f.name ≡ name)) (IsPublicTerm root)
      (bind_public_field root name (location <> ".semantic.field")) _
      (bound_field root name (location <> ".semantic.field"))
      λ field hf.
        Ensures-bind (λ _. is_text_type field.spec.type ≡ true) (IsPublicTerm root) _ _
          (only_if (is_text_type field.spec.type) query_operator_not_supported
            (location <> ".semantic.field"))
          λ _ text_type.
            Ensures-bind (λ _. field.spec.semantic_eligible ≡ true) (IsPublicTerm root) _ _
              (only_if field.spec.semantic_eligible query_operator_not_supported
                (location <> ".semantic.field"))
              λ _ eligible.
                after_checks (IsPublicTerm root)
                  (if is_blank (strip text)
                    then fail_at query_value_type_invalid (location <> ".semantic.proposition")
                    else ok tt)
                  (if ltb (limit policy "semantic.proposition_chars" maximum_proposition_chars)
                      (count (strip text))
                    then fail_at query_limit_invalid (location <> ".semantic.proposition")
                    else ok tt)
                  (bound_semantic field (strip text)) (hf.0, (text_type, eligible))

found-All :
    (P : TermExtension → Type 0) (matches : TermExtension → Bool) (terms : TermRegistry)
    → All P terms
    → Ensures P (find_extension matches terms)
unfolding find_extension
found-All P matches [] h = tt
found-All P matches (e ∷ es) h =
    Ensures-if P (matches e) (ok e) (find_extension matches es) (λ _. h.0)
      (λ _. found-All P matches es h.1)

abbrev mutual
  pub EachTyped : QueryValidationPolicy → BoundDataset → BoundFilterExpression BoundValue → Type 0
  EachTyped policy root (bound_predicate p) = IsTyped policy root p
  EachTyped policy root (bound_term t) = IsPublicTerm root t
  EachTyped policy root (bound_all es) = AllTyped policy root es
  EachTyped policy root (bound_any es) = AllTyped policy root es
  EachTyped policy root (bound_not e) = EachTyped policy root e

  pub AllTyped : QueryValidationPolicy → BoundDataset → BoundFilterExpressions BoundValue → Type 0
  AllTyped policy root bnil = Unit
  AllTyped policy root (bcons e es) = EachTyped policy root e × AllTyped policy root es

module _ (builtins : Builtins) (root : BoundDataset) (policy : QueryValidationPolicy) where
  predicate_typed :
      (p : Predicate Raw) (location : String)
      → Ensures (EachTyped policy root) (bind_predicate builtins p root location policy)
  unfolding bind_predicate
  predicate_typed p location =
      Ensures-bind _ (EachTyped policy root) (bind_public_field root p.field (location <> ".field"))
        _ (bound_field root p.field (location <> ".field"))
        λ field hf.
          Ensures-bind _ (EachTyped policy root) (validate_operator field.spec.type p location) _
            (validate_operator-Supports field.spec.type p location)
            λ _ hs.
              Ensures-bind _ (EachTyped policy root)
                (normalize_predicate_value builtins field.spec.type p location policy) _
                (normalize_predicate_value-Conforms builtins field.spec.type p location policy)
                λ value hv. record { field = hf.0; supported = hs; conforms = hv }

  module _ (terms : TermRegistry) (public_terms : All (BindsPublic policy) terms) where
    term_typed :
        (t : ExtensionTerm) (location : String)
        → Ensures (EachTyped policy root) (bind_term builtins root policy terms t location)
    unfolding bind_term for_parsed
    term_typed t location =
        Ensures-bind (BindsPublic policy) (EachTyped policy root) (for_parsed terms t) _
          (found-All (BindsPublic policy) (λ e. e.is_parsed t) terms public_terms)
          λ extension binds.
            Ensures-bind (IsPublicTerm root) (EachTyped policy root)
              (extension.bind t root location policy) _ (binds root t location) λ bound h. h

    mutual
      unfolding bind_expression

      expression_typed :
          (e : FilterExpression Raw) (location : String)
          → Ensures (EachTyped policy root) (bind_expression builtins root policy terms e location)
      expression_typed (predicate p) location = predicate_typed p location
      expression_typed (term t) location = term_typed t location
      expression_typed (all_of es) location =
          Ensures-bind (AllTyped policy root) (EachTyped policy root)
            (bind_each builtins root policy terms es (location <> ".all[") 0) _
            (each_typed es (location <> ".all[") 0) λ bound h. h
      expression_typed (any_of es) location =
          Ensures-bind (AllTyped policy root) (EachTyped policy root)
            (bind_each builtins root policy terms es (location <> ".any[") 0) _
            (each_typed es (location <> ".any[") 0) λ bound h. h
      expression_typed (not_of e) location =
          Ensures-bind (EachTyped policy root) (EachTyped policy root)
            (bind_expression builtins root policy terms e (location <> ".not")) _
            (expression_typed e (location <> ".not")) λ bound h. h

      each_typed :
          (es : FilterExpressions Raw) (prefix : String) (index : ℕ)
          → Ensures (AllTyped policy root) (bind_each builtins root policy terms es prefix index)
      each_typed nil prefix index = tt
      each_typed (cons e es) prefix index =
          Ensures-bind (EachTyped policy root) (AllTyped policy root)
            (bind_expression builtins root policy terms e (prefix <> show index <> "]")) _
            (expression_typed e (prefix <> show index <> "]"))
            λ bound h.
              Ensures-bind (AllTyped policy root) (AllTyped policy root)
                (bind_each builtins root policy terms es prefix (suc index)) _
                (each_typed es prefix (suc index)) λ rest k. (h, k)

abbrev pub WhereTyped :
    QueryValidationPolicy → BoundDataset → Option (BoundFilterExpression BoundValue) → Type 0
WhereTyped policy root none = Unit
WhereTyped policy root (some e) = EachTyped policy root e

pub where_typed :
    (builtins : Builtins) (root : BoundDataset) (policy : QueryValidationPolicy)
    (terms : TermRegistry)
    → All (BindsPublic policy) terms
    → (e : Option (FilterExpression Raw))
    → Ensures (WhereTyped policy root) (bind_where builtins root policy terms e)
unfolding bind_where
where_typed builtins root policy terms public_terms none = tt
where_typed builtins root policy terms public_terms (some e) =
    Ensures-bind (EachTyped policy root) (WhereTyped policy root)
      (bind_expression builtins root policy terms e "where") _
      (expression_typed builtins root policy terms public_terms e "where") λ bound h. h
