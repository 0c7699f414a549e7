-- ===== src/Query/Extensions.antt =====
-- src/yodb/query/extensions.py: filter terms that extension operators contribute. `describe` only
-- builds the payload of a digest and `noun` a message; neither is modelled.
use yo_db.Base.{
  ℕ, String, Bool, true, false, not, ◌&&◌, Option, none, some, List, [], ◌∷◌, ◌++◌, suc,
}
use yo_db.Base.Lists.{length, keep}
use yo_db.Base.Dicts.{contains}
use yo_db.Base.Strings.{◌<>◌, show}
use yo_db.Base.Tests.{ltb, if◌then◌else◌}
use yo_db.Errors.{
  Result, ok, crash, value_error, assertion_error, fail_at, query_limit_invalid,
  query_expression_invalid, ◌>>=◌, ◌>>◌,
}
use yo_db.Catalog.{Catalog}
use yo_db.Query.Models.{
  ExtensionTerm, BoundExtensionTerm, BoundDataset, BoundField, FieldUse, BoundFilterExpression,
  bound_predicate, bound_term, bound_all, bound_any, bound_not, BoundFilterExpressions, bnil, bcons,
}
use yo_db.Query.Raw.{Raw}
use yo_db.Query.Policy.{QueryValidationPolicy, limit}

-- `is_parsed` and `is_bound` are the tests `isinstance(term, parsed_type)` and
-- `isinstance(term, bound_type)`.
pub record TermExtension : Type 0 where
  pub key : String
  pub is_parsed : ExtensionTerm → Bool
  pub is_bound : BoundExtensionTerm → Bool
  pub parse : Raw → String → Result ExtensionTerm
  pub bind :
      ExtensionTerm → BoundDataset → String → QueryValidationPolicy → Result BoundExtensionTerm
  pub uses : BoundExtensionTerm → List (BoundField × FieldUse)
  pub maximum : ℕ
  pub conjunctive_only : Bool
  pub extra_sources : BoundExtensionTerm → Catalog → String → List String
  pub uses_minimum_quality : Bool

abbrev pub TermRegistry : Type 0
TermRegistry = List TermExtension

abbrev pub registry_keys : TermRegistry → List String
registry_keys [] = []
registry_keys (e ∷ es) = e.key ∷ registry_keys es

-- `TermRegistry(extensions)`, which refuses a key that is already registered.
register : TermRegistry → List TermExtension → Result TermRegistry
register known [] = ok known
register known (e ∷ es) =
    let rest = register (known ++ (e ∷ [])) es in
    if contains e.key (registry_keys known) then crash value_error else rest

unfoldable pub term_registry : List TermExtension → Result TermRegistry
unfolding register
term_registry es = register [] es

-- `_find`
unfoldable pub find_extension : (TermExtension → Bool) → TermRegistry → Result TermExtension
find_extension matches [] = crash assertion_error
find_extension matches (e ∷ es) = if matches e then ok e else find_extension matches es

unfoldable pub for_parsed : TermRegistry → ExtensionTerm → Result TermExtension
unfolding find_extension
for_parsed terms term = find_extension (λ e. e.is_parsed term) terms

unfoldable pub for_bound : TermRegistry → BoundExtensionTerm → Result TermExtension
unfolding find_extension
for_bound terms term = find_extension (λ e. e.is_bound term) terms

module _ {V : Type 0} where
  unfoldable mutual
    pub extension_terms : BoundFilterExpression V → List BoundExtensionTerm
    extension_terms (bound_predicate p) = []
    extension_terms (bound_term t) = t ∷ []
    extension_terms (bound_all es) = extension_terms_each es
    extension_terms (bound_any es) = extension_terms_each es
    extension_terms (bound_not e) = extension_terms e

    pub extension_terms_each : BoundFilterExpressions V → List BoundExtensionTerm
    extension_terms_each bnil = []
    extension_terms_each (bcons e es) = extension_terms e ++ extension_terms_each es

  abbrev pub extension_terms? : Option (BoundFilterExpression V) → List BoundExtensionTerm
  extension_terms? none = []
  extension_terms? (some e) = extension_terms e

  unfoldable pub terms_of_type :
      Option (BoundFilterExpression V) → (BoundExtensionTerm → Bool) → List BoundExtensionTerm
  terms_of_type e is_bound = keep is_bound (extension_terms? e)

  -- `kept` of `strip_terms`: an absent part is dropped.
  abbrev pub add_part :
      Option (BoundFilterExpression V) → BoundFilterExpressions V → BoundFilterExpressions V
  add_part none es = es
  add_part (some e) es = bcons e es

  -- no part is None, one part stands for itself, and several are ANDed
  abbrev pub rebuilt : BoundFilterExpressions V → Option (BoundFilterExpression V)
  rebuilt bnil = none
  rebuilt (bcons e bnil) = some e
  rebuilt (bcons e (bcons f es)) = some (bound_all (bcons e (bcons f es)))

  -- `strip_terms`; an `any` or `not` is the AssertionError at its end.
  unfoldable mutual
    pub strip_terms :
        BoundFilterExpression V
        → (BoundExtensionTerm → Bool)
        → Result (Option (BoundFilterExpression V))
    strip_terms (bound_predicate p) is_bound = ok (some (bound_predicate p))
    strip_terms (bound_term t) is_bound = ok (if is_bound t then none else some (bound_term t))
    strip_terms (bound_all es) is_bound = do kept ← strip_terms_each es is_bound; ok (rebuilt kept)
    strip_terms (bound_any es) is_bound = crash assertion_error
    strip_terms (bound_not e) is_bound = crash assertion_error

    pub strip_terms_each :
        BoundFilterExpressions V → (BoundExtensionTerm → Bool) → Result (BoundFilterExpressions V)
    strip_terms_each bnil is_bound = ok bnil
    strip_terms_each (bcons e es) is_bound = do
      part ← strip_terms e is_bound
      rest ← strip_terms_each es is_bound
      ok (add_part part rest)

  -- `_check_conjunctive`
  unfoldable mutual
    unfolding for_bound

    pub check_conjunctive :
        BoundFilterExpression V → TermRegistry → Bool → String → Result (Unit {0})
    check_conjunctive (bound_predicate p) terms conjunctive location = ok tt
    check_conjunctive (bound_term t) terms conjunctive location = do
      extension ← for_bound terms t
      if extension.conjunctive_only && not conjunctive
          then fail_at query_expression_invalid location
          else ok tt
    check_conjunctive (bound_all es) terms conjunctive location =
        check_each es terms conjunctive (location <> ".all[") 0
    check_conjunctive (bound_any es) terms conjunctive location =
        check_each es terms false (location <> ".any[") 0
    check_conjunctive (bound_not e) terms conjunctive location =
        check_conjunctive e terms false (location <> ".not")

    -- the loop over `enumerate(expressions)`, from a prefix of the location
    pub check_each : BoundFilterExpressions V → TermRegistry → Bool → String → ℕ → Result (Unit {0})
    check_each bnil terms conjunctive prefix index = ok tt
    check_each (bcons e es) terms conjunctive prefix index = do
      check_conjunctive e terms conjunctive (prefix <> show index <> "]")
      check_each es terms conjunctive prefix (suc index)

  -- the loop of `validate_placement` over the registry
  unfoldable pub check_counts :
      Option (BoundFilterExpression V) → TermRegistry → QueryValidationPolicy → Result (Unit {0})
  unfolding terms_of_type limit
  check_counts e [] policy = ok tt
  check_counts e (x ∷ xs) policy =
      let rest = check_counts e xs policy in
      if ltb (limit policy x.key x.maximum) (length (terms_of_type e x.is_bound))
      then fail_at query_limit_invalid "where"
      else rest

  unfoldable pub validate_placement :
      Option (BoundFilterExpression V) → TermRegistry → QueryValidationPolicy → Result (Unit {0})
  unfolding check_counts check_conjunctive
  validate_placement none terms policy = check_counts none terms policy
  validate_placement (some e) terms policy = do
    check_counts (some e) terms policy
    check_conjunctive e terms true "where"
