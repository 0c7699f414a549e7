-- ===== src/Query/Semantic.antt =====
-- src/yodb/query/semantic.py and src/yodb/query/registry.py: the semantic condition as a term.
use Prim.Native.String.{count}
use yo_db.Base.{ℕ, String, Bool, true, false, not, ◌&&◌, Option, none, some, List, [], ◌∷◌}
use yo_db.Base.Dicts.{Dict, get, has}
use yo_db.Base.Strings.{◌<>◌, is_space, is_blank}
use yo_db.Base.Tests.{ltb, if◌then◌else◌}
use yo_db.Errors.{
  Result, ok, crash, assertion_error, fail_at, query_limit_invalid, query_value_type_invalid,
  query_operator_not_supported, ◌>>=◌, ◌>>◌,
}
use yo_db.Catalog.{Catalog, SourceSpec, is_text_type}
use yo_db.Query.Models.{
  ExtensionTerm, semantic_predicate, foreign, BoundExtensionTerm, bound_semantic, bound_foreign,
  BoundDataset, BoundField, FieldUse, extension, BoundFilterExpression,
}
use yo_db.Query.Raw.{Raw, entry_at}
use yo_db.Query.Shape.{mapping_of, non_empty_string, reject_unknown}
use yo_db.Query.Fields.{bind_public_field}
use yo_db.Query.Policy.{QueryValidationPolicy, limit}
use yo_db.Query.Extensions.{TermExtension, TermRegistry, terms_of_type, strip_terms}

abbrev pub maximum_proposition_chars : ℕ
maximum_proposition_chars = 1000

-- `_parse`
unfoldable pub parse_semantic : Raw → String → Result ExtensionTerm
unfolding mapping_of reject_unknown non_empty_string
parse_semantic raw location = do
  body ← mapping_of raw location
  reject_unknown body ("field" ∷ "proposition" ∷ []) location
  field ← non_empty_string (entry_at body "field") (location <> ".field")
  proposition ← non_empty_string (entry_at body "proposition") (location <> ".proposition")
  ok (semantic_predicate field proposition)

-- `text.lstrip()`
strip_left : String → String
unfolding is_space
strip_left String.[] = ""
strip_left (String.◌∷◌ c s) = let rest = strip_left s in if is_space c then rest else String.◌∷◌ c s

-- `text.rstrip()`: what is left of the tail decides about the last space.
strip_right : String → String
unfolding is_space is_blank
strip_right String.[] = ""
strip_right (String.◌∷◌ c s) =
    let rest = strip_right s in if is_blank (String.◌∷◌ c s) then "" else String.◌∷◌ c rest

unfoldable pub strip : String → String
unfolding strip_left strip_right
strip s = strip_right (strip_left s)

-- `_bind`
unfoldable pub bind_semantic :
    ExtensionTerm → BoundDataset → String → QueryValidationPolicy → Result BoundExtensionTerm
unfolding bind_public_field strip is_blank limit
bind_semantic (foreign c) root location policy = crash assertion_error
bind_semantic (semantic_predicate name text) root location policy = do
  field ← bind_public_field root name (location <> ".semantic.field")
  if is_text_type field.spec.type
      then ok tt
      else fail_at query_operator_not_supported (location <> ".semantic.field")
  if field.spec.semantic_eligible
      then ok tt
      else fail_at query_operator_not_supported (location <> ".semantic.field")
  let proposition = strip text
  if is_blank proposition
      then fail_at query_value_type_invalid (location <> ".semantic.proposition")
      else ok tt
  if ltb (limit policy "semantic.proposition_chars" maximum_proposition_chars) (count proposition)
      then fail_at query_limit_invalid (location <> ".semantic.proposition")
      else ok tt
  ok (bound_semantic field proposition)

-- whether a source holds only the vectors of a field of the dataset
stores_only_vectors : String → String → String → SourceSpec → Bool
stores_only_vectors field dataset name source = elim (get source.datasets dataset) [
  | none ↦ false
  | some representation ↦
      has representation.embeddings field && not (has representation.fields field)
]

store_names : String → String → Dict SourceSpec → List String
unfolding stores_only_vectors
store_names field dataset [] = []
store_names field dataset ((name, source) ∷ sources) =
    let rest = store_names field dataset sources in
    if stores_only_vectors field dataset name source then name ∷ rest else rest

-- `_vector_stores`
unfoldable pub vector_stores : BoundExtensionTerm → Catalog → String → List String
unfolding store_names
vector_stores (bound_semantic field _) catalog dataset =
    store_names field.name dataset catalog.sources
vector_stores (bound_foreign _) catalog dataset = []

abbrev pub is_semantic : ExtensionTerm → Bool
is_semantic (semantic_predicate _ _) = true
is_semantic (foreign _) = false

abbrev pub is_bound_semantic : BoundExtensionTerm → Bool
is_bound_semantic (bound_semantic _ _) = true
is_bound_semantic (bound_foreign _) = false

abbrev pub semantic_uses : BoundExtensionTerm → List (BoundField × FieldUse)
semantic_uses (bound_semantic field _) = (field, extension) ∷ []
semantic_uses (bound_foreign _) = []

-- `SEMANTIC_TERM`
abbrev pub semantic_term : TermExtension
semantic_term = record {
  key = "semantic";
  is_parsed = is_semantic;
  is_bound = is_bound_semantic;
  parse = parse_semantic;
  bind = bind_semantic;
  uses = semantic_uses;
  maximum = 1;
  conjunctive_only = true;
  extra_sources = vector_stores;
  uses_minimum_quality = true;
}

-- `DEFAULT_TERMS`
abbrev pub default_terms : TermRegistry
default_terms = semantic_term ∷ []

unfoldable pub semantic_predicates :
    {V : Type 0} → Option (BoundFilterExpression V) → List BoundExtensionTerm
semantic_predicates e = terms_of_type e is_bound_semantic

-- `without_semantic_terms`
unfoldable pub without_semantic_terms :
    {V : Type 0} → Option (BoundFilterExpression V) → Result (Option (BoundFilterExpression V))
unfolding strip_terms
without_semantic_terms none = ok none
without_semantic_terms (some e) = strip_terms e is_bound_semantic
