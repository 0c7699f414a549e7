-- ===== src/Tests/Requests.antt =====
-- A request as it is read, parsed and bound to the catalog.
use yo_db.Catalog.{FieldSpec, id, text, int, public}
use yo_db.Query.Models.{BoundField, BoundQuery, bound_term, bound_semantic}
use yo_db.Base.{
  String, map, List, ◌∷◌, [], ◌+◌, ◌≤◌, ◌≡◌, refl, Bool, true, false, none, some, [], ◌∷◌,
}
use yo_db.Errors.{Result, ok, Safe, map_indexed, ◌>>=◌}
use yo_db.Base.Strings.{is_blank}
use yo_db.Errors.Ensures.{Ensures}
use yo_db.Query.Models.{
  FilterExpression, predicate, all_of, not_of, nil, cons, gt, desc, QueryRequest,
}
use yo_db.Query.Raw.{Raw, Raws, Entries, name, pos, Number}
use yo_db.Query.Policy.{default_policy}
use yo_db.Query.Extensions.{extension_terms, for_bound}
use yo_db.Query.Semantic.{default_terms, semantic_term, vector_stores}
use yo_db.Query.Values.{BoundValue, Builtins, malformed}
use yo_db.Query.Validation.{Digests, bind_query, constraints_or_default}
use yo_db.Query.Validation.Bound.{IsBoundFrom, bind_query-IsBoundFrom}
use yo_db.Query.Resolution.{resolve_query_sources, SourceResolvedQuery, filter_fields?}
use yo_db.Query.Resolution.Outcome.{Resolves}
use yo_db.Query.Resolution.Uses.{HasFields}
use yo_db.Query.Resolution.Total.{IsResolution, resolve_query_sources-IsResolution}
use yo_db.Query.Parser.{parse_expression, operator_named}
use yo_db.Query.Parser.Limits.{depth, size, parse_expression-Safe}
use yo_db.Query.Parser.Defaults.{default_terms-TermsAreSafe}
use yo_db.Query.Parser.Request.{parse_query}
use yo_db.Query.Parser.Request.Valid.{IsWellFormed, parse_query-Safe}
use yo_db.Tests.Catalogs.{small_catalog, small_catalog-IsValid, people, field_of}

-- Python's functions on the values of the request, which has neither UUIDs nor timestamps.
abbrev builtins : Builtins
builtins = record { uuid_of = λ s. none; timestamp_of = λ s. malformed; float_of = λ n. none }

abbrev digests : Digests
digests = record { of_catalog = λ c. "catalog"; of_query = λ p. "query" }

abbrev raw_older : Raw
raw_older = Raw.mapping (
    Entries.entry (name "field") (Raw.str "age") (
      Entries.entry (name "op") (Raw.str "gt")
        (Entries.entry (name "value") (Raw.int (pos 30)) Entries.end)))

abbrev raw_filter : Raw
raw_filter = Raw.mapping (
    Entries.entry (name "all")
      (Raw.list (
        Raws.cons raw_older
          (Raws.cons (Raw.mapping (Entries.entry (name "not") raw_older Entries.end)) Raws.nil)))
      Entries.end)

abbrev raw_query : Raw
raw_query = Raw.mapping (
    Entries.entry (name "from")
      (Raw.mapping (Entries.entry (name "dataset") (Raw.str "people") Entries.end))
      (Entries.entry (name "select") (Raw.list (Raws.cons (Raw.str "age") Raws.nil))
        (Entries.entry (name "where") raw_filter Entries.end)))

abbrev is_ok : {A : Type 0} → Result A → Bool
is_ok (ok a) = true
is_ok _ = false

raw_filter_parses : is_ok (parse_expression default_terms 8 raw_filter "where" 50) ≡ true
unfolding parse_expression is_blank operator_named
raw_filter_parses = refl

parse_expression_example :
    Safe
      (λ (e, left). (depth e ≤ 8) × (size e + left ≡ 50))
      (parse_expression default_terms 8 raw_filter "where" 50)
parse_expression_example =
    parse_expression-Safe default_terms 8 raw_filter "where" 50 default_terms-TermsAreSafe

raw_query_parses : is_ok (parse_query default_terms 8 50 raw_query) ≡ true
unfolding parse_query is_blank map_indexed operator_named
raw_query_parses = refl

parse_query_example : Safe (IsWellFormed 8 50) (parse_query default_terms 8 50 raw_query)
parse_query_example = parse_query-Safe default_terms 8 50 raw_query default_terms-TermsAreSafe

abbrev older : FilterExpression Raw
older = predicate (record {
  field = "age";
  operator = gt;
  value = some (Raw.int (pos 30));
  value_supplied = true;
})

-- the request that `raw_query` is
abbrev request : QueryRequest Raw Number
request = record {
  root = record { dataset = "people"; scope = "people" };
  select = some ("age" ∷ []);
  where_ = some (all_of (cons older (cons (not_of older) nil)));
  order_by = record { field = "age"; direction = desc } ∷ [];
  page = some (record { first = some 20 });
  constraints = none;
}

bind_query_example :
    Ensures
      (IsBoundFrom default_policy default_terms request small_catalog)
      (bind_query builtins digests default_policy default_terms request small_catalog)
bind_query_example =
    bind_query-IsBoundFrom builtins digests default_policy [] request small_catalog tt

request_binds :
    is_ok (bind_query builtins digests default_policy default_terms request small_catalog) ≡ true
unfolding bind_query map_indexed extension_terms
request_binds = refl

-- two sources own its fields when it selects the text
request_resolves :
    is_ok (
      bind_query builtins digests default_policy default_terms request small_catalog >>= λ bound.
      resolve_query_sources bound small_catalog default_terms digests)
    ≡ true
unfolding bind_query resolve_query_sources map_indexed extension_terms
request_resolves = refl

abbrev bound_to_people : String → FieldSpec → BoundField
bound_to_people field spec = record {
  dataset_name = "people";
  scope = "people";
  name = field;
  spec = spec;
}

abbrev bound_about : BoundField
bound_about = bound_to_people "about" (field_of text public true)

-- a query whose fields two sources own, with a semantic condition on the text
abbrev bound_request : BoundQuery BoundValue Number
bound_request = record {
  root = record { name = "people"; scope = "people"; spec = people };
  select = bound_to_people "id" (field_of id public false) ∷ bound_about ∷ [];
  where_ = some (bound_term (bound_semantic bound_about "likes tea"));
  order_by =
      record { field = bound_to_people "age" (field_of int public false); direction = desc } ∷ [];
  page = record { first = some 20 };
  constraints = constraints_or_default none;
  query_fingerprint = "query";
  catalog_fingerprint = "catalog";
}

bound_request-HasFields : HasFields bound_request small_catalog default_terms
unfolding filter_fields? extension_terms for_bound vector_stores
bound_request-HasFields = record {
  select = (refl, (refl, tt));
  filters = tt;
  orders = (refl, tt);
  extensions = (
    record { term_type = semantic_term; registered = refl; uses = (refl, tt); sources = tt },
    tt,
  );
}

resolve_query_sources_example :
    Resolves
      (IsResolution bound_request small_catalog default_terms)
      (resolve_query_sources bound_request small_catalog default_terms digests)
resolve_query_sources_example =
    resolve_query_sources-IsResolution bound_request small_catalog default_terms digests
      small_catalog-IsValid refl bound_request-HasFields refl

abbrev source_names : Result (SourceResolvedQuery BoundValue Number) → List String
source_names (ok r) = map (λ b. b.source_name) r.sources
source_names _ = []

identity_source_first :
    source_names (resolve_query_sources bound_request small_catalog default_terms digests)
    ≡ "main" ∷ "notes" ∷ []
unfolding resolve_query_sources for_bound extension_terms vector_stores
identity_source_first = refl
