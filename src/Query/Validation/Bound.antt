-- ===== src/Query/Validation/Bound.antt =====
-- What `bind_query` guarantees of a bound query.
use yo_db.Base.{
  ℕ, suc, ◌≤◌, String, ◌≡◌, ◌∙◌, refl, ap, true, false, not, Option, none, some, List, [], ◌∷◌,
  ◌++◌, arith,
}
use yo_db.Base.Lists.{All, All-append_iff}
use yo_db.Base.Strings.{eq_iff, ◌<>◌, show}
use yo_db.Base.Dicts.{get, contains}
use yo_db.Base.Tests.{ltb}
use yo_db.Errors.{ok, map_indexed, require, query_limit_invalid, query_operator_not_supported}
use yo_db.Errors.Ensures.{
  Ensures, Ensures-self, Ensures-weaken, Ensures-bind, Ensures-if, Ensures-require,
  Ensures-map_indexed,
}
use yo_db.Catalog.{Catalog, DatasetSpec}
use yo_db.Query.Models.{
  OrderTerm, PageRequest, QueryConstraints, QueryRequest, BoundField, BoundDataset, BoundOrderTerm,
  BoundQuery, asc,
}
use yo_db.Query.Raw.{Raw, Number}
use yo_db.Query.Policy.{QueryValidationPolicy}
use yo_db.Query.Extensions.{TermRegistry, validate_placement, extension_terms?}
use yo_db.Query.Semantic.{default_terms}
use yo_db.Query.Fields.{bind_public_field, IsPublicField}
use yo_db.Query.Values.{Builtins, BoundValue}
use yo_db.Query.Validation.{
  Digests, payload_of, bound_root, bind_order_term, bind_where, is_orderable, bind_order_term,
  bind_order, ends_with_id, with_id_tiebreaker, selected_names, bind_select, page_size,
  validate_page, exceeds, quality_exceeds_one, validate_constraints, check_quality,
  constraints_or_default, query_fingerprint, bind_to, bind_found, bind_query,
}
use yo_db.Query.Validation.Filters.{
  BindsPublic, semantic_term-BindsPublic, WhereTyped, bound_field, where_typed,
}

-- The public fields that a result has, with the identity among them.
abbrev pub field_names : List BoundField → List String
field_names [] = []
field_names (f ∷ fs) = f.name ∷ field_names fs

pub record IsSelected (root : BoundDataset) (fields : List BoundField) : Type 0 where
  pub all_public : All (IsPublicField root) fields
  pub has_id : contains "id" (field_names fields) ≡ true

named_fields :
    (root : BoundDataset) (location : ℕ → String) (i : ℕ) (names : List String)
    → Ensures
        (λ fs. All (IsPublicField root) fs × (field_names fs ≡ names))
        (map_indexed (λ i name. bind_public_field root name (location i)) i names)
unfolding map_indexed
named_fields root location i [] = (tt, refl)
named_fields root location i (n ∷ ns) =
    Ensures-bind (λ f. IsPublicField root f × (f.name ≡ n))
      (λ fs. All (IsPublicField root) fs × (field_names fs ≡ n ∷ ns))
      (bind_public_field root n (location i)) _ (bound_field root n (location i))
      λ f hf.
        Ensures-bind (λ fs. All (IsPublicField root) fs × (field_names fs ≡ ns))
          (λ fs. All (IsPublicField root) fs × (field_names fs ≡ n ∷ ns))
          (map_indexed (λ i name. bind_public_field root name (location i)) (suc i) ns) _
          (named_fields root location (suc i) ns) λ fs h. ((hf.0, h.0), cc)

select_bound :
    (select : Option (List String)) (root : BoundDataset)
    → Ensures (IsSelected root) (bind_select select root)
unfolding bind_select
select_bound select root =
    let names = selected_names select root.spec in
    Ensures-bind (λ fs. All (IsPublicField root) fs × (field_names fs ≡ names)) (IsSelected root)
      (map_indexed (λ i name. bind_public_field root name ("select[" <> show i <> "]")) 0 names) _
      (named_fields root (λ i. "select[" <> show i <> "]") 0 names)
      λ fs h.
        Ensures-if (IsSelected root) (contains "id" names) (ok fs) _
          (λ yes'. record { all_public = h.0; has_id = ap (contains "id") h.1 ∙ yes' })
          λ no'.
            Ensures-bind (λ f. IsPublicField root f × (f.name ≡ "id")) (IsSelected root)
              (bind_public_field root "id" "select") _ (bound_field root "id" "select")
              λ f hf. record {
                all_public = (hf.0, h.0);
                has_id = ground (arith, eq_iff f.name "id", hf.1);
              }

ends_with_id-append :
    (terms : List BoundOrderTerm) (t : BoundOrderTerm)
    → t.field.name ≡ "id"
    → ends_with_id (terms ++ (t ∷ [])) ≡ true
ends_with_id-append [] t h = (eq_iff t.field.name "id").1 h
ends_with_id-append (u ∷ []) t h = (eq_iff t.field.name "id").1 h
ends_with_id-append (u ∷ v ∷ us) t h = ends_with_id-append (v ∷ us) t h

-- Every order term is on a public field.
abbrev pub IsOrderOf : BoundDataset → List BoundOrderTerm → Type 0
IsOrderOf root terms = All (λ t. IsPublicField root t.field) terms

order_term_bound :
    (root : BoundDataset) (i : ℕ) (t : OrderTerm)
    → Ensures (λ t. IsPublicField root t.field) (bind_order_term root i t)
unfolding bind_order_term
order_term_bound root i t =
    let location = "order_by[" <> show i <> "].field" in
    Ensures-bind (λ f. IsPublicField root f × (f.name ≡ t.field)) (λ t. IsPublicField root t.field)
      (bind_public_field root t.field location) _ (bound_field root t.field location)
      λ f hf.
        Ensures-bind (λ _. is_orderable f.spec.type ≡ true) (λ t. IsPublicField root t.field)
          (require (is_orderable f.spec.type) query_operator_not_supported location) _
          (Ensures-require (is_orderable f.spec.type) query_operator_not_supported location)
          λ _ _. hf.0

order_bound :
    (terms : List OrderTerm) (root : BoundDataset)
    → Ensures (λ ts. IsOrderOf root ts) (bind_order terms root)
unfolding bind_order
order_bound terms root =
    Ensures-weaken _ (λ ts. IsOrderOf root ts) (map_indexed (bind_order_term root) 0 terms)
      (Ensures-map_indexed (λ t. IsPublicField root t.field) (bind_order_term root) 0 terms
        (λ i t. order_term_bound root i t))
      (λ ts h. h.0)

tiebreaker_bound :
    (terms : List BoundOrderTerm) (root : BoundDataset)
    → IsOrderOf root terms
    → Ensures (λ ts. IsOrderOf root ts × (ends_with_id ts ≡ true)) (with_id_tiebreaker terms root)
unfolding with_id_tiebreaker
tiebreaker_bound terms root h =
    Ensures-if (λ ts. IsOrderOf root ts × (ends_with_id ts ≡ true)) (ends_with_id terms) (ok terms)
      _ (λ yes'. (h, yes'))
      λ no'.
        Ensures-bind (λ f. IsPublicField root f × (f.name ≡ "id"))
          (λ ts. IsOrderOf root ts × (ends_with_id ts ≡ true))
          (bind_public_field root "id" "order_by") _ (bound_field root "id" "order_by")
          λ f hf. (
            (All-append_iff (λ t. IsPublicField root t.field) terms
                  (record { field = f; direction = asc } ∷ [])).1
                (h, (hf.0, tt)),
            ends_with_id-append terms (record { field = f; direction = asc }) hf.1,
          )

-- The page has a size, within the largest.
abbrev pub IsPage : QueryValidationPolicy → PageRequest → Type 0
IsPage policy page = (n : ℕ) × (page.first ≡ some n) × (n ≤ policy.maximum_page_size)

IsPage-bound :
    (page : Option PageRequest) (policy : QueryValidationPolicy)
    → Ensures (IsPage policy) (validate_page page policy)
unfolding validate_page
IsPage-bound page policy =
    let n = page_size page policy in
    Ensures-if (IsPage policy) (ltb policy.maximum_page_size n) _ (ok (record { first = some n }))
      (λ _. tt) λ no'. (n, refl, ground arith)

-- The bounds of a request stay within those of the deployment.
pub record IsConstrained (policy : QueryValidationPolicy) (c : QueryConstraints Number)
    : Type 0 where
  pub results : exceeds c.maximum_results policy.maximum_page_size ≡ false
  pub quality : quality_exceeds_one c.minimum_quality ≡ false

constraints_bound :
    (c : QueryConstraints Number) (policy : QueryValidationPolicy)
    → Ensures (λ _. IsConstrained policy c) (validate_constraints c policy)
unfolding validate_constraints
constraints_bound c policy =
    Ensures-bind (λ _. not (exceeds c.maximum_results policy.maximum_page_size) ≡ true)
      (λ _. IsConstrained policy c)
      (require (not (exceeds c.maximum_results policy.maximum_page_size)) query_limit_invalid
        "constraints.maximum_results")
      _
      (Ensures-require (not (exceeds c.maximum_results policy.maximum_page_size))
        query_limit_invalid "constraints.maximum_results")
      λ _ few.
        Ensures-weaken (λ _. not (quality_exceeds_one c.minimum_quality) ≡ true)
          (λ _. IsConstrained policy c)
          (require (not (quality_exceeds_one c.minimum_quality)) query_limit_invalid
            "constraints.minimum_quality")
          (Ensures-require (not (quality_exceeds_one c.minimum_quality)) query_limit_invalid
            "constraints.minimum_quality")
          λ _ small. record { results = ground (arith, few); quality = ground (arith, small) }

-- What planning and execution rely on of a bound query.
pub record IsBound (policy : QueryValidationPolicy) (terms : TermRegistry) (root : BoundDataset)
    (q : BoundQuery BoundValue Number) : Type 0 where
  pub dataset : q.root ≡ root
  pub selected : IsSelected root q.select
  pub typed : WhereTyped policy root q.where_
  pub placed : validate_placement q.where_ terms policy ≡ ok tt
  pub ordered : IsOrderOf root q.order_by
  pub total : ends_with_id q.order_by ≡ true
  pub paged : IsPage policy q.page
  pub constrained : IsConstrained policy q.constraints

-- The query is bound to the dataset of the request, as the catalog declares it.
pub record IsBoundFrom (policy : QueryValidationPolicy) (terms : TermRegistry)
    (request : QueryRequest Raw Number) (catalog : Catalog) (q : BoundQuery BoundValue Number)
    : Type 0 where
  pub spec : DatasetSpec
  pub declared : get catalog.datasets request.root.dataset ≡ some spec
  pub bound : IsBound policy terms (bound_root request spec) q

module _ (builtins : Builtins) (digests : Digests) (policy : QueryValidationPolicy)
    (terms : TermRegistry) (public_terms : All (BindsPublic policy) terms)
    (request : QueryRequest Raw Number) (catalog : Catalog) where
  bind_to-IsBound :
      (root : BoundDataset)
      → Ensures
          (IsBound policy terms root)
          (bind_to builtins digests policy terms request catalog root)
  unfolding bind_to
  bind_to-IsBound root =
      let Goal = IsBound policy terms root in
      let constraints = constraints_or_default request.constraints in
      Ensures-bind (IsSelected root) Goal (bind_select request.select root) _
        (select_bound request.select root)
        λ select hselect.
          Ensures-bind (WhereTyped policy root) Goal
            (bind_where builtins root policy terms request.where_) _
            (where_typed builtins root policy terms public_terms request.where_)
            λ filter hfilter.
              Ensures-bind (λ u. validate_placement filter terms policy ≡ ok tt) Goal
                (validate_placement filter terms policy) _
                (Ensures-self _ (validate_placement filter terms policy) (λ _ e. e))
                λ _ hplace.
                  Ensures-bind (IsOrderOf root) Goal (bind_order request.order_by root) _
                    (order_bound request.order_by root)
                    λ order horder.
                      Ensures-bind (λ ts. IsOrderOf root ts × (ends_with_id ts ≡ true)) Goal
                        (with_id_tiebreaker order root) _ (tiebreaker_bound order root horder)
                        λ effective heff.
                          Ensures-bind (IsPage policy) Goal (validate_page request.page policy) _
                            (IsPage-bound request.page policy)
                            λ page hpage.
                              Ensures-bind (λ _. IsConstrained policy constraints) Goal
                                (validate_constraints constraints policy) _
                                (constraints_bound constraints policy)
                                λ _ hcon.
                                  Ensures-bind (λ _. Unit {0}) Goal
                                    (check_quality terms constraints.minimum_quality
                                      (extension_terms? filter))
                                    _
                                    (Ensures-self _
                                      (check_quality terms constraints.minimum_quality
                                        (extension_terms? filter))
                                      (λ _ _. tt))
                                    λ _ _.
                                      let payload =
                                        payload_of root select filter effective constraints in
                                      Ensures-bind (λ _. Unit {0}) Goal
                                        (query_fingerprint digests payload) _
                                        (Ensures-self _ (query_fingerprint digests payload)
                                          (λ _ _. tt))
                                        λ fingerprint _. record {
                                          dataset = refl;
                                          selected = hselect;
                                          typed = hfilter;
                                          placed = hplace;
                                          ordered = heff.0;
                                          total = heff.1;
                                          paged = hpage;
                                          constrained = hcon;
                                        }

  bind_found-IsBoundFrom :
      (found : Option DatasetSpec)
      → get catalog.datasets request.root.dataset ≡ found
      → Ensures
          (IsBoundFrom policy terms request catalog)
          (bind_found builtins digests policy terms request catalog found)
  unfolding bind_found
  bind_found-IsBoundFrom none h = tt
  bind_found-IsBoundFrom (some spec) h =
      Ensures-weaken (IsBound policy terms (bound_root request spec)) _
        (bind_to builtins digests policy terms request catalog (bound_root request spec))
        (bind_to-IsBound (bound_root request spec))
        λ q b. record { spec = spec; declared = h; bound = b }

-- When `bind_query` returns a query, its root is the dataset of the request as the catalog declares
-- it, and the query is bound to it: public fields in `select`, in the comparisons of the filter and in
-- the order, the identity selected and last in the order, every comparison typed, every semantic
-- condition on a public text field that is eligible for it, the extension terms placed as they may
-- be, and the page and the constraints within the bounds. The registered terms are the default ones
-- and any others that bind no semantic condition on another field.
pub bind_query-IsBoundFrom :
    (builtins : Builtins) (digests : Digests) (policy : QueryValidationPolicy)
    (others : TermRegistry) (request : QueryRequest Raw Number) (catalog : Catalog)
    → All (BindsPublic policy) others
    → Ensures
        (IsBoundFrom policy (default_terms ++ others) request catalog)
        (bind_query builtins digests policy (default_terms ++ others) request catalog)
unfolding bind_query
bind_query-IsBoundFrom builtins digests policy others request catalog h =
    bind_found-IsBoundFrom builtins digests policy (default_terms ++ others)
      (semantic_term-BindsPublic policy, h) request catalog
      (get catalog.datasets request.root.dataset) refl
