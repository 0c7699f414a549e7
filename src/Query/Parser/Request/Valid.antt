-- ===== src/Query/Parser/Request/Valid.antt =====
-- What `parse_query` guarantees of a request.
use yo_db.Base.{
  ℕ, suc, ◌≤◌, ◌<◌, String, ◌≡◌, refl, Bool, true, false, Option, none, some, List, [], ◌∷◌, arith,
}
use yo_db.Base.Lists.{All}
use yo_db.Base.Strings.{◌<>◌, show, is_blank, ◌==◌, eq_iff}
use yo_db.Base.Dicts.{contains}
use yo_db.Base.Tests.{if◌then◌else◌}
use yo_db.Errors.{
  Result, ok, fail, crash, ◌>>=◌, map_indexed, Safe, Safe-bind, Safe-weaken, Safe-map_indexed,
  query_shape_invalid, query_feature_not_supported, fail_at,
}
use yo_db.Query.Models.{OrderTerm, PageRequest, QueryConstraints, QueryRequest}
use yo_db.Query.Raw.{ℤ, Raw, null, Entries, Number, not_positive, entry_at, entry_names, raws_list}
use yo_db.Query.Shape.{mapping_of, list_of, non_empty_string, reject_unknown}
use yo_db.Query.Extensions.{TermRegistry, registry_keys}
use yo_db.Query.Parser.{fail_plain, parse_expression, is_some}
use yo_db.Query.Parser.Limits.{
  size, depth, TermsAreSafe, parse_expression-Safe, Safe-non_empty_string, Safe-shape, Safe-reject,
}
use yo_db.Query.Parser.Request.{
  parse_from, has_duplicate, parse_names, parse_select, parse_order_term, parse_order_terms,
  parse_order_by, positive_integer, positive_number, parse_page, parse_constraints, optional,
  reject_terms, query_from, parse_where, parse_query,
}

-- an absent value, or one with the property
abbrev pub Given {ℓ} : {A : Type ℓ} → (A → Type 0) → Option A → Type 0
Given P none = Unit
Given P (some a) = P a

-- Texts that are not blank, none of them twice.
abbrev pub AreNames : List String → Type 0
AreNames names = All (λ s. is_blank s ≡ false) names × (has_duplicate names ≡ false)

abbrev pub IsPositive : ℕ → Type 0
IsPositive n = 0 < n

abbrev pub order_fields : List OrderTerm → List String
order_fields [] = []
order_fields (t ∷ ts) = t.field ∷ order_fields ts

pub record IsWellFormed (maximum_depth maximum_terms : ℕ) (q : QueryRequest Raw Number)
    : Type 0 where
  pub dataset : is_blank q.root.dataset ≡ false
  pub scope : is_blank q.root.scope ≡ false
  pub select : Given AreNames q.select
  pub filter : Given (λ e. (depth e ≤ maximum_depth) × (size e ≤ maximum_terms)) q.where_
  pub order : AreNames (order_fields q.order_by)
  pub page : Given (λ p. Given IsPositive p.first) q.page
  pub results :
      Given
        (λ c. Given IsPositive c.maximum_results × Given IsPositive c.maximum_latency_ms)
        q.constraints
  pub numbers :
      Given
        (λ c.
          Given (λ x. not_positive x ≡ false) c.maximum_cost
          × Given (λ x. not_positive x ≡ false) c.minimum_quality)
        q.constraints

abbrev Any : {A : Type 0} → A → Type 0
Any a = Unit

given_map :
    {A : Type 0} (P Q : A → Type 0) (o : Option A) → ((a : A) → P a → Q a) → Given P o → Given Q o
given_map P Q none f h = tt
given_map P Q (some a) f h = f a h

abbrev IsNumber : Number → Type 0
IsNumber x = not_positive x ≡ false

abbrev constraint_keys : List String
constraint_keys = "maximum_results" ∷ "maximum_latency_ms" ∷ "maximum_cost" ∷ "minimum_quality" ∷ []

abbrev query_keys : List String
query_keys = "from" ∷ "select" ∷ "where" ∷ "order_by" ∷ "page" ∷ "constraints" ∷ []

Safe-some :
    {A : Type 0} (P : A → Type 0) (r : Result A)
    → Safe P r
    → Safe (Given P) (r >>= λ a. ok (some a))
Safe-some P (ok a) h = h
Safe-some P (fail e) h = tt
Safe-some P (crash e) h = h

optional-Safe :
    {A : Type 0} (P : A → Type 0) (o : Option Raw) (f : Raw → Result A)
    → ((raw : Raw) → Safe P (f raw))
    → Safe (Given P) (optional o f)
optional-Safe P none f h = tt
optional-Safe P (some raw) f h = Safe-some P (f raw) (h raw)

from-Safe :
    (raw : Raw)
    → Safe (λ d. (is_blank d.dataset ≡ false) × (is_blank d.scope ≡ false)) (parse_from raw)
unfolding parse_from
from-Safe raw = ground arith

names-Safe : (raw : Raw) → Safe AreNames (parse_names raw)
unfolding parse_names
names-Safe raw =
    Safe-bind (λ _. Unit {0}) AreNames (list_of raw "select") _ (Safe-shape raw "select").1
      λ values _.
        Safe-bind _ AreNames
          (map_indexed (λ i v. non_empty_string (some v) ("select[" <> show i <> "]")) 0
            (raws_list values))
          _
          (Safe-map_indexed (λ s. is_blank s ≡ false) _ 0 (raws_list values)
            (λ i v. Safe-non_empty_string (some v) _))
          λ fields h. ground arith

select-Safe : (o : Option Raw) → Safe (Given AreNames) (parse_select o)
unfolding parse_select
select-Safe none = tt
select-Safe (some null) = tt
select-Safe (some raw) = Safe-some AreNames (parse_names raw) (names-Safe raw)

-- A field that differs from each of the others is not among them.
absent_of : (f : String) (gs : List String) → All (λ g. (f == g) ≡ false) gs → contains f gs ≡ false
absent_of f [] h = refl
absent_of f (g ∷ gs) h = ground (arith, eq_iff f g, eq_iff g f, absent_of f gs h.1)

-- None of the terms orders by a field that was seen.
abbrev Fresh : List String → List OrderTerm → Type 0
Fresh seen terms = All (λ f. contains f seen ≡ false) (order_fields terms)

term-Safe :
    (seen : List String) (raw : Raw) (location : String)
    → Safe
        (λ t. (is_blank t.field ≡ false) × (contains t.field seen ≡ false))
        (parse_order_term seen raw location)
unfolding parse_order_term
term-Safe seen raw location = ground arith

All-fresh :
    (f : String) (seen gs : List String)
    → All (λ g. contains g (f ∷ seen) ≡ false) gs
    → All (λ g. (f == g) ≡ false) gs × All (λ g. contains g seen ≡ false) gs
All-fresh f seen [] h = (tt, tt)
All-fresh f seen (g ∷ gs) h = let (apart, fresh) = All-fresh f seen gs h.1 in ground (arith, h.0)

terms-Safe :
    (seen : List String) (index : ℕ) (raws : List Raw)
    → Safe (λ ts. AreNames (order_fields ts) × Fresh seen ts) (parse_order_terms seen index raws)
unfolding parse_order_terms
terms-Safe seen index [] = ((tt, refl), tt)
terms-Safe seen index (raw ∷ raws) =
    Safe-bind _ (λ ts. AreNames (order_fields ts) × Fresh seen ts)
      (parse_order_term seen raw ("order_by[" <> show index <> "]")) _ (term-Safe seen raw _)
      λ t p.
        Safe-bind (λ ts. AreNames (order_fields ts) × Fresh (t.field ∷ seen) ts)
          (λ ts. AreNames (order_fields ts) × Fresh seen ts)
          (parse_order_terms (t.field ∷ seen) (suc index) raws) _
          (terms-Safe (t.field ∷ seen) (suc index) raws)
          λ ts q.
            let (apart, fresh) = All-fresh t.field seen (order_fields ts) q.1 in
            let absent = absent_of t.field (order_fields ts) apart in
            (((p.0, q.0.0), ground arith), (p.1, fresh))

order-Safe : (o : Option Raw) → Safe (λ ts. AreNames (order_fields ts)) (parse_order_by o)
unfolding parse_order_by
order-Safe none = (tt, refl)
order-Safe (some null) = (tt, refl)
order-Safe (some (Raw.list xs)) =
    Safe-weaken (λ ts. AreNames (order_fields ts) × Fresh [] ts) (λ ts. AreNames (order_fields ts))
      (parse_order_terms [] 0 (raws_list xs)) (λ ts h. h.0) (terms-Safe [] 0 (raws_list xs))
order-Safe (some _) = tt

integer-Safe :
    (o : Option Raw) (location : String) → Safe (Given IsPositive) (positive_integer o location)
unfolding positive_integer
integer-Safe none location = tt
integer-Safe (some null) location = tt
integer-Safe (some (Raw.int (ℤ.pos (suc n)))) location = omega arith
integer-Safe (some _) location = tt

number-Safe :
    (o : Option Raw) (location : String)
    → Safe (Given (λ x. not_positive x ≡ false)) (positive_number o location)
unfolding positive_number
number-Safe none location = tt
number-Safe (some null) location = tt
number-Safe (some (Raw.int n)) location = ground arith
number-Safe (some (Raw.float x)) location = ground arith
number-Safe (some _) location = tt

page-Safe : (raw : Raw) → Safe (λ p. Given IsPositive p.first) (parse_page raw)
unfolding parse_page
page-Safe raw =
    let Post = λ (p : PageRequest). Given IsPositive p.first in
    Safe-bind Any Post (mapping_of raw "page") _ (Safe-shape raw "page").0 λ value _.
      Safe-bind Any Post (reject_unknown value ("first" ∷ []) "page") _
        (Safe-reject value ("first" ∷ []) "page")
        λ _ _.
          Safe-bind (Given IsPositive) Post (positive_integer (entry_at value "first") "page.first")
            _ (integer-Safe (entry_at value "first") "page.first") λ first h. h

abbrev Limited : QueryConstraints Number → Type 0
Limited c =
    (Given IsPositive c.maximum_results × Given IsPositive c.maximum_latency_ms)
    × (Given (λ x. not_positive x ≡ false) c.maximum_cost
        × Given (λ x. not_positive x ≡ false) c.minimum_quality)

constraints-Safe : (raw : Raw) → Safe Limited (parse_constraints raw)
unfolding parse_constraints
constraints-Safe raw =
    Safe-bind Any Limited (mapping_of raw "constraints") _ (Safe-shape raw "constraints").0
      λ value _.
        Safe-bind Any Limited (reject_unknown value constraint_keys "constraints") _
          (Safe-reject value constraint_keys "constraints")
          λ _ _.
            Safe-bind (Given IsPositive) Limited
              (positive_integer (entry_at value "maximum_results") "constraints.maximum_results") _
              (integer-Safe (entry_at value "maximum_results") _)
              λ results h.
                Safe-bind (Given IsPositive) Limited
                  (positive_integer (entry_at value "maximum_latency_ms")
                    "constraints.maximum_latency_ms")
                  _ (integer-Safe (entry_at value "maximum_latency_ms") _)
                  λ latency k.
                    Safe-bind (Given IsNumber) Limited
                      (positive_number (entry_at value "maximum_cost") "constraints.maximum_cost") _
                      (number-Safe (entry_at value "maximum_cost") _)
                      λ cost l.
                        Safe-bind (Given IsNumber) Limited
                          (positive_number (entry_at value "minimum_quality")
                            "constraints.minimum_quality")
                          _ (number-Safe (entry_at value "minimum_quality") _)
                          λ quality m. ((h, k), (l, m))

filter-Safe :
    (terms : TermRegistry) (levels n : ℕ) (raw : Raw)
    → TermsAreSafe terms
    → Safe (λ e. (depth e ≤ levels) × (size e ≤ n)) (parse_where terms levels n raw)
unfolding parse_where
filter-Safe terms levels n raw safe =
    Safe-bind _ (λ e. (depth e ≤ levels) × (size e ≤ n))
      (parse_expression terms levels raw "where" n) _
      (parse_expression-Safe terms levels raw "where" n safe) λ (e, left) p. omega arith

reject_terms-Safe : (ks : List String) (root : Entries) → Safe Any (reject_terms ks root)
unfolding reject_terms
reject_terms-Safe [] root = tt
reject_terms-Safe (k ∷ ks) root = ground (arith, reject_terms-Safe ks root)

query_from-Safe :
    (o : Option Raw)
    → Safe (λ d. (is_blank d.dataset ≡ false) × (is_blank d.scope ≡ false)) (query_from o)
unfolding query_from
query_from-Safe none = tt
query_from-Safe (some raw) = from-Safe raw

if_Safe :
    (b c : Bool)
    → Safe Any (if b then fail_plain query_feature_not_supported else ok tt)
      × Safe Any (if c then ok tt else fail_at query_shape_invalid "from")
if_Safe b c = ground arith

-- Where the parsers of the registered terms raise nothing but structured errors, `parse_query` of any
-- Python object raises nothing else, and a request that it returns is well formed: its names are
-- not blank, selected and ordered fields do not repeat, the filter keeps the limits on depth and
-- terms, page and row limits are positive, and no cost or quality is a number at most zero.
pub parse_query-Safe :
    (terms : TermRegistry) (maximum_depth maximum_terms : ℕ) (raw : Raw)
    → TermsAreSafe terms
    → Safe
        (IsWellFormed maximum_depth maximum_terms)
        (parse_query terms maximum_depth maximum_terms raw)
unfolding parse_query
parse_query-Safe terms d n raw safe =
    let Post = IsWellFormed d n in
    Safe-bind Any Post (mapping_of raw "query") _ (Safe-shape raw "query").0 λ root _.
      Safe-bind Any Post
        (if contains "traverse" (entry_names root)
          then fail_plain query_feature_not_supported
          else ok tt)
        _ (if_Safe (contains "traverse" (entry_names root)) true).0
        λ _ _.
          Safe-bind Any Post (reject_terms (registry_keys terms) root) _
            (reject_terms-Safe (registry_keys terms) root)
            λ _ _.
              Safe-bind Any Post (reject_unknown root query_keys "query") _
                (Safe-reject root query_keys "query")
                λ _ _.
                  Safe-bind Any Post
                    (if is_some (entry_at root "from")
                      then ok tt
                      else fail_at query_shape_invalid "from")
                    _ (if_Safe true (is_some (entry_at root "from"))).1
                    λ _ _.
                      Safe-bind _ Post (query_from (entry_at root "from")) _
                        (query_from-Safe (entry_at root "from"))
                        λ dataset hd.
                          Safe-bind (Given AreNames) Post (parse_select (entry_at root "select")) _
                            (select-Safe (entry_at root "select"))
                            λ select hs.
                              Safe-bind _ Post
                                (optional (entry_at root "where") (parse_where terms d n)) _
                                (optional-Safe (λ e. (depth e ≤ d) × (size e ≤ n))
                                  (entry_at root "where") (parse_where terms d n)
                                  (λ x. filter-Safe terms d n x safe))
                                λ filter hf.
                                  Safe-bind _ Post (parse_order_by (entry_at root "order_by")) _
                                    (order-Safe (entry_at root "order_by"))
                                    λ order ho.
                                      Safe-bind _ Post (optional (entry_at root "page") parse_page)
                                        _
                                        (optional-Safe (λ p. Given IsPositive p.first)
                                          (entry_at root "page") parse_page page-Safe)
                                        λ page hp.
                                          Safe-bind (Given Limited) Post
                                            (optional (entry_at root "constraints")
                                              parse_constraints)
                                            _
                                            (optional-Safe Limited (entry_at root "constraints")
                                              parse_constraints constraints-Safe)
                                            λ constraints hc. record {
                                              dataset = hd.0;
                                              scope = hd.1;
                                              select = hs;
                                              filter = hf;
                                              order = ho;
                                              page = hp;
                                              results =
                                                  given_map Limited _ constraints (λ c h. h.0) hc;
                                              numbers =
                                                  given_map Limited _ constraints (λ c h. h.1) hc;
                                            }
