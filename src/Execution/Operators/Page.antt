-- ===== src/Execution/Operators/Page.antt =====
-- What a coordinated plan returns.
use mathlib.Core.List.{Perm}
use mathlib.Core.List.Perm
use yo_db.Base.{
  ℕ, ◌≡◌, ◌≢◌, refl, Bool, true, false, Option, none, some, List, [], ◌∷◌, ◌++◌, map, arith,
}
use yo_db.Base.Lists.{All, length, drop, take-append-drop, append_nil}
use yo_db.Base.Sorting.{
  at_most, IsSorted, AllBefore, none_after, sort_by-perm, sort_by-IsSorted, take-IsSorted,
}
use yo_db.Base.Tests.{ltb}
use yo_db.Errors.{Result, ok, ◌>>=◌}
use yo_db.Errors.Ensures.{Ensures, Ensures-self, Ensures-weaken, Ensures-bind, Ensures-if}
use yo_db.Query.Models.{BoundFilterExpression, BoundOrderTerm}
use yo_db.Query.Resolution.{ResolvedField}
use yo_db.Execution.Rows.{Objects, Row, holds, truth?, matches, compare_rows}
use yo_db.Execution.Rows.Order.{Comparable, compare_rows-preorder}
use yo_db.Planning.Contracts.{
  PhysicalNode, coordinator_filter, coordinator_sort_page, result_project,
}
use yo_db.Execution.Scans.{Sources}
use yo_db.Execution.Operators.{
  FederatedExecutionPolicy, first_rows, public_name, add_if, filter_rows, ordered, order_page,
  project_row, execute,
}

module _ {V : Type 0} (objects : Objects V) where
  -- The rows of which the filter is TRUE, in order, as a relation.
  pub data IsFiltered (e : Option (BoundFilterExpression V))
      : List (Row V) → List (Row V) → Type 0 where
    nothing : IsFiltered e [] []
    kept :
        (row : Row V) (rows out : List (Row V))
        → truth? objects e row ≡ some holds
        → IsFiltered e rows out
        → IsFiltered e (row ∷ rows) (row ∷ out)
    dropped :
        (row : Row V) (rows out : List (Row V))
        → truth? objects e row ≢ some holds
        → IsFiltered e rows out
        → IsFiltered e (row ∷ rows) out

  matches_truth :
      (e : Option (BoundFilterExpression V)) (row : Row V)
      → matches objects e row ≡ some true
      → truth? objects e row ≡ some holds
  unfolding matches
  matches_truth e row h = ground arith

  matches_not :
      (e : Option (BoundFilterExpression V)) (row : Row V)
      → matches objects e row ≡ some false
      → truth? objects e row ≢ some holds
  unfolding matches
  matches_not e row h k = ground arith

  add_if-IsFiltered :
      (e : Option (BoundFilterExpression V)) (row : Row V) (rows : List (Row V))
      (test : Option Bool) (rest : Result (List (Row V)))
      → matches objects e row ≡ test
      → Ensures (IsFiltered e rows) rest
      → Ensures (IsFiltered e (row ∷ rows)) (add_if test row rest)
  add_if-IsFiltered e row rows none rest h k = tt
  add_if-IsFiltered e row rows (some true) rest h k =
      Ensures-bind (IsFiltered e rows) (IsFiltered e (row ∷ rows)) rest _ k
        λ out f. kept row rows out (matches_truth e row h) f
  add_if-IsFiltered e row rows (some false) rest h k =
      Ensures-weaken (IsFiltered e rows) (IsFiltered e (row ∷ rows)) rest k
        λ out f. dropped row rows out (matches_not e row h) f

  pub filter_rows-IsFiltered :
      (e : Option (BoundFilterExpression V)) (rows : List (Row V))
      → Ensures (IsFiltered e rows) (filter_rows objects e rows)
  unfolding filter_rows
  filter_rows-IsFiltered e [] = nothing
  filter_rows-IsFiltered e (row ∷ rows) =
      add_if-IsFiltered e row rows (matches objects e row) (filter_rows objects e rows) refl
        (filter_rows-IsFiltered e rows)

-- The first rows of an ordering of all the rows; what is left out comes no earlier.
pub record IsPage {V : Type 0} (objects : Objects V) (terms : List BoundOrderTerm)
    (first : Option ℕ) (rows page : List (Row V)) : Type 0 where
  pub every : List (Row V)
  pub permuted : Perm every rows
  pub sorted : IsSorted (compare_rows objects terms) every
  pub cut : page ≡ first_rows first every
  pub rest : List (Row V)
  pub split : page ++ rest ≡ every
  pub before : AllBefore (compare_rows objects terms) page rest

at_most-unordered :
    {V : Type 0} (objects : Objects V) (row : Row V) (rows : List (Row V))
    → All (λ y. at_most (compare_rows objects [] row y) ≡ true) rows
unfolding compare_rows
at_most-unordered objects row [] = tt
at_most-unordered objects row (r ∷ rows) = (refl, at_most-unordered objects row rows)

module _ {V : Type 0} (objects : Objects V) (laws : Comparable objects) where
  unordered : (rows : List (Row V)) → IsSorted (compare_rows objects []) rows
  unfolding compare_rows
  unordered [] = tt
  unordered (row ∷ rows) = (at_most-unordered objects row rows, unordered rows)

  ordered-IsSorted :
      (terms : List BoundOrderTerm) (rows : List (Row V))
      → IsSorted (compare_rows objects terms) (ordered objects terms rows)
  unfolding ordered
  ordered-IsSorted [] rows = unordered rows
  ordered-IsSorted (t ∷ terms) rows =
      let (total, chain) = compare_rows-preorder objects (t ∷ terms) laws in
      sort_by-IsSorted (compare_rows objects (t ∷ terms)) total chain rows

  ordered-perm :
      (terms : List BoundOrderTerm) (rows : List (Row V)) → Perm (ordered objects terms rows) rows
  unfolding ordered
  ordered-perm [] rows = Perm.rfl
  ordered-perm (t ∷ terms) rows = sort_by-perm (compare_rows objects (t ∷ terms)) rows

  ordered-IsPage :
      (terms : List BoundOrderTerm) (first : Option ℕ) (rows : List (Row V))
      → IsPage objects terms first rows (first_rows first (ordered objects terms rows))
  ordered-IsPage terms none rows = record {
    every = ordered objects terms rows;
    permuted = ordered-perm terms rows;
    sorted = ordered-IsSorted terms rows;
    cut = refl;
    rest = [];
    split = append_nil (ordered objects terms rows);
    before = none_after (compare_rows objects terms) (ordered objects terms rows);
  }
  ordered-IsPage terms (some n) rows = record {
    every = ordered objects terms rows;
    permuted = ordered-perm terms rows;
    sorted = ordered-IsSorted terms rows;
    cut = refl;
    rest = drop n (ordered objects terms rows);
    split = take-append-drop n (ordered objects terms rows);
    before = take-IsSorted (compare_rows objects terms) n _ (ordered-IsSorted terms rows);
  }

  pub order_page-IsPage :
      (policy : FederatedExecutionPolicy) (terms : List BoundOrderTerm) (first : Option ℕ)
      (rows : List (Row V))
      → Ensures (IsPage objects terms first rows) (order_page objects policy terms first rows)
  unfolding order_page
  order_page-IsPage policy terms first rows =
      Ensures-if (IsPage objects terms first rows)
        (ltb policy.maximum_coordinator_rows (length rows)) _
        (ok (first_rows first (ordered objects terms rows))) (λ _. tt)
        λ _. ordered-IsPage terms first rows

-- What a plan that filters, orders, pages and projects the rows of an input returns.
pub record IsAnswer {V : Type 0} (objects : Objects V) (e : Option (BoundFilterExpression V))
    (terms : List BoundOrderTerm) (first : Option ℕ) (projection : List ResolvedField)
    (input : Result (List (Row V))) (answer : List (Row V)) : Type 0 where
  pub rows : List (Row V)
  pub input_rows : input ≡ ok rows
  pub filtered : List (Row V)
  pub selected : IsFiltered objects e rows filtered
  pub page : List (Row V)
  pub paged : IsPage objects terms first filtered page
  pub projected : answer ≡ map (project_row (map public_name projection)) page

-- On comparable objects, a plan that filters, orders, pages and projects an input at the
-- coordinator returns the projection of a page: the first rows, in an order by `compare_rows`, of
-- the rows of the input of which the filter is TRUE, with no row left out that comes before one of
-- the page.
pub execute-IsAnswer :
    {V : Type 0} (objects : Objects V) (policy : FederatedExecutionPolicy) (sources : Sources V)
    (input : PhysicalNode V) (e : Option (BoundFilterExpression V)) (terms : List BoundOrderTerm)
    (first : Option ℕ) (projection : List ResolvedField)
    → Comparable objects
    → Ensures (IsAnswer objects e terms first projection (execute objects policy sources input)) (
        execute objects policy sources (
          result_project
            (coordinator_sort_page (coordinator_filter input e) terms first)
            projection))
unfolding execute
execute-IsAnswer objects policy sources input e terms first projection laws =
    let read = execute objects policy sources input in
    let selected = read >>= λ rows. filter_rows objects e rows in
    let paged = selected >>= λ rows. order_page objects policy terms first rows in
    let Selected : List (Row _) → Type 0 =
      λ out. (rows : List (Row _)) × ((read ≡ ok rows) × IsFiltered objects e rows out) in
    let Paged : List (Row _) → Type 0 =
      λ page. (out : List (Row _)) × (Selected out × IsPage objects terms first out page) in
    Ensures-bind Paged (IsAnswer objects e terms first projection read) paged _
      (Ensures-bind Selected Paged selected _
        (Ensures-bind (λ rows. read ≡ ok rows) Selected read _ (Ensures-self _ read λ _ h. h)
          λ rows h.
            Ensures-weaken (IsFiltered objects e rows) Selected (filter_rows objects e rows)
              (filter_rows-IsFiltered objects e rows) λ out f. (rows, (h, f)))
        λ out s.
          Ensures-weaken (IsPage objects terms first out) Paged
            (order_page objects policy terms first out)
            (order_page-IsPage objects laws policy terms first out) λ page p. (out, (s, p)))
      λ page (out, ((rows, (h, f)), p)). record {
        rows = rows;
        input_rows = h;
        filtered = out;
        selected = f;
        page = page;
        paged = p;
        projected = refl;
      }
