-- ===== src/Planning/Planner/Selected.antt =====
-- What a node of a single-source plan selects of the table of an honest source.
use mathlib.Core.Path.{subst}
use mathlib.Core.List.{Perm}
use mathlib.Core.List.Perm
use yo_db.Base.{ℕ, ◌≡◌, ◌⊎◌, refl, ap, sym, ◌∙◌, inl, inr, Option, none, some, List, [], ◌∷◌}
use yo_db.Base.Lists.{length}
use yo_db.Errors.{ok, ◌>>=◌}
use yo_db.Errors.Ensures.{Ensures, Ensures-bind, Ensures-weaken, Ensures-if}
use yo_db.Query.Models.{BoundFilterExpression, BoundOrderTerm}
use yo_db.Query.Resolution.{SingleSourceQueryBinding}
use yo_db.Execution.Rows.{Objects, Row}
use yo_db.Execution.Rows.Order.{Comparable}
use yo_db.Execution.Scans.{Sources, is_over, scan_rows}
use yo_db.Execution.Operators.{
  FederatedExecutionPolicy, first_rows, filter_rows, order_page, execute,
}
use yo_db.Execution.Operators.Page.{
  IsFiltered, nothing, kept, dropped, IsPage, filter_rows-IsFiltered, order_page-IsPage,
}
use yo_db.Planning.Contracts.{RemoteScan, remote_scan, coordinator_filter, coordinator_sort_page}

-- What a source returns for a scan: the rows of its table of which the pushed filter is TRUE, in the
-- pushed order and up to the pushed limit.
pub record IsRead {V : Type 0} (objects orders : Objects V) (table : List (Row V))
    (scan : RemoteScan V) (read : List (Row V)) : Type 0 where
  pub filtered : List (Row V)
  pub selected : IsFiltered objects scan.pushed_filter table filtered
  pub paged : IsPage orders scan.order_by scan.limit filtered read

-- Every source keeps the promises of its capabilities: it decides filters as the coordinator does,
-- and orders by its own comparisons. It may refuse a scan.
abbrev pub IsHonest :
    {V : Type 0}
    → Objects V
    → Objects V
    → (SingleSourceQueryBinding → List (Row V))
    → Sources V
    → Type 0
IsHonest {V} objects orders tables sources =
    (scan : RemoteScan V)
    → scan.key_filter ≡ none
    → scan.vector_search ≡ none
    → Ensures (IsRead objects orders (tables scan.source) scan) (sources.execute scan)

-- The first rows, in an order by the terms, of the rows of the table of which the filter is TRUE.
pub record IsSelection {V : Type 0} (objects orders : Objects V)
    (filter : Option (BoundFilterExpression V)) (terms : List BoundOrderTerm) (limit : ℕ)
    (table page : List (Row V)) : Type 0 where
  pub rows : List (Row V)
  pub permuted : Perm rows table
  pub filtered : List (Row V)
  pub selected : IsFiltered objects filter rows filtered
  pub paged : IsPage orders terms (some limit) filtered page

unfiltered :
    {V : Type 0} (objects : Objects V) (rows out : List (Row V))
    → IsFiltered objects none rows out
    → out ≡ rows
unfiltered objects [] [] nothing = refl
unfiltered objects _ _ (kept row rows out h f) = ap (λ l. row ∷ l) (unfiltered objects rows out f)
unfiltered objects _ _ (dropped row rows out h f) = elim (h refl) [ ]

module _ {V : Type 0} (objects orders : Objects V) (laws : Comparable objects)
    (policy : FederatedExecutionPolicy) (sources : Sources V)
    (tables : SingleSourceQueryBinding → List (Row V))
    (honest : IsHonest objects orders tables sources) where
  IsPage-permuted :
      (terms : List BoundOrderTerm) (first : Option ℕ) (rows others page : List (Row V))
      → Perm rows others
      → IsPage objects terms first rows page
      → IsPage objects terms first others page
  IsPage-permuted terms first rows others page same p = record {
    every = p.every;
    permuted = Perm.trans p.permuted same;
    sorted = p.sorted;
    cut = p.cut;
    rest = p.rest;
    split = p.split;
    before = p.before;
  }

  unlimited :
      (terms : List BoundOrderTerm) (limit : Option ℕ) (rows page : List (Row V))
      → limit ≡ none
      → IsPage orders terms limit rows page
      → Perm page rows
  unlimited terms limit rows page h p =
      subst (λ l. Perm l rows) (sym (p.cut ∙ ap (λ n. first_rows n p.every) h)) p.permuted

  scan_rows-IsRead :
      (scan : RemoteScan V)
      → scan.key_filter ≡ none
      → scan.vector_search ≡ none
      → Ensures (IsRead objects orders (tables scan.source) scan) (scan_rows sources scan)
  unfolding scan_rows
  scan_rows-IsRead scan h k =
      Ensures-bind _ _ (sources.execute scan) _ (honest scan h k) λ rows read.
        Ensures-if _ (is_over scan.maximum_rows (length rows)) _ (ok rows) (λ _. tt) λ _. read

  module _ (filter : Option (BoundFilterExpression V)) (terms : List BoundOrderTerm) (limit : ℕ)
      (scan : RemoteScan V) (whole : scan.key_filter ≡ none)
      (plain : scan.vector_search ≡ none) where
    abbrev Selected : List (Row V) → Type 0
    Selected page =
        IsSelection objects objects filter terms limit (tables scan.source) page
        ⊎ IsSelection objects orders filter terms limit (tables scan.source) page

    -- The source ordered and cut the page itself.
    pub everything-Selected :
        scan.pushed_filter ≡ filter
        → scan.order_by ≡ terms
        → scan.limit ≡ some limit
        → Ensures Selected (execute objects policy sources (remote_scan scan))
    unfolding execute
    everything-Selected f o l =
        Ensures-weaken _ Selected (scan_rows sources scan) (scan_rows-IsRead scan whole plain)
          λ page read. inr (record {
            rows = tables scan.source;
            permuted = Perm.rfl;
            filtered = read.filtered;
            selected =
                subst (λ e. IsFiltered objects e (tables scan.source) read.filtered) f
                  read.selected;
            paged =
                subst (λ n. IsPage orders terms n read.filtered page) l
                  (subst (λ ts. IsPage orders ts scan.limit read.filtered page) o read.paged);
          })

    -- The coordinator orders and cuts what the source filtered.
    pub filter_only-Selected :
        scan.pushed_filter ≡ filter
        → scan.limit ≡ none
        → Ensures Selected (
            execute objects policy sources
              (coordinator_sort_page (remote_scan scan) terms (some limit)))
    unfolding execute
    filter_only-Selected f l =
        Ensures-bind _ Selected (scan_rows sources scan) _ (scan_rows-IsRead scan whole plain)
          λ rows read.
            Ensures-weaken _ Selected (order_page objects policy terms (some limit) rows)
              (order_page-IsPage objects laws policy terms (some limit) rows)
              λ page paged. inl (record {
                rows = tables scan.source;
                permuted = Perm.rfl;
                filtered = read.filtered;
                selected =
                    subst (λ e. IsFiltered objects e (tables scan.source) read.filtered) f
                      read.selected;
                paged =
                    IsPage-permuted terms (some limit) rows read.filtered page
                      (unlimited scan.order_by scan.limit read.filtered rows l read.paged) paged;
              })

    -- The coordinator filters, orders and cuts all the rows of the source.
    pub nothing-Selected :
        scan.pushed_filter ≡ none
        → scan.limit ≡ none
        → Ensures Selected (
            execute objects policy sources (
              coordinator_sort_page
                (coordinator_filter (remote_scan scan) filter)
                terms
                (some limit)))
    unfolding execute
    nothing-Selected f l =
        let Filtered : List (Row V) → Type 0 = λ out.
          (rows : List (Row V)) × (Perm rows (tables scan.source)
            × IsFiltered objects filter rows out) in
        Ensures-bind Filtered Selected
          (scan_rows sources scan >>= λ rows. filter_rows objects filter rows) _
          (Ensures-bind _ Filtered (scan_rows sources scan) _ (scan_rows-IsRead scan whole plain)
            λ rows read.
              let same = unfiltered objects (tables scan.source) read.filtered (
                subst (λ e. IsFiltered objects e (tables scan.source) read.filtered) f
                  read.selected) in
              Ensures-weaken _ Filtered (filter_rows objects filter rows)
                (filter_rows-IsFiltered objects filter rows)
                λ out filtered. (
                  rows,
                  (
                    subst (Perm rows) same
                        (unlimited scan.order_by scan.limit read.filtered rows l read.paged),
                    filtered,
                  ),
                ))
          λ out (rows, (permuted, filtered)).
            Ensures-weaken _ Selected (order_page objects policy terms (some limit) out)
              (order_page-IsPage objects laws policy terms (some limit) out)
              λ page paged. inl (record {
                rows = rows;
                permuted = permuted;
                filtered = out;
                selected = filtered;
                paged = paged;
              })
