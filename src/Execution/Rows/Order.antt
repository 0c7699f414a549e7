-- ===== src/Execution/Rows/Order.antt =====
-- `compare_rows` is a total preorder when the objects of a column are.
use Prim.Native.Nat.{Ordering}
use yo_db.Base.{◌≡◌, refl, true, false, not, Option, none, some, List, [], ◌∷◌, arith}
use yo_db.Base.Sorting.{at_most, reversed}
use yo_db.Query.Models.{SortDirection, asc, desc, BoundOrderTerm}
use yo_db.Execution.Rows.{Objects, Row, before, compare_cells, compare_rows}

-- Python's `==` is an equivalence, and `<` (or the order of `repr` where `<` raises a TypeError)
-- is a strict total order on the objects that are not equal.
pub record Comparable {V : Type 0} (objects : Objects V) : Type 0 where
  pub equal_refl : (a : V) → objects.equal a a ≡ true
  pub equal_sym : (a b : V) → objects.equal b a ≡ objects.equal a b
  pub equal_left : (a b c : V) → objects.equal a b ≡ true → objects.equal a c ≡ objects.equal b c
  pub before_left : (a b c : V) → objects.equal a b ≡ true → before objects a c ≡ before objects b c
  pub before_right :
      (a b c : V) → objects.equal a b ≡ true → before objects c a ≡ before objects c b
  pub before_total :
      (a b : V) → objects.equal a b ≡ false → before objects b a ≡ not (before objects a b)
  pub before_trans :
      (a b c : V)
      → before objects a b ≡ true
      → objects.equal a b ≡ false
      → before objects b c ≡ true
      → objects.equal b c ≡ false
      → (objects.equal a c ≡ false) × (before objects a c ≡ true)

-- How two comparisons in a row determine the comparison of the ends.
record Chain (o p q : Ordering) : Type 0 where
  from_eq : o ≡ Ordering.eq → q ≡ p
  to_eq : p ≡ Ordering.eq → q ≡ o
  both_lt : o ≡ Ordering.lt → p ≡ Ordering.lt → q ≡ Ordering.lt
  both_gt : o ≡ Ordering.gt → p ≡ Ordering.gt → q ≡ Ordering.gt

at_most-Chain :
    (o p q : Ordering) → Chain o p q → at_most o ≡ true → at_most p ≡ true → at_most q ≡ true
at_most-Chain Ordering.lt Ordering.lt q c h k = ground (arith, c.both_lt refl refl)
at_most-Chain Ordering.lt Ordering.eq q c h k = ground (arith, c.to_eq refl)
at_most-Chain Ordering.eq p q c h k = ground (arith, c.from_eq refl)
at_most-Chain Ordering.lt Ordering.gt q c h k = cc
at_most-Chain Ordering.gt p q c h k = cc

module _ {V : Type 0} (objects : Objects V) (laws : Comparable objects) where
  open laws use {
    equal_refl, equal_sym, equal_left, before_left, before_right, before_total, before_trans,
  }

  cells_total :
      (d : SortDirection) (a b : Option V)
      → compare_cells objects d b a ≡ reversed (compare_cells objects d a b)
  unfolding compare_cells
  cells_total d none none = refl
  cells_total asc none (some b) = refl
  cells_total desc none (some b) = refl
  cells_total asc (some a) none = refl
  cells_total desc (some a) none = refl
  cells_total d (some a) (some b) = ground (arith, equal_sym a b, before_total a b)

  cells-Chain :
      (d : SortDirection) (a b c : Option V)
      → Chain
          (compare_cells objects d a b)
          (compare_cells objects d b c)
          (compare_cells objects d a c)
  unfolding compare_cells
  cells-Chain d none none c = ground arith
  cells-Chain d none (some b) none = ground arith
  cells-Chain d (some a) none none = ground arith
  cells-Chain d none (some b) (some c) = ground arith
  cells-Chain d (some a) none (some c) = ground arith
  cells-Chain d (some a) (some b) none = ground arith
  cells-Chain asc (some a) (some b) (some c) = ground (
    arith,
    equal_sym a b,
    equal_sym b c,
    equal_sym a c,
    equal_left a b c,
    equal_left b c a,
    before_left a b c,
    before_right b c a,
    before_total a b,
    before_total b c,
    before_total a c,
    before_trans a b c,
    before_trans c b a,
  )
  cells-Chain desc (some a) (some b) (some c) = ground (
    arith,
    equal_sym a b,
    equal_sym b c,
    equal_sym a c,
    equal_left a b c,
    equal_left b c a,
    before_left a b c,
    before_right b c a,
    before_total a b,
    before_total b c,
    before_total a c,
    before_trans a b c,
    before_trans c b a,
  )

  rows_total :
      (terms : List BoundOrderTerm) (a b : Row V)
      → compare_rows objects terms b a ≡ reversed (compare_rows objects terms a b)
  unfolding compare_rows
  rows_total [] a b = refl
  rows_total (t ∷ terms) a b =
      ground
        (arith, cells_total t.direction (a t.field.name) (b t.field.name), rows_total terms a b)

  rows-Chain :
      (terms : List BoundOrderTerm) (a b c : Row V)
      → Chain
          (compare_rows objects terms a b)
          (compare_rows objects terms b c)
          (compare_rows objects terms a c)
  unfolding compare_rows
  rows-Chain [] a b c = ground arith
  rows-Chain (t ∷ terms) a b c =
      let x = a t.field.name in
      let y = b t.field.name in
      let z = c t.field.name in
      ground (arith, cells-Chain t.direction x y z, rows-Chain terms a b c)

-- On comparable objects, `compare_rows` is a total preorder of rows: swapping the rows swaps the
-- sign, and a row that is at most a second which is at most a third is at most the third.
pub compare_rows-preorder :
    {V : Type 0} (objects : Objects V) (terms : List BoundOrderTerm)
    → Comparable objects
    → ((a b : Row V) → compare_rows objects terms b a ≡ reversed (compare_rows objects terms a b))
      × ((a b c : Row V)
          → at_most (compare_rows objects terms a b) ≡ true
          → at_most (compare_rows objects terms b c) ≡ true
          → at_most (compare_rows objects terms a c) ≡ true)
compare_rows-preorder objects terms laws = (
  rows_total objects laws terms,
  (λ a b c. at_most-Chain _ _ _ (rows-Chain objects laws terms a b c)),
)
