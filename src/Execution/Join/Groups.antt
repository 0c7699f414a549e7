-- ===== src/Execution/Join/Groups.antt =====
-- The groups of the probing rows hold, for each key, the rows with that key in order.
use mathlib.Core.List.{append_assoc}
use yo_db.Base.{
  String, ◌≡◌, sym, ap, ◌∙◌, Bool, true, false, Option, none, some, List, [], ◌∷◌, ◌++◌, arith, inl,
  inr,
}
use yo_db.Base.Lists.{keep, append_nil}
use yo_db.Base.Tests.{if◌then◌else◌, Option-cases}
use yo_db.Execution.Rows.{Objects, Row}
use yo_db.Execution.Rows.Order.{Comparable}
use yo_db.Execution.Join.{add_to_group, group_rows, group_of}

append_if :
    {A : Type 0} (b : Bool) (xs : List A) (y : A) (zs : List A)
    → (xs ++ (if b then y ∷ [] else [])) ++ zs ≡ xs ++ (if b then y ∷ zs else zs)
append_if true xs y zs = append_assoc xs (y ∷ []) zs
append_if false xs y zs = ap (λ l. l ++ zs) (append_nil xs)

module _ {V : Type 0} (objects : Objects V) where
  -- The row has the key in the column.
  abbrev pub has_key : Option V → V → Bool
  has_key none k = false
  has_key (some j) k = objects.equal j k

  module _ (laws : Comparable objects) where
    group_of-add_to_group :
        (groups : List (V × List (Row V))) (j k : V) (row : Row V)
        → group_of objects (add_to_group objects groups j row) k
          ≡ group_of objects groups k ++ (if objects.equal j k then row ∷ [] else [])
    unfolding add_to_group
    group_of-add_to_group [] j k row = ground arith
    group_of-add_to_group ((i, rows) ∷ groups) j k row = ground (
      arith,
      laws.equal_left i j k,
      laws.equal_sym i j,
      laws.equal_left i k j,
      laws.equal_sym j k,
      append_nil rows,
      append_nil (group_of objects groups k),
      group_of-add_to_group groups j k row,
    )

    group_of-group_rows :
        (name : String) (rows : List (Row V)) (groups : List (V × List (Row V))) (k : V)
        → group_of objects (group_rows objects name rows groups) k
          ≡ group_of objects groups k ++ keep (λ r. has_key (r name) k) rows
    unfolding group_rows
    group_of-group_rows name [] groups k = sym (append_nil (group_of objects groups k))
    group_of-group_rows name (row ∷ rows) groups k = elim (Option-cases (row name)) [
      | inl none' ↦ rw (none', group_rows, has_key) (group_of-group_rows name rows groups k)
      | inr (j, found) ↦
          let kept = keep (λ r. has_key (r name) k) rows in
          rw (found, group_rows, has_key)
            (group_of-group_rows name rows (add_to_group objects groups j row) k
              ∙ ap (λ l. l ++ kept) (group_of-add_to_group groups j k row)
              ∙ append_if (objects.equal j k) (group_of objects groups k) row kept)
    ]

-- The groups that a join makes of the probing rows hold, for each key, the rows with that key, in
-- the order of the rows: a lookup finds what a scan of all the rows would.
pub group_rows-keep :
    {V : Type 0} (objects : Objects V) (name : String) (rows : List (Row V)) (k : V)
    → Comparable objects
    → group_of objects (group_rows objects name rows []) k
      ≡ keep (λ r. has_key objects (r name) k) rows
group_rows-keep objects name rows k laws = group_of-group_rows objects laws name rows [] k
