-- ===== src/Base/Sorting.antt =====
-- Python's stable sort by a comparison function, and what it gives for a total preorder.
use Prim.Native.Nat.{ℕ, zero, suc, Ordering}
use mathlib.Core.Path.{◌≡◌, ◌∙◌, ap, refl}
use mathlib.Core.Bool.{Bool, true, false, ◌||◌}
use mathlib.Core.Logic.{inl, inr}
use mathlib.Core.List.{List, [], ◌∷◌, Perm}
use mathlib.Core.List.Perm
use native.Mathlib.Omega.{arith}
use yo_db.Base.Tests.{if◌then◌else◌, Bool-cases}
use yo_db.Base.Lists.{any, All, take, drop}

-- `cmp(x, y) <= 0`
abbrev pub at_most : Ordering → Bool
at_most Ordering.gt = false
at_most _ = true

-- `-cmp(x, y)`
abbrev pub reversed : Ordering → Ordering
reversed Ordering.lt = Ordering.gt
reversed Ordering.eq = Ordering.eq
reversed Ordering.gt = Ordering.lt

pub at_most-reversed : (o : Ordering) → at_most o ≡ false → at_most (reversed o) ≡ true
at_most-reversed o h = ground arith

module _ {A : Type 0} (cmp : A → A → Ordering) where
  -- Before the first element that is not smaller, so that equal elements keep their order.
  insert_by : A → List A → List A
  insert_by x [] = x ∷ []
  insert_by x (y ∷ ys) = if at_most (cmp x y) then x ∷ y ∷ ys else y ∷ insert_by x ys

  -- `rows.sort(key=cmp_to_key(cmp))`
  unfoldable pub sort_by : List A → List A
  unfolding insert_by
  sort_by [] = []
  sort_by (x ∷ xs) = insert_by x (sort_by xs)

  -- Each element is at most every later one.
  abbrev pub IsSorted : List A → Type 0
  IsSorted [] = Unit
  IsSorted (x ∷ xs) = All (λ y. at_most (cmp x y) ≡ true) xs × IsSorted xs

  insert_by-perm : (x : A) (ys : List A) → Perm (insert_by x ys) (x ∷ ys)
  unfolding insert_by
  insert_by-perm x [] = Perm.rfl
  insert_by-perm x (y ∷ ys) = elim (Bool-cases (at_most (cmp x y))) [
    | inl le ↦ rw (le, insert_by) Perm.rfl
    | inr gt ↦
        rw (gt, insert_by) (Perm.trans (Perm.cons y (insert_by-perm x ys)) (Perm.swap x y ys))
  ]

  pub sort_by-perm : (xs : List A) → Perm (sort_by xs) xs
  unfolding sort_by
  sort_by-perm [] = Perm.rfl
  sort_by-perm (x ∷ xs) = Perm.trans (insert_by-perm x (sort_by xs)) (Perm.cons x (sort_by-perm xs))

  All-insert_by : (P : A → Type 0) (x : A) (ys : List A) → P x → All P ys → All P (insert_by x ys)
  unfolding insert_by
  All-insert_by P x [] px pys = (px, tt)
  All-insert_by P x (y ∷ ys) px pys = elim (Bool-cases (at_most (cmp x y))) [
    | inl le ↦ rw (le, insert_by) (px, pys)
    | inr gt ↦ rw (gt, insert_by) (pys.0, All-insert_by P x ys px pys.1)
  ]

  any-insert_by : (p : A → Bool) (x : A) (ys : List A) → any p (insert_by x ys) ≡ (p x || any p ys)
  unfolding insert_by
  any-insert_by p x [] = refl
  any-insert_by p x (y ∷ ys) = elim (Bool-cases (at_most (cmp x y))) [
    | inl le ↦ rw (le, insert_by) refl
    | inr gt ↦ rw (gt, insert_by) (ground (arith, any-insert_by p x ys))
  ]

  pub any-sort_by : (p : A → Bool) (xs : List A) → any p (sort_by xs) ≡ any p xs
  unfolding sort_by
  any-sort_by p [] = refl
  any-sort_by p (x ∷ xs) = any-insert_by p x (sort_by xs) ∙ ap (λ b. p x || b) (any-sort_by p xs)

  pub sort_by-All : (P : A → Type 0) (xs : List A) → All P xs → All P (sort_by xs)
  unfolding sort_by
  sort_by-All P [] h = tt
  sort_by-All P (x ∷ xs) h = All-insert_by P x (sort_by xs) h.0 (sort_by-All P xs h.1)

  module _ (total : (x y : A) → cmp y x ≡ reversed (cmp x y))
      (trans : (x y z : A)
        → at_most (cmp x y) ≡ true
        → at_most (cmp y z) ≡ true
        → at_most (cmp x z) ≡ true) where
    All-trans :
        (x y : A) (zs : List A)
        → at_most (cmp x y) ≡ true
        → All (λ z. at_most (cmp y z) ≡ true) zs
        → All (λ z. at_most (cmp x z) ≡ true) zs
    All-trans x y [] le h = tt
    All-trans x y (z ∷ zs) le h = (trans x y z le h.0, All-trans x y zs le h.1)

    insert_by-IsSorted : (x : A) (ys : List A) → IsSorted ys → IsSorted (insert_by x ys)
    unfolding insert_by
    insert_by-IsSorted x [] h = (tt, tt)
    insert_by-IsSorted x (y ∷ ys) h = elim (Bool-cases (at_most (cmp x y))) [
      | inl le ↦ rw (le, insert_by) ((le, All-trans x y ys le h.0), h)
      | inr gt ↦
          rw (gt, insert_by)
            (
              All-insert_by (λ z. at_most (cmp y z) ≡ true) x ys
                  (rw (total x y) (at_most-reversed _ gt)) h.0,
              insert_by-IsSorted x ys h.1,
            )
    ]

    pub sort_by-IsSorted : (xs : List A) → IsSorted (sort_by xs)
    unfolding sort_by
    sort_by-IsSorted [] = tt
    sort_by-IsSorted (x ∷ xs) = insert_by-IsSorted x (sort_by xs) (sort_by-IsSorted xs)

  -- Of a sorted list, what is kept is at most what is dropped.
  abbrev pub AllBefore : List A → List A → Type 0
  AllBefore kept dropped = All (λ x. All (λ y. at_most (cmp x y) ≡ true) dropped) kept

  All-drop : (P : A → Type 0) (n : ℕ) (xs : List A) → All P xs → All P (drop n xs)
  All-drop P zero xs h = h
  All-drop P (suc n) [] h = tt
  All-drop P (suc n) (x ∷ xs) h = All-drop P n xs h.1

  pub take-IsSorted : (n : ℕ) (xs : List A) → IsSorted xs → AllBefore (take n xs) (drop n xs)
  take-IsSorted zero xs h = tt
  take-IsSorted (suc n) [] h = tt
  take-IsSorted (suc n) (x ∷ xs) h =
      (All-drop (λ y. at_most (cmp x y) ≡ true) n xs h.0, take-IsSorted n xs h.1)

  pub none_after : (kept : List A) → AllBefore kept []
  none_after [] = tt
  none_after (x ∷ xs) = (tt, none_after xs)
