-- ===== src/Execution/Join/Fuel.antt =====
-- Halving the keys of a batch ends: their number is enough fuel.
use yo_db.Base.{
  ℕ, zero, suc, ◌+◌, ◌-◌, ◌/◌, ◌≤◌, ◌≡◌, refl, ap, ◌∙◌, ◌++◌, ◌&&◌, Bool, true, false, List, arith,
  inl, inr,
}
use yo_db.Base.Lists.{length, take, drop, length-take, length-drop}
use yo_db.Base.Tests.{if◌then◌else◌, ltb, Bool-cases, ltb→lt}
use yo_db.Errors.{Result, ok, fail, crash, recursion_error, query_coordinator_limit_exceeded, ◌>>=◌}
use yo_db.Execution.Rows.{Objects, Row}
use yo_db.Execution.Join.{HashJoin, Sides, over, is_row_limit, after_read, probe}

module _ {V : Type 0} (objects : Objects V) (node : HashJoin) (sides : Sides V) where
  -- A single key is never halved.
  after_read-single :
      (keys : List V) (collected : List (Row V)) (r left right : Result (List (Row V)))
      → ltb 1 (length keys) ≡ false
      → after_read objects node keys collected r left
        ≡ after_read objects node keys collected r right
  unfolding after_read
  after_read-single keys collected (ok rows) left right h = refl
  after_read-single keys collected (fail e) left right h = ground (arith, h)
  after_read-single keys collected (crash e) left right h = refl

  same_bind :
      {A B : Type 0} (m n : Result A) (f g : A → Result B)
      → m ≡ n
      → ((a : A) → f a ≡ g a)
      → (m >>= f) ≡ (n >>= g)
  same_bind (ok a) n f g h k = k a ∙ ap (λ r. r >>= g) h
  same_bind (fail e) n f g h k = ap (λ r. r >>= g) h
  same_bind (crash e) n f g h k = ap (λ r. r >>= g) h

  probe-same :
      (fuel more : ℕ) (keys : List V) (collected : List (Row V))
      → 1 ≤ length keys
      → length keys ≤ fuel
      → length keys ≤ more
      → probe objects node sides fuel keys collected ≡ probe objects node sides more keys collected
  unfolding probe
  probe-same zero more keys collected some_key le le' = absurd (omega arith)
  probe-same (suc fuel) zero keys collected some_key le le' = absurd (omega arith)
  probe-same (suc fuel) (suc more) keys collected some_key le le' =
      let middle = length keys / 2 in
      let read = sides.probe keys (node.policy.maximum_probe_rows - length collected + 1) in
      elim (Bool-cases (ltb 1 (length keys))) [
        | inl several ↦ ap (after_read objects node keys collected read) (
            same_bind (probe objects node sides fuel (take middle keys) collected)
              (probe objects node sides more (take middle keys) collected) _ _
              (probe-same fuel more (take middle keys) collected
                (omega (arith, length-take middle keys, ltb→lt 1 (length keys) several))
                (omega (arith, length-take middle keys, ltb→lt 1 (length keys) several))
                (omega (arith, length-take middle keys, ltb→lt 1 (length keys) several)))
              (λ left.
                probe-same fuel more (drop middle keys) left
                  (omega (arith, length-drop middle keys, ltb→lt 1 (length keys) several))
                  (omega (arith, length-drop middle keys, ltb→lt 1 (length keys) several))
                  (omega (arith, length-drop middle keys, ltb→lt 1 (length keys) several))))
        | inr one ↦ after_read-single keys collected read _ _ one
      ]

  pub end_if :
      {A : Type 0} (b : Bool) (x y : Result A)
      → (b ≡ true → ¬ (x ≡ crash recursion_error))
      → ¬ (y ≡ crash recursion_error)
      → ¬ ((if b then x else y) ≡ crash recursion_error)
  end_if true x y h k = h refl
  end_if false x y h k = k

  after_read-ends :
      (keys : List V) (collected : List (Row V)) (r halves : Result (List (Row V)))
      → ¬ (r ≡ crash recursion_error)
      → ((ltb 1 (length keys) ≡ true) → ¬ (halves ≡ crash recursion_error))
      → ¬ (after_read objects node keys collected r halves ≡ crash recursion_error)
  unfolding after_read
  after_read-ends keys collected (ok rows) halves h k =
      end_if (ltb node.policy.maximum_probe_rows (length (collected ++ rows)))
        (over query_coordinator_limit_exceeded) (ok (collected ++ rows)) (λ _ same. cc) (λ same. cc)
  after_read-ends keys collected (fail e) halves h k =
      end_if (is_row_limit e.code && ltb 1 (length keys)) halves (fail e)
        (λ split. k (ground (arith, split))) h
  after_read-ends keys collected (crash e) halves h k = h

  bind-ends :
      {A B : Type 0} (m : Result A) (f : A → Result B)
      → ¬ (m ≡ crash recursion_error)
      → ((a : A) → ¬ (f a ≡ crash recursion_error))
      → ¬ ((m >>= f) ≡ crash recursion_error)
  bind-ends (ok a) f h k = k a
  bind-ends (fail e) f h k = λ same. cc
  bind-ends (crash e) f h k = λ same. h (ap (λ x. crash x) (cc))

  module _
      (reads : (keys : List V) (budget : ℕ)
        → ¬ (sides.probe keys budget ≡ crash recursion_error)) where
    probe-ends :
        (fuel : ℕ) (keys : List V) (collected : List (Row V))
        → 1 ≤ length keys
        → length keys ≤ fuel
        → ¬ (probe objects node sides fuel keys collected ≡ crash recursion_error)
    unfolding probe
    probe-ends zero keys collected some_key le = absurd (omega arith)
    probe-ends (suc fuel) keys collected some_key le =
        let middle = length keys / 2 in
        after_read-ends keys collected
          (sides.probe keys (node.policy.maximum_probe_rows - length collected + 1)) _
          (reads keys (node.policy.maximum_probe_rows - length collected + 1))
          (λ several.
            bind-ends (probe objects node sides fuel (take middle keys) collected) _
              (probe-ends fuel (take middle keys) collected
                (omega (arith, length-take middle keys, ltb→lt 1 (length keys) several))
                (omega (arith, length-take middle keys, ltb→lt 1 (length keys) several)))
              (λ left.
                probe-ends fuel (drop middle keys) left
                  (omega (arith, length-drop middle keys, ltb→lt 1 (length keys) several))
                  (omega (arith, length-drop middle keys, ltb→lt 1 (length keys) several))))

-- Probing a batch that has a key ends, with the number of its keys as fuel: unless a read itself
-- raises a RecursionError, the probe does not raise one, and with any more fuel it gives the same.
pub probe-terminates :
    {V : Type 0} (objects : Objects V) (node : HashJoin) (sides : Sides V) (fuel : ℕ)
    (keys : List V) (collected : List (Row V))
    → ((keys : List V) (budget : ℕ) → ¬ (sides.probe keys budget ≡ crash recursion_error))
    → 1 ≤ length keys
    → length keys ≤ fuel
    → ¬ (probe objects node sides (length keys) keys collected ≡ crash recursion_error)
      × (probe objects node sides (length keys) keys collected
          ≡ probe objects node sides fuel keys collected)
probe-terminates objects node sides fuel keys collected reads h k = (
  probe-ends objects node sides reads (length keys) keys collected h (omega arith),
  probe-same objects node sides (length keys) fuel keys collected h (omega arith) k,
)
