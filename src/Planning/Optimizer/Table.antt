-- ===== src/Planning/Optimizer/Table.antt =====
-- The table of the cheapest ways is full when sources have no caps and are sent no keys
-- (planning/optimizer.py).
use mathlib.Core.Path.{subst}
use yo_db.Base.{
  ℕ, zero, suc, ◌≡◌, ◌⊎◌, refl, ap, sym, ◌∙◌, inl, inr, Bool, true, false, Option, none, some, List,
  [], ◌∷◌, arith,
}
use yo_db.Base.Lists.{All, length}
use yo_db.Base.Tests.{either_holds}
use yo_db.Errors.{Result, ok}
use yo_db.Errors.Returns.{Returns, Returns-bind, Returns-weaken}
use yo_db.Planning.Costs.{Floats, SourceInput, Problem, Read}
use yo_db.Planning.Costs.Reads.{
  narrowing, bound, restricted_read, capped, cheaper, plain_read, best_read,
}
use yo_db.Planning.Optimizer.{
  selected, under, clears, every_flag, FixedRules, Way, keys_known, improves, better, after_read,
  extended, keep_better, best_last, way_of, best_way, all_read,
}
use yo_db.Planning.Optimizer.Reading.{selected_all}

abbrev pub HasValue {ℓ} : {A : Type ℓ} → Option A → Type 0
HasValue none = ⊥
HasValue (some a) = Unit

pub value_of {ℓ} : {A : Type ℓ} (found : Option A) → HasValue found → (a : A) × (found ≡ some a)
value_of none h = elim h [ ]
value_of (some a) h = (a, refl)

clears-first :
    {F : Type 0} (P : SourceInput F → Type 0) (n : ℕ) (flags : List Bool)
    (xs : List (SourceInput F))
    → All P xs
    → length (selected flags xs) ≡ suc n
    → (s : SourceInput F) × (fewer : List Bool) × (ways : List (SourceInput F × List Bool))
      × ((clears flags xs ≡ (s, fewer) ∷ ways) × (P s × (length (selected fewer xs) ≡ n)))
clears-first P n (true ∷ flags) (x ∷ xs) h e =
    (x, false ∷ flags, under true (clears flags xs), (refl, (h.0, omega arith)))
clears-first P n (false ∷ flags) (x ∷ xs) h e =
    let (s, fewer, ways, found) = clears-first P n flags xs h.1 e in
    (s, false ∷ fewer, under false ways, (ap (under false) found.0, found.1))
clears-first P n [] xs h e = absurd (omega arith)
clears-first P n (true ∷ flags) [] h e = absurd (omega arith)
clears-first P n (false ∷ flags) [] h e = absurd (omega arith)

under-All :
    {F : Type 0} (P : SourceInput F → Type 0) (flag : Bool)
    (ways : List (SourceInput F × List Bool))
    → All (λ way. P way.0) ways
    → All (λ way. P way.0) (under flag ways)
under-All P flag [] h = tt
under-All P flag ((s, flags) ∷ ways) h = (h.0, under-All P flag ways h.1)

clears-All :
    {F : Type 0} (P : SourceInput F → Type 0) (flags : List Bool) (xs : List (SourceInput F))
    → All P xs
    → All (λ way. P way.0) (clears flags xs)
clears-All P [] xs h = tt
clears-All P (true ∷ flags) [] h = tt
clears-All P (false ∷ flags) [] h = tt
clears-All P (true ∷ flags) (x ∷ xs) h =
    (h.0, under-All P true (clears flags xs) (clears-All P flags xs h.1))
clears-All P (false ∷ flags) (x ∷ xs) h =
    under-All P false (clears flags xs) (clears-All P flags xs h.1)

module _ {F : Type 0} (floats : Floats F) (problem : Problem F) (rules : FixedRules F) where
  -- The source returns any number of rows, and no keys are sent to it.
  abbrev pub IsPlain : SourceInput F → Type 0
  IsPlain source = (source.row_cap ≡ none) × (bound floats problem source ≡ none)

  restricted_read-unbound :
      (source : SourceInput F) (keys : Option F)
      → restricted_read floats problem source keys none ≡ ok none
  unfolding restricted_read
  restricted_read-unbound source none = refl
  restricted_read-unbound source (some k) = refl

  cheaper-HasValue :
      (restricted plain : Option (Read F))
      → HasValue plain
      → HasValue (cheaper floats problem restricted plain)
  cheaper-HasValue restricted none h = elim h [ ]
  cheaper-HasValue none (some plain) h = tt
  cheaper-HasValue (some restricted) (some plain) h =
      either_holds HasValue (floats.at_most restricted.latency plain.latency)
        (some (restricted, true)) (some (plain, false)) tt tt

  capped-HasValue :
      (cap : Option ℕ) (read : Read F) → cap ≡ none → HasValue (capped floats problem cap read)
  capped-HasValue cap read e = subst (λ c. HasValue (capped floats problem c read)) (sym e) tt

  pub best_read-Gives :
      (source : SourceInput F) (keys : Option F)
      → IsPlain source
      → Returns HasValue (best_read floats problem source keys)
  unfolding best_read plain_read
  best_read-Gives source keys (uncapped, unbound) =
      Returns-bind (λ _. Unit {0}) HasValue (plain_read floats problem source keys true) _
        (subst (Returns (λ _. Unit {0}))
          (sym (
            ap (restricted_read floats problem source keys) unbound
            ∙ restricted_read-unbound source keys))
          tt)
        λ restricted _. cheaper-HasValue restricted _ (capped-HasValue source.row_cap _ uncapped)

  after_read-HasValue :
      (source : SourceInput F) (way : Way floats problem rules) (found : Option (Read F × Bool))
      → HasValue found
      → HasValue (after_read floats problem rules source way found)
  after_read-HasValue source way none h = elim h [ ]
  after_read-HasValue source (cost, order) (some (read, restricted)) h = tt

  extended-Gives :
      (source : SourceInput F) (flags : List Bool) (before : Option (Way floats problem rules))
      → IsPlain source
      → HasValue before
      → Returns HasValue (extended floats problem rules source flags before)
  unfolding extended
  extended-Gives source flags none e h = elim h [ ]
  extended-Gives source flags (some way) e h =
      let keys = keys_known floats problem rules (selected flags (narrowing floats problem)) in
      Returns-bind HasValue HasValue (best_read floats problem source keys) _
        (best_read-Gives source keys e) λ outcome k. after_read-HasValue source way outcome k

  -- A way, whether there is one or not
  extended-Returns :
      (source : SourceInput F) (flags : List Bool) (before : Option (Way floats problem rules))
      → IsPlain source
      → Returns (λ _. Unit {0}) (extended floats problem rules source flags before)
  unfolding extended
  extended-Returns source flags none e = tt
  extended-Returns source flags (some way) e =
      Returns-weaken HasValue (λ _. Unit {0})
        (extended floats problem rules source flags (some way))
        (extended-Gives source flags (some way) e tt) λ _ _. tt

  keep_better-HasValue :
      (way candidate : Option (Way floats problem rules))
      → HasValue way ⊎ HasValue candidate
      → HasValue (keep_better floats problem rules way candidate)
  unfolding keep_better better
  keep_better-HasValue none candidate (inl h) = elim h [ ]
  keep_better-HasValue none candidate (inr h) = h
  keep_better-HasValue (some way) none h = tt
  keep_better-HasValue (some way) (some old) h =
      either_holds HasValue (improves floats problem rules way.0 way.1 old) (some way) (some old) tt
        tt

  -- The loop over the last reads returns, and keeps a way once it has one.
  best_last-Keeps :
      (before : List Bool → Result (Option (Way floats problem rules)))
      → ((flags : List Bool) → Returns (λ _. Unit {0}) (before flags))
      → (ways : List (SourceInput F × List Bool)) → All (λ way. IsPlain way.0) ways
      → (candidate : Option (Way floats problem rules))
      → Returns
          (λ way. HasValue candidate → HasValue way)
          (best_last floats problem rules before ways candidate)
  unfolding best_last
  best_last-Keeps before r [] p candidate = λ h. h
  best_last-Keeps before r ((source, flags) ∷ ways) p candidate =
      let Kept = λ (way : Option (Way floats problem rules)). HasValue candidate → HasValue way in
      Returns-bind (λ _. Unit {0}) Kept (before flags) _ (r flags)
        λ previous _.
          Returns-bind (λ _. Unit {0}) Kept (extended floats problem rules source flags previous) _
            (extended-Returns source flags previous p.0)
            λ way _.
              Returns-weaken _ Kept
                (best_last floats problem rules before ways
                  (keep_better floats problem rules way candidate))
                (best_last-Keeps before r ways p.1 (keep_better floats problem rules way candidate))
                λ last k h. k (keep_better-HasValue way candidate (inr h))

  way_of-HasValue :
      (sources : List (SourceInput F)) (rest : Option (Way floats problem rules))
      → (length sources ≡ 0) ⊎ HasValue rest
      → HasValue (way_of floats problem rules sources rest)
  way_of-HasValue [] rest h = tt
  way_of-HasValue (s ∷ sources) rest (inl e) = absurd (omega arith)
  way_of-HasValue (s ∷ sources) rest (inr h) = h

  module _ (plain : All IsPlain (narrowing floats problem)) where
    clears-IsPlain :
        (flags : List Bool) → All (λ way. IsPlain way.0) (clears flags (narrowing floats problem))
    clears-IsPlain flags = clears-All IsPlain flags (narrowing floats problem) plain

    abbrev last_ways : ℕ → List Bool → Result (Option (Way floats problem rules))
    unfolding best_last best_way
    last_ways fuel flags =
        best_last floats problem rules (best_way floats problem rules fuel)
          (clears flags (narrowing floats problem)) none

    pub best_way-Returns :
        (fuel : ℕ) (flags : List Bool)
        → Returns (λ _. Unit {0}) (best_way floats problem rules fuel flags)
    unfolding best_way last_ways
    best_way-Returns zero flags = tt
    best_way-Returns (suc fuel) flags =
        Returns-bind _ (λ _. Unit {0}) (last_ways fuel flags) _
          (best_last-Keeps (best_way floats problem rules fuel) (best_way-Returns fuel)
            (clears flags (narrowing floats problem)) (clears-IsPlain flags) none)
          λ _ _. tt

    first-Gives :
        (n : ℕ) (s : SourceInput F) (flags : List Bool) (ways : List (SourceInput F × List Bool))
        → IsPlain s
        → All (λ way. IsPlain way.0) ways
        → Returns HasValue (best_way floats problem rules n flags)
        → Returns HasValue (
            best_last floats problem rules
              (best_way floats problem rules n)
              ((s, flags) ∷ ways)
              none)
    unfolding best_last
    first-Gives n s flags ways p ps given =
        Returns-bind HasValue HasValue (best_way floats problem rules n flags) _ given
          λ previous hp.
            Returns-bind HasValue HasValue (extended floats problem rules s flags previous) _
              (extended-Gives s flags previous p hp)
              λ way hw.
                Returns-weaken _ HasValue
                  (best_last floats problem rules (best_way floats problem rules n) ways
                    (keep_better floats problem rules way none))
                  (best_last-Keeps (best_way floats problem rules n) (best_way-Returns n) ways ps
                    (keep_better floats problem rules way none))
                  λ last k. k (keep_better-HasValue way none (inl hw))

    best_way-Gives :
        (n : ℕ) (flags : List Bool)
        → length (selected flags (narrowing floats problem)) ≡ n
        → Returns HasValue (best_way floats problem rules (suc n) flags)
    unfolding best_way last_ways
    best_way-Gives zero flags e =
        Returns-bind _ HasValue (last_ways zero flags) _
          (best_last-Keeps (best_way floats problem rules zero) (best_way-Returns zero)
            (clears flags (narrowing floats problem)) (clears-IsPlain flags) none)
          λ rest _. way_of-HasValue (selected flags (narrowing floats problem)) rest (inl e)
    best_way-Gives (suc n) flags e =
        let (s, fewer, ways, found) =
          clears-first IsPlain n flags (narrowing floats problem) plain e in
        Returns-bind HasValue HasValue (last_ways (suc n) flags) _
          (subst
            (λ ws.
              Returns HasValue
                (best_last floats problem rules (best_way floats problem rules (suc n)) ws none))
            (sym found.0)
            (first-Gives (suc n) s fewer ways found.1.0
              (subst (All (λ way. IsPlain way.0)) found.0 (clears-IsPlain flags)).1
              (best_way-Gives n fewer found.1.1)))
          λ rest h. way_of-HasValue (selected flags (narrowing floats problem)) rest (inr h)

    pub all_read-Gives : Returns HasValue (all_read floats problem rules)
    unfolding all_read
    all_read-Gives =
        best_way-Gives (length (narrowing floats problem))
          (true ∷ every_flag problem.required_sources)
          (ap (λ l. suc (length l)) (selected_all problem.required_sources))
