-- ===== src/Planning/Optimizer.antt =====
-- src/yodb/planning/optimizer.py: `optimize`, which chooses the order of the reads and the variant of
-- an extension operator. A set of sources is a list of flags beside them, and the table of the
-- cheapest ways is computed by recursion on the number of flags that are set, one more round than
-- there are sources. Whether a variant is the one of the fixed rules, an identity of objects, is a
-- test that the caller passes. The reason of a fallback, a text for readers, is left out.
pub mod Reading
pub mod Choice
pub mod Scheduled
pub mod Table
pub mod Returning
use yo_db.Base.{
  ℕ, zero, suc, String, Bool, true, false, not, ◌&&◌, ◌||◌, Option, none, some, List, [], ◌∷◌, ◌++◌,
  map,
}
use yo_db.Base.Lists.{all, any, keep, length, take}
use yo_db.Base.Strings.{◌==◌}
use yo_db.Base.Tests.{ltb, eqb, if◌then◌else◌}
use yo_db.Errors.{Result, ok, ◌>>=◌}
use yo_db.Planning.Contracts.{StepRole, anchor, required, optional, shortlist, AssemblyStep}
use yo_db.Planning.Costs.{
  Floats, SourceInput, Problem, Variant, Candidates, Estimate, RankedRead, Read, StoreRead,
  Constraints, larger_of, is_within,
}
use yo_db.Planning.Costs.Reads.{
  narrowing, best_read, keys_after, ranked_read, store_read, ranking_objective, finish,
}

-- An order of reads, each restricted by the keys learned before or not
abbrev pub ReadOrder : Type 0
ReadOrder = List (String × Bool)

abbrev pub order_names : ReadOrder → List String
order_names order = map (λ read. read.0) order

abbrev pub names_of : {F : Type 0} → List (SourceInput F) → List String
names_of sources = map (λ s. s.name) sources

-- The sources of a set, and the ways to take one out of it
abbrev pub selected {ℓ} : {A : Type ℓ} → List Bool → List A → List A
selected (true ∷ flags) (x ∷ xs) = x ∷ selected flags xs
selected (false ∷ flags) (x ∷ xs) = selected flags xs
selected _ _ = []

abbrev under {ℓ} : {A : Type ℓ} → Bool → List (A × List Bool) → List (A × List Bool)
under flag [] = []
under flag ((x, flags) ∷ ways) = (x, flag ∷ flags) ∷ under flag ways

abbrev pub clears {ℓ} : {A : Type ℓ} → List Bool → List A → List (A × List Bool)
clears (true ∷ flags) (x ∷ xs) = (x, false ∷ flags) ∷ under true (clears flags xs)
clears (false ∷ flags) (x ∷ xs) = under false (clears flags xs)
clears _ _ = []

abbrev pub every_flag {ℓ} : {A : Type ℓ} → List A → List Bool
every_flag xs = map (λ x. true) xs

-- `rule_position.get(name, len(rule_position))`, of a rule that names no source twice
abbrev position : List String → String → ℕ
position [] name = 0
position (n ∷ names) name = let rest = suc (position names name) in if n == name then 0 else rest

-- `left < right` of two tuples
abbrev earlier : List ℕ → List ℕ → Bool
earlier [] [] = false
earlier [] (n ∷ ns) = true
earlier (m ∷ ms) [] = false
earlier (m ∷ ms) (n ∷ ns) = let rest = earlier ms ns in if eqb m n then rest else ltb m n

pub record FixedRules (F : Type 0) : Type 0 where
  pub rule_order : Option (List String)
  pub is_rule_variant : Option (Variant F) → Bool

abbrev rule_names : {F : Type 0} → FixedRules F → List String
rule_names rules = elim rules.rule_order [ none ↦ [] | some names ↦ names ]

module _ {F : Type 0} (floats : Floats F) (problem : Problem F) (rules : FixedRules F) where
  open floats use {plus, minus, times, less, at_most}

  -- The cheapest known way to have read a set: its cost and its order
  abbrev pub Way : Type 0
  Way = F × ReadOrder

  closeness : ReadOrder → List ℕ
  closeness order = map (position (rule_names rules)) (order_names order)

  abbrev tolerance : F → F
  tolerance cost = times floats.tiny (larger_of floats floats.one cost)

  abbrev pub improves : F → ReadOrder → Way → Bool
  unfolding closeness
  improves cost order (old, old_order) =
      less cost (minus old (tolerance cost))
      || (at_most (floats.magnitude (minus cost old)) (tolerance cost)
          && earlier (closeness order) (closeness old_order))

  abbrev pub better : Way → Option Way → Option Way
  unfolding improves
  better way none = some way
  better way (some old) = if improves way.0 way.1 old then some way else some old

  -- `None if not read else problem.keys_after(read)`
  abbrev pub keys_known : List (SourceInput F) → Option F
  unfolding keys_after
  keys_known [] = none
  keys_known (s ∷ sources) = some (keys_after floats problem (names_of (s ∷ sources)))

  abbrev pub after_read : SourceInput F → Way → Option (Read F × Bool) → Option Way
  after_read source way none = none
  after_read source (cost, order) (some (read, restricted)) =
      some (plus cost read.latency, order ++ ((source.name, restricted) ∷ []))

  -- One more read after the cheapest way to have read the others
  abbrev pub extended : SourceInput F → List Bool → Option Way → Result (Option Way)
  unfolding best_read keys_known
  extended source flags none = ok none
  extended source flags (some way) = do
    outcome ←
        best_read floats problem source (keys_known (selected flags (narrowing floats problem)))
    ok (after_read source way outcome)

  abbrev pub keep_better : Option Way → Option Way → Option Way
  unfolding better
  keep_better none candidate = candidate
  keep_better (some way) candidate = better way candidate

  abbrev pub best_last :
      (List Bool → Result (Option Way))
      → List (SourceInput F × List Bool)
      → Option Way
      → Result (Option Way)
  unfolding extended keep_better
  best_last before [] candidate = ok candidate
  best_last before ((source, flags) ∷ ways) candidate = do
    previous ← before flags
    way ← extended source flags previous
    best_last before ways (keep_better way candidate)

  -- `best[0]` is the way to have read nothing.
  abbrev pub way_of : List (SourceInput F) → Option Way → Option Way
  way_of [] rest = some (floats.zero, [])
  way_of (s ∷ sources) rest = rest

  -- `best[mask]`
  unfoldable pub best_way : ℕ → List Bool → Result (Option Way)
  unfolding best_last
  best_way zero flags = ok none
  best_way (suc fuel) flags = do
    rest ← best_last (best_way fuel) (clears flags (narrowing floats problem)) none
    ok (way_of (selected flags (narrowing floats problem)) rest)

  abbrev pub rounds : ℕ
  rounds = suc (length (narrowing floats problem))

  -- `best.get(full)` and `best.get(anchor_last)`
  abbrev pub all_read : Result (Option Way)
  unfolding best_way
  all_read = best_way rounds (true ∷ every_flag problem.required_sources)

  abbrev pub required_read : Result (Option Way)
  unfolding best_way
  required_read = best_way rounds (false ∷ every_flag problem.required_sources)
