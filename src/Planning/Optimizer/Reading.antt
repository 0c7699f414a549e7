-- ===== src/Planning/Optimizer/Reading.antt =====
-- The cheapest way to read a set of sources reads each of them once (planning/optimizer.py, the table
-- `best`).
use mathlib.Core.List.{Perm, perm_append_singleton, map-append}
use mathlib.Core.List.Perm
use mathlib.Core.Path.{subst}
use yo_db.Base.{
  ℕ, zero, suc, String, ◌≡◌, refl, ap, sym, inl, inr, Bool, true, false, Option, none, some, List,
  [], ◌∷◌, ◌++◌,
}
use yo_db.Base.Lists.{All}
use yo_db.Base.Tests.{Bool-cases}
use yo_db.Errors.{Result}
use yo_db.Errors.Ensures.{Ensures, Ensures-bind, Ensures-self}
use yo_db.Planning.Costs.{Floats, SourceInput, Problem, Read}
use yo_db.Planning.Costs.Reads.{narrowing, best_read}
use yo_db.Planning.Optimizer.{
  ReadOrder, order_names, names_of, selected, under, clears, every_flag, FixedRules, Way, improves,
  better, extended, keep_better, best_last, way_of, after_read, best_way, rounds, all_read,
  required_read, keys_known,
}

-- What holds of the value, if there is one.
abbrev pub Found : {A : Type 0} → (A → Type 0) → Option A → Type 0
Found P none = Unit
Found P (some a) = P a

module _ {F : Type 0} where
  -- The source and those of the smaller set are those of the set.
  abbrev IsCleared : List Bool → List (SourceInput F) → SourceInput F × List Bool → Type 0
  IsCleared flags sources (s, fewer) =
      Perm (s.name ∷ names_of (selected fewer sources)) (names_of (selected flags sources))

  under-IsCleared :
      (flag : Bool) (x : SourceInput F) (flags : List Bool) (xs : List (SourceInput F))
      (ways : List (SourceInput F × List Bool))
      → All (IsCleared flags xs) ways
      → All (IsCleared (flag ∷ flags) (x ∷ xs)) (under flag ways)
  under-IsCleared flag x flags xs [] h = tt
  under-IsCleared true x flags xs ((s, fewer) ∷ ways) h = (
    Perm.trans (Perm.swap x.name s.name (names_of (selected fewer xs))) (Perm.cons x.name h.0),
    under-IsCleared true x flags xs ways h.1,
  )
  under-IsCleared false x flags xs ((s, fewer) ∷ ways) h =
      (h.0, under-IsCleared false x flags xs ways h.1)

  clears-IsCleared :
      (flags : List Bool) (sources : List (SourceInput F))
      → All (IsCleared flags sources) (clears flags sources)
  clears-IsCleared [] sources = tt
  clears-IsCleared (true ∷ flags) [] = tt
  clears-IsCleared (false ∷ flags) [] = tt
  clears-IsCleared (true ∷ flags) (x ∷ xs) =
      (Perm.rfl, under-IsCleared true x flags xs (clears flags xs) (clears-IsCleared flags xs))
  clears-IsCleared (false ∷ flags) (x ∷ xs) =
      under-IsCleared false x flags xs (clears flags xs) (clears-IsCleared flags xs)

  pub selected_all :
      (sources : List (SourceInput F)) → selected (every_flag sources) sources ≡ sources
  selected_all [] = refl
  selected_all (s ∷ sources) = ap (λ l. s ∷ l) (selected_all sources)

module _ {F : Type 0} (floats : Floats F) (problem : Problem F) (rules : FixedRules F) where
  -- The order reads each of the sources, in some order.
  abbrev pub Reads : List String → Way floats problem rules → Type 0
  Reads names way = Perm (order_names way.1) names

  pub with_last :
      (name : String) (restricted : Bool) (order : ReadOrder) (names : List String)
      → Perm (order_names order) names
      → Perm (order_names (order ++ ((name, restricted) ∷ []))) (name ∷ names)
  with_last name restricted order names h =
      subst (λ l. Perm l (name ∷ names))
        (sym (map-append (λ read. read.0) order ((name, restricted) ∷ [])))
        (Perm.trans (perm_append_singleton name (order_names order)) (Perm.cons name h))

  weaker :
      (names fewer : List String)
      → Perm fewer names
      → (way : Option (Way floats problem rules)) → Found (Reads fewer) way
      → Found (Reads names) way
  weaker names fewer p none h = tt
  weaker names fewer p (some way) h = Perm.trans h p

  after_read-Reads :
      (source : SourceInput F) (names : List String) (way : Way floats problem rules)
      (found : Option (Read F × Bool))
      → Reads names way
      → Found (Reads (source.name ∷ names)) (after_read floats problem rules source way found)
  after_read-Reads source names (cost, order) none h = tt
  after_read-Reads source names (cost, order) (some (read, restricted)) h =
      with_last source.name restricted order names h

  extended-Reads :
      (source : SourceInput F) (flags : List Bool) (names : List String)
      (before : Option (Way floats problem rules))
      → Found (Reads names) before
      → Ensures
          (Found (Reads (source.name ∷ names)))
          (extended floats problem rules source flags before)
  unfolding extended
  extended-Reads source flags names none h = tt
  extended-Reads source flags names (some way) h =
      Ensures-bind (λ _. Unit {0}) (Found (Reads (source.name ∷ names)))
        (best_read floats problem source
          (keys_known floats problem rules (selected flags (narrowing floats problem))))
        _ (Ensures-self (λ _. Unit {0}) _ (λ _ _. tt))
        λ outcome _. after_read-Reads source names way outcome h

  keep-Reads :
      (names : List String) (way candidate : Option (Way floats problem rules))
      → Found (Reads names) way
      → Found (Reads names) candidate
      → Found (Reads names) (keep_better floats problem rules way candidate)
  unfolding keep_better better
  keep-Reads names none candidate h k = k
  keep-Reads names (some way) none h k = h
  keep-Reads names (some way) (some old) h k =
      elim (Bool-cases (improves floats problem rules way.0 way.1 old)) [
        | inl e ↦ rw e h
        | inr e ↦ rw e k
      ]

  best_last-Reads :
      (names : List String) (before : List Bool → Result (Option (Way floats problem rules)))
      → ((flags : List Bool)
          → Ensures
              (Found (Reads (names_of (selected flags (narrowing floats problem)))))
              (before flags))
      → (ways : List (SourceInput F × List Bool))
      → All
          (λ way. Perm (way.0.name ∷ names_of (selected way.1 (narrowing floats problem))) names)
          ways
      → (candidate : Option (Way floats problem rules)) → Found (Reads names) candidate
      → Ensures (Found (Reads names)) (best_last floats problem rules before ways candidate)
  unfolding best_last
  best_last-Reads names before h [] k candidate c = c
  best_last-Reads names before h ((source, flags) ∷ ways) k candidate c =
      let fewer = names_of (selected flags (narrowing floats problem)) in
      Ensures-bind (Found (Reads fewer)) (Found (Reads names)) (before flags) _ (h flags)
        λ previous p.
          Ensures-bind (Found (Reads (source.name ∷ fewer))) (Found (Reads names))
            (extended floats problem rules source flags previous) _
            (extended-Reads source flags fewer previous p)
            λ way w.
              best_last-Reads names before h ways k.1
                (keep_better floats problem rules way candidate)
                (keep-Reads names way candidate (weaker names (source.name ∷ fewer) k.0 way w) c)

  way_of-Reads :
      (sources : List (SourceInput F)) (rest : Option (Way floats problem rules))
      → Found (Reads (names_of sources)) rest
      → Found (Reads (names_of sources)) (way_of floats problem rules sources rest)
  way_of-Reads [] rest h = Perm.rfl
  way_of-Reads (s ∷ sources) rest h = h

  best_way-Reads :
      (fuel : ℕ) (flags : List Bool)
      → Ensures
          (Found (Reads (names_of (selected flags (narrowing floats problem)))))
          (best_way floats problem rules fuel flags)
  unfolding best_way
  best_way-Reads zero flags = tt
  best_way-Reads (suc fuel) flags =
      let names = names_of (selected flags (narrowing floats problem)) in
      Ensures-bind (Found (Reads names)) (Found (Reads names))
        (best_last floats problem rules (best_way floats problem rules fuel)
          (clears flags (narrowing floats problem)) none)
        _
        (best_last-Reads names (best_way floats problem rules fuel) (best_way-Reads fuel)
          (clears flags (narrowing floats problem))
          (clears-IsCleared flags (narrowing floats problem)) none tt)
        λ rest h. way_of-Reads (selected flags (narrowing floats problem)) rest h

  selected_every_flag :
      names_of (selected (every_flag problem.required_sources) problem.required_sources)
      ≡ names_of problem.required_sources
  selected_every_flag = ap names_of (selected_all problem.required_sources)

  pub all_read-Reads :
      Ensures (Found (Reads (names_of (narrowing floats problem)))) (all_read floats problem rules)
  unfolding all_read
  all_read-Reads =
      subst (λ l. Ensures (Found (Reads l)) (all_read floats problem rules))
        (ap (λ l. problem.anchor_source.name ∷ l) selected_every_flag)
        (best_way-Reads (rounds floats problem rules) (true ∷ every_flag problem.required_sources))

  pub required_read-Reads :
      Ensures
        (Found (Reads (names_of problem.required_sources)))
        (required_read floats problem rules)
  unfolding required_read
  required_read-Reads =
      subst (λ l. Ensures (Found (Reads l)) (required_read floats problem rules))
        selected_every_flag
        (best_way-Reads (rounds floats problem rules) (false ∷ every_flag problem.required_sources))
