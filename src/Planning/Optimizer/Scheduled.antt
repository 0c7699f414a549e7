-- ===== src/Planning/Optimizer/Scheduled.antt =====
-- The schedule that `optimize` gives reads every source.
use mathlib.Core.List.{Perm}
use mathlib.Core.List.Perm
use yo_db.Base.{
  ℕ, String, ◌≡◌, ◌∙◌, ◌⊎◌, refl, ap, inl, inr, Bool, true, not, Option, none, some, List, [], ◌∷◌,
  ◌++◌, map,
}
use yo_db.Base.Lists.{All, All-append_iff, length}
use yo_db.Base.Tests.{either_holds, eqb, ltb, if◌then◌else◌, Bool-cases}
use yo_db.Planning.Costs.{
  Floats, SourceInput, Problem, Variant, Candidates, Estimate, RankedRead, Read, StoreRead,
  is_within,
}
use yo_db.Planning.Costs.Reads.{best_read, narrowing, ranked_read, store_read, finish}
use yo_db.Errors.{ok}
use yo_db.Errors.Ensures.{Ensures, Ensures-bind, Ensures-self}
use yo_db.Planning.Contracts.{AssemblyStep}
use yo_db.Planning.Optimizer.Reading.{Found, Reads, with_last, all_read-Reads, required_read-Reads}
use yo_db.Planning.Optimizer.{
  ReadOrder, order_names, names_of, FixedRules, Way, all_read, required_read, keys_known,
}
use yo_db.Planning.Optimizer.Choice.{
  Proposal, PlanOption, OptimizerResult, ranked_proposal, store_proposal, propose_plain,
  propose_ranked, propose_store, propose_demand, propose_each, proposals, option_of, options_of,
  first_of, ranks_before, read_steps, optional_steps, result_of, choose, optimize,
}

module _ {F : Type 0} (floats : Floats F) (problem : Problem F) (rules : FixedRules F) where
  with_last_two :
      (a b : String × Bool) (order : ReadOrder)
      → Perm (order_names (order ++ (a ∷ b ∷ []))) (a.0 ∷ b.0 ∷ order_names order)
  with_last_two a b [] = Perm.rfl
  with_last_two a b (c ∷ order) = Perm.trans (Perm.cons c.0 (with_last_two a b order)) (
      Perm.trans (Perm.swap a.0 c.0 (b.0 ∷ order_names order))
        (Perm.cons a.0 (Perm.swap b.0 c.0 (order_names order))))

  -- The names are those of the anchor and the required sources, in some order, and perhaps the
  -- store's.
  abbrev pub ReadsSources : List String → Type 0
  ReadsSources names =
      Perm names (names_of (narrowing floats problem))
      ⊎ ((store : SourceInput F) × ((problem.store ≡ some store)
            × Perm names (store.name ∷ names_of (narrowing floats problem))))

  abbrev Proposes : Proposal F → Type 0
  Proposes proposal = ReadsSources (order_names proposal.order)

  propose_plain-Proposes :
      (variant : Option (Variant F)) (way : Option (Way floats problem rules))
      → Found (Reads floats problem rules (names_of (narrowing floats problem))) way
      → All Proposes (propose_plain floats problem rules variant way)
  unfolding propose_plain
  propose_plain-Proposes variant none h = tt
  propose_plain-Proposes variant (some (cost, order)) h = (inl h, tt)

  ranked_proposal-Proposes :
      (variant : Variant F) (way : Way floats problem rules)
      (found : Option (Read F × Candidates F))
      → Reads floats problem rules (names_of problem.required_sources) way
      → All Proposes (ranked_proposal floats problem rules variant way found)
  ranked_proposal-Proposes variant way none h = tt
  ranked_proposal-Proposes variant (cost, order) (some (read, candidates)) h = (
    inl (
        with_last floats problem rules problem.anchor_source.name
          (not (eqb (length problem.required_sources) 0)) order (names_of problem.required_sources)
          h),
    tt,
  )

  propose_ranked-Proposes :
      (variant : Variant F) (demand : RankedRead F) (way : Option (Way floats problem rules))
      → Found (Reads floats problem rules (names_of problem.required_sources)) way
      → All Proposes (propose_ranked floats problem rules variant demand way)
  unfolding propose_ranked
  propose_ranked-Proposes variant demand none h = tt
  propose_ranked-Proposes variant demand (some way) h =
      ranked_proposal-Proposes variant way
        (ranked_read floats problem (keys_known floats problem rules problem.required_sources)
          demand)
        h

  store_proposal-Proposes :
      (variant : Variant F) (store : SourceInput F) (way : Way floats problem rules)
      (found : Option (StoreRead F))
      → problem.store ≡ some store
      → Reads floats problem rules (names_of problem.required_sources) way
      → All Proposes (store_proposal floats problem rules variant store way found)
  store_proposal-Proposes variant store way none e h = tt
  store_proposal-Proposes variant store (cost, order) (some read) e h = (
    inr (
      store,
      (
        e,
        Perm.trans
            (with_last_two (store.name, read.store_restricted)
              (problem.anchor_source.name, read.anchor_restricted) order)
            (Perm.cons store.name (Perm.cons problem.anchor_source.name h)),
      ),
    ),
    tt,
  )

  abbrev Whole : Option (Way floats problem rules) → Type 0
  Whole way = Found (Reads floats problem rules (names_of (narrowing floats problem))) way

  abbrev Before : Option (Way floats problem rules) → Type 0
  Before way = Found (Reads floats problem rules (names_of problem.required_sources)) way

  propose_store-Proposes :
      (variant : Variant F) (demand : RankedRead F) (store : Option (SourceInput F))
      (way : Option (Way floats problem rules))
      → problem.store ≡ store
      → Before way
      → Ensures (All Proposes) (propose_store floats problem rules variant demand store way)
  unfolding propose_store
  propose_store-Proposes variant demand none none e h = tt
  propose_store-Proposes variant demand none (some way) e h = tt
  propose_store-Proposes variant demand (some store) none e h = tt
  propose_store-Proposes variant demand (some store) (some way) e h =
      Ensures-bind (λ _. Unit {0}) (All Proposes)
        (store_read floats problem (keys_known floats problem rules problem.required_sources)
          demand)
        _ (Ensures-self (λ _. Unit {0}) _ (λ _ _. tt))
        λ outcome _. store_proposal-Proposes variant store way outcome e h

  module _ (whole before : Option (Way floats problem rules)) (h : Whole whole)
      (k : Before before) where
    propose_demand-Proposes :
        (variant : Variant F) (demand : Option (RankedRead F))
        → Ensures (All Proposes) (propose_demand floats problem rules variant demand whole before)
    unfolding propose_demand
    propose_demand-Proposes variant none = propose_plain-Proposes (some variant) whole h
    propose_demand-Proposes variant (some demand) =
        either_holds (Ensures (All Proposes)) demand.via_store
          (propose_store floats problem rules variant demand problem.store before)
          (ok (propose_ranked floats problem rules variant demand before))
          (propose_store-Proposes variant demand problem.store before refl k)
          (propose_ranked-Proposes variant demand before k)

    propose_each-Proposes :
        (variants : List (Variant F))
        → Ensures (All Proposes) (propose_each floats problem rules variants whole before)
    unfolding propose_each
    propose_each-Proposes [] = tt
    propose_each-Proposes (v ∷ variants) =
        Ensures-bind (All Proposes) (All Proposes)
          (propose_demand floats problem rules v v.demand whole before) _
          (propose_demand-Proposes v v.demand)
          λ first p.
            Ensures-bind (All Proposes) (All Proposes)
              (propose_each floats problem rules variants whole before) _
              (propose_each-Proposes variants)
              λ rest q. (All-append_iff Proposes first rest).1 (p, q)

    proposals-Proposes :
        (variants : List (Variant F))
        → Ensures (All Proposes) (proposals floats problem rules variants whole before)
    unfolding proposals
    proposals-Proposes [] = propose_plain-Proposes none whole h
    proposals-Proposes (v ∷ variants) = propose_each-Proposes (v ∷ variants)

  -- The option proposes sound reads and its cost is within the limits.
  abbrev IsFeasible : PlanOption F → Type 0
  IsFeasible option =
      Proposes option.proposal × (is_within floats option.estimate problem.constraints ≡ true)

  option_of-IsFeasible :
      (proposal : Proposal F) (estimate : Option (Estimate F))
      → Proposes proposal
      → All IsFeasible (option_of floats problem rules proposal estimate)
  unfolding option_of
  option_of-IsFeasible proposal none h = tt
  option_of-IsFeasible proposal (some estimate) h =
      elim (Bool-cases (is_within floats estimate problem.constraints)) [
        | inl e ↦ rw e ((h, e), tt)
        | inr e ↦ rw e tt
      ]

  options_of-IsFeasible :
      (ps : List (Proposal F))
      → All Proposes ps
      → Ensures (All IsFeasible) (options_of floats problem rules ps)
  unfolding options_of
  options_of-IsFeasible [] h = tt
  options_of-IsFeasible (p ∷ ps) h =
      Ensures-bind (λ _. Unit {0}) (All IsFeasible)
        (finish floats problem p.latency p.candidates p.variant) _
        (Ensures-self (λ _. Unit {0}) _ (λ _ _. tt))
        λ estimate _.
          Ensures-bind (All IsFeasible) (All IsFeasible) (options_of floats problem rules ps) _
            (options_of-IsFeasible ps h.1)
            λ rest k.
              (All-append_iff IsFeasible (option_of floats problem rules p estimate) rest).1
                (option_of-IsFeasible p estimate h.0, k)

  first_of-IsFeasible :
      (best : PlanOption F) (options : List (PlanOption F))
      → IsFeasible best
      → All IsFeasible options
      → IsFeasible (first_of floats problem rules best options)
  unfolding first_of
  first_of-IsFeasible best [] h k = h
  first_of-IsFeasible best (o ∷ options) h k =
      first_of-IsFeasible (if ranks_before floats problem rules o best then o else best) options
        (either_holds IsFeasible (ranks_before floats problem rules o best) o best k.0 h) k.1

  -- The steps read the anchor and the required sources once each, perhaps the store, and then the
  -- optional sources; the cost is within the limits.
  abbrev pub IsScheduled : OptimizerResult F → Type 0
  IsScheduled result =
      ((names : List String) × (ReadsSources names
          × (map (λ step. step.source_name) result.schedule
              ≡ names ++ names_of problem.optional_sources)))
      × (is_within floats result.estimate problem.constraints ≡ true)

  read_steps-names :
      (order : ReadOrder) (others : List AssemblyStep)
      → map (λ step. step.source_name) (read_steps floats problem rules order ++ others)
        ≡ order_names order ++ map (λ step. step.source_name) others
  unfolding read_steps
  read_steps-names [] others = refl
  read_steps-names (read ∷ order) others = ap (λ l. read.0 ∷ l) (read_steps-names order others)

  optional_steps-names :
      (count : F) (sources : List (SourceInput F))
      → Ensures
          (λ steps. map (λ step. step.source_name) steps ≡ names_of sources)
          (optional_steps floats problem rules count sources)
  unfolding optional_steps
  optional_steps-names count [] = refl
  optional_steps-names count (s ∷ sources) =
      let Names = λ (steps : List AssemblyStep).
        map (λ step. step.source_name) steps ≡ names_of (s ∷ sources) in
      Ensures-bind (λ _. Unit {0}) Names (best_read floats problem s (some count)) _
        (Ensures-self (λ _. Unit {0}) _ (λ _ _. tt))
        λ outcome _.
          Ensures-bind (λ steps. map (λ step. step.source_name) steps ≡ names_of sources) Names
            (optional_steps floats problem rules count sources) _
            (optional_steps-names count sources) λ rest e. ap (λ l. s.name ∷ l) e

  result_of-IsScheduled :
      (considered : ℕ) (chosen : PlanOption F)
      → IsFeasible chosen
      → Ensures IsScheduled (result_of floats problem rules considered chosen)
  unfolding result_of
  result_of-IsScheduled considered chosen (h, within) =
      Ensures-bind _ IsScheduled
        (optional_steps floats problem rules chosen.proposal.candidates.count
          problem.optional_sources)
        _ (optional_steps-names chosen.proposal.candidates.count problem.optional_sources)
        λ others e. (
          (
            order_names chosen.proposal.order,
            (
              h,
              read_steps-names chosen.proposal.order others
                  ∙ ap (λ l. order_names chosen.proposal.order ++ l) e,
            ),
          ),
          within,
        )

  choose-IsScheduled :
      (considered : ℕ) (options : List (PlanOption F))
      → All IsFeasible options
      → Ensures (Found IsScheduled) (choose floats problem rules considered options)
  unfolding choose
  choose-IsScheduled considered [] h = tt
  choose-IsScheduled considered (o ∷ options) h =
      Ensures-bind IsScheduled (Found IsScheduled)
        (result_of floats problem rules considered (first_of floats problem rules o options)) _
        (result_of-IsScheduled considered (first_of floats problem rules o options)
          (first_of-IsFeasible o options h.0 h.1))
        λ result k. k

  -- When `optimize` chooses a schedule, its first steps read the anchor and the required sources,
  -- once each and in some order, and perhaps the store; the other steps are the optional sources in
  -- their order; and the estimated cost is within the limits of the problem.
  pub optimize-IsScheduled : Ensures (Found IsScheduled) (optimize floats problem rules)
  unfolding optimize
  optimize-IsScheduled =
      either_holds (Ensures (Found IsScheduled))
        (ltb problem.params.maximum_dp_sources (length (narrowing floats problem))) (ok none) _ tt
        (Ensures-bind Whole (Found IsScheduled) (all_read floats problem rules) _
          (all_read-Reads floats problem rules)
          λ whole h.
            Ensures-bind Before (Found IsScheduled) (required_read floats problem rules) _
              (required_read-Reads floats problem rules)
              λ before k.
                Ensures-bind (All Proposes) (Found IsScheduled)
                  (proposals floats problem rules problem.variants whole before) _
                  (proposals-Proposes whole before h k problem.variants)
                  λ found p.
                    Ensures-bind (All IsFeasible) (Found IsScheduled)
                      (options_of floats problem rules found) _ (options_of-IsFeasible found p)
                      λ options f. choose-IsScheduled (length found) options f)
