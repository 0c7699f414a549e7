-- ===== src/Planning/Optimizer/Returning.antt =====
-- A problem without caps, limits and variants has a schedule (planning/optimizer.py).
use mathlib.Core.Path.{subst}
use yo_db.Base.{
  ℕ, ◌≡◌, refl, ap, sym, ◌∙◌, Bool, true, false, Option, none, some, List, [], ◌∷◌, ◌++◌, map,
}
use yo_db.Base.Lists.{All, length}
use yo_db.Base.Tests.{ltb}
use yo_db.Errors.{Result, ok, ◌>>=◌}
use yo_db.Errors.Ensures.{Ensures-ok}
use yo_db.Errors.Returns.{Returns, Returns-bind, Returns-value}
use yo_db.Planning.Costs.{
  Floats, SourceInput, Problem, Constraints, Candidates, Estimate, Read, is_within,
}
use yo_db.Planning.Costs.Reads.{
  narrowing, keys_after, best_read, then_cost, optional_cost, with_optional, finish,
}
use yo_db.Planning.Optimizer.{every_flag, FixedRules, Way, rounds, all_read, required_read}
use yo_db.Planning.Optimizer.Choice.{
  first_of, optional_steps, result_of, Proposal, PlanOption, OptimizerResult, propose_plain,
  proposals, option_of, options_of, choose, optimize,
}
use yo_db.Planning.Optimizer.Reading.{Found}
use yo_db.Planning.Optimizer.Scheduled.{IsScheduled, optimize-IsScheduled}
use yo_db.Planning.Optimizer.Table.{
  HasValue, value_of, IsPlain, best_read-Gives, best_way-Returns, all_read-Gives,
}

module _ {F : Type 0} (floats : Floats F) (problem : Problem F) (rules : FixedRules F) where
  then_cost-Gives :
      (total : F) (found : Option (Read F × Bool)) (rest : F → Result (Option F))
      → HasValue found
      → ((sum : F) → Returns HasValue (rest sum))
      → Returns HasValue (then_cost floats problem total found rest)
  then_cost-Gives total none rest h k = elim h [ ]
  then_cost-Gives total (some (read, restricted)) rest h k = k (floats.plus total read.latency)

  optional_cost-Gives :
      (keys total : F) (sources : List (SourceInput F))
      → All (IsPlain floats problem rules) sources
      → Returns HasValue (optional_cost floats problem keys total sources)
  unfolding optional_cost
  optional_cost-Gives keys total [] h = tt
  optional_cost-Gives keys total (s ∷ sources) h =
      Returns-bind HasValue HasValue (best_read floats problem s (some keys)) _
        (best_read-Gives floats problem rules s (some keys) h.0)
        λ outcome k.
          then_cost-Gives total outcome (λ sum. optional_cost floats problem keys sum sources) k
            (λ sum. optional_cost-Gives keys sum sources h.1)

  with_optional-HasValue :
      (latency : F) (candidates : Candidates F) (cost : Option F)
      → HasValue cost
      → HasValue (with_optional floats problem latency candidates none cost)
  with_optional-HasValue latency candidates none h = elim h [ ]
  with_optional-HasValue latency candidates (some cost) h = tt

  finish-Gives :
      (latency : F) (candidates : Candidates F)
      → All (IsPlain floats problem rules) problem.optional_sources
      → Returns HasValue (finish floats problem latency candidates none)
  unfolding finish
  finish-Gives latency candidates h =
      Returns-bind HasValue HasValue
        (optional_cost floats problem candidates.count floats.zero problem.optional_sources) _
        (optional_cost-Gives candidates.count floats.zero problem.optional_sources h)
        λ cost k. with_optional-HasValue latency candidates cost k

  abbrev IsFilled {ℓ} : {A : Type ℓ} → List A → Type 0
  IsFilled [] = ⊥
  IsFilled (x ∷ xs) = Unit

  is_within_lem :
      (estimate : Estimate F) (constraints : Constraints F)
      → constraints.maximum_money ≡ none
      → constraints.maximum_latency_ms ≡ none
      → is_within floats estimate constraints ≡ true
  unfolding is_within
  is_within_lem estimate constraints e k = rw (e, k) refl

  option_of-IsFilled :
      (proposal : Proposal F) (estimate : Option (Estimate F))
      → problem.constraints.maximum_money ≡ none
      → problem.constraints.maximum_latency_ms ≡ none
      → HasValue estimate
      → IsFilled (option_of floats problem rules proposal estimate)
  unfolding option_of
  option_of-IsFilled proposal none e k h = elim h [ ]
  option_of-IsFilled proposal (some estimate) e k h =
      rw (is_within_lem estimate problem.constraints e k) tt

  optional_steps-Returns :
      (count : F) (sources : List (SourceInput F))
      → All (IsPlain floats problem rules) sources
      → Returns (λ _. Unit {0}) (optional_steps floats problem rules count sources)
  unfolding optional_steps
  optional_steps-Returns count [] h = tt
  optional_steps-Returns count (s ∷ sources) h =
      Returns-bind HasValue (λ _. Unit {0}) (best_read floats problem s (some count)) _
        (best_read-Gives floats problem rules s (some count) h.0)
        λ outcome _.
          Returns-bind (λ _. Unit {0}) (λ _. Unit {0})
            (optional_steps floats problem rules count sources) _
            (optional_steps-Returns count sources h.1) λ _ _. tt

  choose-Gives :
      (considered : ℕ) (options : List (PlanOption F))
      → All (IsPlain floats problem rules) problem.optional_sources
      → IsFilled options
      → Returns HasValue (choose floats problem rules considered options)
  unfolding choose result_of
  choose-Gives considered [] p h = elim h [ ]
  choose-Gives considered (o ∷ options) p h =
      let chosen = first_of floats problem rules o options in
      Returns-bind (λ _. Unit {0}) HasValue (result_of floats problem rules considered chosen) _
        (Returns-bind (λ _. Unit {0}) (λ _. Unit {0})
          (optional_steps floats problem rules chosen.proposal.candidates.count
            problem.optional_sources)
          _ (optional_steps-Returns chosen.proposal.candidates.count problem.optional_sources p)
          λ _ _. tt)
        λ _ _. tt

  IsFilled-append : {A : Type 0} (xs ys : List A) → IsFilled xs → IsFilled (xs ++ ys)
  IsFilled-append [] ys h = elim h [ ]
  IsFilled-append (x ∷ xs) ys h = tt

  plain_options-Gives :
      (way : Option (Way floats problem rules))
      → All (IsPlain floats problem rules) problem.optional_sources
      → problem.constraints.maximum_money ≡ none
      → problem.constraints.maximum_latency_ms ≡ none
      → HasValue way
      → Returns IsFilled
          (options_of floats problem rules (propose_plain floats problem rules none way))
  unfolding options_of propose_plain
  plain_options-Gives none p e k h = elim h [ ]
  plain_options-Gives (some (cost, order)) p e k h =
      let final = keys_after floats problem (map (λ s. s.name) (narrowing floats problem)) in
      let proposal : Proposal F = record {
        latency = cost;
        order = order;
        candidates = record { count = final; pool = final };
        variant = none;
      } in
      Returns-bind HasValue IsFilled (finish floats problem cost proposal.candidates none) _
        (finish-Gives cost proposal.candidates p)
        λ estimate filled.
          IsFilled-append (option_of floats problem rules proposal estimate) []
            (option_of-IsFilled proposal estimate e k filled)

  module _ (no_variants : problem.variants ≡ [])
      (few : ltb problem.params.maximum_dp_sources (length (narrowing floats problem)) ≡ false)
      (plain : All (IsPlain floats problem rules) (narrowing floats problem))
      (plain_others : All (IsPlain floats problem rules) problem.optional_sources)
      (no_money_limit : problem.constraints.maximum_money ≡ none)
      (no_latency_limit : problem.constraints.maximum_latency_ms ≡ none) where
    optimize-Gives : Returns HasValue (optimize floats problem rules)
    unfolding optimize proposals
    optimize-Gives = rw few (
        Returns-bind HasValue HasValue (all_read floats problem rules) _
          (all_read-Gives floats problem rules plain)
          λ whole h.
            Returns-bind (λ _. Unit {0}) HasValue (required_read floats problem rules) _
              (best_way-Returns floats problem rules plain (rounds floats problem rules)
                (false ∷ every_flag problem.required_sources))
              λ before _.
                subst
                  (λ variants. Returns HasValue (
                    proposals floats problem rules variants whole before >>= λ found.
                    options_of floats problem rules found >>= λ options.
                    choose floats problem rules (length found) options))
                  (sym no_variants)
                  (Returns-bind IsFilled HasValue
                    (options_of floats problem rules
                      (propose_plain floats problem rules none whole))
                    _ (plain_options-Gives whole plain_others no_money_limit no_latency_limit h)
                    λ options filled. choose-Gives _ options plain_others filled))

    -- For a problem without variants and limits, whose sources have no caps and are sent no keys, and
    -- whose narrowing sources are not more than the optimizer allows, `optimize` returns a schedule,
    -- whatever the floats do: its first steps read the anchor and the required sources once each, and
    -- perhaps the store, and the other steps are the optional sources in their order.
    pub optimize-returns_schedule :
        (result : OptimizerResult F) × ((optimize floats problem rules ≡ ok (some result))
          × IsScheduled floats problem rules result)
    optimize-returns_schedule =
        let (found, given) =
          Returns-value HasValue (optimize floats problem rules) optimize-Gives in
        let (result, e) = value_of found given.1 in
        (
          result,
          (
            given.0 ∙ ap (λ o. ok o) e,
            subst (Found (IsScheduled floats problem rules)) e (
                Ensures-ok (Found (IsScheduled floats problem rules))
                  (optimize floats problem rules) (optimize-IsScheduled floats problem rules)
                  given.0),
          ),
        )
