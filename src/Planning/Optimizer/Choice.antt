-- ===== src/Planning/Optimizer/Choice.antt =====
-- src/yodb/planning/optimizer.py: the proposals of `optimize`, their estimates, and the choice among
-- them.
use yo_db.Base.{
  ℕ, String, Bool, true, false, not, ◌&&◌, Option, none, some, List, [], ◌∷◌, ◌++◌, map,
}
use yo_db.Base.Lists.{length}
use yo_db.Base.Strings.{◌==◌}
use yo_db.Base.Tests.{ltb, eqb, if◌then◌else◌}
use yo_db.Errors.{Result, ok, ◌>>=◌}
use yo_db.Planning.Contracts.{StepRole, anchor, required, optional, shortlist, AssemblyStep}
use yo_db.Planning.Costs.{
  Floats, SourceInput, Problem, Variant, Candidates, Estimate, RankedRead, Read, StoreRead,
  is_within,
}
use yo_db.Planning.Costs.Reads.{
  narrowing, best_read, keys_after, ranked_read, store_read, ranking_objective, finish,
}
use yo_db.Planning.Optimizer.{
  ReadOrder, order_names, names_of, FixedRules, Way, keys_known, all_read, required_read,
}

-- The names of the start of an order are the rule's.
abbrev starts_as : List String → List String → Bool
starts_as [] names = true
starts_as (r ∷ rules) [] = false
starts_as (r ∷ rules) (n ∷ names) = r == n && starts_as rules names

pub record Proposal (F : Type 0) : Type 0 where
  pub latency : F
  pub order : ReadOrder
  pub candidates : Candidates F
  pub variant : Option (Variant F)

pub record PlanOption (F : Type 0) : Type 0 where
  pub objective : F
  pub estimate : Estimate F
  pub proposal : Proposal F

pub record OptimizerResult (F : Type 0) : Type 0 where
  pub schedule : List AssemblyStep
  pub variant : Option (Variant F)
  pub estimate : Estimate F
  pub objective : F
  pub candidates_considered : ℕ

module _ {F : Type 0} (floats : Floats F) (problem : Problem F) (rules : FixedRules F) where
  open floats use {plus, minus, times, less, at_most}

  unfoldable pub propose_plain :
      Option (Variant F) → Option (Way floats problem rules) → List (Proposal F)
  unfolding keys_after
  propose_plain variant none = []
  propose_plain variant (some (cost, order)) =
      let final = keys_after floats problem (names_of (narrowing floats problem)) in
      record {
        latency = cost;
        order = order;
        candidates = record { count = final; pool = final };
        variant = variant;
      }
      ∷ []

  abbrev pub ranked_proposal :
      Variant F → Way floats problem rules → Option (Read F × Candidates F) → List (Proposal F)
  ranked_proposal variant way none = []
  ranked_proposal variant (cost, order) (some (read, candidates)) =
      record {
        latency = plus cost read.latency;
        order =
            order
            ++ ((problem.anchor_source.name, not (eqb (length problem.required_sources) 0)) ∷ []);
        candidates = candidates;
        variant = some variant;
      }
      ∷ []

  unfoldable pub propose_ranked :
      Variant F → RankedRead F → Option (Way floats problem rules) → List (Proposal F)
  unfolding ranked_read keys_known
  propose_ranked variant demand none = []
  propose_ranked variant demand (some way) =
      ranked_proposal variant way (
        ranked_read floats problem (keys_known floats problem rules problem.required_sources)
          demand)

  abbrev pub store_proposal :
      Variant F
      → SourceInput F
      → Way floats problem rules
      → Option (StoreRead F)
      → List (Proposal F)
  store_proposal variant store way none = []
  store_proposal variant store (cost, order) (some read) =
      record {
        latency = plus cost read.latency;
        order =
            order
            ++ ((store.name, read.store_restricted)
                ∷ (problem.anchor_source.name, read.anchor_restricted)
                ∷ []);
        candidates = read.candidates;
        variant = some variant;
      }
      ∷ []

  unfoldable pub propose_store :
      Variant F
      → RankedRead F
      → Option (SourceInput F)
      → Option (Way floats problem rules)
      → Result (List (Proposal F))
  unfolding store_read keys_known
  propose_store variant demand (some store) (some way) = do
    outcome ←
        store_read floats problem (keys_known floats problem rules problem.required_sources) demand
    ok (store_proposal variant store way outcome)
  propose_store variant demand _ _ = ok []

  -- The two ways are to have read all the narrowing sources, and all but the anchor.
  unfoldable pub propose_demand :
      Variant F
      → Option (RankedRead F)
      → Option (Way floats problem rules)
      → Option (Way floats problem rules)
      → Result (List (Proposal F))
  unfolding propose_plain propose_ranked propose_store
  propose_demand variant none whole before = ok (propose_plain (some variant) whole)
  propose_demand variant (some demand) whole before =
      if demand.via_store
      then propose_store variant demand problem.store before
      else ok (propose_ranked variant demand before)

  unfoldable pub propose_each :
      List (Variant F)
      → Option (Way floats problem rules)
      → Option (Way floats problem rules)
      → Result (List (Proposal F))
  unfolding propose_demand
  propose_each [] whole before = ok []
  propose_each (v ∷ variants) whole before = do
    first ← propose_demand v v.demand whole before
    rest ← propose_each variants whole before
    ok (first ++ rest)

  -- The calls of `consider`
  unfoldable pub proposals :
      List (Variant F)
      → Option (Way floats problem rules)
      → Option (Way floats problem rules)
      → Result (List (Proposal F))
  unfolding propose_each propose_plain
  proposals [] whole before = ok (propose_plain none whole)
  proposals (v ∷ variants) whole before = propose_each (v ∷ variants) whole before

  -- The body of `consider`, of a plan that is feasible and within the limits
  unfoldable pub option_of : Proposal F → Option (Estimate F) → List (PlanOption F)
  unfolding ranking_objective is_within
  option_of proposal none = []
  option_of proposal (some estimate) =
      if is_within floats estimate problem.constraints
      then (record {
        objective = ranking_objective floats problem estimate proposal.variant;
        estimate = estimate;
        proposal = proposal;
      }
          ∷ [])
      else []

  unfoldable pub options_of : List (Proposal F) → Result (List (PlanOption F))
  unfolding option_of finish
  options_of [] = ok []
  options_of (p ∷ ps) = do
    estimate ← finish floats problem p.latency p.candidates p.variant
    rest ← options_of ps
    ok (option_of p estimate ++ rest)

  -- `matches_rules`
  matches_rules : Proposal F → Bool
  matches_rules proposal = elim rules.rule_order [
    | none ↦ false
    | some names ↦
        starts_as names (order_names proposal.order) && rules.is_rule_variant proposal.variant
  ]

  -- `rank(left) < rank(right)`
  unfoldable pub ranks_before : PlanOption F → PlanOption F → Bool
  unfolding matches_rules
  ranks_before left right =
      if floats.same left.objective right.objective
      then matches_rules left.proposal && not (matches_rules right.proposal)
      else less left.objective right.objective

  unfoldable pub first_of : PlanOption F → List (PlanOption F) → PlanOption F
  unfolding ranks_before
  first_of best [] = best
  first_of best (o ∷ options) = first_of (if ranks_before o best then o else best) options

  abbrev is_store : Option (SourceInput F) → String → Bool
  is_store none name = false
  is_store (some store) name = store.name == name

  role_of : String → StepRole
  role_of name =
      if problem.anchor_source.name == name
      then anchor
      else if is_store problem.store name
      then shortlist
      else required

  abbrev restricts : Option (Read F × Bool) → Bool
  restricts none = false
  restricts (some (read, restricted)) = restricted

  unfoldable pub read_steps : ReadOrder → List AssemblyStep
  unfolding role_of
  read_steps order =
      map
        (λ (name, restricted). record {
          source_name = name;
          role = role_of name;
          restrict = restricted;
        })
        order

  unfoldable pub optional_steps : F → List (SourceInput F) → Result (List AssemblyStep)
  unfolding best_read
  optional_steps count [] = ok []
  optional_steps count (s ∷ sources) = do
    outcome ← best_read floats problem s (some count)
    rest ← optional_steps count sources
    ok (record { source_name = s.name; role = optional; restrict = restricts outcome } ∷ rest)

  unfoldable pub result_of : ℕ → PlanOption F → Result (OptimizerResult F)
  unfolding read_steps optional_steps
  result_of considered chosen = do
    others ← optional_steps chosen.proposal.candidates.count problem.optional_sources
    ok (record {
      schedule = read_steps chosen.proposal.order ++ others;
      variant = chosen.proposal.variant;
      estimate = chosen.estimate;
      objective = chosen.objective;
      candidates_considered = considered;
    })

  unfoldable pub choose : ℕ → List (PlanOption F) → Result (Option (OptimizerResult F))
  unfolding first_of result_of
  choose considered [] = ok none
  choose considered (o ∷ options) = do
    result ← result_of considered (first_of o options)
    ok (some result)

  -- `optimize`; `none` is a `Fallback`. An exception of `math.ceil` leaves it; which of two would be
  -- first is not modelled.
  unfoldable pub optimize : Result (Option (OptimizerResult F))
  unfolding all_read required_read proposals options_of choose
  optimize =
      if ltb problem.params.maximum_dp_sources (length (narrowing floats problem))
      then ok none
      else do
        whole ← all_read floats problem rules
        before ← required_read floats problem rules
        found ← proposals problem.variants whole before
        options ← options_of found
        choose (length found) options
