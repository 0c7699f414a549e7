-- ===== src/Planning/Costs.antt =====
-- src/yodb/planning/optimizer.py: the cost model of the optimizer: its records and their checks.
-- Python's floats are an interface, whose laws are not assumed; of its operations only `math.ceil` may
-- raise, since the code divides by no zero and counts stay in the range of a float. The payload of a
-- variant, which is handed back untouched, is left out.
pub mod Reads
use yo_db.Base.{
  ℕ, suc, String, Bool, true, false, not, ◌&&◌, ◌||◌, Option, none, some, List, [], ◌∷◌, map, min,
  max,
}
use yo_db.Base.Lists.{keep}
use yo_db.Base.Dicts.{contains}
use yo_db.Base.Tests.{ltb, eqb, if◌then◌else◌}
use yo_db.Errors.{Result, ok, crash, value_error, ◌>>=◌, ◌>>◌}
use yo_db.Planning.Contracts.{StepRole, anchor, required, optional, shortlist}

-- Python's `float`; `ceiling` is `math.ceil`, which raises on an infinity and on NaN.
pub record Floats (F : Type 0) : Type 0 where
  pub zero : F
  pub one : F
  pub tiny : F
  pub plus : F → F → F
  pub minus : F → F → F
  pub times : F → F → F
  pub divide : F → F → F
  pub less : F → F → Bool
  pub at_most : F → F → Bool
  pub same : F → F → Bool
  pub magnitude : F → F
  pub of_nat : ℕ → F
  pub ceiling : F → Result ℕ
  pub is_finite : F → Bool

pub record SourceCostProfile (F : Type 0) : Type 0 where
  pub call_latency_ms : F
  pub per_row_latency_ms : F
  pub per_key_latency_ms : F

pub record CostParameters (F : Type 0) : Type 0 where
  pub money_weight : F
  pub approximation_min_saving : F
  pub unpushed_filter_selectivity : F
  pub maximum_dp_sources : ℕ

pub record SourceInput (F : Type 0) : Type 0 where
  pub name : String
  pub role : StepRole
  pub total_rows : F
  pub filtered_rows : F
  pub profile : SourceCostProfile F
  pub key_limit : Option ℕ
  pub row_cap : Option ℕ

pub record Constraints (F : Type 0) : Type 0 where
  pub maximum_money : Option F
  pub maximum_latency_ms : Option F

pub record Estimate (F : Type 0) : Type 0 where
  pub latency_ms : F
  pub money : F

pub record RankedRead (F : Type 0) : Type 0 where
  pub shortlist_size : ℕ
  pub ranking_per_row_ms : F
  pub via_store : Bool

pub record Candidates (F : Type 0) : Type 0 where
  pub count : F
  pub pool : F

pub record StoreRead (F : Type 0) : Type 0 where
  pub latency : F
  pub candidates : Candidates F
  pub store_restricted : Bool
  pub anchor_restricted : Bool

pub record Variant (F : Type 0) : Type 0 where
  pub name : String
  pub cost : Candidates F → Option (Estimate F)
  pub demand : Option (RankedRead F)
  pub approximate : Bool

pub record Read (F : Type 0) : Type 0 where
  pub latency : F
  pub rows : F

pub record Problem (F : Type 0) : Type 0 where
  pub params : CostParameters F
  pub transfer_bound : Option ℕ
  pub key_batches : ℕ
  pub variants : List (Variant F)
  pub constraints : Constraints F
  pub anchor_source : SourceInput F
  pub required_sources : List (SourceInput F)
  pub optional_sources : List (SourceInput F)
  pub store : Option (SourceInput F)

abbrev pub is_role : StepRole → StepRole → Bool
is_role anchor anchor = true
is_role required required = true
is_role optional optional = true
is_role shortlist shortlist = true
is_role _ _ = false

abbrev pub repeated : List String → Bool
repeated [] = false
repeated (n ∷ ns) = contains n ns || repeated ns

module _ {F : Type 0} (floats : Floats F) where
  open floats use {plus, minus, times, divide, less, at_most, of_nat, ceiling, is_finite}

  abbrev pub smaller_of : F → F → F
  smaller_of a b = if less b a then b else a

  abbrev pub larger_of : F → F → F
  larger_of a b = if less a b then b else a

  abbrev allow {ℓ} : {A : Type ℓ} → Bool → A → Result A
  allow true value = ok value
  allow false value = crash value_error

  -- `CostParameters.__post_init__`
  unfoldable pub checked_parameters : CostParameters F → Result (CostParameters F)
  checked_parameters params =
      allow
        (is_finite params.money_weight
          && at_most floats.zero params.money_weight
          && less floats.zero params.unpushed_filter_selectivity
          && at_most params.unpushed_filter_selectivity floats.one
          && at_most floats.zero params.approximation_min_saving
          && less params.approximation_min_saving floats.one
          && not (ltb params.maximum_dp_sources 1))
        params

  -- `SourceInput.__post_init__`
  unfoldable pub checked_input : SourceInput F → Result (SourceInput F)
  checked_input source =
      allow (not (less source.total_rows floats.zero || less source.filtered_rows floats.zero))
        source

  -- `RankedRead.__post_init__`
  unfoldable pub checked_ranked_read : RankedRead F → Result (RankedRead F)
  checked_ranked_read demand =
      allow
        (not (ltb demand.shortlist_size 1)
          && is_finite demand.ranking_per_row_ms
          && at_most floats.zero demand.ranking_per_row_ms)
        demand

  abbrev first_store : List (SourceInput F) → Result (Option (SourceInput F))
  first_store [] = ok none
  first_store (s ∷ []) = ok (some s)
  first_store (s ∷ t ∷ stores) = crash value_error

  abbrev single_anchor : List (SourceInput F) → Result (SourceInput F)
  single_anchor (a ∷ []) = ok a
  single_anchor _ = crash value_error

  abbrev of_role : StepRole → List (SourceInput F) → List (SourceInput F)
  of_role role sources = keep (λ s. is_role s.role role) sources

  -- `Problem.__init__`
  unfoldable pub problem_of :
      List (SourceInput F)
      → CostParameters F
      → Option ℕ
      → ℕ
      → List (Variant F)
      → Constraints F
      → Result (Problem F)
  problem_of sources params transfer batches variants constraints = do
    found ← single_anchor (of_role anchor sources)
    allow (not (repeated (map (λ s. s.name) sources))) tt
    store ← first_store (of_role shortlist sources)
    ok (record {
      params = params;
      transfer_bound = transfer;
      key_batches = max 1 batches;
      variants = variants;
      constraints = constraints;
      anchor_source = found;
      required_sources = of_role required sources;
      optional_sources = of_role optional sources;
      store = store;
    })

  -- `Estimate.objective`
  unfoldable pub objective_of : CostParameters F → Estimate F → F
  objective_of params estimate = plus estimate.latency_ms (times params.money_weight estimate.money)

  abbrev pub below : F → Option F → Bool
  below value none = true
  below value (some most) = at_most value most

  -- `Estimate.within`
  unfoldable pub is_within : Estimate F → Constraints F → Bool
  is_within estimate constraints =
      below estimate.money constraints.maximum_money
      && below estimate.latency_ms constraints.maximum_latency_ms
