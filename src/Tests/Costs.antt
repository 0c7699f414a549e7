-- ===== src/Tests/Costs.antt =====
-- A problem of three sources, with whole numbers for Python's floats.
use yo_db.Base.{
  ℕ, String, ◌≡◌, refl, true, false, Option, none, some, List, [], ◌∷◌, ◌+◌, ◌*◌, ◌-◌, ◌/◌, map,
}
use yo_db.Base.Tests.{ltb, leb, eqb}
use yo_db.Errors.{Result, ok, crash, overflow_error}
use yo_db.Errors.Ensures.{Ensures}
use yo_db.Planning.Contracts.{StepRole, anchor, required, optional}
use yo_db.Planning.Costs.{Floats, SourceInput, Problem}
use yo_db.Planning.Costs.Reads.{bound}
use yo_db.Planning.Optimizer.{FixedRules}
use yo_db.Planning.Optimizer.Choice.{OptimizerResult, optimize}
use yo_db.Planning.Optimizer.Reading.{Found}
use yo_db.Planning.Optimizer.Returning.{optimize-returns_schedule}
use yo_db.Planning.Optimizer.Scheduled.{IsScheduled, optimize-IsScheduled}

abbrev whole : Floats ℕ
whole = record {
  zero = 0;
  one = 1;
  tiny = 0;
  plus = λ a b. a + b;
  minus = λ a b. a - b;
  times = λ a b. a * b;
  divide = λ a b. a / b;
  less = ltb;
  at_most = leb;
  same = eqb;
  magnitude = λ a. a;
  of_nat = λ n. n;
  ceiling = λ n. ok n;
  is_finite = λ n. true;
}

abbrev source : String → StepRole → ℕ → SourceInput ℕ
source name role rows = record {
  name = name;
  role = role;
  total_rows = rows;
  filtered_rows = rows;
  profile = record { call_latency_ms = 2; per_row_latency_ms = 1; per_key_latency_ms = 1 };
  key_limit = some 10;
  row_cap = none;
}

abbrev three_sources : Problem ℕ
three_sources = record {
  params = record {
    money_weight = 1;
    approximation_min_saving = 0;
    unpushed_filter_selectivity = 1;
    maximum_dp_sources = 4;
  };
  transfer_bound = some 20;
  key_batches = 3;
  variants = [];
  constraints = record { maximum_money = some 5; maximum_latency_ms = some 100 };
  anchor_source = source "people" anchor 9;
  required_sources = source "orders" required 4 ∷ [];
  optional_sources = source "notes" optional 3 ∷ [];
  store = none;
}

abbrev no_rules : FixedRules ℕ
no_rules = record { rule_order = none; is_rule_variant = λ variant. false }

optimize_example :
    Ensures
      (Found (IsScheduled whole three_sources no_rules))
      (optimize whole three_sources no_rules)
optimize_example = optimize-IsScheduled whole three_sources no_rules

abbrev unlimited : Problem ℕ
unlimited = record {
  params = three_sources.params;
  transfer_bound = none;
  key_batches = 3;
  variants = [];
  constraints = record { maximum_money = none; maximum_latency_ms = none };
  anchor_source = three_sources.anchor_source;
  required_sources = three_sources.required_sources;
  optional_sources = three_sources.optional_sources;
  store = none;
}

optimize-returns_schedule_example :
    (result : OptimizerResult ℕ) × ((optimize whole unlimited no_rules ≡ ok (some result))
      × IsScheduled whole unlimited no_rules result)
unfolding bound
optimize-returns_schedule_example =
    optimize-returns_schedule whole unlimited no_rules refl refl ((refl, refl), ((refl, refl), tt))
      ((refl, refl), tt) refl refl

abbrev names_read : Result (Option (OptimizerResult ℕ)) → List String
names_read (ok (some result)) = map (λ step. step.source_name) result.schedule
names_read _ = []

orders_first :
    names_read (optimize whole three_sources no_rules) ≡ "orders" ∷ "people" ∷ "notes" ∷ []
unfolding optimize
orders_first = refl

-- The same problem where `math.ceil` raises, as on an infinite number of rows
abbrev infinite : Floats ℕ
infinite = record whole { ceiling = λ n. crash overflow_error }

infinite_raises : optimize infinite three_sources no_rules ≡ crash overflow_error
unfolding optimize
infinite_raises = refl
