-- ===== src/Planning/Costs/Reads.antt =====
-- src/yodb/planning/optimizer.py: the functions of `Problem` that estimate a read, a ranked read, the
-- keys that are left after reads, and a whole plan.
use yo_db.Base.{ℕ, suc, String, Bool, true, false, Option, none, some, List, [], ◌∷◌, min, max}
use yo_db.Base.Lists.{keep}
use yo_db.Base.Dicts.{contains}
use yo_db.Base.Tests.{ltb, eqb, if◌then◌else◌}
use yo_db.Planning.Contracts.{optional}
use yo_db.Errors.{Result, ok, ◌>>=◌}
use yo_db.Planning.Costs.{
  Floats, SourceInput, Problem, Estimate, RankedRead, Candidates, StoreRead, Variant, Read, is_role,
  smaller_of, larger_of, objective_of,
}

module _ {F : Type 0} (floats : Floats F) (problem : Problem F) where
  open floats use {plus, minus, times, divide, less, at_most, of_nat, ceiling}
  open problem use {anchor_source, required_sources, optional_sources}

  abbrev pub narrowing : List (SourceInput F)
  narrowing = anchor_source ∷ required_sources

  abbrev universe : F
  universe = larger_of floats anchor_source.total_rows floats.zero

  -- `pass_fraction`
  unfoldable pub pass_fraction : SourceInput F → F
  pass_fraction source =
      if at_most universe floats.zero
      then floats.zero
      else if is_role source.role optional
      then smaller_of floats floats.one (divide source.total_rows universe)
      else smaller_of floats floats.one (divide source.filtered_rows universe)

  abbrev bound_of : Option ℕ → Option ℕ → Option ℕ
  bound_of (some transfer) (some limit) = some (min transfer limit)
  bound_of _ _ = none

  -- `bound`
  unfoldable pub bound : SourceInput F → Option ℕ
  bound source = bound_of problem.transfer_bound source.key_limit

  abbrev pub capped : Option ℕ → Read F → Option (Read F)
  capped none read = some read
  capped (some cap) read = if less (of_nat cap) read.rows then none else some read

  abbrev batches_of : F → ℕ → Result ℕ
  batches_of keys size =
      if eqb size 0
      then ok (suc problem.key_batches)
      else (ceiling (divide keys (of_nat size)) >>= λ count. ok (max 1 count))

  unfoldable pub restricted_read : SourceInput F → Option F → Option ℕ → Result (Option (Read F))
  unfolding pass_fraction
  restricted_read source (some keys) (some size) = do
    batches ← batches_of keys size
    let rows = times keys (pass_fraction source)
    if ltb problem.key_batches batches
        then ok none
        else ok (
            capped source.row_cap (record {
              latency =
                  plus
                    (plus (times source.profile.call_latency_ms (of_nat batches))
                      (times source.profile.per_key_latency_ms keys))
                    (times source.profile.per_row_latency_ms rows);
              rows = rows;
            }))
  restricted_read source _ _ = ok none

  -- `plain_read`
  unfoldable pub plain_read : SourceInput F → Option F → Bool → Result (Option (Read F))
  unfolding restricted_read bound
  plain_read source keys true = restricted_read source keys (bound source)
  plain_read source keys false = ok (
      capped source.row_cap (record {
        latency =
            plus source.profile.call_latency_ms
              (times source.profile.per_row_latency_ms source.filtered_rows);
        rows = source.filtered_rows;
      }))

  abbrev pub cheaper : Option (Read F) → Option (Read F) → Option (Read F × Bool)
  cheaper none none = none
  cheaper none (some plain) = some (plain, false)
  cheaper (some restricted) none = some (restricted, true)
  cheaper (some restricted) (some plain) =
      if at_most restricted.latency plain.latency
      then some (restricted, true)
      else some (plain, false)

  -- `best_read`
  unfoldable pub best_read : SourceInput F → Option F → Result (Option (Read F × Bool))
  unfolding plain_read
  best_read source keys = do
    restricted ← plain_read source keys true
    plain ← plain_read source keys false
    ok (cheaper restricted plain)

  abbrev product_over : List (SourceInput F) → F → F
  unfolding pass_fraction
  product_over [] keys = keys
  product_over (s ∷ sources) keys = product_over sources (times keys (pass_fraction s))

  -- `keys_after`
  unfoldable pub keys_after : List String → F
  unfolding product_over
  keys_after names = product_over (keep (λ s. contains s.name names) narrowing) universe

  abbrev ranked_latency : SourceInput F → RankedRead F → F → F → F → F
  ranked_latency source demand key_cost rows pool =
      plus
        (plus (plus source.profile.call_latency_ms key_cost)
          (times source.profile.per_row_latency_ms rows))
        (times demand.ranking_per_row_ms pool)

  abbrev ranked_from : RankedRead F → F → F → Read F × Candidates F
  ranked_from demand key_cost pool =
      let rows = smaller_of floats (of_nat demand.shortlist_size) pool in
      (
        record { latency = ranked_latency anchor_source demand key_cost rows pool; rows = rows },
        record { count = rows; pool = pool },
      )

  abbrev key_cost_of : SourceInput F → F → F
  key_cost_of source keys =
      if floats.same keys floats.zero
      then floats.zero
      else times source.profile.per_key_latency_ms keys

  abbrev ranked_within : Option F → Option ℕ → RankedRead F → Option (Read F × Candidates F)
  unfolding pass_fraction
  ranked_within (some keys) (some size) demand =
      if less (of_nat size) keys
      then none
      else some (
          ranked_from demand (key_cost_of anchor_source keys)
            (times keys (pass_fraction anchor_source)))
  ranked_within _ _ demand = none

  -- `ranked_read`
  unfoldable pub ranked_read : Option F → RankedRead F → Option (Read F × Candidates F)
  unfolding ranked_within bound
  ranked_read keys demand = elim required_sources [
    | [] ↦ some (ranked_from demand floats.zero anchor_source.filtered_rows)
    | s ∷ sources ↦ ranked_within keys (bound anchor_source) demand
  ]

  abbrev fits_store : Option F → Option ℕ → Option F
  fits_store (some keys) (some size) = if at_most keys (of_nat size) then some keys else none
  fits_store _ _ = none

  abbrev store_then_anchor : F → F → Bool → Option (Read F × Bool) → Option (StoreRead F)
  store_then_anchor latency pool store_restricted none = none
  store_then_anchor latency pool store_restricted (some (read, anchor_restricted)) = some (record {
    latency = plus latency read.latency;
    candidates = record { count = read.rows; pool = pool };
    store_restricted = store_restricted;
    anchor_restricted = anchor_restricted;
  })

  -- The read of a store, restricted to keys that fit it or of all of it
  abbrev read_store : SourceInput F → RankedRead F → Option F → Result (Option (StoreRead F))
  unfolding best_read product_over
  read_store store demand (some keys) =
      let coverage =
        if less floats.zero universe
        then smaller_of floats floats.one (divide store.total_rows universe)
        else floats.zero in
      let pool = times keys coverage in
      let rows = smaller_of floats (of_nat demand.shortlist_size) pool in
      best_read anchor_source (some rows) >>= λ outcome. ok (
        store_then_anchor (ranked_latency store demand (key_cost_of store keys) rows pool) pool true
          outcome)
  read_store store demand none =
      let pool = store.total_rows in
      let rows = smaller_of floats (of_nat demand.shortlist_size) pool in
      best_read anchor_source (some (product_over required_sources rows)) >>= λ outcome.
      ok (store_then_anchor (ranked_latency store demand floats.zero rows pool) pool false outcome)

  -- `store_read`
  unfoldable pub store_read : Option F → RankedRead F → Result (Option (StoreRead F))
  unfolding read_store bound
  store_read keys demand = elim problem.store [
    | none ↦ ok none
    | some store ↦ read_store store demand (fits_store keys (bound store))
  ]

  abbrev pub then_cost : F → Option (Read F × Bool) → (F → Result (Option F)) → Result (Option F)
  then_cost total none rest = ok none
  then_cost total (some (read, restricted)) rest = rest (plus total read.latency)

  -- `optional_cost`, of a total so far
  unfoldable pub optional_cost : F → F → List (SourceInput F) → Result (Option F)
  unfolding best_read
  optional_cost keys total [] = ok (some total)
  optional_cost keys total (s ∷ sources) = best_read s (some keys) >>= λ outcome.
      then_cost total outcome (λ sum. optional_cost keys sum sources)

  -- `ranking_objective`
  unfoldable pub ranking_objective : Estimate F → Option (Variant F) → F
  unfolding objective_of
  ranking_objective estimate none = objective_of floats problem.params estimate
  ranking_objective estimate (some variant) =
      if variant.approximate
      then divide (objective_of floats problem.params estimate)
          (minus floats.one problem.params.approximation_min_saving)
      else objective_of floats problem.params estimate

  abbrev pub with_variant : F → Candidates F → Option (Variant F) → Option (Estimate F)
  with_variant latency candidates none = some (record { latency_ms = latency; money = floats.zero })
  with_variant latency candidates (some variant) = elim (variant.cost candidates) [
    | none ↦ none
    | some own ↦
        some
          (record { latency_ms = plus latency own.latency_ms; money = plus floats.zero own.money })
  ]

  abbrev pub with_optional : F → Candidates F → Option (Variant F) → Option F → Option (Estimate F)
  with_optional scan_latency candidates variant none = none
  with_optional scan_latency candidates variant (some cost) =
      with_variant (plus scan_latency cost) candidates variant

  -- `finish`
  unfoldable pub finish : F → Candidates F → Option (Variant F) → Result (Option (Estimate F))
  unfolding optional_cost
  finish scan_latency candidates variant = do
    cost ← optional_cost candidates.count floats.zero optional_sources
    ok (with_optional scan_latency candidates variant cost)
