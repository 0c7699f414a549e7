-- ===== src/Planning/Adapter.antt =====
-- src/yodb/planning/adapter.py and registry.py: which part of a fragment a source takes over, from
-- the capabilities it declares. The reasons of a refusal, texts for readers, are left out. An
-- adapter accepts the requested filter itself or nothing, so `is` compares presence.
pub mod Accepted
pub mod Placement
use yo_db.Base.{
  ℕ, String, Bool, true, false, not, ◌&&◌, Option, none, some, List, [], ◌∷◌, ◌++◌, map,
}
use yo_db.Base.Lists.{all}
use yo_db.Base.Dicts.{contains}
use yo_db.Base.Tests.{if◌then◌else◌}
use yo_db.Errors.{Result, ok, fail, crash, value_error, source_capability_unavailable}
use yo_db.Catalog.{SourceKind}
use yo_db.Inspection.{same_kind}
use yo_db.Query.Models.{
  BoundPredicate, BoundFilterExpression, bound_predicate, bound_term, bound_all, bound_any,
  bound_not, BoundFilterExpressions, bnil, bcons, BoundOrderTerm,
}
use yo_db.Query.Resolution.{ResolvedField, SingleSourceQueryBinding}
use yo_db.Planning.Capabilities.{
  SourceCapabilities, all_terms, any_term, not_term, has_operator, has_combinator, has_type,
}

pub record SourceOperationRequest (V : Type 0) : Type 0 where
  pub projection : List ResolvedField
  pub filter : Option (BoundFilterExpression V)
  pub order_by : List BoundOrderTerm
  pub limit : Option ℕ
  pub complete_result : Bool

pub record PushdownDecision (V : Type 0) : Type 0 where
  pub accepted_filter : Option (BoundFilterExpression V)
  pub residual_filter : Option (BoundFilterExpression V)
  pub accepted_projection : List ResolvedField
  pub accepted_order : List BoundOrderTerm
  pub accepted_limit : Option ℕ
  pub limit_is_guaranteed : Bool

abbrev pub is_some {ℓ} : {A : Type ℓ} → Option A → Bool
is_some none = false
is_some (some a) = true

-- `accepted is requested`, of an accepted filter that is the requested one or `None`
abbrev pub is_requested {ℓ} : {A : Type ℓ} → Option A → Option A → Bool
is_requested accepted none = true
is_requested accepted (some a) = is_some accepted

-- the names of the fields of the binding, its logical identity among them
abbrev pub owned_names : SingleSourceQueryBinding → List String
owned_names source = map (λ f. f.field.name) (source.fields ++ (source.logical_id ∷ []))

-- `order_ok`
unfoldable pub can_order : SourceCapabilities → List BoundOrderTerm → Bool
can_order caps terms =
    caps.supports_order && all (λ t. has_type t.field.spec.type caps.orderable_types) terms

abbrev pub residual_part {ℓ} : {A : Type ℓ} → Option A → Option A → Option A
residual_part accepted requested = if is_requested accepted requested then none else requested

module _ {V : Type 0} (caps : SourceCapabilities) where
  abbrev accepts_predicate : List String → BoundPredicate V → Bool
  accepts_predicate names p =
      contains p.field.name names
      && has_operator p.operator caps.filter_operators
      && has_type p.field.spec.type caps.filterable_types

  -- `_accepts`, and `all` of the list of its results
  unfoldable mutual
    pub accepts : List String → BoundFilterExpression V → Bool
    accepts names (bound_predicate p) = accepts_predicate names p
    accepts names (bound_term t) = false
    accepts names (bound_all es) =
        let each = accepts_each names es in
        if has_combinator all_terms caps.boolean_operators then each else false
    accepts names (bound_any es) =
        let each = accepts_each names es in
        if has_combinator any_term caps.boolean_operators then each else false
    accepts names (bound_not e) =
        let inner = accepts names e in
        if has_combinator not_term caps.boolean_operators then inner else false

    pub accepts_each : List String → BoundFilterExpressions V → Bool
    accepts_each names bnil = true
    accepts_each names (bcons e es) = accepts names e && accepts_each names es

  abbrev accepted_part :
      List String → Option (BoundFilterExpression V) → Option (BoundFilterExpression V)
  unfolding accepts
  accepted_part names none = none
  accepted_part names (some e) = if accepts names e then some e else none

  abbrev decision :
      SourceOperationRequest V → Option (BoundFilterExpression V) → Bool → PushdownDecision V
  decision requested accepted ordered = record {
    accepted_filter = accepted;
    residual_filter = residual_part accepted requested.filter;
    accepted_projection = requested.projection;
    accepted_order = if ordered then requested.order_by else [];
    accepted_limit = if ordered && caps.supports_limit then requested.limit else none;
    limit_is_guaranteed =
        is_some (if ordered && caps.supports_limit then requested.limit else none);
  }

  -- `plan_remote_scan`
  unfoldable pub plan_remote_scan :
      SingleSourceQueryBinding → SourceOperationRequest V → Result (PushdownDecision V)
  unfolding accepted_part can_order
  plan_remote_scan source requested =
      let accepted = accepted_part (owned_names source) requested.filter in
      let whole = not (is_some (residual_part accepted requested.filter)) in
      if same_kind source.source_kind caps.source_kind
      then ok (
          decision requested accepted
            (requested.complete_result && whole && can_order caps requested.order_by))
      else crash value_error

-- The adapters of a process, each made from the capabilities it declares
abbrev pub SourcePlanningRegistry : Type 0
SourcePlanningRegistry = List SourceCapabilities

abbrev find_adapter : SourcePlanningRegistry → SourceKind → Option SourceCapabilities
find_adapter [] kind = none
find_adapter (caps ∷ registry) kind =
    let rest = find_adapter registry kind in
    if same_kind caps.source_kind kind then some caps else rest

-- `SourcePlanningRegistry.__init__`, from the adapters that are registered already
unfoldable pub register_adapters :
    SourcePlanningRegistry → List SourceCapabilities → Result SourcePlanningRegistry
register_adapters registry [] = ok registry
register_adapters registry (caps ∷ adapters) =
    let rest = register_adapters (registry ++ (caps ∷ [])) adapters in
    if is_some (find_adapter registry caps.source_kind) then crash value_error else rest

abbrev adapter_or_unavailable : Option SourceCapabilities → Result SourceCapabilities
adapter_or_unavailable none =
    fail (record { code = source_capability_unavailable; source_name = none; location = none })
adapter_or_unavailable (some caps) = ok caps

-- `adapter_for`
unfoldable pub adapter_for : SourcePlanningRegistry → SourceKind → Result SourceCapabilities
adapter_for registry kind = adapter_or_unavailable (find_adapter registry kind)
