-- ===== src/Planning/Adapter/Placement.antt =====
-- What `plan_remote_scan` places at a source.
use mathlib.Core.Path.{subst, sym}
use yo_db.Base.{
  ℕ, String, ◌≡◌, refl, ap, inl, inr, ◌⊎◌, Bool, true, not, ◌&&◌, Option, none, some, List, [],
  arith,
}
use yo_db.Base.Lists.{all}
use yo_db.Base.Tests.{if◌then◌else◌, Bool-cases}
use yo_db.Errors.{crash, value_error}
use yo_db.Errors.Ensures.{Ensures, Ensures-if}
use yo_db.Inspection.{same_kind}
use yo_db.Query.Models.{BoundFilterExpression}
use yo_db.Query.Extensions.{extension_terms}
use yo_db.Query.Resolution.{SingleSourceQueryBinding}
use yo_db.Planning.Capabilities.{SourceCapabilities, has_type}
use yo_db.Planning.Adapter.{
  SourceOperationRequest, PushdownDecision, is_some, accepts, owned_names, accepted_part,
  residual_part, can_order, decision, plan_remote_scan,
}
use yo_db.Planning.Adapter.Accepted.{IsDeclared, predicates_of, combinators_of, accepts_iff}

none_if : {A : Type 0} (o : Option A) → not (is_some o) ≡ true → o ≡ none
none_if none h = refl
none_if (some a) h = cc h

module _ {V : Type 0} (caps : SourceCapabilities) (source : SingleSourceQueryBinding)
    (requested : SourceOperationRequest V) where
  -- The source enforces the whole filter, or the coordinator is left with all of it.
  abbrev pub IsSplit : Option (BoundFilterExpression V) → Option (BoundFilterExpression V) → Type 0
  IsSplit accepted residual =
      ((accepted ≡ requested.filter) × (residual ≡ none))
      ⊎ ((accepted ≡ none) × (residual ≡ requested.filter))

  -- Nothing that affects the result is left to the coordinator, and the source can order so.
  pub record IsOrdered (made : PushdownDecision V) : Type 0 where
    pub complete : requested.complete_result ≡ true
    pub enforced : made.residual_filter ≡ none
    pub capable : caps.supports_order ≡ true
    pub orderable :
        all (λ t. has_type t.field.spec.type caps.orderable_types) requested.order_by ≡ true
    pub order : made.accepted_order ≡ requested.order_by

  pub record IsPlacement (made : PushdownDecision V) : Type 0 where
    pub projection : made.accepted_projection ≡ requested.projection
    pub filter : IsSplit made.accepted_filter made.residual_filter
    pub declared :
        (e : BoundFilterExpression V)
        → made.accepted_filter ≡ some e
        → IsDeclared caps
            (owned_names source)
            (predicates_of e)
            (combinators_of e)
            (extension_terms e)
    pub ordered : (made.accepted_order ≡ []) ⊎ IsOrdered made
    pub limited :
        (n : ℕ)
        → made.accepted_limit ≡ some n
        → IsOrdered made × ((requested.limit ≡ some n) × (caps.supports_limit ≡ true))

  accepted-IsSplit :
      (names : List String) (filter : Option (BoundFilterExpression V))
      → filter ≡ requested.filter
      → IsSplit
          (accepted_part caps names filter)
          (residual_part (accepted_part caps names filter) filter)
  unfolding accepted_part
  accepted-IsSplit names none h = inl (h, refl)
  accepted-IsSplit names (some e) h = elim (Bool-cases (accepts caps names e)) [
    | inl taken ↦ rw taken (inl (h, refl))
    | inr left_over ↦ rw left_over (inr (refl, h))
  ]

  accepted-IsDeclared :
      (names : List String) (filter : Option (BoundFilterExpression V))
      (e : BoundFilterExpression V)
      → accepted_part caps names filter ≡ some e
      → IsDeclared caps names (predicates_of e) (combinators_of e) (extension_terms e)
  unfolding accepted_part
  accepted-IsDeclared names none e h = cc h
  accepted-IsDeclared names (some f) e h = elim (Bool-cases (accepts caps names f)) [
    | inl taken ↦
        let same : f ≡ e = cc (h, ap (λ b. if b then some f else none) taken) in
        (accepts_iff caps names e).0 (cc (taken, same))
    | inr left_over ↦ cc (h, ap (λ b. if b then some f else none) left_over)
  ]

  ordered-IsOrdered :
      (accepted : Option (BoundFilterExpression V)) (ordered : Bool)
      → ordered ≡ (
          requested.complete_result
          && not (is_some (residual_part accepted requested.filter))
          && can_order caps requested.order_by)
      → ordered ≡ true
      → IsOrdered (decision caps requested accepted ordered)
  unfolding can_order
  ordered-IsOrdered accepted ordered same h = record {
    complete = ground (arith, same, h);
    enforced = none_if _ (ground (arith, same, h));
    capable = ground (arith, same, h);
    orderable = ground (arith, same, h);
    order = rw h refl;
  }

  decision-IsPlacement :
      (accepted : Option (BoundFilterExpression V)) (ordered : Bool)
      → accepted ≡ accepted_part caps (owned_names source) requested.filter
      → ordered ≡ (
          requested.complete_result
          && not (is_some (residual_part accepted requested.filter))
          && can_order caps requested.order_by)
      → IsPlacement (decision caps requested accepted ordered)
  decision-IsPlacement accepted ordered made same = record {
    projection = refl;
    filter =
        subst (λ a. IsSplit a (residual_part a requested.filter)) (sym made)
          (accepted-IsSplit (owned_names source) requested.filter refl);
    declared = λ e h. accepted-IsDeclared (owned_names source) requested.filter e (cc (made, h));
    ordered = elim (Bool-cases ordered) [
      | inl yes' ↦ inr (ordered-IsOrdered accepted ordered same yes')
      | inr no' ↦ inl (rw no' refl)
    ];
    limited = λ n h. elim (Bool-cases (ordered && caps.supports_limit)) [
      | inl both ↦ (
        ordered-IsOrdered accepted ordered same (ground (arith, both)),
        (cc (h, ap (λ b. if b then requested.limit else none) both), ground (arith, both)),
      )
      | inr not_both ↦ cc (h, ap (λ b. if b then requested.limit else none) not_both)
    ];
  }

  -- Whatever a source declares, `plan_remote_scan` keeps the projection, gives the source the whole
  -- filter or leaves all of it to the coordinator, and gives it only predicates on its own fields,
  -- by operators and of types that it declares, under combinators that it declares, with no
  -- extension term. It places the order only if the result is complete, no filter is left to the
  -- coordinator and the source declares the types of the terms, and a limit only with this order.
  pub plan_remote_scan-IsPlacement : Ensures IsPlacement (plan_remote_scan caps source requested)
  unfolding plan_remote_scan accepted_part can_order
  plan_remote_scan-IsPlacement =
      Ensures-if IsPlacement (same_kind source.source_kind caps.source_kind) _ (crash value_error)
        (λ _. decision-IsPlacement _ _ refl refl) λ _. tt
