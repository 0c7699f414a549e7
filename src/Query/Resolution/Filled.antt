-- ===== src/Query/Resolution/Filled.antt =====
-- The binding of a source has every field of the query that the source owns.
use mathlib.Core.Path.{subst}
use yo_db.Base.{
  String, ◌≡◌, ◌∙◌, refl, ap, sym, Bool, true, false, ◌||◌, Option, none, some, List, [], ◌∷◌,
  arith, inl, inr,
}
use yo_db.Base.Lists.{any}
use yo_db.Base.Strings.{◌==◌, ◌<>◌, eq_iff}
use yo_db.Base.Dicts.{Dict, get, has, put, contains-put}
use yo_db.Base.Sorting.{sort_by, any-sort_by}
use yo_db.Base.Tests.{Option-cases, Bool-cases, if◌then◌else◌, same_value}
use yo_db.Errors.{item, each}
use yo_db.Errors.Ensures.{Ensures, Ensures-bind, Ensures-self, Ensures-weaken}
use yo_db.Catalog.{Catalog, DatasetResolution}
use yo_db.Query.Models.{FieldUse, BoundQuery}
use yo_db.Query.Resolution.{
  ResolvedField, SingleSourceQueryBinding, by_name, bound_or_fail, bound_field_for_name,
  entry_or_empty, resolve_field, resolve_source_binding, group_by_source, resolve_bindings,
  resolve_logical_id,
}

-- A resolved field of the name is among the fields.
abbrev pub has_field : String → List ResolvedField → Bool
has_field name fields = any (λ f. f.field.name == name) fields

any-has : {V : Type 0} (d : Dict V) (k : String) → any (λ e. e.0 == k) d ≡ has d k
any-has [] k = refl
any-has ((j, v) ∷ d) k = ap (λ b. j == k || b) (any-has d k)

pick :
    {A : Type 0} (b : Bool) (v : List A) (o : Option (List A))
    → elim (if b then some v else o) [ none ↦ [] | some xs ↦ xs ]
      ≡ (if b then v else elim o [ none ↦ [] | some xs ↦ xs ])
pick true v o = refl
pick false v o = refl

entry-cons :
    {A : Type 0} (d : Dict (List A)) (k j : String) (v : List A)
    → entry_or_empty ((k, v) ∷ d) j ≡ (if k == j then v else entry_or_empty d j)
entry-cons d k j v = pick (k == j) v (get d j)

entry-same :
    {A : Type 0} (d : Dict (List A)) (k j : String) (v : List A)
    → (k == j) ≡ true
    → entry_or_empty ((k, v) ∷ d) j ≡ v
entry-same d k j v h = entry-cons d k j v ∙ ap (λ b. if b then v else entry_or_empty d j) h

entry-other :
    {A : Type 0} (d : Dict (List A)) (k j : String) (v : List A)
    → (k == j) ≡ false
    → entry_or_empty ((k, v) ∷ d) j ≡ entry_or_empty d j
entry-other d k j v h = entry-cons d k j v ∙ ap (λ b. if b then v else entry_or_empty d j) h

-- An assignment changes the entry of its key and no other.
entry-put_same :
    {A : Type 0} (d : Dict (List A)) (k j : String) (v : List A)
    → (k == j) ≡ true
    → entry_or_empty (put d k v) j ≡ v
entry-put_same [] k j v h = entry-same [] k j v h
entry-put_same ((i, w) ∷ d) k j v h = elim (Bool-cases (i == k)) [
  | inl same ↦
      rw (same, put)
        (entry-same d i j v (ground (arith, eq_iff i k, eq_iff k j, eq_iff i j, same, h)))
  | inr other ↦
      rw (other, put)
        (entry-other (put d k v) i j w
            (ground (arith, eq_iff i k, eq_iff k j, eq_iff i j, other, h))
          ∙ entry-put_same d k j v h)
]

entry-put_other :
    {A : Type 0} (d : Dict (List A)) (k j : String) (v : List A)
    → (k == j) ≡ false
    → entry_or_empty (put d k v) j ≡ entry_or_empty d j
entry-put_other [] k j v h = entry-other [] k j v h
entry-put_other ((i, w) ∷ d) k j v h = elim (Bool-cases (i == k)) [
  | inl same ↦
      let apart : (i == j) ≡ false = ground (arith, eq_iff i k, eq_iff k j, eq_iff i j, same, h) in
      rw (same, put) (entry-other d i j v apart ∙ sym (entry-other d i j w apart))
  | inr other ↦
      rw (other, put)
        (entry-cons (put d k v) i j w
          ∙ ap (λ e. if i == j then w else e) (entry-put_other d k j v h)
          ∙ sym (entry-cons d i j w))
]

bound-found :
    {A : Type 0} (location : Option String) (o : Option A)
    → Ensures (λ a. o ≡ some a) (bound_or_fail location o)
bound-found location none = tt
bound-found location (some a) = refl

module _ {V F : Type 0} (query : BoundQuery V F) (catalog : Catalog) where
  bound_field_for_name-named :
      (name : String) → Ensures (λ f. f.name ≡ name) (bound_field_for_name query name)
  unfolding bound_field_for_name
  bound_field_for_name-named name = elim (Option-cases (get query.root.spec.fields name)) [
    | inl e ↦ rw (e, bound_field_for_name) tt
    | inr (spec, e) ↦ rw (e, bound_field_for_name) refl
  ]

  resolve_field-named :
      (source name : String) (uses : List FieldUse)
      → Ensures (λ f. f.field.name ≡ name) (resolve_field query catalog source name uses)
  unfolding resolve_field bound_field_for_name
  resolve_field-named source name uses =
      Ensures-bind (λ _. Unit {0}) _ (item (get catalog.sources source)) _
        (Ensures-self (λ _. Unit {0}) _ (λ _ _. tt))
        λ owner _.
          Ensures-bind (λ _. Unit {0}) _ (item (get owner.datasets query.root.name)) _
            (Ensures-self (λ _. Unit {0}) _ (λ _ _. tt))
            λ representation _.
              Ensures-bind (λ _. Unit {0}) _
                (bound_or_fail
                  (some
                    ("sources." <> source <> ".datasets." <> query.root.name <> ".fields." <> name))
                  (get representation.fields name))
                _ (Ensures-self (λ _. Unit {0}) _ (λ _ _. tt))
                λ physical _.
                  Ensures-bind (λ f. f.name ≡ name) _ (bound_field_for_name query name) _
                    (bound_field_for_name-named name) λ field e. e

  each-has_field :
      (source : String) (fields : Dict (List FieldUse))
      → Ensures
          (λ fs. (n : String) → has fields n ≡ true → has_field n fs ≡ true)
          (each (λ (name, uses). resolve_field query catalog source name uses) fields)
  unfolding each
  each-has_field source [] = λ n h. h
  each-has_field source ((name, uses) ∷ fields) =
      Ensures-bind (λ f. f.field.name ≡ name) _ (resolve_field query catalog source name uses) _
        (resolve_field-named source name uses)
        λ f e.
          Ensures-bind (λ fs. (n : String) → has fields n ≡ true → has_field n fs ≡ true) _
            (each (λ (name, uses). resolve_field query catalog source name uses) fields) _
            (each-has_field source fields)
            λ fs k n h. elim (Bool-cases (name == n)) [
              | inl same ↦ ground (arith, (eq_iff f.field.name n).1 (e ∙ (eq_iff name n).0 same))
              | inr other ↦ ground (arith, k n (ground (arith, h, other)))
            ]

  resolve_source_binding-has_field :
      (source : String) (fields : Dict (List FieldUse)) (embeddings : List String)
      → Ensures
          (λ b. (n : String) → has fields n ≡ true → has_field n b.fields ≡ true)
          (resolve_source_binding query catalog source fields embeddings)
  unfolding resolve_source_binding
  resolve_source_binding-has_field source fields embeddings =
      let sorted = sort_by by_name fields in
      Ensures-bind (λ _. Unit {0}) _ (bound_or_fail none (get catalog.sources source)) _
        (Ensures-self (λ _. Unit {0}) _ (λ _ _. tt))
        λ owner _.
          Ensures-bind (λ _. Unit {0}) _ (bound_or_fail none (get owner.datasets query.root.name)) _
            (Ensures-self (λ _. Unit {0}) _ (λ _ _. tt))
            λ representation _.
              Ensures-bind (λ _. Unit {0}) _ (resolve_logical_id query catalog source) _
                (Ensures-self (λ _. Unit {0}) _ (λ _ _. tt))
                λ logical _.
                  Ensures-bind _ _
                    (each (λ (name, uses). resolve_field query catalog source name uses) sorted) _
                    (each-has_field source sorted)
                    λ fs k n h. k n (
                      sym (any-has sorted n)
                      ∙ any-sort_by by_name (λ e. e.0 == n) fields
                      ∙ any-has fields n
                      ∙ h)

  -- The first binding of each name has the fields of its group.
  abbrev pub HaveBindings : Dict (Dict (List FieldUse)) → Dict SingleSourceQueryBinding → Type 0
  HaveBindings groups bindings =
      (s n : String)
      → has (entry_or_empty groups s) n ≡ true
      → (b : SingleSourceQueryBinding) × ((get bindings s ≡ some b) × (has_field n b.fields ≡ true))

  pub resolve_bindings-has_field :
      (groups : Dict (Dict (List FieldUse)))
      → Ensures (HaveBindings groups) (resolve_bindings query catalog groups)
  unfolding resolve_bindings
  resolve_bindings-has_field [] = λ s n h. cc
  resolve_bindings-has_field ((source, fields) ∷ groups) =
      Ensures-bind _ _ (resolve_source_binding query catalog source fields []) _
        (resolve_source_binding-has_field source fields [])
        λ b filled.
          Ensures-bind _ _ (resolve_bindings query catalog groups) _
            (resolve_bindings-has_field groups)
            λ rest k s n h. elim (Bool-cases (source == s)) [
              | inl same ↦ (
                b,
                (
                  rw same refl,
                  filled n (subst (λ e. has e n ≡ true) (entry-same groups source s fields same) h),
                ),
              )
              | inr other ↦
                  let (found, there) =
                    k s n
                      (subst (λ e. has e n ≡ true) (entry-other groups source s fields other) h) in
                  (found, (rw other there.0, there.1))
            ]

  module _ (resolution : DatasetResolution) where
    -- The groups keep the fields of the groups before, and have each field at its owner.
    abbrev pub HaveFields :
        Dict (List FieldUse) → Dict (Dict (List FieldUse)) → Dict (Dict (List FieldUse)) → Type 0
    HaveFields uses before after =
        ((s n : String)
          → has (entry_or_empty before s) n ≡ true
          → has (entry_or_empty after s) n ≡ true)
        × ((n s : String)
            → has uses n ≡ true
            → get resolution.field_sources n ≡ some s
            → has (entry_or_empty after s) n ≡ true)

    pub group_by_source-HaveFields :
        (uses : Dict (List FieldUse)) (grouped : Dict (Dict (List FieldUse)))
        → Ensures (HaveFields uses grouped) (group_by_source query catalog resolution uses grouped)
    unfolding group_by_source
    group_by_source-HaveFields [] grouped = ((λ s n h. h), (λ n s h. cc))
    group_by_source-HaveFields ((name, us) ∷ more) grouped =
        Ensures-bind (λ s. get resolution.field_sources name ≡ some s) _
          (bound_or_fail (some ("resolution." <> query.root.name <> ".field_sources." <> name))
            (get resolution.field_sources name))
          _
          (bound-found (some ("resolution." <> query.root.name <> ".field_sources." <> name))
            (get resolution.field_sources name))
          λ s hs.
            let fields = entry_or_empty grouped s in
            let new = put fields name us in
            let next = put grouped s new in
            Ensures-weaken (HaveFields more next) (HaveFields ((name, us) ∷ more) grouped)
              (group_by_source query catalog resolution more next)
              (group_by_source-HaveFields more next)
              λ after k. (
                (λ t n h. k.0 t n (elim (Bool-cases (s == t)) [
                  | inl same ↦
                      subst (λ e. has e n ≡ true) (sym (entry-put_same grouped s t new same))
                        (ground (
                          arith,
                          contains-put fields name n us,
                          subst (λ x. has (entry_or_empty grouped x) n ≡ true)
                              (sym ((eq_iff s t).0 same)) h,
                        ))
                  | inr other ↦
                      subst (λ e. has e n ≡ true) (sym (entry-put_other grouped s t new other)) h
                ])),
                (λ n t used owner. elim (Bool-cases (name == n)) [
                  | inl this ↦
                      let one =
                        same_value (get resolution.field_sources n) s t
                          (subst (λ x. get resolution.field_sources x ≡ some s)
                            ((eq_iff name n).0 this) hs)
                          owner in
                      k.0 t n (
                        subst (λ e. has e n ≡ true)
                          (sym (entry-put_same grouped s t new ((eq_iff s t).1 one)))
                          (ground (arith, contains-put fields name n us, this)))
                  | inr that ↦ k.1 n t (ground (arith, used, that)) owner
                ]),
              )
