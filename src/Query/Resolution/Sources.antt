-- ===== src/Query/Resolution/Sources.antt =====
-- Each source that owns a field of the query is bound, and its fields are resolved from it.
use mathlib.Core.Path.{subst}
use yo_db.Base.{String, ◌≡◌, refl, ap, true, ◌&&◌, none, some, List, [], ◌∷◌, arith, inl, inr}
use yo_db.Base.Lists.{All}
use yo_db.Base.Sorting.{sort_by, sort_by-All}
use yo_db.Base.Dicts.{Dict, get, has, keys, put, contains, contains-put, has-get, All-get, All-put}
use yo_db.Base.Strings.{◌==◌, ◌<>◌, eq_iff}
use yo_db.Base.Tests.{Bool-cases, Option-cases, same_value}
use yo_db.Errors.{require, source_logical_id_unavailable, each, item}
use yo_db.Catalog.{Catalog, SourceFieldSpec, DatasetResolution}
use yo_db.Catalog.Validation.Valid.{IsMapped}
use yo_db.Query.Models.{FieldUse, identity, BoundQuery}
use yo_db.Query.Resolution.{
  ResolvedField, SingleSourceQueryBinding, bound_or_fail, by_name, bound_field_for_name,
  resolve_field, resolve_logical_id, resolve_source_binding, group_by_source, entry_or_empty,
  resolve_bindings,
}
use yo_db.Query.Resolution.Outcome.{
  Resolves, Resolves-bind, Resolves-item, Resolves-each, Resolves-weaken, Resolves-require,
  Resolves-bound,
}
use yo_db.Query.Resolution.Uses.{IsRepresented, IsDeclared}

module _ {V F : Type 0} (query : BoundQuery V F) (catalog : Catalog) where
  -- The field of the dataset, with the physical name that the source maps it to.
  pub record IsFieldOf (source name : String) (f : ResolvedField) : Type 0 where
    pub source_named : f.source_name ≡ source
    pub named : f.field.name ≡ name
    pub declared : get query.root.spec.fields name ≡ some f.field.spec
    pub mapped : IsMapped catalog query.root.name source name
    pub physical :
        (b : SourceFieldSpec) × ((get mapped.representation.fields name ≡ some b)
          × (f.physical_name ≡ b.physical_name))

  resolve_field-IsFieldOf :
      (source name : String) (uses : List FieldUse)
      → IsMapped catalog query.root.name source name
      → IsDeclared query name
      → Resolves (IsFieldOf source name) (resolve_field query catalog source name uses)
  unfolding resolve_field bound_field_for_name
  resolve_field-IsFieldOf source name uses m d =
      let (b, hb) = has-get m.representation.fields name m.mapped in
      let (spec, hs) = has-get query.root.spec.fields name d in
      rw (m.known, m.represented, hb, hs, bound_field_for_name)
        (record {
          source_named = refl;
          named = refl;
          declared = hs;
          mapped = m;
          physical = (b, (hb, refl));
        })

  -- What is resolved from a source that represents the dataset.
  module _ (source : String) (r : IsRepresented catalog query.root.name source) where
    logical_id-IsFieldOf :
        IsDeclared query "id"
        → Resolves (IsFieldOf source "id") (resolve_logical_id query catalog source)
    unfolding resolve_logical_id
    logical_id-IsFieldOf d =
        let Goal = IsFieldOf source "id" in
        Resolves-bind (λ s. get catalog.sources source ≡ some s) Goal
          (item (get catalog.sources source)) _
          (Resolves-item (get catalog.sources source) (r.owner, r.known))
          λ s hs.
            let there =
              subst (λ x. get x.datasets query.root.name ≡ some r.representation)
                (same_value (get catalog.sources source) r.owner s r.known hs) r.represented in
            Resolves-bind (λ p. get s.datasets query.root.name ≡ some p) Goal
              (item (get s.datasets query.root.name)) _
              (Resolves-item (get s.datasets query.root.name) (r.representation, there))
              λ p hp.
                let has_id = has p.fields "id" && contains "id" p.identity in
                let location =
                  "sources." <> source <> ".datasets." <> query.root.name <> ".identity" in
                Resolves-bind (λ _. has_id ≡ true) Goal
                  (require has_id source_logical_id_unavailable location) _
                  (Resolves-require has_id location)
                  λ _ h.
                    resolve_field-IsFieldOf source "id" (identity ∷ [])
                      (record {
                        owner = s;
                        known = hs;
                        representation = p;
                        represented = hp;
                        mapped = ground (arith, h);
                      })
                      d

  -- The source owns the field of the dataset.
  pub record IsOwned (resolution : DatasetResolution) (source name : String) : Type 0 where
    pub owner : get resolution.field_sources name ≡ some source
    pub declared : IsDeclared query name
    pub mapped : IsMapped catalog query.root.name source name

  -- The binding of a source: its identity, and fields of the query that it owns.
  pub record IsBinding (resolution : DatasetResolution) (source : String)
      (b : SingleSourceQueryBinding) : Type 0 where
    pub source_named : b.source_name ≡ source
    pub logical_id : IsFieldOf source "id" b.logical_id
    pub fields :
        All
          (λ f. (name : String) × (IsOwned resolution source name × IsFieldOf source name f))
          b.fields

  represents :
      {source name : String}
      → IsMapped catalog query.root.name source name
      → IsRepresented catalog query.root.name source
  represents m = record {
    owner = m.owner;
    known = m.known;
    representation = m.representation;
    represented = m.represented;
  }

  module _ (resolution : DatasetResolution) where
    pub resolve_source_binding-IsBinding :
        (source : String) (fields : Dict (List FieldUse)) (embeddings : List String)
        → IsRepresented catalog query.root.name source
        → IsDeclared query "id"
        → All (λ e. IsOwned resolution source e.0) fields
        → Resolves
            (IsBinding resolution source)
            (resolve_source_binding query catalog source fields embeddings)
    unfolding resolve_source_binding
    resolve_source_binding-IsBinding source fields embeddings r id owned =
        let Goal = IsBinding resolution source in
        let Field : ResolvedField → Type 0 =
          λ f. (name : String) × (IsOwned resolution source name × IsFieldOf source name f) in
        let sorted = sort_by by_name fields in
        Resolves-bind (λ s. get catalog.sources source ≡ some s) Goal
          (bound_or_fail none (get catalog.sources source)) _
          (Resolves-bound none (get catalog.sources source) (r.owner, r.known))
          λ s hs.
            let there =
              subst (λ x. get x.datasets query.root.name ≡ some r.representation)
                (same_value (get catalog.sources source) r.owner s r.known hs) r.represented in
            Resolves-bind (λ p. get s.datasets query.root.name ≡ some p) Goal
              (bound_or_fail none (get s.datasets query.root.name)) _
              (Resolves-bound none (get s.datasets query.root.name) (r.representation, there))
              λ p _.
                Resolves-bind (IsFieldOf source "id") Goal (resolve_logical_id query catalog source)
                  _ (logical_id-IsFieldOf source r id)
                  λ logical hlogical.
                    Resolves-bind (λ fs. All Field fs) Goal
                      (each (λ (name, uses). resolve_field query catalog source name uses) sorted) _
                      (Resolves-each (λ e. IsOwned resolution source e.0) Field _ sorted
                        (λ e o.
                          Resolves-weaken (IsFieldOf source e.0) Field
                            (resolve_field query catalog source e.0 e.1)
                            (resolve_field-IsFieldOf source e.0 e.1 o.mapped o.declared)
                            λ f h. (e.0, (o, h)))
                        (sort_by-All by_name (λ e. IsOwned resolution source e.0) fields owned))
                      λ fs hfs. record { source_named = refl; logical_id = hlogical; fields = hfs }

    -- A group of the fields of one source, of which there is one.
    pub record IsGroup (entry : String × Dict (List FieldUse)) : Type 0 where
      pub inhabited : IsRepresented catalog query.root.name entry.0
      pub owned : All (λ e. IsOwned resolution entry.0 e.0) entry.1

    entry-IsOwned :
        (grouped : Dict (Dict (List FieldUse))) (source : String)
        → All IsGroup grouped
        → All (λ e. IsOwned resolution source e.0) (entry_or_empty grouped source)
    entry-IsOwned grouped source h = elim (Option-cases (get grouped source)) [
      | inl none' ↦ rw (none', entry_or_empty) tt
      | inr (fields, found) ↦
          rw (found, entry_or_empty) (All-get IsGroup grouped source h found).owned
    ]

    -- Groups that hold the owner of each field of a list, and the sources of some groups before.
    pub record AreGrouped (uses : Dict (List FieldUse)) (before after : Dict (Dict (List FieldUse)))
        : Type 0 where
      pub groups : All IsGroup after
      pub kept : (s : String) → has before s ≡ true → has after s ≡ true
      pub added :
          (name s : String)
          → has uses name ≡ true
          → get resolution.field_sources name ≡ some s
          → has after s ≡ true

    pub group_by_source-AreGrouped :
        (uses : Dict (List FieldUse)) (grouped : Dict (Dict (List FieldUse)))
        → All (λ e. (s : String) × IsOwned resolution s e.0) uses
        → All IsGroup grouped
        → Resolves (AreGrouped uses grouped) (group_by_source query catalog resolution uses grouped)
    unfolding group_by_source
    group_by_source-AreGrouped [] grouped owned h = record {
      groups = h;
      kept = λ s k. k;
      added = λ n s k o. cc;
    }
    group_by_source-AreGrouped ((name, us) ∷ more) grouped owned h =
        let Goal = AreGrouped ((name, us) ∷ more) grouped in
        let location = some ("resolution." <> query.root.name <> ".field_sources." <> name) in
        Resolves-bind (λ s. get resolution.field_sources name ≡ some s) Goal
          (bound_or_fail location (get resolution.field_sources name)) _
          (Resolves-bound location (get resolution.field_sources name) (owned.0.0, owned.0.1.owner))
          λ s hs.
            let own =
              subst (λ x. IsOwned resolution x name)
                (same_value (get resolution.field_sources name) owned.0.0 s owned.0.1.owner hs)
                owned.0.1 in
            let fields = entry_or_empty grouped s in
            let next = put grouped s (put fields name us) in
            let groups = All-put IsGroup grouped s (put fields name us) h (record {
              inhabited = represents own.mapped;
              owned =
                  All-put (λ e. IsOwned resolution s e.0) fields name us (entry-IsOwned grouped s h)
                    own;
            }) in
            Resolves-weaken (AreGrouped more next) Goal
              (group_by_source query catalog resolution more next)
              (group_by_source-AreGrouped more next owned.1 groups)
              λ after k. record {
                groups = k.groups;
                kept = λ t was.
                    k.kept t (ground (arith, contains-put grouped s t (put fields name us), was));
                added = λ n t inside owner. elim (Bool-cases (name == n)) [
                  | inl same ↦
                      let one =
                        same_value (get resolution.field_sources n) s t
                          (subst (λ x. get resolution.field_sources x ≡ some s)
                            ((eq_iff name n).0 same) hs)
                          owner in
                      k.kept t (
                        ground (
                          arith,
                          contains-put grouped s t (put fields name us),
                          (eq_iff s t).1 one,
                        ))
                  | inr other ↦ k.added n t (ground (arith, inside, other)) owner
                ];
              }

    -- The bindings of the groups, under the same names.
    pub record AreBound (groups : Dict (Dict (List FieldUse)))
        (bindings : Dict SingleSourceQueryBinding) : Type 0 where
      pub bound : All (λ e. IsBinding resolution e.0 e.1) bindings
      pub same_keys : keys bindings ≡ keys groups

    pub resolve_bindings-AreBound :
        (groups : Dict (Dict (List FieldUse)))
        → IsDeclared query "id"
        → All IsGroup groups
        → Resolves (AreBound groups) (resolve_bindings query catalog groups)
    unfolding resolve_bindings
    resolve_bindings-AreBound [] id h = record { bound = tt; same_keys = refl }
    resolve_bindings-AreBound ((source, fields) ∷ more) id h =
        let Goal = AreBound ((source, fields) ∷ more) in
        Resolves-bind (IsBinding resolution source) Goal
          (resolve_source_binding query catalog source fields []) _
          (resolve_source_binding-IsBinding source fields [] h.0.inhabited id h.0.owned)
          λ b hb.
            Resolves-bind (AreBound more) Goal (resolve_bindings query catalog more) _
              (resolve_bindings-AreBound more id h.1)
              λ rest k. record {
                bound = (hb, k.bound);
                same_keys = ap (λ l. source ∷ l) k.same_keys;
              }
