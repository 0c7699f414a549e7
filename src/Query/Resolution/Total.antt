-- ===== src/Query/Resolution/Total.antt =====
-- On a valid catalog, the resolution of a query of its datasets can only refuse a source that does
-- not declare the logical identity.
use mathlib.Core.Path.{subst}
use yo_db.Base.{
  String, ◌≡◌, ◌∙◌, refl, sym, Bool, true, false, not, ◌||◌, ◌&&◌, map, some, List, [], ◌∷◌, arith,
  inl, inr,
}
use yo_db.Base.Lists.{any, All, All-weaken, All-keep, All-map_iff, keep}
use yo_db.Base.Sorting.{sort_by, any-sort_by, sort_by-All}
use yo_db.Base.Dicts.{
  Dict, get, has, keys, contains, all-contains, has-get, get-has, All-get, All-put,
}
use yo_db.Base.Strings.{◌==◌, eq_iff, eq_refl}
use yo_db.Base.Tests.{either_holds, Option-cases, Bool-cases, same_value}
use yo_db.Errors.{each}
use yo_db.Errors.Ensures.{Ensures}
use yo_db.Catalog.{Catalog, DatasetResolution}
use yo_db.Catalog.Validation.Valid.{IsMapped, IsResolved, same_names-contains}
use yo_db.Catalog.Validation.Whole.{IsValid}
use yo_db.Query.Models.{FieldUse, BoundQuery, BoundExtensionTerm}
use yo_db.Query.Extensions.{TermRegistry, extension_terms?}
use yo_db.Query.Validation.{Digests}
use yo_db.Query.Resolution.{
  SingleSourceQueryBinding, SourceResolvedQuery, by_name, collect_field_uses,
  resolve_source_binding, group_by_source, resolve_bindings, add_extra, extra_names, other_sources,
  identity_of, resolve_with, owns_id, resolve_active, resolve_query_sources, field_name,
  order_field_name, filter_fields?,
}
use yo_db.Query.Resolution.Outcome.{
  Resolves, Resolves-bind, Resolves-each, Resolves-weaken, Resolves-Ensures,
}
use yo_db.Query.Resolution.Uses.{
  IsRepresented, IsDeclared, IsUsable, HasFields, AreUsed, collect_field_uses-AreUsed,
}
use yo_db.Query.Resolution.Filled.{
  has_field, HaveFields, HaveBindings, group_by_source-HaveFields, resolve_bindings-has_field,
}
use yo_db.Query.Resolution.Sources.{
  IsOwned, IsBinding, AreGrouped, AreBound, resolve_source_binding-IsBinding,
  group_by_source-AreGrouped, resolve_bindings-AreBound,
}

or_left : (a b : Bool) → a ≡ true → (a || b) ≡ true
or_left a b h = ground (arith, h)

or_right : (a b : Bool) → b ≡ true → (a || b) ≡ true
or_right a b h = ground (arith, h)

-- The binding that a lookup finds is one of them.
get-any :
    (p : SingleSourceQueryBinding → Bool) (s : String) (bindings : Dict SingleSourceQueryBinding)
    (b : SingleSourceQueryBinding)
    → get bindings s ≡ some b
    → p b ≡ true
    → any (λ e. e.0 == s && p e.1) bindings ≡ true
get-any p s [] b there h = cc
get-any p s ((n, x) ∷ bindings) b there h = elim (Bool-cases (n == s)) [
  | inl this ↦
      let same : x ≡ b = ground (arith, this, there) in
      ground (arith, this, subst (λ y. p y ≡ true) (sym same) h)
  | inr that ↦
      or_right (n == s && p x) (any (λ e. e.0 == s && p e.1) bindings)
        (get-any p s bindings b (ground (arith, that, there)) h)
]

-- The bindings other than one are those of the other names.
any-others :
    (p : SingleSourceQueryBinding → Bool) (first s : String)
    (bindings : Dict SingleSourceQueryBinding)
    → All (λ e. e.1.source_name ≡ e.0) bindings
    → (first == s) ≡ false
    → any (λ e. e.0 == s && p e.1) bindings ≡ true
    → any
        (λ b. b.source_name == s && p b)
        (map (λ e. e.1) (keep (λ e. not (e.0 == first)) bindings))
      ≡ true
any-others p first s [] named other h = h
any-others p first s ((n, b) ∷ bindings) named other h =
    let rest = keep (λ e. not (e.0 == first)) bindings in
    let found = any (λ b. b.source_name == s && p b) (map (λ e. e.1) rest) in
    elim (Bool-cases (n == s && p b)) [
      | inl this ↦
          let apart : (n == first) ≡ false =
            ground (arith, eq_iff n s, eq_iff first s, eq_iff n first, this, other) in
          let here : (b.source_name == s) ≡ true =
            (eq_iff b.source_name s).1 (named.0 ∙ (eq_iff n s).0 (ground (arith, this))) in
          rw apart (or_left (b.source_name == s && p b) found (ground (arith, here, this)))
      | inr that ↦
          let later = any-others p first s bindings named.1 other (ground (arith, h, that)) in
          either_holds (λ l. any (λ b. b.source_name == s && p b) (map (λ e. e.1) l) ≡ true)
            (not (n == first)) ((n, b) ∷ rest) rest
            (or_right (b.source_name == s && p b) found later) later
    ]

module _ {V F : Type 0} (query : BoundQuery V F) (catalog : Catalog) (terms : TermRegistry) where
  -- The binding of the owner of the field is a source of the resolved query, and has the field.
  abbrev IsCovered : DatasetResolution → SourceResolvedQuery V F → String → Type 0
  IsCovered resolution r name =
      (s : String) × ((get resolution.field_sources name ≡ some s)
        × (any (λ b. b.source_name == s && has_field name b.fields) r.sources ≡ true))

  -- The sources of the resolved query: the identity source first, and each bound by its identity
  -- and by fields of the dataset that it owns.
  pub record IsSourced (resolution : DatasetResolution) (r : SourceResolvedQuery V F) : Type 0 where
    pub same_query : r.query ≡ query
    pub identity : IsBinding query catalog resolution resolution.identity_source r.identity_source
    pub leads : (others : List SingleSourceQueryBinding) × (r.sources ≡ r.identity_source ∷ others)
    pub sources : All (λ b. (s : String) × IsBinding query catalog resolution s b) r.sources
    pub select : All (IsCovered resolution r) (map field_name query.select)
    pub filters : All (IsCovered resolution r) (map field_name (filter_fields? query.where_))
    pub orders : All (IsCovered resolution r) (map order_field_name query.order_by)
    pub extensions :
        All (λ b. (s : String) × IsBinding query catalog resolution s b) r.extension_sources

  module _ (valid : IsValid catalog)
      (root : get catalog.datasets query.root.name ≡ some query.root.spec)
      (fields : HasFields query catalog terms) where
    id-IsDeclared : IsDeclared query "id"
    id-IsDeclared =
        All-get (λ e. has e.1.fields "id" ≡ true) catalog.datasets query.root.name valid.ids root

    has_resolution : (r : DatasetResolution) × (get catalog.resolution query.root.name ≡ some r)
    has_resolution = has-get catalog.resolution query.root.name (
        all-contains (λ n. contains n (keys catalog.resolution)) query.root.name
          (keys catalog.datasets) (ground (arith, valid.resolutions.covered))
          (get-has catalog.datasets query.root.name root))

    module _ (resolution : DatasetResolution)
        (resolved : IsResolved catalog (query.root.name, resolution)) where
      declared-IsOwned :
          (name : String)
          → IsDeclared query name
          → (s : String) × IsOwned query catalog resolution s name
      declared-IsOwned name d =
          let same =
            same_value (get catalog.datasets query.root.name) query.root.spec resolved.dataset root
              resolved.declared in
          let owned =
            same_names-contains name (keys resolved.dataset.fields) (keys resolution.field_sources)
              resolved.covers (subst (λ x. contains name (keys x.fields) ≡ true) same d) in
          let (s, owner) = has-get resolution.field_sources name owned in
          (
            s,
            record {
              owner = owner;
              declared = d;
              mapped =
                  All-get (λ f. IsMapped catalog query.root.name f.1 f.0) resolution.field_sources
                    name resolved.owners owner;
            },
          )

      abbrev AreExtra : Dict (List String) → Type 0
      AreExtra extra = All (λ e. IsRepresented catalog query.root.name e.0) extra

      add_extra-AreExtra :
          (bindings : Dict SingleSourceQueryBinding) (extra : Dict (List String))
          (names : List String)
          → AreExtra extra
          → All (IsRepresented catalog query.root.name) names
          → AreExtra (add_extra query catalog bindings extra names)
      unfolding add_extra
      add_extra-AreExtra bindings extra [] h k = h
      add_extra-AreExtra bindings extra (n ∷ ns) h k =
          let rest = add_extra-AreExtra bindings extra ns h k.1 in
          elim (Bool-cases (has bindings n)) [
            | inl bound ↦ rw (bound, add_extra) rest
            | inr free ↦
                rw (free, add_extra)
                  (All-put (λ e. IsRepresented catalog query.root.name e.0) _ n _ rest k.0)
          ]

      extra_names-AreExtra :
          (bindings : Dict SingleSourceQueryBinding) (ts : List BoundExtensionTerm)
          → All (IsUsable query catalog terms) ts
          → Resolves AreExtra (extra_names query catalog terms bindings ts)
      unfolding extra_names
      extra_names-AreExtra bindings [] h = tt
      extra_names-AreExtra bindings (t ∷ ts) h = rw (h.0.registered) (
          Resolves-bind AreExtra AreExtra (extra_names query catalog terms bindings ts) _
            (extra_names-AreExtra bindings ts h.1)
            λ more k.
              add_extra-AreExtra bindings more
                (h.0.term_type.extra_sources t catalog query.root.name) k h.0.sources)

      identity_bound :
          (groups : Dict (Dict (List FieldUse))) (bindings : Dict SingleSourceQueryBinding)
          → has groups resolution.identity_source ≡ true
          → AreBound query catalog resolution groups bindings
          → Resolves
              (IsBinding query catalog resolution resolution.identity_source)
              (identity_of bindings resolution)
      identity_bound groups bindings there h =
          let inside =
            subst (λ ks. contains resolution.identity_source ks ≡ true) (sym h.same_keys) there in
          let (b, found) = has-get bindings resolution.identity_source inside in
          rw (found, identity_of)
            (All-get (λ e. IsBinding query catalog resolution e.0 e.1) bindings
              resolution.identity_source h.bound found)

      abbrev IsSome : SingleSourceQueryBinding → Type 0
      IsSome b = (s : String) × IsBinding query catalog resolution s b

      others-All :
          (identity : SingleSourceQueryBinding) (bindings : Dict SingleSourceQueryBinding)
          → All (λ e. IsBinding query catalog resolution e.0 e.1) bindings
          → All IsSome (other_sources query catalog identity bindings)
      unfolding other_sources
      others-All identity bindings h =
          (All-map_iff IsSome (λ e. e.1)
              (keep (λ e. not (e.0 == identity.source_name)) (sort_by by_name bindings))).1
            (All-keep (λ e. IsSome e.1) (λ e. not (e.0 == identity.source_name))
              (sort_by by_name bindings)
              (sort_by-All by_name (λ e. IsSome e.1) bindings
                (All-weaken (λ e. IsBinding query catalog resolution e.0 e.1) (λ e. IsSome e.1)
                  bindings (λ e b. (e.0, b)) h)))

      identity_of-get :
          (bindings : Dict SingleSourceQueryBinding)
          → Ensures
              (λ b. get bindings resolution.identity_source ≡ some b)
              (identity_of bindings resolution)
      identity_of-get bindings = elim (Option-cases (get bindings resolution.identity_source)) [
        | inl none' ↦ rw (none', identity_of) tt
        | inr (b, found) ↦ rw (found, identity_of) refl
      ]

      module _ (uses : Dict (List FieldUse)) (groups : Dict (Dict (List FieldUse)))
          (bindings : Dict SingleSourceQueryBinding) (first : SingleSourceQueryBinding)
          (grouped : HaveFields query catalog resolution uses [] groups)
          (hb : AreBound query catalog resolution groups bindings)
          (filled : HaveBindings query catalog groups bindings)
          (first_named : first.source_name ≡ resolution.identity_source)
          (first_found : get bindings resolution.identity_source ≡ some first) where
        -- The owner of each field that is used has a binding with it, the identity source's or
        -- another.
        covered :
            (name : String)
            → IsDeclared query name
            → has uses name ≡ true
            → (s : String) × ((get resolution.field_sources name ≡ some s)
                × (any
                      (λ b. b.source_name == s && has_field name b.fields)
                      (first ∷ other_sources query catalog first bindings)
                    ≡ true))
        unfolding other_sources
        covered name d used =
            let (s, owned) = declared-IsOwned name d in
            let (b, found) = filled s name (grouped.1 name s used owned.owner) in
            (
              s,
              (
                owned.owner,
                elim (Bool-cases (first.source_name == s)) [
                  | inl this ↦
                      let at_s =
                        subst (λ x. get bindings x ≡ some first)
                          (sym first_named ∙ (eq_iff first.source_name s).0 this) first_found in
                      let same = same_value (get bindings s) b first found.0 at_s in
                      ground (arith, this, subst (λ x. has_field name x.fields ≡ true) same found.1)
                  | inr that ↦ or_right (first.source_name == s && has_field name first.fields) _ (
                      any-others (λ b. has_field name b.fields) first.source_name s
                        (sort_by by_name bindings)
                        (sort_by-All by_name (λ e. e.1.source_name ≡ e.0) bindings
                          (All-weaken (λ e. IsBinding query catalog resolution e.0 e.1)
                            (λ e. e.1.source_name ≡ e.0) bindings (λ e b. b.source_named) hb.bound))
                        that
                        (any-sort_by by_name (λ e. e.0 == s && has_field name e.1.fields) bindings
                          ∙ get-any (λ b. has_field name b.fields) s bindings b found.0 found.1))
                ],
              ),
            )

        covered_all :
            (names : List String)
            → All (IsDeclared query) names
            → All (λ n. has uses n ≡ true) names
            → All
                (λ name.
                  (s : String) × ((get resolution.field_sources name ≡ some s)
                    × (any
                          (λ b. b.source_name == s && has_field name b.fields)
                          (first ∷ other_sources query catalog first bindings)
                        ≡ true)))
                names
        covered_all [] d used = tt
        covered_all (n ∷ names) d used = (covered n d.0 used.0, covered_all names d.1 used.1)

      resolve_with-IsSourced :
          Resolves (IsSourced resolution) (resolve_with query catalog terms resolution)
      unfolding resolve_with
      resolve_with-IsSourced =
          let Goal = IsSourced resolution in
          Resolves-bind (AreUsed query) Goal (collect_field_uses query terms) _
            (collect_field_uses-AreUsed query catalog terms id-IsDeclared fields)
            λ uses huses.
              Resolves-bind _ Goal (group_by_source query catalog resolution uses []) _
                (Resolves-Ensures (AreGrouped query catalog resolution uses [])
                  (HaveFields query catalog resolution uses [])
                  (group_by_source query catalog resolution uses [])
                  (group_by_source-AreGrouped query catalog resolution uses []
                    (All-weaken (λ e. IsDeclared query e.0) _ uses (λ e d. declared-IsOwned e.0 d)
                      huses.declared)
                    tt)
                  (group_by_source-HaveFields query catalog resolution uses []))
                λ groups (hgroups, hfields).
                  Resolves-bind _ Goal (resolve_bindings query catalog groups) _
                    (Resolves-Ensures (AreBound query catalog resolution groups)
                      (HaveBindings query catalog groups) (resolve_bindings query catalog groups)
                      (resolve_bindings-AreBound query catalog resolution groups id-IsDeclared
                        hgroups.groups)
                      (resolve_bindings-has_field query catalog groups))
                    λ bindings (hb, filled).
                      Resolves-bind _ Goal (identity_of bindings resolution) _
                        (Resolves-Ensures
                          (IsBinding query catalog resolution resolution.identity_source) _
                          (identity_of bindings resolution)
                          (identity_bound groups bindings
                            (hgroups.added "id" resolution.identity_source huses.has_id
                              resolved.owned)
                            hb)
                          (identity_of-get bindings))
                        λ first (hfirst, there).
                          let all_covered =
                            covered_all uses groups bindings first hfields hb filled
                              hfirst.source_named there in
                          Resolves-bind AreExtra Goal
                            (extra_names query catalog terms bindings
                              (extension_terms? query.where_))
                            _
                            (extra_names-AreExtra bindings (extension_terms? query.where_)
                              fields.extensions)
                            λ extra hextra.
                              Resolves-bind (λ bs. All IsSome bs) Goal
                                (each
                                  (λ (name, fields).
                                    resolve_source_binding query catalog name [] fields)
                                  (sort_by by_name extra))
                                _
                                (Resolves-each (λ e. IsRepresented catalog query.root.name e.0)
                                  IsSome _ (sort_by by_name extra)
                                  (λ e r.
                                    Resolves-weaken (IsBinding query catalog resolution e.0) IsSome
                                      (resolve_source_binding query catalog e.0 [] e.1)
                                      (resolve_source_binding-IsBinding query catalog resolution e.0
                                        [] e.1 r id-IsDeclared tt)
                                      λ b h. (e.0, h))
                                  (sort_by-All by_name
                                    (λ e. IsRepresented catalog query.root.name e.0) extra hextra))
                                λ more hmore. record {
                                  same_query = refl;
                                  identity = hfirst;
                                  leads = (other_sources query catalog first bindings, refl);
                                  sources = (
                                    (resolution.identity_source, hfirst),
                                    others-All first bindings hb.bound,
                                  );
                                  select =
                                      all_covered (map field_name query.select) fields.select
                                        huses.select;
                                  filters =
                                      all_covered (map field_name (filter_fields? query.where_))
                                        fields.filters huses.filters;
                                  orders =
                                      all_covered (map order_field_name query.order_by)
                                        fields.orders huses.orders;
                                  extensions = hmore;
                                }

      owns_id-true : owns_id query catalog terms resolution ≡ true
      unfolding owns_id
      owns_id-true = rw (resolved.owned, owns_id) (eq_refl resolution.identity_source)

-- The resolution of the query is by a resolution of its dataset.
pub record IsResolution {V F : Type 0} (query : BoundQuery V F) (catalog : Catalog)
    (terms : TermRegistry) (r : SourceResolvedQuery V F) : Type 0 where
  pub resolution : DatasetResolution
  pub declared : get catalog.resolution query.root.name ≡ some resolution
  pub sourced : IsSourced query catalog terms resolution r

-- Given a valid catalog that declares the dataset and the fields of the query and that has the
-- fingerprint that the query was bound with, and given that each extension term of the query is of a
-- registered type, uses fields of the dataset and asks only for sources that represent it:
-- `resolve_query_sources` either refuses the query because a source does not declare the logical
-- identity, or returns sources of which the first is the identity source of the dataset. They have a
-- binding of the owner of every field that the query selects, filters or orders by, and that binding
-- has the field; and every field of a binding comes from the source that owns it, under the physical
-- name of the mapping. It raises
-- no other error and no AssertionError or KeyError.
pub resolve_query_sources-IsResolution :
    {V F : Type 0} (query : BoundQuery V F) (catalog : Catalog) (terms : TermRegistry)
    (digests : Digests)
    → IsValid catalog
    → get catalog.datasets query.root.name ≡ some query.root.spec
    → HasFields query catalog terms
    → query.catalog_fingerprint ≡ digests.of_catalog catalog
    → Resolves
        (IsResolution query catalog terms)
        (resolve_query_sources query catalog terms digests)
unfolding resolve_query_sources resolve_active
resolve_query_sources-IsResolution query catalog terms digests valid root fields same =
    let (resolution, declared) = has_resolution query catalog terms valid root fields in
    let resolved =
      All-get (IsResolved catalog) catalog.resolution query.root.name valid.resolutions.resolved
        declared in
    rw
      (
        (eq_iff query.catalog_fingerprint (digests.of_catalog catalog)).1 same,
        declared,
        owns_id-true query catalog terms valid root fields resolution resolved,
      )
      (Resolves-weaken (IsSourced query catalog terms resolution) (IsResolution query catalog terms)
        (resolve_with query catalog terms resolution)
        (resolve_with-IsSourced query catalog terms valid root fields resolution resolved)
        λ r h. record { resolution = resolution; declared = declared; sourced = h })
