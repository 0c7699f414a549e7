-- ===== src/Query/Resolution/Uses.antt =====
-- `_collect_field_uses` lists fields of the dataset, with the identity among them.
use yo_db.Base.{String, ◌≡◌, refl, true, some, List, [], ◌∷◌, map, arith}
use yo_db.Base.Lists.{All, All-weaken}
use yo_db.Base.Strings.{eq_refl}
use yo_db.Base.Dicts.{Dict, get, has, put, contains-put, All-put}
use yo_db.Base.Tests.{if◌then◌else◌}
use yo_db.Errors.{ok}
use yo_db.Catalog.{Catalog, SourceSpec, SourceDatasetSpec}
use yo_db.Query.Models.{
  FieldUse, identity, projection, filter, order, BoundField, BoundExtensionTerm, BoundQuery,
}
use yo_db.Query.Extensions.{TermExtension, TermRegistry, for_bound, extension_terms?}
use yo_db.Query.Resolution.{
  add_use, add_uses, add_term_uses, add_terms_uses, filter_fields?, field_name, order_field_name,
  collect_field_uses, uses_of, has_use,
}
use yo_db.Query.Resolution.Outcome.{Resolves, Resolves-bind}

-- The source represents the dataset.
pub record IsRepresented (catalog : Catalog) (dataset source : String) : Type 0 where
  pub owner : SourceSpec
  pub known : get catalog.sources source ≡ some owner
  pub representation : SourceDatasetSpec
  pub represented : get owner.datasets dataset ≡ some representation

module _ {V F : Type 0} (query : BoundQuery V F) where
  -- The dataset declares the field.
  abbrev pub IsDeclared : String → Type 0
  IsDeclared name = has query.root.spec.fields name ≡ true

  -- The term is of a registered type, uses fields of the dataset, and needs sources that represent it.
  pub record IsUsable (catalog : Catalog) (terms : TermRegistry) (t : BoundExtensionTerm)
      : Type 0 where
    pub term_type : TermExtension
    pub registered : for_bound terms t ≡ ok term_type
    pub uses : All (λ u. IsDeclared u.0.name) (term_type.uses t)
    pub sources :
        All
          (IsRepresented catalog query.root.name)
          (term_type.extra_sources t catalog query.root.name)

  -- The fields of the query are fields of its dataset.
  pub record HasFields (catalog : Catalog) (terms : TermRegistry) : Type 0 where
    pub select : All IsDeclared (map field_name query.select)
    pub filters : All IsDeclared (map field_name (filter_fields? query.where_))
    pub orders : All IsDeclared (map order_field_name query.order_by)
    pub extensions : All (IsUsable catalog terms) (extension_terms? query.where_)

  -- Names of declared fields, some given names among them.
  pub record AreUses (names : List String) (uses : Dict (List FieldUse)) : Type 0 where
    pub declared : All (λ e. IsDeclared e.0) uses
    pub listed : All (λ n. has uses n ≡ true) names

  add_use-AreUses :
      (names : List String) (uses : Dict (List FieldUse)) (name : String) (u : FieldUse)
      → AreUses names uses
      → IsDeclared name
      → AreUses (name ∷ names) (add_use uses name u)
  unfolding add_use
  add_use-AreUses names uses name u h d =
      let now = uses_of (get uses name) in
      let new = if has_use u now then now else u ∷ now in
      record {
        declared = All-put (λ e. IsDeclared e.0) uses name new h.declared d;
        listed = (
          ground (arith, contains-put uses name name new, eq_refl name),
          All-weaken (λ n. has uses n ≡ true) (λ n. has (put uses name new) n ≡ true) names
              (λ n k. ground (arith, contains-put uses name n new, k)) h.listed,
        );
      }

  abbrev after : List String → List String → List String
  after [] names = names
  after (n ∷ ns) names = after ns (n ∷ names)

  All-after :
      (P : String → Type 0) (ns names : List String)
      → All P (after ns names)
      → All P ns × All P names
  All-after P [] names h = (tt, h)
  All-after P (n ∷ ns) names h =
      let (later, now) = All-after P ns (n ∷ names) h in ((now.0, later), now.1)

  add_uses-AreUses :
      (names : List String) (uses : Dict (List FieldUse)) (more : List String) (u : FieldUse)
      → AreUses names uses
      → All IsDeclared more
      → AreUses (after more names) (add_uses uses more u)
  unfolding add_uses
  add_uses-AreUses names uses [] u h d = h
  add_uses-AreUses names uses (n ∷ ns) u h d =
      add_uses-AreUses (n ∷ names) (add_use uses n u) ns u (add_use-AreUses names uses n u h d.0)
        d.1

  add_term_uses-AreUses :
      (names : List String) (uses : Dict (List FieldUse)) (more : List (BoundField × FieldUse))
      → AreUses names uses
      → All (λ u. IsDeclared u.0.name) more
      → AreUses names (add_term_uses uses more)
  unfolding add_term_uses
  add_term_uses-AreUses names uses [] h d = h
  add_term_uses-AreUses names uses ((f, u) ∷ more) h d =
      let next = add_use-AreUses names uses f.name u h d.0 in
      add_term_uses-AreUses names (add_use uses f.name u) more
        (record { declared = next.declared; listed = next.listed.1 }) d.1

  -- What the uses of a query list: the identity and the fields of each of its parts.
  pub record AreUsed (uses : Dict (List FieldUse)) : Type 0 where
    pub declared : All (λ e. IsDeclared e.0) uses
    pub has_id : has uses "id" ≡ true
    pub select : All (λ n. has uses n ≡ true) (map field_name query.select)
    pub filters : All (λ n. has uses n ≡ true) (map field_name (filter_fields? query.where_))
    pub orders : All (λ n. has uses n ≡ true) (map order_field_name query.order_by)

  module _ (catalog : Catalog) (terms : TermRegistry) where
    add_terms_uses-AreUses :
        (names : List String) (uses : Dict (List FieldUse)) (ts : List BoundExtensionTerm)
        → AreUses names uses
        → All (IsUsable catalog terms) ts
        → Resolves (AreUses names) (add_terms_uses uses terms ts)
    unfolding add_terms_uses
    add_terms_uses-AreUses names uses [] h d = h
    add_terms_uses-AreUses names uses (t ∷ ts) h d = rw (d.0.registered) (
        add_terms_uses-AreUses names (add_term_uses uses (d.0.term_type.uses t)) ts
          (add_term_uses-AreUses names uses (d.0.term_type.uses t) h d.0.uses) d.1)

    pub collect_field_uses-AreUsed :
        IsDeclared "id"
        → HasFields catalog terms
        → Resolves AreUsed (collect_field_uses query terms)
    unfolding collect_field_uses
    collect_field_uses-AreUsed id h =
        let selects = map field_name query.select in
        let filters = map field_name (filter_fields? query.where_) in
        let orders = map order_field_name query.order_by in
        let before = after filters (after selects ("id" ∷ [])) in
        let first : AreUses ("id" ∷ []) (add_use [] "id" identity) = record {
          declared = (id, tt);
          listed = (refl, tt);
        } in
        let selected = add_uses-AreUses ("id" ∷ []) _ selects projection first h.select in
        let filtered =
          add_uses-AreUses (after selects ("id" ∷ [])) _ filters filter selected h.filters in
        Resolves-bind (AreUses before) AreUsed
          (add_terms_uses _ terms (extension_terms? query.where_)) _
          (add_terms_uses-AreUses before _ (extension_terms? query.where_) filtered h.extensions)
          λ uses k.
            let all_uses = add_uses-AreUses before uses orders order k h.orders in
            let P : String → Type 0 = λ n. has (add_uses uses orders order) n ≡ true in
            let (ordered, rest) = All-after P orders before all_uses.listed in
            let (where_, more) = All-after P filters (after selects ("id" ∷ [])) rest in
            let (select, found) = All-after P selects ("id" ∷ []) more in
            record {
              declared = all_uses.declared;
              has_id = found.0;
              select = select;
              filters = where_;
              orders = ordered;
            }
