-- ===== src/Inspection/Postgres/Matching.antt =====
-- When PostgreSQL confirms a catalog: what a report without errors says of the facts.
use mathlib.Core.Path.{subst}
use yo_db.Base.{
  String, ◌≡◌, refl, sym, ◌↔◌, inl, inr, true, ◌&&◌, Option, none, some, List, [], ◌∷◌, arith,
}
use yo_db.Base.Lists.{All, any, length}
use yo_db.Base.Dicts.{Dict, get, All-get}
use yo_db.Base.Tests.{eqb, Bool-cases, same_value}
use yo_db.Errors.Returns.{Returns, Returns-bind}
use yo_db.Catalog.{Catalog, DatasetSpec, SourceSpec, SourceDatasetSpec, postgres}
use yo_db.Catalog.Validation.Valid.{IsRepresentation, IsSource}
use yo_db.Catalog.Validation.Whole.{IsValid}
use yo_db.Inspection.{
  PhysicalResource, SourceInspection, ValidationFinding, SourceValidationReport, is_valid,
  same_kind,
}
use yo_db.Inspection.Postgres.{
  validate_physical_fields, same_fields, known_keys, identity_findings, is_relation,
  validate_resource, validate_datasets, validate_known, report_of, validate,
}
use yo_db.Inspection.Postgres.Columns.{
  IsClean, IsClean-append, IsColumn, physical_identity, fields-Decide,
}

-- Names that are as many as the fields of the identity are a key of the resource.
abbrev pub IsKeyed : PhysicalResource → List String → List String → Type 0
IsKeyed resource identity names =
    eqb (length names) (length identity) ≡ true
    → any (same_fields names) (known_keys resource) ≡ true

-- The resource of a representation exists as a table or view, has the columns of its fields, and
-- has a key on the columns of its identity, if each field of the identity is mapped once.
pub record IsStored (catalog : Catalog) (inspection : SourceInspection)
    (entry : String × SourceDatasetSpec) : Type 0 where
  pub dataset : DatasetSpec
  pub declared : get catalog.datasets entry.0 ≡ some dataset
  pub resource : PhysicalResource
  pub present : get inspection.resources entry.1.resource ≡ some resource
  pub relation : is_relation resource.kind ≡ true
  pub columns : All (IsColumn dataset resource) entry.1.fields
  pub keyed : IsKeyed resource entry.1.identity (physical_identity entry.1.identity entry.1.fields)

module _ (catalog : Catalog) (inspection : SourceInspection) where
  identity-IsClean :
      (location : String) (representation : SourceDatasetSpec) (resource : PhysicalResource)
      (names : List String)
      → IsClean (identity_findings location representation resource names)
        ↔ IsKeyed resource representation.identity names
  unfolding identity_findings
  identity-IsClean location representation resource names =
      elim (Bool-cases (eqb (length names) (length representation.identity))) [
        | inl full ↦ elim (Bool-cases (any (same_fields names) (known_keys resource))) [
          | inl keyed ↦ rw (full, keyed) ((λ _ _. refl), λ _. refl)
          | inr loose ↦ rw (full, loose) ((λ k. cc k), λ k. cc (k refl))
        ]
        | inr partial ↦ rw partial ((λ _ k. cc k), λ _. refl)
      ]

  resource-Returns :
      (location : String) (entry : String × SourceDatasetSpec) (found : Option PhysicalResource)
      → IsRepresentation catalog entry
      → get inspection.resources entry.1.resource ≡ found
      → Returns
          (λ findings. IsClean findings ↔ IsStored catalog inspection entry)
          (validate_resource catalog location entry.0 entry.1 found)
  unfolding validate_resource
  resource-Returns location entry none declared found = ((λ k. cc k), λ k. cc (k.present, found))
  resource-Returns location (name, representation) (some resource) d found =
      elim (Bool-cases (is_relation resource.kind)) [
        | inl relation ↦ rw relation (
            Returns-bind _ _
              (validate_physical_fields catalog location name representation resource
                representation.fields)
              _
              (fields-Decide catalog location name d.dataset d.declared representation resource
                representation.fields d.logical)
              λ checks (clean, names).
                let split =
                  IsClean-append checks.0
                    (identity_findings location representation resource checks.1) in
                let key = identity-IsClean location representation resource checks.1 in
                (
                  (λ k.
                      let columns = clean.0 (split.0 k).0 in
                      record {
                        dataset = d.dataset;
                        declared = d.declared;
                        resource = resource;
                        present = found;
                        relation = relation;
                        columns = columns;
                        keyed =
                            subst (IsKeyed resource representation.identity) (names columns)
                              (key.0 (split.0 k).1);
                      }),
                  λ k.
                      let same = same_value _ k.dataset d.dataset k.declared d.declared in
                      let there = same_value _ k.resource resource k.present found in
                      let columns =
                        subst (λ x. All (IsColumn x resource) representation.fields) same
                          (subst (λ r. All (IsColumn k.dataset r) representation.fields) there
                            k.columns) in
                      split.1 (
                        clean.1 columns,
                        key.1 (
                            subst (IsKeyed resource representation.identity) (sym (names columns)) (
                              subst
                                (λ r.
                                  IsKeyed r representation.identity (
                                    physical_identity representation.identity
                                      representation.fields))
                                there k.keyed)),
                      ),
                ))
        | inr other ↦ rw other ((λ k. cc k), λ k. cc (k.present, k.relation, found, other))
      ]

  datasets-Return :
      (datasets : Dict SourceDatasetSpec)
      → All (IsRepresentation catalog) datasets
      → Returns
          (λ findings. IsClean findings ↔ All (IsStored catalog inspection) datasets)
          (validate_datasets catalog inspection datasets)
  unfolding validate_datasets
  datasets-Return [] h = ((λ _. tt), λ _. refl)
  datasets-Return ((name, representation) ∷ datasets) h =
      Returns-bind _ _
        (validate_resource catalog _ name representation
          (get inspection.resources representation.resource))
        _ (resource-Returns _ (name, representation) _ h.0 refl)
        λ findings clean.
          Returns-bind _ _ (validate_datasets catalog inspection datasets) _
            (datasets-Return datasets h.1)
            λ rest rest_clean.
              let split = IsClean-append findings rest in
              (
                (λ k. (clean.0 (split.0 k).0, rest_clean.0 (split.0 k).1)),
                λ k. split.1 (clean.1 k.0, rest_clean.1 k.1),
              )

-- The inspected source is a PostgreSQL source of the catalog that stores what it represents.
pub record IsMatched (catalog : Catalog) (inspection : SourceInspection) : Type 0 where
  pub source : SourceSpec
  pub known : get catalog.sources inspection.source_name ≡ some source
  pub configured : same_kind source.kind postgres ≡ true
  pub inspected : same_kind inspection.source_kind postgres ≡ true
  pub stored : All (IsStored catalog inspection) source.datasets

-- What a report says: it is of the source, and valid just when the source matches.
pub IsReport : Catalog → SourceInspection → SourceValidationReport → Type 0
IsReport catalog inspection report =
    (report.source_name ≡ inspection.source_name)
    × (is_valid report ≡ true ↔ IsMatched catalog inspection)

report_of-IsReport :
    (catalog : Catalog) (inspection : SourceInspection) (findings : List ValidationFinding)
    → IsClean findings ↔ IsMatched catalog inspection
    → IsReport catalog inspection (report_of inspection findings)
unfolding IsReport is_valid
report_of-IsReport catalog inspection findings h =
    (refl, ((λ k. h.0 (ground (arith, k))), λ m. ground (arith, h.1 m)))

validate_known-IsReport :
    (catalog : Catalog) (inspection : SourceInspection) (found : Option SourceSpec)
    → All (IsSource catalog) catalog.sources
    → get catalog.sources inspection.source_name ≡ found
    → Returns (IsReport catalog inspection) (validate_known catalog inspection found)
unfolding validate_known
validate_known-IsReport catalog inspection none sources found =
    report_of-IsReport catalog inspection _ ((λ k. cc k), λ m. cc (m.known, found))
validate_known-IsReport catalog inspection (some source) sources found =
    let datasets =
      All-get (IsSource catalog) catalog.sources inspection.source_name sources found in
    elim (Bool-cases
      (same_kind source.kind postgres && same_kind inspection.source_kind postgres)) [
        | inl both ↦ rw both (
            Returns-bind _ _ (validate_datasets catalog inspection source.datasets) _
              (datasets-Return catalog inspection source.datasets datasets)
              λ findings clean. report_of-IsReport catalog inspection findings (
                (λ k. record {
                  source = source;
                  known = found;
                  configured = ground (arith, both);
                  inspected = ground (arith, both);
                  stored = clean.0 k;
                }),
                λ m. clean.1 (
                    subst (λ s. All (IsStored catalog inspection) s.datasets)
                      (same_value _ m.source source m.known found) m.stored),
              ))
        | inr other ↦ rw other (
            report_of-IsReport catalog inspection _ (
              (λ k. cc k),
              λ m.
                  let same = same_value _ m.source source m.known found in
                  ground (
                    arith,
                    other,
                    m.inspected,
                    subst (λ s. same_kind s.kind postgres ≡ true) same m.configured,
                  ),
            ))
      ]

-- On a valid catalog, `PostgresCatalogValidator.validate` returns: no lookup is a KeyError. The
-- report is of the inspected source, and it has no error just when that source is a PostgreSQL
-- source of the catalog, each of its datasets is a table or a view with a column of a compatible
-- type for every field, and the columns of the identity, if there is one for each of its fields,
-- are a primary or unique key.
pub validate-IsReport :
    (catalog : Catalog) (inspection : SourceInspection)
    → IsValid catalog
    → Returns (IsReport catalog inspection) (validate catalog inspection)
unfolding validate
validate-IsReport catalog inspection h =
    validate_known-IsReport catalog inspection (get catalog.sources inspection.source_name)
      h.sources refl
