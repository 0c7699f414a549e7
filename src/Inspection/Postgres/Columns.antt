-- ===== src/Inspection/Postgres/Columns.antt =====
-- When the columns of a resource confirm the fields of a representation.
use yo_db.Base.{
  String, ◌≡◌, refl, ◌↔◌, inl, inr, true, false, Option, none, some, List, [], ◌∷◌, ◌++◌, map,
  arith,
}
use yo_db.Base.Lists.{All, any, any-append, keep}
use yo_db.Base.Dicts.{Dict, get, has, has-get, contains}
use yo_db.Base.Tests.{if◌then◌else◌, Bool-cases}
use yo_db.Errors.{ok}
use yo_db.Errors.Returns.{Returns, Returns-bind}
use yo_db.Catalog.{Catalog, FieldSpec, DatasetSpec, SourceFieldSpec, SourceDatasetSpec}
use yo_db.Inspection.{PhysicalField, PhysicalResource, ValidationFinding, is_error}
use yo_db.Inspection.Postgres.{
  Checks, type_is_compatible, type_findings, logical_type_of, validate_physical_field,
  validate_physical_fields,
}

-- No finding prevents the activation.
abbrev pub IsClean : List ValidationFinding → Type 0
IsClean findings = any (λ f. is_error f.severity) findings ≡ false

pub IsClean-append :
    (xs ys : List ValidationFinding) → IsClean (xs ++ ys) ↔ (IsClean xs × IsClean ys)
IsClean-append xs ys =
    let split = any-append (λ f. is_error f.severity) xs ys in
    (
      (λ h. (ground (arith, split, h), ground (arith, split, h))),
      λ h. ground (arith, split, h.0, h.1),
    )

-- The column of a field exists, and its type can hold the logical type.
pub record IsColumn (dataset : DatasetSpec) (resource : PhysicalResource)
    (field : String × SourceFieldSpec) : Type 0 where
  pub column : PhysicalField
  pub present : get resource.fields field.1.physical_name ≡ some column
  pub spec : FieldSpec
  pub declared : get dataset.fields field.0 ≡ some spec
  pub compatible : type_is_compatible spec.type column.type_family ≡ true

-- The physical names of the identity, in the order of the fields.
abbrev pub physical_identity : List String → Dict SourceFieldSpec → List String
physical_identity identity fields =
    map (λ f. f.1.physical_name) (keep (λ f. contains f.0 identity) fields)

-- The findings are errors unless the fact holds; if it does, the names are these.
abbrev pub Decides : Type 0 → List String → Checks → Type 0
Decides Fact names checks = (IsClean checks.0 ↔ Fact) × (Fact → checks.1 ≡ names)

module _ (catalog : Catalog) (location dataset_name : String) (dataset : DatasetSpec)
    (declared : get catalog.datasets dataset_name ≡ some dataset)
    (representation : SourceDatasetSpec) (resource : PhysicalResource) where
  logical_type-ok :
      (name : String) (spec : FieldSpec)
      → get dataset.fields name ≡ some spec
      → logical_type_of catalog dataset_name name ≡ ok spec.type
  unfolding logical_type_of
  logical_type-ok name spec known = rw (declared, known) refl

  identity_names :
      (name : String) (binding : SourceFieldSpec)
      → (if contains name representation.identity then binding.physical_name ∷ [] else [])
        ≡ physical_identity representation.identity ((name, binding) ∷ [])
  identity_names name binding = elim (Bool-cases (contains name representation.identity)) [
    | inl inside ↦ rw inside refl
    | inr outside ↦ rw outside refl
  ]

  identity_cons :
      (name : String) (binding : SourceFieldSpec) (fields : Dict SourceFieldSpec)
      → physical_identity representation.identity ((name, binding) ∷ [])
          ++ physical_identity representation.identity fields
        ≡ physical_identity representation.identity ((name, binding) ∷ fields)
  identity_cons name binding fields = elim (Bool-cases (contains name representation.identity)) [
    | inl inside ↦ rw inside refl
    | inr outside ↦ rw outside refl
  ]

  field-Decides :
      (name : String) (binding : SourceFieldSpec) (column : Option PhysicalField)
      → has dataset.fields name ≡ true
      → get resource.fields binding.physical_name ≡ column
      → Returns
          (Decides
            (IsColumn dataset resource (name, binding))
            (physical_identity representation.identity ((name, binding) ∷ [])))
          (validate_physical_field catalog location dataset_name representation column name binding)
  unfolding validate_physical_field type_findings
  field-Decides name binding none h column =
      ((λ k. cc k, λ k. cc (k.present, column)), λ k. cc (k.present, column))
  field-Decides name binding (some f) h column =
      let (spec, known) = has-get dataset.fields name h in
      let right = identity_names name binding in
      rw (logical_type-ok name spec known)
        (elim (Bool-cases (type_is_compatible spec.type f.type_family)) [
          | inl fits ↦ rw fits (
              (
                (
                  (λ _. record {
                    column = f;
                    present = column;
                    spec = spec;
                    declared = known;
                    compatible = fits;
                  }),
                  λ _. refl,
                ),
                λ _. right,
              ))
          | inr misfits ↦ rw misfits (
              (
                (
                  (λ k. cc k),
                  λ k. cc (k.compatible, k.present, k.declared, column, known, misfits),
                ),
                λ _. right,
              ))
        ])

  pub fields-Decide :
      (fields : Dict SourceFieldSpec)
      → All (λ f. has dataset.fields f.0 ≡ true) fields
      → Returns
          (Decides
            (All (IsColumn dataset resource) fields)
            (physical_identity representation.identity fields))
          (validate_physical_fields catalog location dataset_name representation resource fields)
  unfolding validate_physical_fields
  fields-Decide [] h = (((λ _. tt), λ _. refl), λ _. refl)
  fields-Decide ((name, binding) ∷ fields) h =
      Returns-bind _ _
        (validate_physical_field catalog location dataset_name representation
          (get resource.fields binding.physical_name) name binding)
        _ (field-Decides name binding (get resource.fields binding.physical_name) h.0 refl)
        λ checks (clean, names).
          Returns-bind _ _
            (validate_physical_fields catalog location dataset_name representation resource fields)
            _ (fields-Decide fields h.1)
            λ rest (rest_clean, rest_names).
              let split = IsClean-append checks.0 rest.0 in
              (
                (
                  (λ k. (clean.0 (split.0 k).0, rest_clean.0 (split.0 k).1)),
                  λ k. split.1 (clean.1 k.0, rest_clean.1 k.1),
                ),
                λ k. rw (names k.0, rest_names k.1) (identity_cons name binding fields),
              )
