-- ===== src/Catalog/Validation/Valid.antt =====
-- What the checks of src/yodb/catalog.py guarantee of a catalog.
use mathlib.Core.Path.{subst}
use yo_db.Base.{String, ◌≡◌, refl, ap, ◌∙◌, true, not, ◌&&◌, ◌||◌, some, List, [], ◌∷◌, arith}
use yo_db.Base.Lists.{All}
use yo_db.Base.Dicts.{Dict, contains, get, has, keys, has-get, All-get, all-contains}
use yo_db.Base.Strings.{◌==◌, eq_iff, is_blank}
use yo_db.Base.Tests.{same_value}
use yo_db.Errors.{for_each, item}
use yo_db.Catalog.{
  DatasetSpec, SourceFieldSpec, SourceDatasetSpec, SourceSpec, EmbeddingBinding, DatasetResolution,
  Catalog, is_text_type,
}
use yo_db.Catalog.Validation.{
  check, found, validate_named_mapping, validate_field_binding, validate_embedding,
  validate_representation, validate_source, claim_sources, claim_fields, claim_representations,
  is_claimed, validate_source_field, same_names, validate_resolution,
}
use yo_db.Catalog.Validation.Checked.{
  Checked, Checked-bind, Checked-weaken, Checked-check, Checked-found, Checked-item, Checked-each,
  Checked-if, names-Checked,
}

-- A representation of a dataset: its fields are fields of the dataset, its identity is mapped.
pub record IsRepresentation (catalog : Catalog) (entry : String × SourceDatasetSpec) : Type 0 where
  pub dataset : DatasetSpec
  pub declared : get catalog.datasets entry.0 ≡ some dataset
  pub logical : All (λ f. has dataset.fields f.0 ≡ true) entry.1.fields
  pub identified : All (λ i. has entry.1.fields i ≡ true) entry.1.identity

abbrev pub IsSource : Catalog → String × SourceSpec → Type 0
IsSource catalog entry = All (IsRepresentation catalog) entry.1.datasets

-- The source represents the dataset and maps the field.
pub record IsMapped (catalog : Catalog) (dataset source field : String) : Type 0 where
  pub owner : SourceSpec
  pub known : get catalog.sources source ≡ some owner
  pub representation : SourceDatasetSpec
  pub represented : get owner.datasets dataset ≡ some representation
  pub mapped : has representation.fields field ≡ true

-- A resolution of a dataset: the identity source maps `id` as an identity and owns it, every field
-- of the dataset has an owner, and every owner maps its field.
pub record IsResolved (catalog : Catalog) (entry : String × DatasetResolution) : Type 0 where
  pub dataset : DatasetSpec
  pub declared : get catalog.datasets entry.0 ≡ some dataset
  pub identity : IsMapped catalog entry.0 entry.1.identity_source "id"
  pub identifies : contains "id" identity.representation.identity ≡ true
  pub covers : same_names (keys dataset.fields) (keys entry.1.field_sources) ≡ true
  pub owned : get entry.1.field_sources "id" ≡ some entry.1.identity_source
  pub owners : All (λ f. IsMapped catalog entry.0 f.1 f.0) entry.1.field_sources

pub source_field-Checked :
    (catalog : Catalog) (dataset source field : String)
    → Checked
        (λ _. IsMapped catalog dataset source field)
        (validate_source_field catalog dataset source field)
unfolding validate_source_field
source_field-Checked catalog dataset source field =
    let Goal = λ (u : Unit {0}). IsMapped catalog dataset source field in
    Checked-bind (λ owner. get catalog.sources source ≡ some owner) Goal
      (found (get catalog.sources source)) _ (Checked-found (get catalog.sources source))
      λ owner known.
        Checked-bind (λ r. get owner.datasets dataset ≡ some r) Goal
          (found (get owner.datasets dataset)) _ (Checked-found (get owner.datasets dataset))
          λ r represented.
            Checked-weaken (λ _. has r.fields field ≡ true) Goal (check (has r.fields field))
              (Checked-check (has r.fields field))
              λ _ mapped. record {
                owner = owner;
                known = known;
                representation = r;
                represented = represented;
                mapped = mapped;
              }

field_binding-Checked :
    (dataset : DatasetSpec) (entry : String × SourceFieldSpec)
    → Checked (λ _. has dataset.fields entry.0 ≡ true) (validate_field_binding dataset entry)
unfolding validate_field_binding
field_binding-Checked dataset (name, binding) =
    Checked-bind (λ _. has dataset.fields name ≡ true) (λ _. has dataset.fields name ≡ true)
      (check (has dataset.fields name)) _ (Checked-check (has dataset.fields name))
      λ _ h.
        Checked-weaken _ (λ _. has dataset.fields name ≡ true)
          (check (not (is_blank binding.physical_name)))
          (Checked-check (not (is_blank binding.physical_name))) λ _ _. h

embedding-Checked :
    (dataset : DatasetSpec) (r : SourceDatasetSpec) (entry : String × EmbeddingBinding)
    → Checked (λ _. Unit) (validate_embedding dataset r entry)
unfolding validate_embedding
embedding-Checked dataset r (name, e) =
    Checked-bind (λ f. get dataset.fields name ≡ some f) (λ _. Unit)
      (found (get dataset.fields name)) _ (Checked-found (get dataset.fields name))
      λ f _.
        Checked-bind _ (λ _. Unit) (check (has r.fields name || contains "id" r.identity)) _
          (Checked-check (has r.fields name || contains "id" r.identity))
          λ _ _.
            Checked-bind _ (λ _. Unit) (check (f.semantic_eligible && is_text_type f.type)) _
              (Checked-check (f.semantic_eligible && is_text_type f.type))
              λ _ _. Checked-weaken _ (λ _. Unit) (check _) (Checked-check _) λ _ _. tt

IsRepresentation-Checked :
    (catalog : Catalog) (entry : String × SourceDatasetSpec)
    → Checked (λ _. IsRepresentation catalog entry) (validate_representation catalog entry)
unfolding validate_representation
IsRepresentation-Checked catalog (name, r) =
    let Goal = λ (u : Unit {0}). IsRepresentation catalog (name, r) in
    Checked-bind (λ d. get catalog.datasets name ≡ some d) Goal (found (get catalog.datasets name))
      _ (Checked-found (get catalog.datasets name))
      λ dataset declared.
        Checked-bind _ Goal (check (not (is_blank r.resource))) _
          (Checked-check (not (is_blank r.resource)))
          λ _ _.
            Checked-bind _ Goal (validate_named_mapping (keys r.fields)) _
              (names-Checked (keys r.fields))
              λ _ _.
                Checked-bind (λ _. All (λ f. has dataset.fields f.0 ≡ true) r.fields) Goal
                  (for_each (validate_field_binding dataset) r.fields) _
                  (Checked-each (λ f. has dataset.fields f.0 ≡ true)
                    (validate_field_binding dataset) r.fields (field_binding-Checked dataset))
                  λ _ logical.
                    Checked-bind (λ _. All (λ i. has r.fields i ≡ true) r.identity) Goal
                      (for_each (λ i. check (has r.fields i)) r.identity) _
                      (Checked-each (λ i. has r.fields i ≡ true) (λ i. check (has r.fields i))
                        r.identity λ i. Checked-check (has r.fields i))
                      λ _ identified.
                        Checked-weaken (λ _. All (λ _. Unit) r.embeddings) Goal
                          (for_each (validate_embedding dataset r) r.embeddings)
                          (Checked-each (λ _. Unit) (validate_embedding dataset r) r.embeddings
                            (embedding-Checked dataset r))
                          λ _ _. record {
                            dataset = dataset;
                            declared = declared;
                            logical = logical;
                            identified = identified;
                          }

pub IsSource-Checked :
    (catalog : Catalog) (entry : String × SourceSpec)
    → Checked (λ _. IsSource catalog entry) (validate_source catalog entry)
unfolding validate_source
IsSource-Checked catalog (name, s) =
    let Goal = λ (u : Unit {0}). IsSource catalog (name, s) in
    Checked-bind _ Goal (check (not (is_blank s.connection_ref))) _
      (Checked-check (not (is_blank s.connection_ref)))
      λ _ _.
        Checked-bind _ Goal (validate_named_mapping (keys s.datasets)) _
          (names-Checked (keys s.datasets))
          λ _ _.
            Checked-each (IsRepresentation catalog) (validate_representation catalog) s.datasets
              (IsRepresentation-Checked catalog)

fields_claimed :
    (dataset : String) (fields : List String) (seen : List (String × String))
    → Checked (λ _. Unit) (claim_fields dataset fields seen)
unfolding claim_fields
fields_claimed dataset [] seen = tt
fields_claimed dataset (f ∷ fs) seen =
    Checked-if (λ _. Unit) (is_claimed dataset f seen) _
      (claim_fields dataset fs ((dataset, f) ∷ seen)) (λ _. refl)
      λ _. fields_claimed dataset fs ((dataset, f) ∷ seen)

representations_claimed :
    (rs : Dict SourceDatasetSpec) (seen : List (String × String))
    → Checked (λ _. Unit) (claim_representations rs seen)
unfolding claim_representations
representations_claimed [] seen = tt
representations_claimed ((d, r) ∷ rs) seen =
    Checked-bind (λ _. Unit) (λ _. Unit) (claim_fields d (keys r.embeddings) seen) _
      (fields_claimed d (keys r.embeddings) seen) λ now _. representations_claimed rs now

pub sources_claimed :
    (ss : Dict SourceSpec) (seen : List (String × String))
    → Checked (λ _. Unit) (claim_sources ss seen)
unfolding claim_sources
sources_claimed [] seen = tt
sources_claimed ((n, s) ∷ ss) seen =
    Checked-bind (λ _. Unit) (λ _. Unit) (claim_representations s.datasets seen) _
      (representations_claimed s.datasets seen) λ now _. sources_claimed ss now

pub same_names-contains :
    (k : String) (left right : List String)
    → same_names left right ≡ true
    → contains k left ≡ true
    → contains k right ≡ true
same_names-contains k left right h found =
    all-contains (λ n. contains n right) k left (ground (arith, h)) found

-- Every dataset declares a field `id`.
abbrev pub HaveIds : Catalog → Type 0
HaveIds catalog = All (λ e. has e.1.fields "id" ≡ true) catalog.datasets

-- The resolution is one of a dataset.
abbrev pub IsKnown : Catalog → String × DatasetResolution → Type 0
IsKnown catalog entry = (d : DatasetSpec) × (get catalog.datasets entry.0 ≡ some d)

module _ (catalog : Catalog) (ids : HaveIds catalog) where
  pub resolution-Checked :
      (entry : String × DatasetResolution)
      → IsKnown catalog entry
      → Checked (λ _. IsResolved catalog entry) (validate_resolution catalog entry)
  unfolding validate_resolution
  resolution-Checked (name, r) known =
      let Goal = λ (u : Unit {0}). IsResolved catalog (name, r) in
      Checked-bind (λ _. IsMapped catalog name r.identity_source "id") Goal
        (validate_source_field catalog name r.identity_source "id") _
        (source_field-Checked catalog name r.identity_source "id")
        λ _ identity.
          Checked-bind (λ s. get catalog.sources r.identity_source ≡ some s) Goal
            (item (get catalog.sources r.identity_source)) _
            (Checked-item (get catalog.sources r.identity_source) (identity.owner, identity.known))
            λ s hs.
              let owner =
                same_value (get catalog.sources r.identity_source) identity.owner s identity.known
                  hs in
              let there =
                subst (λ x. get x.datasets name ≡ some identity.representation) owner
                  identity.represented in
              Checked-bind (λ p. get s.datasets name ≡ some p) Goal (item (get s.datasets name)) _
                (Checked-item (get s.datasets name) (identity.representation, there))
                λ p hp.
                  Checked-bind (λ _. contains "id" p.identity ≡ true) Goal
                    (check (contains "id" p.identity)) _ (Checked-check (contains "id" p.identity))
                    λ _ identifies.
                      Checked-bind (λ d. get catalog.datasets name ≡ some d) Goal
                        (item (get catalog.datasets name)) _
                        (Checked-item (get catalog.datasets name) known)
                        λ d declared.
                          let names = same_names (keys d.fields) (keys r.field_sources) in
                          Checked-bind (λ _. names ≡ true) Goal (check names) _
                            (Checked-check names)
                            λ _ covers.
                              Checked-bind (λ o. get r.field_sources "id" ≡ some o) Goal
                                (item (get r.field_sources "id")) _
                                (Checked-item (get r.field_sources "id") (
                                  has-get r.field_sources "id" (
                                    same_names-contains "id" (keys d.fields) (keys r.field_sources)
                                      covers
                                      (All-get (λ e. has e.1.fields "id" ≡ true) catalog.datasets
                                        name ids declared))))
                                λ o ho.
                                  Checked-bind (λ _. (o == r.identity_source) ≡ true) Goal
                                    (check (o == r.identity_source)) _
                                    (Checked-check (o == r.identity_source))
                                    λ _ owned.
                                      Checked-weaken
                                        (λ _.
                                          All (λ f. IsMapped catalog name f.1 f.0) r.field_sources)
                                        Goal
                                        (for_each (λ (f, s). validate_source_field catalog name s f)
                                          r.field_sources)
                                        (Checked-each (λ f. IsMapped catalog name f.1 f.0) _
                                          r.field_sources
                                          λ f. source_field-Checked catalog name f.1 f.0)
                                        λ _ owners. record {
                                          dataset = d;
                                          declared = declared;
                                          identity = identity;
                                          identifies =
                                              subst (λ x. contains "id" x.identity ≡ true)
                                                (same_value (get s.datasets name) p
                                                  identity.representation hp there)
                                                identifies;
                                          covers = covers;
                                          owned =
                                              ho ∙ ap some ((eq_iff o r.identity_source).0 owned);
                                          owners = owners;
                                        }
