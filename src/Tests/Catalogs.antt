-- ===== src/Tests/Catalogs.antt =====
-- A catalog of one dataset in two sources.
use yo_db.Base.{◌≡◌, refl, Bool, true, false, none, [], ◌∷◌}
use yo_db.Errors.{ok}
use yo_db.Catalog.{
  id, text, int, public, internal, postgres, cosine, one_to_many, uni, FieldSpec, DatasetSpec,
  SourceDatasetSpec, RelationshipSpec, Catalog, LogicalType, Visibility,
}
use yo_db.Catalog.Validation.{load_catalog}
use yo_db.Catalog.Validation.Checked.{Checked}
use yo_db.Catalog.Validation.Whole.{IsValid, load_catalog-IsValid}

abbrev pub field_of : LogicalType → Visibility → Bool → FieldSpec
field_of type visibility eligible = record {
  type = type;
  visibility = visibility;
  semantic_eligible = eligible;
}

abbrev pub people : DatasetSpec
people = record {
  fields =
      ("id", field_of id public false)
      ∷ ("age", field_of int public false)
      ∷ ("about", field_of text public true)
      ∷ ("secret", field_of text internal false)
      ∷ [];
}

abbrev main_people : SourceDatasetSpec
main_people = record {
  resource = "people";
  identity = "id" ∷ [];
  fields =
      ("id", record { physical_name = "pk" })
      ∷ ("age", record { physical_name = "age_years" })
      ∷ ("secret", record { physical_name = "hidden" })
      ∷ [];
  embeddings = [];
}

abbrev notes_people : SourceDatasetSpec
notes_people = record {
  resource = "notes";
  identity = "id" ∷ [];
  fields =
      ("id", record { physical_name = "person" })
      ∷ ("about", record { physical_name = "body" })
      ∷ [];
  embeddings =
      (
        "about",
        record { column = "vec"; model = "small"; dimensions = 8; metric = cosine; version = "1" },
      )
      ∷ [];
}

abbrev friends : RelationshipSpec
friends = record {
  from_dataset = "people";
  to_dataset = "people";
  aliases = [];
  cardinality = one_to_many;
  direction = uni;
  implementations =
      record {
        from_endpoint = record { source = "main"; field = "id" };
        to_endpoint = record { source = "notes"; field = "id" };
        edge_type = none;
      }
      ∷ [];
}

abbrev pub small_catalog : Catalog
small_catalog = record {
  metadata = record { name = "small"; version = 1 };
  datasets = ("people", people) ∷ [];
  sources =
      (
        "main",
        record {
          kind = postgres;
          connection_ref = "main_db";
          datasets = ("people", main_people) ∷ [];
        },
      )
      ∷ (
        "notes",
        record {
          kind = postgres;
          connection_ref = "notes_db";
          datasets = ("people", notes_people) ∷ [];
        },
      )
      ∷ [];
  resolution =
      (
        "people",
        record {
          identity_source = "main";
          field_sources =
              ("id", "main") ∷ ("age", "main") ∷ ("about", "notes") ∷ ("secret", "main") ∷ [];
        },
      )
      ∷ [];
  relationships = ("friends", friends) ∷ [];
}

small_catalog_loads : load_catalog small_catalog ≡ ok small_catalog
unfolding load_catalog
small_catalog_loads = refl

load_catalog_example : Checked IsValid (load_catalog small_catalog)
load_catalog_example = load_catalog-IsValid small_catalog

pub small_catalog-IsValid : IsValid small_catalog
unfolding load_catalog
small_catalog-IsValid = load_catalog-IsValid small_catalog
