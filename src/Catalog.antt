-- ===== src/Catalog.antt =====
-- src/yodb/catalog.py: the models of a catalog. Fields that only document (descriptions, the
-- aliases of datasets and fields, example values) are left out. Reading the YAML files and
-- pydantic's checks of the types of values are third-party code.
pub mod Validation
use yo_db.Base.{ℕ, String, ◌≡◌, refl, Bool, true, false, Option, none, some, List}
use yo_db.Base.Dicts.{Dict}

pub data LogicalType : Type 0 where
  id string text int float bool timestamp uuid json bytes : LogicalType

pub data Visibility : Type 0 where
  public internal : Visibility

pub data SourceKind : Type 0 where
  postgres neo4j : SourceKind

pub data Cardinality : Type 0 where
  one_to_one one_to_many many_to_one many_to_many : Cardinality

pub data Direction : Type 0 where
  uni bi : Direction

pub data VectorMetric : Type 0 where
  cosine l2 inner_product : VectorMetric

pub record FieldSpec : Type 0 where
  pub type : LogicalType
  pub visibility : Visibility
  pub semantic_eligible : Bool

pub record DatasetSpec : Type 0 where
  pub fields : Dict FieldSpec

pub record CatalogMetadata : Type 0 where
  pub name : String
  pub version : ℕ

pub record SourceFieldSpec : Type 0 where
  pub physical_name : String

pub record EmbeddingBinding : Type 0 where
  pub column : String
  pub model : String
  pub dimensions : ℕ
  pub metric : VectorMetric
  pub version : String

pub record SourceDatasetSpec : Type 0 where
  pub resource : String
  pub identity : List String
  pub fields : Dict SourceFieldSpec
  pub embeddings : Dict EmbeddingBinding

pub record SourceSpec : Type 0 where
  pub kind : SourceKind
  pub connection_ref : String
  pub datasets : Dict SourceDatasetSpec

pub record DatasetResolution : Type 0 where
  pub identity_source : String
  pub field_sources : Dict String

pub record RelationEndpoint : Type 0 where
  pub source : String
  pub field : String

pub record RelationshipImplementation : Type 0 where
  pub from_endpoint : RelationEndpoint
  pub to_endpoint : RelationEndpoint
  pub edge_type : Option String

pub record RelationshipSpec : Type 0 where
  pub from_dataset : String
  pub to_dataset : String
  pub aliases : List String
  pub cardinality : Cardinality
  pub direction : Direction
  pub implementations : List RelationshipImplementation

pub record Catalog : Type 0 where
  pub metadata : CatalogMetadata
  pub datasets : Dict DatasetSpec
  pub sources : Dict SourceSpec
  pub resolution : Dict DatasetResolution
  pub relationships : Dict RelationshipSpec

-- `kind is Visibility.PUBLIC`
abbrev pub is_visible : Visibility → Bool
is_visible public = true
is_visible internal = false

-- Whether a logical type is STRING or TEXT.
abbrev pub is_text_type : LogicalType → Bool
is_text_type string = true
is_text_type text = true
is_text_type _ = false

-- `left is right` of two logical types
abbrev pub same_type : LogicalType → LogicalType → Bool
same_type id id = true
same_type string string = true
same_type text text = true
same_type int int = true
same_type float float = true
same_type bool bool = true
same_type timestamp timestamp = true
same_type uuid uuid = true
same_type json json = true
same_type bytes bytes = true
same_type _ _ = false
