-- ===== src/Query/Fields.antt =====
-- src/yodb/query/fields.py
use yo_db.Base.{String, ◌≡◌, none, some, arith}
use yo_db.Base.Dicts.{get}
use yo_db.Base.Tests.{if◌then◌else◌}
use yo_db.Errors.{Result, ok, fail_at, field_not_found, field_not_accessible}
use yo_db.Catalog.{is_visible, public}
use yo_db.Query.Models.{BoundDataset, BoundField}

unfoldable pub bind_public_field : BoundDataset → String → String → Result BoundField
bind_public_field root field_name location = elim (get root.spec.fields field_name) [
  | none ↦ fail_at field_not_found location
  | some spec ↦
      if is_visible spec.visibility
      then ok
          (record { dataset_name = root.name; scope = root.scope; name = field_name; spec = spec })
      else fail_at field_not_accessible location
]

-- A bound field is a public field of the dataset, under its own name.
pub record IsPublicField (root : BoundDataset) (field : BoundField) : Type 0 where
  pub declared : get root.spec.fields field.name ≡ some field.spec
  pub visible : field.spec.visibility ≡ public
  pub dataset : field.dataset_name ≡ root.name
  pub scoped : field.scope ≡ root.scope

pub bind_public_field-IsPublicField :
    (root : BoundDataset) (name location : String) (field : BoundField)
    → bind_public_field root name location ≡ ok field
    → IsPublicField root field × (field.name ≡ name)
unfolding bind_public_field
bind_public_field-IsPublicField root name location field h = ground arith
