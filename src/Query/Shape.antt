-- ===== src/Query/Shape.antt =====
-- src/yodb/query/shape.py: the shape of untrusted input.
use yo_db.Base.{String, Option, some, List}
use yo_db.Base.Lists.{all}
use yo_db.Base.Dicts.{contains}
use yo_db.Base.Strings.{is_blank}
use yo_db.Base.Tests.{if◌then◌else◌}
use yo_db.Errors.{Result, ok, query_shape_invalid, fail_at, require}
use yo_db.Query.Raw.{Raw, str, list, mapping, Raws, Entries, entry_names, all_names}

unfoldable pub mapping_of : Raw → String → Result Entries
mapping_of (mapping es) location =
    if all_names es then ok es else fail_at query_shape_invalid location
mapping_of _ location = fail_at query_shape_invalid location

unfoldable pub list_of : Raw → String → Result Raws
list_of (list xs) location = ok xs
list_of _ location = fail_at query_shape_invalid location

-- `none` is the `None` of a missing key.
unfoldable pub non_empty_string : Option Raw → String → Result String
non_empty_string (some (str s)) location =
    if is_blank s then fail_at query_shape_invalid location else ok s
non_empty_string _ location = fail_at query_shape_invalid location

unfoldable pub reject_unknown : Entries → List String → String → Result (Unit {0})
reject_unknown es allowed location =
    require (all (λ k. contains k allowed) (entry_names es)) query_shape_invalid location
