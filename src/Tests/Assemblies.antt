-- ===== src/Tests/Assemblies.antt =====
-- An assembly of people with the orders that they made.
use yo_db.Base.{ℕ, String, ◌≡◌, refl, Bool, true, false, Option, none, some, List, [], ◌∷◌}
use yo_db.Base.Lists.{All, keep}
use yo_db.Base.Strings.{◌==◌}
use yo_db.Base.Tests.{if◌then◌else◌}
use yo_db.Errors.{Result, ok}
use yo_db.Errors.Ensures.{Ensures}
use yo_db.Execution.Rows.{Row}
use yo_db.Execution.Scans.{Sources}
use yo_db.Execution.Assembly.{assemble, among, row_ids, scans_of}
use yo_db.Execution.Assembly.Identified.{IsIdentified, assemble-IsIdentified}
use yo_db.Execution.Assembly.Backed.{IsBacked, assemble-IsBacked}
use yo_db.Planning.Contracts.{RemoteScan, RecordAssembly, anchor, required}
use yo_db.Tests.Filters.{numbers, age_scan, row_of}

abbrev scan_from : String → RemoteScan ℕ
scan_from name = record {
  source = record {
    source_name = name;
    source_kind = age_scan.source.source_kind;
    connection_ref = name;
    resource = name;
    fields = age_scan.source.fields;
    logical_id = age_scan.source.logical_id;
    embeddings = [];
  };
  projection = age_scan.projection;
  pushed_filter = none;
  order_by = [];
  limit = none;
  maximum_rows = some 10;
  key_filter = none;
  vector_search = none;
  key_lookup_limit = some 5;
}

abbrev person : ℕ → Row ℕ
person n name = if name == "id" then some n else row_of n name

abbrev is_asked : Option (List ℕ) → Row ℕ → Bool
is_asked none row = true
is_asked (some keys) row = elim (row "id") [ none ↦ false | some k ↦ among numbers k keys ]

abbrev two_tables : Sources ℕ
two_tables = record {
  execute = λ scan. ok (
      keep (is_asked scan.key_filter) (
        if scan.source.source_name == "people"
        then person 20 ∷ person 35 ∷ person 50 ∷ []
        else person 35 ∷ person 50 ∷ person 60 ∷ []));
}

abbrev people_with_orders : RecordAssembly ℕ
people_with_orders = record {
  anchor = scan_from "people";
  contributors = scan_from "orders" ∷ [];
  required_contributor_matches = "orders" ∷ [];
  maximum_transfer_keys = some 4;
  maximum_key_batches = 1;
  schedule =
      record { source_name = "orders"; role = required; restrict = false }
      ∷ record { source_name = "people"; role = anchor; restrict = true }
      ∷ [];
}

assemble-IsIdentified_example :
    Ensures (IsIdentified numbers) (assemble numbers two_tables people_with_orders)
assemble-IsIdentified_example = assemble-IsIdentified numbers two_tables people_with_orders

assemble-IsBacked_example :
    Ensures
      (λ result.
        All
          (λ k.
            All
              (λ step.
                IsBacked numbers two_tables people_with_orders
                  (scans_of numbers people_with_orders)
                  step.role
                  step.source_name
                  k)
              people_with_orders.schedule)
          (row_ids result))
      (assemble numbers two_tables people_with_orders)
assemble-IsBacked_example = assemble-IsBacked numbers two_tables people_with_orders

abbrev ids_of : Result (List (Row ℕ)) → List ℕ
ids_of (ok rows) = row_ids rows
ids_of _ = []

both_kept : ids_of (assemble numbers two_tables people_with_orders) ≡ 35 ∷ 50 ∷ []
unfolding assemble
both_kept = refl
