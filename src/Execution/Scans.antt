-- ===== src/Execution/Scans.antt =====
-- src/yodb/execution/operators/scan.py: one read of a source. Compiling a scan and running it at its
-- source is an interface; the clock and the trace of a run are not modelled.
use yo_db.Base.{ℕ, Bool, false, Option, none, some, List}
use yo_db.Base.Lists.{length}
use yo_db.Base.Tests.{ltb, if◌then◌else◌}
use yo_db.Errors.{Result, ok, fail, query_row_limit_exceeded, ◌>>=◌}
use yo_db.Execution.Rows.{Row}
use yo_db.Planning.Contracts.{RemoteScan}

-- `ctx.compilers.adapter_for(…).compile_scan(node)` and the execution of what it compiled
pub record Sources (V : Type 0) : Type 0 where
  pub execute : RemoteScan V → Result (List (Row V))

abbrev pub is_over : Option ℕ → ℕ → Bool
is_over none count = false
is_over (some most) count = ltb most count

-- `scan.execute`
unfoldable pub scan_rows : {V : Type 0} → Sources V → RemoteScan V → Result (List (Row V))
scan_rows sources node = do
  rows ← sources.execute node
  if is_over node.maximum_rows (length rows)
      then fail (record {
        code = query_row_limit_exceeded;
        source_name = some node.source.source_name;
        location = none;
      })
      else ok rows
