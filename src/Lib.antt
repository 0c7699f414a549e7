-- ===== src/Lib.antt =====
-- YoDb answers one logical query over a catalog of datasets that live in several sources. This
-- library models the path of a query through the program:
--
--   * Catalog (src/yodb/catalog.py): the declared datasets, sources, resolutions and relationships.
--     Catalog/Validation has the static checks that `load_catalog` makes, one function per loop;
--     Catalog/Validation/Valid and Whole show what a loaded catalog has.
--   * Query/Raw, Query/Shape, Query/Parser (src/yodb/query/shape.py, parser.py): an untrusted object
--     becomes a `QueryRequest`. The budget of terms is passed on; the depth is structural recursion
--     on the levels that are left, which are the fuel of the source too.
--   * Query/Extensions, Query/Semantic (src/yodb/query/extensions.py, semantic.py, registry.py):
--     filter terms that a registered extension parses, binds and limits.
--   * Query/Fields, Query/Values, Query/Validation (src/yodb/query/fields.py, validation.py,
--     fingerprint.py): `bind_query` binds the request to the catalog under a policy.
--   * Query/Resolution (src/yodb/query/resolution.py): the sources that own the fields of the query.
--   * Inspection (src/yodb/inspection): what an adapter observes of a source, and the validation of
--     a catalog against it.
--   * Runtime (src/yodb/runtime): the refresh of the active catalog, as functions on a state that
--     keeps the active catalog and the last evaluation; Runtime/Reachable is the step relation.
--   * OperatorKinds (src/yodb/operators/kinds.py): the table of operators.
--   * Planning/Expressions (src/yodb/planning/expressions.py): filters split into conjuncts.
--   * Planning/Capabilities, Planning/Adapter (src/yodb/planning/capabilities.py, adapter.py): which
--     part of a fragment a source takes over.
--   * Planning/Contracts, Planning/Scans, Planning/Planner (src/yodb/planning/contracts.py,
--     planner.py, operators): the nodes of a plan, and the planner that pushes work to the sources
--     and leaves the rest to operators of the coordinator.
--   * Planning/Costs, Planning/Optimizer (src/yodb/planning/optimizer.py): the cost model and the
--     schedule of reads. The table of the cheapest ways is recursion on the number of sources read.
--   * Execution/Rows, Execution/Operators (src/yodb/execution/operators): what the coordinator does
--     with the rows of the sources.
--   * Execution/Scans, Execution/Assembly (src/yodb/execution/operators/scan.py, combine.py): the
--     reads of several sources and the assembly of their records. The batches of keys run on fuel,
--     the number of keys, since a batch has one key at least.
--   * Execution/Join (src/yodb/execution/operators/join.py): the in-memory join. Halving a batch of
--     keys and the loop over the batches run on fuel, the number of keys; a probe without fuel is
--     Python's RecursionError.
--
-- A call that may fail returns `Result` of Errors: a value, a structured error (`YoDbError`), or
-- another Python exception. `Safe` says that no other exception leaves a call, `Ensures` what holds
-- of a value that it returns, `Returns` that it returns one of which this holds, and `Checked` that
-- a catalog is returned or refused.
-- `Resolves` allows the refusal of a source that lacks the logical identity and no other failure.
--
-- Interfaces stand for code outside the repository: `Builtins` for Python's UUID, datetime and
-- float, `Digests` for SHA-256 of canonical JSON, `Objects` for the comparisons of the objects that
-- drivers return, `Sources` for compiled scans, `Floats` for the arithmetic of the cost model,
-- `RuntimeServices` for the loader, the clock and the adapters, and `PlanningExtensions` for the
-- operators that a caller registers. Numbers are natural numbers and pairs of integers for floats
-- in data; times are microseconds; texts are Unicode strings, ordered by code points as in Python.
--
-- Not modelled: message texts, the YAML reader and pydantic, SQL generation and drivers, clocks and
-- traces, the statistics of sources, the planning of joins, the execution of semantic conditions,
-- and the client, the command line and the server around these parts.
pub mod Base
pub mod Errors
pub mod Catalog
pub mod Inspection
pub mod OperatorKinds
pub mod Query
pub mod Execution
pub mod Planning
pub mod Runtime
pub mod Tests
