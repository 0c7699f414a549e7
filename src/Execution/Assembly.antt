-- ===== src/Execution/Assembly.antt =====
-- src/yodb/execution/operators/combine.py: one logical record from the rows of several sources, read
-- in the order of a schedule. Logical identities are objects, compared by `==`; a set of them is a
-- list. The columns of a row of a scan are those of its projection. The clock and the flag of a
-- search that fell back to a plain scan are not modelled.
pub mod Identified
pub mod Backed
use yo_db.Base.{
  ℕ, zero, suc, ◌*◌, String, Bool, true, false, not, ◌&&◌, ◌||◌, Option, none, some, List, [], ◌∷◌,
  ◌++◌, map, min,
}
use yo_db.Base.Lists.{length, take, drop, any, all, keep}
use yo_db.Base.Dicts.{Dict, get, put, contains}
use yo_db.Base.Strings.{◌==◌}
use yo_db.Base.Tests.{ltb, leb, eqb, if◌then◌else◌}
use yo_db.Errors.{
  Result, ok, fail, query_row_limit_exceeded, query_plan_invariant_violation, ErrorCode, item,
  ◌>>=◌,
}
use yo_db.Execution.Rows.{Objects, Row}
use yo_db.Execution.Scans.{Sources, is_over, scan_rows}
use yo_db.Planning.Contracts.{
  RemoteScan, StepRole, anchor, required, optional, shortlist, AssemblyStep, RecordAssembly,
  VectorSearch, is_ranked, scan_name,
}

module _ {V : Type 0} where
  abbrev pub id_values : List (Row V) → List (Option V)
  id_values rows = map (λ row. row "id") rows

  -- The identities that are there
  abbrev pub present : List (Option V) → List V
  present [] = []
  present (none ∷ keys) = present keys
  present (some k ∷ keys) = k ∷ present keys

  abbrev pub row_ids : List (Row V) → List V
  row_ids rows = present (id_values rows)

  abbrev pub is_absent : Option V → Bool
  is_absent none = true
  is_absent (some k) = false

  -- `replace(scan, key_filter=…)`
  abbrev pub restricted : RemoteScan V → List V → RemoteScan V
  restricted scan keys = record {
    source = scan.source;
    projection = scan.projection;
    pushed_filter = scan.pushed_filter;
    order_by = scan.order_by;
    limit = scan.limit;
    maximum_rows = scan.maximum_rows;
    key_filter = some keys;
    vector_search = scan.vector_search;
    key_lookup_limit = scan.key_lookup_limit;
  }

  -- `replace(scan, vector_search=None, limit=None, maximum_rows=…)`
  abbrev unranked : RemoteScan V → Option ℕ → RemoteScan V
  unranked scan maximum = record {
    source = scan.source;
    projection = scan.projection;
    pushed_filter = scan.pushed_filter;
    order_by = scan.order_by;
    limit = none;
    maximum_rows = maximum;
    key_filter = scan.key_filter;
    vector_search = none;
    key_lookup_limit = scan.key_lookup_limit;
  }

abbrev pub at_source {ℓ} : {A : Type ℓ} → ErrorCode → String → Result A
at_source code name = fail (record { code = code; source_name = some name; location = none })

-- `_bound`
abbrev pub smaller : Option ℕ → Option ℕ → Option ℕ
smaller none limit = none
smaller (some maximum) none = none
smaller (some maximum) (some limit) = some (min maximum limit)

abbrev fits : Option ℕ → ℕ → Bool
fits none count = false
fits (some most) count = leb count most

module _ {V : Type 0} (objects : Objects V) where
  -- `key in keys`
  abbrev pub among : V → List V → Bool
  among key keys = any (objects.equal key) keys

  abbrev pub repeats : List V → Bool
  repeats [] = false
  repeats (k ∷ ks) = among k ks || repeats ks

  -- `keys & ids`
  abbrev pub intersection : List V → List V → List V
  intersection keys ids = keep (λ k. among k ids) keys

  -- `keys if learned is None else learned & keys`
  abbrev pub narrowed : Option (List V) → List V → List V
  narrowed none ids = ids
  narrowed (some keys) ids = intersection keys ids

  -- The identities of a read must be present and distinct.
  unfoldable pub checked_rows : RemoteScan V → List (Row V) → Result (List (Row V))
  checked_rows scan rows =
      if any is_absent (id_values rows) || repeats (row_ids rows)
      then at_source query_plan_invariant_violation (scan_name scan)
      else ok rows

  module _ (sources : Sources V) where
    -- The batches of a set of keys, from the rows read so far; a batch is of at least one key, so
    -- as many rounds as keys are enough.
    unfoldable pub read_batches :
        ℕ → ℕ → RemoteScan V → List V → List (Row V) → Result (List (Row V))
    unfolding scan_rows
    read_batches zero size scan keys rows = ok rows
    read_batches (suc fuel) size scan [] rows = ok rows
    read_batches (suc fuel) size scan (k ∷ keys) rows = do
      batch ← scan_rows sources (restricted scan (take size (k ∷ keys)))
      if is_over scan.maximum_rows (length (rows ++ batch))
          then at_source query_row_limit_exceeded (scan_name scan)
          else read_batches fuel size scan (drop size (k ∷ keys)) (rows ++ batch)

    -- Only a read that is neither ranked nor limited is sent in batches.
    abbrev can_batch : RemoteScan V → ℕ → ℕ → ℕ → Bool
    can_batch scan bound batches count =
        ltb 0 bound
        && leb count (bound * batches)
        && elim scan.limit [ none ↦ true | some n ↦ false ]
        && not (is_ranked scan)

    abbrev pub read_within : RemoteScan V → Option (List V) → Option ℕ → ℕ → Result (List (Row V))
    unfolding scan_rows read_batches
    read_within scan none bound batches = scan_rows sources scan
    read_within scan (some keys) none batches = scan_rows sources scan
    read_within scan (some keys) (some bound) batches =
        let ordered = objects.sorted_by_str keys in
        if leb (length keys) bound
        then scan_rows sources (restricted scan ordered)
        else if can_batch scan bound batches (length keys)
        then read_batches (length ordered) bound scan ordered []
        else scan_rows sources scan

    -- `_read`
    unfoldable pub read_scan : RemoteScan V → Option (List V) → Option ℕ → ℕ → Result (List (Row V))
    unfolding read_within checked_rows
    read_scan scan keys maximum_keys maximum_batches = do
      rows ← read_within scan keys (smaller maximum_keys scan.key_lookup_limit) maximum_batches
      checked_rows scan rows

  -- What the loop keeps
  pub record AssemblyState : Type 0 where
    pub keys : Option (List V)
    pub required_done : ℕ
    pub required_ids : List (List V)
    pub enrichment : List (RemoteScan V × List (Row V))
    pub anchor_rows : List (Row V)

  abbrev pub first_state : AssemblyState
  first_state = record {
    keys = none;
    required_done = 0;
    required_ids = [];
    enrichment = [];
    anchor_rows = [];
  }

  abbrev pub is_required : StepRole → Bool
  is_required role = elim role [ required ↦ true | _ ↦ false ]

  -- `_can_restrict`
  abbrev can_restrict : RemoteScan V → Option (List V) → RecordAssembly V → Bool
  can_restrict scan none node = false
  can_restrict scan (some keys) node =
      fits (smaller node.maximum_transfer_keys scan.key_lookup_limit) (length keys)

  abbrev pub learned : AssemblyStep → AssemblyState → Option (List V)
  learned step state = if step.restrict then state.keys else none

  -- A ranked read of the anchor is safe once every required contributor has narrowed it.
  abbrev pub anchor_scan :
      RecordAssembly V
      → ℕ
      → AssemblyStep
      → AssemblyState
      → RemoteScan V
      → Option VectorSearch
      → RemoteScan V
  anchor_scan node total step state scan none = scan
  anchor_scan node total step state scan (some search) =
      if eqb state.required_done total
        && (eqb total 0 || can_restrict scan (learned step state) node)
      then scan
      else unranked scan search.fallback_maximum_rows

  -- Only the read of the anchor may be ranked or not.
  abbrev pub scan_for : StepRole → RemoteScan V → RemoteScan V → RemoteScan V
  scan_for anchor scan anchored = anchored
  scan_for _ scan anchored = scan

  abbrev pub scan_of_step :
      RecordAssembly V → ℕ → AssemblyStep → AssemblyState → RemoteScan V → RemoteScan V
  scan_of_step node total step state scan =
      scan_for step.role scan (anchor_scan node total step state scan scan.vector_search)

  -- What the rows of a step add to the state, before the keys are narrowed
  abbrev pub add_rows : StepRole → RemoteScan V → List (Row V) → AssemblyState → AssemblyState
  add_rows anchor scan rows state = record {
    keys = some (narrowed state.keys (row_ids rows));
    required_done = state.required_done;
    required_ids = state.required_ids;
    enrichment = state.enrichment;
    anchor_rows = rows;
  }
  add_rows required scan rows state = record {
    keys = some (narrowed state.keys (row_ids rows));
    required_done = suc state.required_done;
    required_ids = state.required_ids ++ (row_ids rows ∷ []);
    enrichment = state.enrichment ++ ((scan, rows) ∷ []);
    anchor_rows = state.anchor_rows;
  }
  add_rows optional scan rows state = record {
    keys = state.keys;
    required_done = state.required_done;
    required_ids = state.required_ids;
    enrichment = state.enrichment ++ ((scan, rows) ∷ []);
    anchor_rows = state.anchor_rows;
  }
  add_rows shortlist scan rows state = record {
    keys = some (narrowed state.keys (row_ids rows));
    required_done = state.required_done;
    required_ids = state.required_ids ++ (row_ids rows ∷ []);
    enrichment = state.enrichment;
    anchor_rows = state.anchor_rows;
  }

  -- `if not keys: return ()` of a step that narrows
  abbrev pub has_ended : StepRole → Option (List V) → Bool
  has_ended optional keys = false
  has_ended _ (some []) = true
  has_ended _ _ = false

  -- `target.update(…)` of the record with the identity of the row
  abbrev pub overlay : List String → Row V → Row V → Row V
  overlay columns row target =
      λ name. if not (name == "id") && contains name columns then row name else target name

  abbrev pub same_id : Option V → Option V → Bool
  same_id (some k) (some l) = objects.equal k l
  same_id _ _ = false

  -- One contributor's row, and all of its rows
  abbrev pub enrich_row : List String → Row V → List (Row V) → List (Row V)
  enrich_row columns row records =
      map (λ r. if same_id (r "id") (row "id") then overlay columns row r else r) records

  abbrev pub enrich_rows : List String → List (Row V) → List (Row V) → List (Row V)
  enrich_rows columns [] records = records
  enrich_rows columns (row ∷ rows) records =
      enrich_rows columns rows (enrich_row columns row records)

  unfoldable pub enrich_all : List (RemoteScan V × List (Row V)) → List (Row V) → List (Row V)
  enrich_all [] records = records
  enrich_all ((scan, rows) ∷ enrichment) records =
      enrich_all enrichment (enrich_rows (map (λ f. f.field.name) scan.projection) rows records)

  abbrev pub is_within : List (List V) → Option V → Bool
  is_within required_ids none = false
  is_within required_ids (some k) = all (λ ids. among k ids) required_ids

  -- The records that every required read returned
  unfoldable pub assembled : AssemblyState → List (Row V)
  unfolding enrich_all
  assembled state =
      keep (λ row. is_within state.required_ids (row "id"))
        (enrich_all state.enrichment state.anchor_rows)

  module _ (sources : Sources V) (node : RecordAssembly V) (scans : Dict (RemoteScan V))
      (total : ℕ) where
    -- The loop over the schedule
    unfoldable pub run_steps : List AssemblyStep → AssemblyState → Result (List (Row V))
    unfolding read_scan assembled
    run_steps [] state = ok (assembled state)
    run_steps (step ∷ steps) state = do
      found ← item (get scans step.source_name)
      let scan = scan_of_step node total step state found
      rows ←
          read_scan sources scan (learned step state) node.maximum_transfer_keys
            node.maximum_key_batches
      let next = add_rows step.role scan rows state
      if has_ended step.role next.keys then ok [] else run_steps steps next

  abbrev pub put_scans : List (RemoteScan V) → Dict (RemoteScan V) → Dict (RemoteScan V)
  put_scans [] scans = scans
  put_scans (c ∷ contributors) scans = put_scans contributors (put scans (scan_name c) c)

  -- The scans by the name of their source
  abbrev pub scans_of : RecordAssembly V → Dict (RemoteScan V)
  scans_of node = put_scans node.contributors ((scan_name node.anchor, node.anchor) ∷ [])

  -- `execute`
  unfoldable pub assemble : Sources V → RecordAssembly V → Result (List (Row V))
  unfolding run_steps
  assemble sources node =
      run_steps sources node (scans_of node) (length (keep (λ s. is_required s.role) node.schedule))
        node.schedule first_state
