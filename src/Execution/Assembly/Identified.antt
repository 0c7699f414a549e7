-- ===== src/Execution/Assembly/Identified.antt =====
-- The records of an assembly have one identity each (execution/operators/combine.py).
use mathlib.Core.Path.{subst}
use yo_db.Base.{
  ℕ, String, ◌≡◌, refl, ap, sym, ◌∙◌, inl, inr, Bool, true, false, ◌||◌, Option, none, some, List,
  [], ◌∷◌, map,
}
use yo_db.Base.Lists.{any, keep}
use yo_db.Base.Dicts.{Dict, get}
use yo_db.Base.Tests.{Bool-cases, either_holds}
use yo_db.Errors.{ok, item}
use yo_db.Errors.Ensures.{Ensures, Ensures-bind, Ensures-if, Ensures-self}
use yo_db.Execution.Rows.{Objects, Row}
use yo_db.Execution.Scans.{Sources}
use yo_db.Execution.Assembly.{
  id_values, present, row_ids, is_absent, among, repeats, checked_rows, read_scan, read_within,
  AssemblyState, first_state, learned, scan_of_step, add_rows, has_ended, overlay, same_id,
  enrich_row, enrich_rows, enrich_all, is_within, assembled, run_steps, assemble, at_source,
  smaller,
}
use yo_db.Planning.Contracts.{
  RemoteScan, StepRole, anchor, required, optional, shortlist, AssemblyStep, RecordAssembly,
}

-- Both parts of a false disjunction are false.
neither : (a b : Bool) → (a || b) ≡ false → (a ≡ false) × (b ≡ false)
neither true b h = cc
neither false b h = (refl, h)

together : (a b : Bool) → a ≡ false → b ≡ false → (a || b) ≡ false
together a b h k = rw (h, k) refl

any-keep {ℓ} :
    {A : Type ℓ} (p q : A → Bool) (xs : List A) → any p xs ≡ false → any p (keep q xs) ≡ false
any-keep p q [] h = refl
any-keep p q (x ∷ xs) h =
    let (first, rest) = neither (p x) (any p xs) h in
    either_holds (λ l. any p l ≡ false) (q x) (x ∷ keep q xs) (keep q xs)
      (together (p x) (any p (keep q xs)) first (any-keep p q xs rest)) (any-keep p q xs rest)

module _ {V : Type 0} (objects : Objects V) where
  -- No identity is missing and no two are equal.
  abbrev IsDistinct : List (Option V) → Type 0
  IsDistinct keys = (any is_absent keys ≡ false) × (repeats objects (present keys) ≡ false)

  abbrev pub IsIdentified : List (Row V) → Type 0
  IsIdentified rows = IsDistinct (id_values rows)

  among-keep :
      (k : V) (q : Option V → Bool) (keys : List (Option V))
      → among objects k (present keys) ≡ false
      → among objects k (present (keep q keys)) ≡ false
  among-keep k q [] h = refl
  among-keep k q (none ∷ keys) h =
      either_holds (λ l. among objects k (present l) ≡ false) (q none) (none ∷ keep q keys)
        (keep q keys) (among-keep k q keys h) (among-keep k q keys h)
  among-keep k q (some l ∷ keys) h =
      let (first, rest) = neither (objects.equal k l) (among objects k (present keys)) h in
      let kept = among-keep k q keys rest in
      either_holds (λ l. among objects k (present l) ≡ false) (q (some l)) (some l ∷ keep q keys)
        (keep q keys)
        (together (objects.equal k l) (among objects k (present (keep q keys))) first kept) kept

  repeats-keep :
      (q : Option V → Bool) (keys : List (Option V))
      → repeats objects (present keys) ≡ false
      → repeats objects (present (keep q keys)) ≡ false
  repeats-keep q [] h = refl
  repeats-keep q (none ∷ keys) h =
      either_holds (λ l. repeats objects (present l) ≡ false) (q none) (none ∷ keep q keys)
        (keep q keys) (repeats-keep q keys h) (repeats-keep q keys h)
  repeats-keep q (some k ∷ keys) h =
      let (first, rest) =
        neither (among objects k (present keys)) (repeats objects (present keys)) h in
      let kept = repeats-keep q keys rest in
      either_holds (λ l. repeats objects (present l) ≡ false) (q (some k)) (some k ∷ keep q keys)
        (keep q keys)
        (together (among objects k (present (keep q keys)))
          (repeats objects (present (keep q keys))) (among-keep k q keys first) kept)
        kept

  pub id_values-keep :
      (q : Option V → Bool) (rows : List (Row V))
      → id_values (keep (λ row. q (row "id")) rows) ≡ keep q (id_values rows)
  id_values-keep q [] = refl
  id_values-keep q (row ∷ rows) = elim (Bool-cases (q (row "id"))) [
    | inl e ↦ rw e (ap (λ l. row "id" ∷ l) (id_values-keep q rows))
    | inr e ↦ rw e (id_values-keep q rows)
  ]

  keep-IsIdentified :
      (q : Option V → Bool) (rows : List (Row V))
      → IsIdentified rows
      → IsIdentified (keep (λ row. q (row "id")) rows)
  keep-IsIdentified q rows h =
      subst IsDistinct (sym (id_values-keep q rows))
        (any-keep is_absent q (id_values rows) h.0, repeats-keep q (id_values rows) h.1)

  -- A contributor does not change the identity of a record.
  enrich_row-id_values :
      (columns : List String) (row : Row V) (records : List (Row V))
      → id_values (enrich_row objects columns row records) ≡ id_values records
  enrich_row-id_values columns row [] = refl
  enrich_row-id_values columns row (r ∷ records) =
      ap (λ k. k ∷ id_values (enrich_row objects columns row records))
        (either_holds (λ kept. kept "id" ≡ r "id") (same_id objects (r "id") (row "id"))
          (overlay objects columns row r) r refl refl)
      ∙ ap (λ l. r "id" ∷ l) (enrich_row-id_values columns row records)

  enrich_rows-id_values :
      (columns : List String) (rows records : List (Row V))
      → id_values (enrich_rows objects columns rows records) ≡ id_values records
  enrich_rows-id_values columns [] records = refl
  enrich_rows-id_values columns (row ∷ rows) records =
      enrich_rows-id_values columns rows (enrich_row objects columns row records)
      ∙ enrich_row-id_values columns row records

  enrich_all-id_values :
      (enrichment : List (RemoteScan V × List (Row V))) (records : List (Row V))
      → id_values (enrich_all objects enrichment records) ≡ id_values records
  unfolding enrich_all
  enrich_all-id_values [] records = refl
  enrich_all-id_values ((scan, rows) ∷ enrichment) records =
      let columns = map (λ f. f.field.name) scan.projection in
      enrich_all-id_values enrichment (enrich_rows objects columns rows records)
      ∙ enrich_rows-id_values columns rows records

  assembled-IsIdentified :
      (state : AssemblyState objects)
      → IsIdentified state.anchor_rows
      → IsIdentified (assembled objects state)
  unfolding assembled
  assembled-IsIdentified state h =
      keep-IsIdentified (is_within objects state.required_ids)
        (enrich_all objects state.enrichment state.anchor_rows)
        (subst IsDistinct (sym (enrich_all-id_values state.enrichment state.anchor_rows)) h)

  add_rows-IsIdentified :
      (role : StepRole) (scan : RemoteScan V) (rows : List (Row V)) (state : AssemblyState objects)
      → IsIdentified state.anchor_rows
      → IsIdentified rows
      → IsIdentified (add_rows objects role scan rows state).anchor_rows
  add_rows-IsIdentified anchor scan rows state h k = k
  add_rows-IsIdentified required scan rows state h k = h
  add_rows-IsIdentified optional scan rows state h k = h
  add_rows-IsIdentified shortlist scan rows state h k = h

  checked_rows-IsIdentified :
      (scan : RemoteScan V) (rows : List (Row V))
      → Ensures IsIdentified (checked_rows objects scan rows)
  unfolding checked_rows
  checked_rows-IsIdentified scan rows =
      Ensures-if IsIdentified (any is_absent (id_values rows) || repeats objects (row_ids rows))
        (at_source _ _) (ok rows) (λ e. tt)
        (λ e. neither (any is_absent (id_values rows)) (repeats objects (row_ids rows)) e)

  read_scan-IsIdentified :
      (sources : Sources V) (scan : RemoteScan V) (keys : Option (List V)) (most : Option ℕ)
      (batches : ℕ)
      → Ensures IsIdentified (read_scan objects sources scan keys most batches)
  unfolding read_scan
  read_scan-IsIdentified sources scan keys most batches =
      Ensures-bind (λ _. Unit) IsIdentified
        (read_within objects sources scan keys (smaller most scan.key_lookup_limit) batches)
        (checked_rows objects scan) (Ensures-self (λ _. Unit) _ (λ rows e. tt))
        (λ rows h. checked_rows-IsIdentified scan rows)

  module _ (sources : Sources V) (node : RecordAssembly V) (scans : Dict (RemoteScan V))
      (total : ℕ) where
    run_steps-IsIdentified :
        (steps : List AssemblyStep) (state : AssemblyState objects)
        → IsIdentified state.anchor_rows
        → Ensures IsIdentified (run_steps objects sources node scans total steps state)
    unfolding run_steps
    run_steps-IsIdentified [] state h = assembled-IsIdentified state h
    run_steps-IsIdentified (step ∷ steps) state h =
        Ensures-bind (λ _. Unit) IsIdentified (item (get scans step.source_name)) _
          (Ensures-self (λ _. Unit) _ (λ found e. tt))
          (λ found e.
            let scan = scan_of_step objects node total step state found in
            Ensures-bind IsIdentified IsIdentified
              (read_scan objects sources scan (learned objects step state)
                node.maximum_transfer_keys node.maximum_key_batches)
              _
              (read_scan-IsIdentified sources scan (learned objects step state)
                node.maximum_transfer_keys node.maximum_key_batches)
              (λ rows k.
                let next = add_rows objects step.role scan rows state in
                Ensures-if IsIdentified (has_ended objects step.role next.keys) (ok [])
                  (run_steps objects sources node scans total steps next) (λ ended. (refl, refl))
                  (λ going.
                    run_steps-IsIdentified steps next
                      (add_rows-IsIdentified step.role scan rows state h k))))

  -- The rows that an assembly returns all have an identity, and no two of them have equal ones.
  pub assemble-IsIdentified :
      (sources : Sources V) (node : RecordAssembly V)
      → Ensures IsIdentified (assemble objects sources node)
  unfolding assemble
  assemble-IsIdentified sources node =
      run_steps-IsIdentified sources node _ _ node.schedule (first_state objects) (refl, refl)
