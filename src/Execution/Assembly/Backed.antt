-- ===== src/Execution/Assembly/Backed.antt =====
-- The records of an assembly are in every required read (execution/operators/combine.py).
use mathlib.Core.Path.{subst}
use yo_db.Base.{
  ℕ, String, ◌≡◌, refl, sym, inl, inr, Bool, true, false, ◌&&◌, Option, none, some, List, [], ◌∷◌,
}
use yo_db.Base.Lists.{All, All-append_iff, All-weaken, all, keep}
use yo_db.Base.Dicts.{Dict, get}
use yo_db.Base.Tests.{Bool-cases}
use yo_db.Errors.{ok, item}
use yo_db.Errors.Ensures.{Ensures, Ensures-bind, Ensures-if, Ensures-self, Ensures-weaken}
use yo_db.Execution.Rows.{Objects, Row}
use yo_db.Execution.Scans.{Sources}
use yo_db.Execution.Assembly.{
  id_values, present, row_ids, among, read_scan, AssemblyState, first_state, learned, scan_for,
  scans_of, anchor_scan, add_rows, has_ended, enrich_all, is_within, assembled, run_steps, assemble,
}
use yo_db.Execution.Assembly.Identified.{id_values-keep}
use yo_db.Planning.Contracts.{
  RemoteScan, StepRole, anchor, required, optional, shortlist, AssemblyStep, RecordAssembly,
}

-- Both parts of a true conjunction are true.
both : (a b : Bool) → (a && b) ≡ true → (a ≡ true) × (b ≡ true)
both true b h = (refl, h)
both false b h = cc

item-found : {A : Type 0} (found : Option A) → Ensures (λ a. found ≡ some a) (item found)
item-found none = tt
item-found (some a) = refl

module _ {V : Type 0} (objects : Objects V) where
  abbrev IsAmong : V → List (List V) → Type 0
  IsAmong k required_ids = All (λ ids. among objects k ids ≡ true) required_ids

  within-IsAmong :
      (k : V) (required_ids : List (List V))
      → all (λ ids. among objects k ids) required_ids ≡ true
      → IsAmong k required_ids
  within-IsAmong k [] h = tt
  within-IsAmong k (ids ∷ required_ids) h =
      let (first, rest) =
        both (among objects k ids) (all (λ ids. among objects k ids) required_ids) h in
      (first, within-IsAmong k required_ids rest)

  keep-IsAmong :
      (required_ids : List (List V)) (keys : List (Option V))
      → All (λ k. IsAmong k required_ids) (present (keep (is_within objects required_ids) keys))
  keep-IsAmong required_ids [] = tt
  keep-IsAmong required_ids (none ∷ keys) = keep-IsAmong required_ids keys
  keep-IsAmong required_ids (some k ∷ keys) =
      elim (Bool-cases (is_within objects required_ids (some k))) [
        | inl e ↦ rw e (within-IsAmong k required_ids e, keep-IsAmong required_ids keys)
        | inr e ↦ rw e (keep-IsAmong required_ids keys)
      ]

  module _ (sources : Sources V) (node : RecordAssembly V) (scans : Dict (RemoteScan V)) where
    -- A read of the source returned a row of the identity.
    abbrev IsRead : String → V → Type 0
    IsRead name k =
        (scan : RemoteScan V) × (keys : Option (List V)) × (rows : List (Row V)) × ((get scans name
            ≡ some scan)
          × ((read_scan objects sources scan keys node.maximum_transfer_keys
                  node.maximum_key_batches
                ≡ ok rows)
              × (among objects k (row_ids rows) ≡ true)))

    abbrev pub IsBacked : StepRole → String → V → Type 0
    IsBacked required name k = IsRead name k
    IsBacked shortlist name k = IsRead name k
    IsBacked _ name k = Unit

    abbrev IsJustified : List AssemblyStep → List (List V) → V → Type 0
    IsJustified steps required_ids k =
        IsAmong k required_ids × All (λ step. IsBacked step.role step.source_name k) steps

    step-IsBacked :
        (role : StepRole) (name : String) (found anchored : RemoteScan V) (keys : Option (List V))
        (rows : List (Row V)) (state : AssemblyState objects) (k : V)
        → get scans name ≡ some found
        → read_scan objects sources
            (scan_for objects role found anchored)
            keys
            node.maximum_transfer_keys
            node.maximum_key_batches
          ≡ ok rows
        → IsAmong k
            (add_rows objects role (scan_for objects role found anchored) rows state).required_ids
        → IsAmong k state.required_ids × IsBacked role name k
    step-IsBacked anchor name found anchored keys rows state k e r h = (h, tt)
    step-IsBacked optional name found anchored keys rows state k e r h = (h, tt)
    step-IsBacked required name found anchored keys rows state k e r h =
        let (before, last) =
          (All-append_iff (λ ids. among objects k ids ≡ true) state.required_ids
              (row_ids rows ∷ [])).0
            h in
        (before, (found, keys, rows, (e, (r, last.0))))
    step-IsBacked shortlist name found anchored keys rows state k e r h =
        let (before, last) =
          (All-append_iff (λ ids. among objects k ids ≡ true) state.required_ids
              (row_ids rows ∷ [])).0
            h in
        (before, (found, keys, rows, (e, (r, last.0))))

    run_steps-IsJustified :
        (total : ℕ) (steps : List AssemblyStep) (state : AssemblyState objects)
        → Ensures
            (λ result. All (IsJustified steps state.required_ids) (row_ids result))
            (run_steps objects sources node scans total steps state)
    unfolding run_steps assembled
    run_steps-IsJustified total [] state =
        All-weaken (λ k. IsAmong k state.required_ids) (IsJustified [] state.required_ids)
          (row_ids (assembled objects state)) (λ k h. (h, tt))
          (subst (λ keys. All (λ k. IsAmong k state.required_ids) (present keys))
            (sym (
              id_values-keep objects (is_within objects state.required_ids)
                (enrich_all objects state.enrichment state.anchor_rows)))
            (keep-IsAmong state.required_ids
              (id_values (enrich_all objects state.enrichment state.anchor_rows))))
    run_steps-IsJustified total (step ∷ steps) state =
        let Q = λ (result : List (Row V)).
          All (IsJustified (step ∷ steps) state.required_ids) (row_ids result) in
        let keys = learned objects step state in
        Ensures-bind (λ found. get scans step.source_name ≡ some found) Q
          (item (get scans step.source_name)) _ (item-found (get scans step.source_name))
          (λ found e.
            let anchored = anchor_scan objects node total step state found found.vector_search in
            let scan = scan_for objects step.role found anchored in
            let read =
              read_scan objects sources scan keys node.maximum_transfer_keys
                node.maximum_key_batches in
            Ensures-bind (λ rows. read ≡ ok rows) Q read _
              (Ensures-self (λ rows. read ≡ ok rows) read (λ rows r. r))
              (λ rows r.
                let next = add_rows objects step.role scan rows state in
                Ensures-if Q (has_ended objects step.role next.keys) (ok [])
                  (run_steps objects sources node scans total steps next) (λ ended. tt)
                  (λ going.
                    Ensures-weaken
                      (λ result. All (IsJustified steps next.required_ids) (row_ids result)) Q
                      (run_steps objects sources node scans total steps next)
                      (run_steps-IsJustified total steps next)
                      (λ result h.
                        All-weaken (IsJustified steps next.required_ids)
                          (IsJustified (step ∷ steps) state.required_ids) (row_ids result)
                          (λ k j.
                            let (before, backed) =
                              step-IsBacked step.role step.source_name found anchored keys rows
                                state k e r j.0 in
                            (before, (backed, j.1)))
                          h))))

  -- Every identity that an assembly returns is one that each required and each shortlisting source
  -- of its schedule returned in a read.
  pub assemble-IsBacked :
      (sources : Sources V) (node : RecordAssembly V)
      → Ensures
          (λ result.
            All
              (λ k.
                All
                  (λ step.
                    IsBacked sources node (scans_of objects node) step.role step.source_name k)
                  node.schedule)
              (row_ids result))
          (assemble objects sources node)
  unfolding assemble
  assemble-IsBacked sources node =
      Ensures-weaken _ _ (assemble objects sources node)
        (run_steps-IsJustified sources node (scans_of objects node) _ node.schedule
          (first_state objects))
        (λ result h. All-weaken _ _ (row_ids result) (λ k j. j.1) h)
