-- ===== src/Planning/Contracts.antt =====
-- src/yodb/planning/contracts.py: the nodes of a physical plan and the fixed order in which the sources
-- of an assembly are read. The properties of a node, which nothing evaluates, the rewriting of plans,
-- the digest of a plan and its description for readers are left out, as is the query vector of a
-- search, which the executor of a semantic filter fills in.
use yo_db.Base.{ℕ, String, Bool, true, false, not, Option, none, some, List, ◌∷◌, ◌++◌, map}
use yo_db.Base.Lists.{keep}
use yo_db.Base.Dicts.{contains}
use yo_db.Catalog.{VectorMetric}
use yo_db.Query.Models.{BoundFilterExpression, BoundOrderTerm}
use yo_db.Query.Resolution.{ResolvedField, SingleSourceQueryBinding}

pub record VectorSearch : Type 0 where
  pub column : String
  pub metric : VectorMetric
  pub model : String
  pub dimensions : ℕ
  pub shortlist_size : ℕ
  pub fallback_maximum_rows : Option ℕ

pub record RemoteScan (V : Type 0) : Type 0 where
  pub source : SingleSourceQueryBinding
  pub projection : List ResolvedField
  pub pushed_filter : Option (BoundFilterExpression V)
  pub order_by : List BoundOrderTerm
  pub limit : Option ℕ
  pub maximum_rows : Option ℕ
  pub key_filter : Option (List V)
  pub vector_search : Option VectorSearch
  pub key_lookup_limit : Option ℕ

pub data StepRole : Type 0 where
  anchor required optional shortlist : StepRole

pub record AssemblyStep : Type 0 where
  pub source_name : String
  pub role : StepRole
  pub restrict : Bool

pub record RecordAssembly (V : Type 0) : Type 0 where
  pub anchor : RemoteScan V
  pub contributors : List (RemoteScan V)
  pub required_contributor_matches : List String
  pub maximum_transfer_keys : Option ℕ
  pub maximum_key_batches : ℕ
  pub schedule : List AssemblyStep

pub data PhysicalNode (V : Type 0) : Type 0 where
  remote_scan : RemoteScan V → PhysicalNode V
  record_assembly : RecordAssembly V → PhysicalNode V
  coordinator_filter :
      (input : PhysicalNode V) (expression : Option (BoundFilterExpression V)) → PhysicalNode V
  coordinator_sort_page :
      (input : PhysicalNode V) (order_by : List BoundOrderTerm) (first : Option ℕ) → PhysicalNode V
  result_project : (input : PhysicalNode V) (projection : List ResolvedField) → PhysicalNode V

module _ {V : Type 0} where
  abbrev pub scan_name : RemoteScan V → String
  scan_name scan = scan.source.source_name

  -- `scan.vector_search is not None`
  abbrev pub is_ranked : RemoteScan V → Bool
  is_ranked scan = elim scan.vector_search [ none ↦ false | some search ↦ true ]

  -- `default_schedule`
  unfoldable pub default_schedule :
      RemoteScan V → List (RemoteScan V) → List String → List AssemblyStep
  default_schedule first contributors required_names =
      let plain = keep (λ c. not (is_ranked c)) contributors in
      map (λ c. record { source_name = scan_name c; role = required; restrict = true })
        (keep (λ c. contains (scan_name c) required_names) plain)
      ++ map (λ c. record { source_name = scan_name c; role = shortlist; restrict = true })
          (keep is_ranked contributors)
      ++ (record { source_name = scan_name first; role = anchor; restrict = true }
          ∷ map (λ c. record { source_name = scan_name c; role = optional; restrict = true })
              (keep (λ c. not (contains (scan_name c) required_names)) plain))
