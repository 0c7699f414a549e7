-- ===== src/Errors.antt =====
-- src/yodb/errors.py: the error codes, the structured detail, and the two ways a call fails: a
-- `YoDbError` with its detail, or any other Python exception. Message texts are not modelled.
pub mod Ensures
pub mod Returns
use mathlib.Core.Path.{subst}
use yo_db.Base.Lists.{All, length}
use yo_db.Base.Tests.{if◌then◌else◌}
use yo_db.Base.{
  ℕ, zero, suc, ap, String, ◌≡◌, refl, Bool, true, false, Option, none, some, List, [], ◌∷◌,
}

pub data ErrorCode : Type 0 where
  source_kind_unsupported connection_reference_not_found connection_pool_timeout : ErrorCode
  connection_pool_closed source_unavailable source_authentication_failed : ErrorCode
  source_permission_denied source_inspection_failed source_capability_unavailable : ErrorCode
  source_validation_failed catalog_load_failed catalog_runtime_uninitialized : ErrorCode
  query_shape_invalid query_feature_not_supported dataset_not_found field_not_found : ErrorCode
  field_not_accessible query_value_type_invalid query_operator_not_supported : ErrorCode
  query_expression_invalid query_limit_invalid query_catalog_mismatch : ErrorCode
  source_binding_unavailable source_logical_id_unavailable query_compilation_unsupported : ErrorCode
  query_source_shape_unsupported query_plan_unsupported query_plan_invariant_violation : ErrorCode
  query_row_limit_exceeded query_coordinator_limit_exceeded : ErrorCode
  query_semantic_budget_exceeded semantic_provider_unavailable semantic_provider_failed : ErrorCode
  query_execution_unsupported query_execution_failed query_timeout relationship_not_found :
      ErrorCode
  relationship_not_applicable : ErrorCode

pub record ErrorDetail : Type 0 where
  pub code : ErrorCode
  pub source_name : Option String
  pub location : Option String

-- Exceptions of Python itself, which no handler of a query turns into an `ErrorDetail`.
pub data PythonError : Type 0 where
  assertion_error value_error type_error key_error overflow_error recursion_error : PythonError
  catalog_validation_error : PythonError

pub data Result {ℓ} (Value : Type ℓ) : Type ℓ where
  ok : Value → Result Value
  fail : ErrorDetail → Result Value
  crash : PythonError → Result Value

infixl 5 ◌>>=◌ ◌>>◌
-- The call, and what follows it if it returns.
abbrev pub ◌>>=◌ {μ ν} :
    {Value : Type μ} {Next : Type ν} → Result Value → (Value → Result Next) → Result Next
fail detail >>= next = fail detail
crash python >>= next = crash python
ok value >>= next = next value

abbrev pub ◌>>◌ {ν} : {Next : Type ν} → Result (Unit {0}) → Result Next → Result Next
check >> next = check >>= λ done. next

-- `_fail(code, message, location)`
abbrev pub fail_at {ℓ} : {A : Type ℓ} → ErrorCode → String → Result A
fail_at code location = fail (record { code = code; source_name = none; location = some location })

-- `if not test: _fail(code, message, location)`
abbrev pub require : Bool → ErrorCode → String → Result (Unit {0})
require true code location = ok tt
require false code location = fail_at code location

-- `tuple(f(index, item) for index, item in enumerate(items))`, from a first index.
module _ {ℓ κ} {A : Type ℓ} {B : Type κ} where
  unfoldable pub map_indexed : (ℕ → A → Result B) → ℕ → List A → Result (List B)
  map_indexed f i [] = ok []
  map_indexed f i (x ∷ xs) = do y ← f i x; ys ← map_indexed f (suc i) xs; ok (y ∷ ys)

-- `tuple(f(x) for x in xs)`
module _ {ℓ κ} {A : Type ℓ} {B : Type κ} where
  unfoldable pub each : (A → Result B) → List A → Result (List B)
  each f [] = ok []
  each f (x ∷ xs) = do y ← f x; ys ← each f xs; ok (y ∷ ys)

-- A loop that only checks: the first item that fails ends it.
unfoldable pub for_each {ℓ} : {A : Type ℓ} → (A → Result (Unit {0})) → List A → Result (Unit {0})
for_each f [] = ok tt
for_each f (x ∷ xs) = do f x; for_each f xs

-- `d[k]`
abbrev pub item {ℓ} : {V : Type ℓ} → Option V → Result V
item none = crash key_error
item (some v) = ok v

-- The call returns a value with the property, or raises a structured error: no other exception
-- leaves it.
abbrev pub Safe : {A : Type 0} → (A → Type 0) → Result A → Type 0
Safe P (ok a) = P a
Safe P (fail e) = Unit
Safe P (crash e) = ⊥

pub Safe-require : (b : Bool) (c : ErrorCode) (l : String) → Safe (λ _. b ≡ true) (require b c l)
Safe-require true c l = refl
Safe-require false c l = tt

module _ {A : Type 0} where
  pub Safe-ok : (P : A → Type 0) (r : Result A) {a : A} → Safe P r → r ≡ ok a → P a
  Safe-ok P (ok b) h e = subst P (cc) h
  Safe-ok P (fail d) h e = cc
  Safe-ok P (crash d) h e = cc

  pub Safe-weaken : (P Q : A → Type 0) (r : Result A) → ((a : A) → P a → Q a) → Safe P r → Safe Q r
  Safe-weaken P Q (ok a) f h = f a h
  Safe-weaken P Q (fail d) f h = tt
  Safe-weaken P Q (crash d) f h = h

  -- A test, and an error or the rest of the function.
  pub Safe-if :
      (P : A → Type 0) (b : Bool) (r s : Result A)
      → (b ≡ true → Safe P r)
      → (b ≡ false → Safe P s)
      → Safe P (if b then r else s)
  Safe-if P true r s f g = f refl
  Safe-if P false r s f g = g refl

module _ {A B : Type 0} (P : A → Type 0) (Q : B → Type 0) where
  pub Safe-bind :
      (m : Result A) (f : A → Result B)
      → Safe P m
      → ((a : A) → P a → Safe Q (f a))
      → Safe Q (m >>= f)
  Safe-bind (ok a) f h k = k a h
  Safe-bind (fail d) f h k = tt
  Safe-bind (crash d) f h k = h

-- Every result of the loop has the property, and there is one for each item.
pub Safe-map_indexed :
    {A B : Type 0} (Q : B → Type 0) (f : ℕ → A → Result B) (i : ℕ) (xs : List A)
    → ((j : ℕ) (a : A) → Safe Q (f j a))
    → Safe (λ ys. All Q ys × (length ys ≡ length xs)) (map_indexed f i xs)
unfolding map_indexed
Safe-map_indexed Q f i [] h = (tt, refl)
Safe-map_indexed Q f i (x ∷ xs) h = Safe-bind Q _ (f i x) _ (h i x) λ y py.
    Safe-bind (λ ys. All Q ys × (length ys ≡ length xs)) _ (map_indexed f (suc i) xs) _
      (Safe-map_indexed Q f (suc i) xs h) λ ys q. ((py, q.0), ap suc q.1)
