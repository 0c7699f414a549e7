-- ===== src/Query/Raw.antt =====
-- The Python objects that `json.loads` and `yaml.safe_load` give for an untrusted query. A mapping
-- keeps the order of its entries; `other` stands for an object of any other type.
use yo_db.Base.{
  ℕ, zero, suc, ◌+◌, ◌*◌, String, Bool, true, false, Option, none, some, List, [], ◌∷◌,
}
use Prim.Native.Nat.{◌^◌}
use yo_db.Base.Tests.{ltb, if◌then◌else◌}
use yo_db.Base.Strings.{◌==◌}

-- `int`; `negsuc n` is -(n + 1).
pub data ℤ : Type 0 where
  pos : ℕ → ℤ
  negsuc : ℕ → ℤ

-- `float`: a finite one is its mantissa times two to its exponent.
pub data Float : Type 0 where
  nan : Float
  infinite : (negative : Bool) → Float
  finite : (mantissa exponent : ℤ) → Float

pub data RawKey : Type 0 where
  name : String → RawKey
  other_key : RawKey

mutual
  pub data Raw : Type 0 where
    null : Raw
    bool : Bool → Raw
    int : ℤ → Raw
    float : Float → Raw
    str : String → Raw
    list : Raws → Raw
    mapping : Entries → Raw
    other : Raw

  pub data Raws : Type 0 where
    nil : Raws
    cons : Raw → Raws → Raws

  pub data Entries : Type 0 where
    end : Entries
    entry : RawKey → Raw → Entries → Entries

-- `math.isfinite(x)`
abbrev pub is_finite : Float → Bool
is_finite (finite m e) = true
is_finite _ = false

-- `x <= 0`, which is False of NaN
abbrev pub int_not_positive : ℤ → Bool
int_not_positive (pos zero) = true
int_not_positive (pos (suc n)) = false
int_not_positive (negsuc n) = true

abbrev pub float_not_positive : Float → Bool
float_not_positive nan = false
float_not_positive (infinite negative) = negative
float_not_positive (finite m e) = int_not_positive m

-- `x > 1`, which is False of NaN
abbrev pub int_exceeds_one : ℤ → Bool
int_exceeds_one (pos n) = ltb 1 n
int_exceeds_one (negsuc n) = false

abbrev pub float_exceeds_one : Float → Bool
float_exceeds_one nan = false
float_exceeds_one (infinite true) = false
float_exceeds_one (infinite false) = true
float_exceeds_one (finite (negsuc m) e) = false
float_exceeds_one (finite (pos m) (pos e)) = ltb 1 (m * 2 ^ e)
float_exceeds_one (finite (pos m) (negsuc e)) = ltb (2 ^ (e + 1)) m

-- A number that is an `int` or a `float`, and no `bool`.
pub data Number : Type 0 where
  integer : ℤ → Number
  real : Float → Number

abbrev pub not_positive : Number → Bool
not_positive (integer n) = int_not_positive n
not_positive (real x) = float_not_positive x

abbrev pub exceeds_one : Number → Bool
exceeds_one (integer n) = int_exceeds_one n
exceeds_one (real x) = float_exceeds_one x

-- `value.get(key)`: an absent key is `none`.
abbrev pub entry_at : Entries → String → Option Raw
entry_at end k = none
entry_at (entry (name j) v es) k = if j == k then some v else entry_at es k
entry_at (entry other_key v es) k = entry_at es k

-- The keys of a mapping that are texts, in order.
abbrev pub entry_names : Entries → List String
entry_names end = []
entry_names (entry (name j) v es) = j ∷ entry_names es
entry_names (entry other_key v es) = entry_names es

abbrev pub all_names : Entries → Bool
all_names end = true
all_names (entry (name j) v es) = all_names es
all_names (entry other_key v es) = false

abbrev pub raws_list : Raws → List Raw
raws_list nil = []
raws_list (cons x xs) = x ∷ raws_list xs
