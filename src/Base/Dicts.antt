-- ===== src/Base/Dicts.antt =====
-- Python's `dict` with text keys: entries in the order of insertion, a key at most once.
use mathlib.Core.Path.{◌≡◌, refl, sym, subst}
use mathlib.Core.Logic.{inl, inr}
use yo_db.Base.Lists.{All, all}
use mathlib.Core.Bool.{Bool, true, false, ◌||◌}
use mathlib.Core.Option.{Option, none, some}
use mathlib.Core.List.{List, [], ◌∷◌, ◌++◌}
use native.Mathlib.Omega.{arith}
use Prim.Native.String.{String}
use yo_db.Base.Tests.{if◌then◌else◌, Bool-cases}
use yo_db.Base.Strings.{◌==◌, eq_iff, eq_refl}

abbrev pub Dict {ℓ} : Type ℓ → Type ℓ
Dict V = List (String × V)

-- `name in names`
abbrev pub contains : String → List String → Bool
contains k [] = false
contains k (j ∷ js) = j == k || contains k js

module _ {ℓ} {V : Type ℓ} where
  -- `d.get(k)`
  abbrev pub get : Dict V → String → Option V
  get [] k = none
  get ((j, v) ∷ d) k = if j == k then some v else get d k

  abbrev pub keys : Dict V → List String
  keys [] = []
  keys ((j, v) ∷ d) = j ∷ keys d

  -- `k in d`
  abbrev pub has : Dict V → String → Bool
  has d k = contains k (keys d)

  -- `d[k] = v`
  abbrev pub put : Dict V → String → V → Dict V
  put [] k v = (k, v) ∷ []
  put ((j, w) ∷ d) k v = if j == k then (j, v) ∷ d else (j, w) ∷ put d k v

-- `p` of every name is `p` of one among them.
pub all-contains :
    (p : String → Bool) (k : String) (ks : List String)
    → all p ks ≡ true
    → contains k ks ≡ true
    → p k ≡ true
all-contains p k [] h found = cc
all-contains p k (j ∷ js) h found = elim (Bool-cases (j == k)) [
  | inl same ↦ subst (λ n. p n ≡ true) ((eq_iff j k).0 same) (ground (arith, h))
  | inr other ↦ all-contains p k js (ground (arith, h)) (ground arith)
]

-- What holds of every name holds of one among them.
pub All-contains {ℓ} :
    (P : String → Type ℓ) (k : String) (ks : List String) → All P ks → contains k ks ≡ true → P k
All-contains P k [] h found = cc
All-contains P k (j ∷ js) h found = elim (Bool-cases (j == k)) [
  | inl same ↦ subst P ((eq_iff j k).0 same) h.0
  | inr other ↦ All-contains P k js h.1 (ground arith)
]

module _ {ℓ} {V : Type ℓ} where
  pub has-get : (d : Dict V) (k : String) → has d k ≡ true → (v : V) × (get d k ≡ some v)
  has-get [] k h = cc
  has-get ((j, v) ∷ d) k h = elim (Bool-cases (j == k)) [
    | inl same ↦ (v, rw same refl)
    | inr other ↦ let (w, found) = has-get d k (ground (arith, h, other)) in (w, rw other found)
  ]

  pub get-has : (d : Dict V) (k : String) {v : V} → get d k ≡ some v → has d k ≡ true
  get-has [] k h = cc
  get-has ((j, w) ∷ d) k {v} h = elim (Bool-cases (j == k)) [
    | inl same ↦ rw same refl
    | inr other ↦ rw other (get-has d k {v = v} (ground (arith, other, h)))
  ]

  -- What holds of every entry holds of the one that a lookup finds.
  pub All-get {κ} :
      (P : String × V → Type κ) (d : Dict V) (k : String) {v : V}
      → All P d
      → get d k ≡ some v
      → P (k, v)
  All-get P [] k h found = cc
  All-get P ((j, w) ∷ d) k {v} h found = elim (Bool-cases (j == k)) [
    | inl same ↦
        subst (λ n. P (n, v)) ((eq_iff j k).0 same)
          (subst (λ x. P (j, x)) (ground (arith, same, found)) h.0)
    | inr other ↦ All-get P d k h.1 (ground (arith, other, found))
  ]

  -- A key of the dict after an assignment.
  pub contains-put :
      (d : Dict V) (k j : String) (v : V)
      → contains j (keys (put d k v)) ≡ (contains j (keys d) || k == j)
  contains-put [] k j v = ground arith
  contains-put ((i, w) ∷ d) k j v =
      ground (arith, eq_iff k j, eq_iff i k, eq_iff i j, contains-put d k j v)

  -- What holds of every entry still holds when one that has it is assigned.
  pub All-put {κ} :
      (P : String × V → Type κ) (d : Dict V) (k : String) (v : V)
      → All P d
      → P (k, v)
      → All P (put d k v)
  All-put P [] k v h new = (new, tt)
  All-put P ((j, w) ∷ d) k v h new = elim (Bool-cases (j == k)) [
    | inl same ↦ rw (same, put) (subst (λ n. P (n, v)) (sym ((eq_iff j k).0 same)) new, h.1)
    | inr other ↦ rw (other, put) (h.0, All-put P d k v h.1 new)
  ]

module _ {ℓ} {V : Type ℓ} where
  -- No key twice, as in every `dict`.
  abbrev pub IsDict : Dict V → Type 0
  IsDict [] = Unit
  IsDict ((k, v) ∷ d) = (has d k ≡ false) × IsDict d

  -- A new key is the last.
  pub put-new : (d : Dict V) (k : String) (v : V) → has d k ≡ false → put d k v ≡ d ++ ((k, v) ∷ [])
  put-new [] k v new = refl
  put-new ((j, w) ∷ d) k v new = ground (arith, put-new d k v)

contains_more :
    (name : String) (names among : List String)
    → all (λ n. contains n among) names ≡ true
    → all (λ n. contains n (name ∷ among)) names ≡ true
contains_more name [] among h = refl
contains_more name (n ∷ names) among h = ground (arith, contains_more name names among)

-- Each name of a list is in the list.
pub all-contains_self : (names : List String) → all (λ n. contains n names) names ≡ true
all-contains_self [] = refl
all-contains_self (n ∷ names) =
    ground (arith, eq_refl n, contains_more n names names (all-contains_self names))
