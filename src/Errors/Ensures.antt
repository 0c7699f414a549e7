-- ===== src/Errors/Ensures.antt =====
-- Postconditions of calls that may fail in any way.
use mathlib.Core.Path.{subst}
use yo_db.Base.{ℕ, suc, String, ◌≡◌, refl, ap, Bool, true, false, List, [], ◌∷◌}
use yo_db.Base.Lists.{All, length}
use yo_db.Base.Tests.{if◌then◌else◌}
use yo_db.Errors.{ErrorCode, Result, ok, fail, crash, ◌>>=◌, require, map_indexed}

-- A value that the call returns has the property.
abbrev pub Ensures : {A : Type 0} → (A → Type 0) → Result A → Type 0
Ensures P (ok a) = P a
Ensures P (fail e) = Unit
Ensures P (crash e) = Unit

module _ {A : Type 0} (P : A → Type 0) where
  pub Ensures-ok : (r : Result A) {a : A} → Ensures P r → r ≡ ok a → P a
  Ensures-ok (ok b) h e = subst P (cc) h
  Ensures-ok (fail d) h e = cc
  Ensures-ok (crash d) h e = cc

  pub Ensures-self : (r : Result A) → ((a : A) → r ≡ ok a → P a) → Ensures P r
  Ensures-self (ok a) f = f a refl
  Ensures-self (fail e) f = tt
  Ensures-self (crash e) f = tt

  pub Ensures-weaken :
      (Q : A → Type 0) (r : Result A) → Ensures P r → ((a : A) → P a → Q a) → Ensures Q r
  Ensures-weaken Q (ok a) h f = f a h
  Ensures-weaken Q (fail e) h f = tt
  Ensures-weaken Q (crash e) h f = tt

  pub Ensures-if :
      (b : Bool) (r s : Result A)
      → (b ≡ true → Ensures P r)
      → (b ≡ false → Ensures P s)
      → Ensures P (if b then r else s)
  Ensures-if true r s f g = f refl
  Ensures-if false r s f g = g refl

pub Ensures-require :
    (b : Bool) (c : ErrorCode) (l : String) → Ensures (λ _. b ≡ true) (require b c l)
Ensures-require true c l = refl
Ensures-require false c l = tt

pub Ensures-bind :
    {A B : Type 0} (P : A → Type 0) (Q : B → Type 0) (m : Result A) (f : A → Result B)
    → Ensures P m
    → ((a : A) → P a → Ensures Q (f a))
    → Ensures Q (m >>= f)
Ensures-bind P Q (ok a) f h k = k a h
Ensures-bind P Q (fail d) f h k = tt
Ensures-bind P Q (crash d) f h k = tt

-- Every result of the loop has the property, and there is one for each item.
pub Ensures-map_indexed :
    {A B : Type 0} (Q : B → Type 0) (f : ℕ → A → Result B) (i : ℕ) (xs : List A)
    → ((j : ℕ) (a : A) → Ensures Q (f j a))
    → Ensures (λ ys. All Q ys × (length ys ≡ length xs)) (map_indexed f i xs)
unfolding map_indexed
Ensures-map_indexed Q f i [] h = (tt, refl)
Ensures-map_indexed Q f i (x ∷ xs) h =
    Ensures-bind Q (λ ys. All Q ys × (length ys ≡ length (x ∷ xs))) (f i x) _ (h i x)
      λ y py.
        Ensures-bind (λ ys. All Q ys × (length ys ≡ length xs))
          (λ ys. All Q ys × (length ys ≡ length (x ∷ xs))) (map_indexed f (suc i) xs) _
          (Ensures-map_indexed Q f (suc i) xs h) λ ys q. ((py, q.0), ap suc q.1)
