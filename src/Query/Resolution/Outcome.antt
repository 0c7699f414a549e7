-- ===== src/Query/Resolution/Outcome.antt =====
-- Calls of the resolution that return or refuse a source without the logical identity.
use yo_db.Base.{String, ◌≡◌, refl, Bool, true, false, Option, none, some, List, [], ◌∷◌}
use yo_db.Base.Lists.{All}
use yo_db.Query.Resolution.{bound_or_fail}
use yo_db.Errors.Ensures.{Ensures}
use yo_db.Errors.{
  Result, ok, fail, crash, source_logical_id_unavailable, ◌>>=◌, each, item, require,
}

-- A value with the property, or SOURCE_LOGICAL_ID_UNAVAILABLE.
abbrev pub Resolves : {A : Type 0} → (A → Type 0) → Result A → Type 0
Resolves P (ok a) = P a
Resolves P (fail e) = e.code ≡ source_logical_id_unavailable
Resolves P (crash e) = ⊥

pub Resolves-bind :
    {A B : Type 0} (P : A → Type 0) (Q : B → Type 0) (m : Result A) (f : A → Result B)
    → Resolves P m
    → ((a : A) → P a → Resolves Q (f a))
    → Resolves Q (m >>= f)
Resolves-bind P Q (ok a) f h k = k a h
Resolves-bind P Q (fail e) f h k = h
Resolves-bind P Q (crash e) f h k = h

pub Resolves-item :
    {A : Type 0} (o : Option A) → (a : A) × (o ≡ some a) → Resolves (λ a. o ≡ some a) (item o)
Resolves-item none (a, h) = cc
Resolves-item (some a) h = refl

pub Resolves-each :
    {A B : Type 0} (Q : A → Type 0) (P : B → Type 0) (f : A → Result B) (xs : List A)
    → ((x : A) → Q x → Resolves P (f x))
    → All Q xs
    → Resolves (λ ys. All P ys) (each f xs)
unfolding each
Resolves-each Q P f [] h k = tt
Resolves-each Q P f (x ∷ xs) h k =
    Resolves-bind P (λ ys. All P ys) (f x) _ (h x k.0)
      λ y p.
        Resolves-bind (λ ys. All P ys) (λ ys. All P ys) (each f xs) _ (Resolves-each Q P f xs h k.1)
          λ ys ps. (p, ps)

-- The only check of the resolution that a valid catalog may fail.
pub Resolves-require :
    (b : Bool) (location : String)
    → Resolves (λ _. b ≡ true) (require b source_logical_id_unavailable location)
Resolves-require true location = refl
Resolves-require false location = refl

pub Resolves-bound :
    {A : Type 0} (location : Option String) (o : Option A)
    → (a : A) × (o ≡ some a)
    → Resolves (λ a. o ≡ some a) (bound_or_fail location o)
Resolves-bound location none (a, h) = cc
Resolves-bound location (some a) h = refl

pub Resolves-weaken :
    {A : Type 0} (P Q : A → Type 0) (r : Result A)
    → Resolves P r
    → ((a : A) → P a → Q a)
    → Resolves Q r
Resolves-weaken P Q (ok a) h f = f a h
Resolves-weaken P Q (fail e) h f = h
Resolves-weaken P Q (crash e) h f = h

pub Resolves-Ensures :
    {A : Type 0} (P Q : A → Type 0) (r : Result A)
    → Resolves P r
    → Ensures Q r
    → Resolves (λ a. P a × Q a) r
Resolves-Ensures P Q (ok a) h k = (h, k)
Resolves-Ensures P Q (fail e) h k = h
Resolves-Ensures P Q (crash e) h k = h
