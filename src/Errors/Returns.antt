-- ===== src/Errors/Returns.antt =====
-- Calls that return: neither a structured error nor another exception leaves them.
use mathlib.Core.Path.{subst, sym}
use yo_db.Base.{◌≡◌, refl, Option, none, some}
use yo_db.Errors.{Result, ok, fail, crash, ◌>>=◌, item}

abbrev pub Returns : {A : Type 0} → (A → Type 0) → Result A → Type 0
Returns P (ok a) = P a
Returns P (fail e) = ⊥
Returns P (crash e) = ⊥

pub Returns-bind :
    {A B : Type 0} (P : A → Type 0) (Q : B → Type 0) (m : Result A) (f : A → Result B)
    → Returns P m
    → ((a : A) → P a → Returns Q (f a))
    → Returns Q (m >>= f)
Returns-bind P Q (ok a) f h k = k a h
Returns-bind P Q (fail e) f h k = h
Returns-bind P Q (crash e) f h k = h

pub Returns-weaken :
    {A : Type 0} (P Q : A → Type 0) (r : Result A)
    → Returns P r
    → ((a : A) → P a → Q a)
    → Returns Q r
Returns-weaken P Q (ok a) h f = f a h
Returns-weaken P Q (fail e) h f = h
Returns-weaken P Q (crash e) h f = h

pub Returns-value :
    {A : Type 0} (P : A → Type 0) (r : Result A) → Returns P r → (a : A) × ((r ≡ ok a) × P a)
Returns-value P (ok a) h = (a, (refl, h))
Returns-value P (fail e) h = elim h [ ]
Returns-value P (crash e) h = elim h [ ]

pub Returns-ok : {A : Type 0} (P : A → Type 0) (r : Result A) {a : A} → r ≡ ok a → P a → Returns P r
Returns-ok P r e h = subst (Returns P) (sym e) h

pub Returns-item :
    {A : Type 0} (o : Option A) → (a : A) × (o ≡ some a) → Returns (λ a. o ≡ some a) (item o)
Returns-item none (a, h) = cc
Returns-item (some a) h = refl
