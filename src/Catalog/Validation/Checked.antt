-- ===== src/Catalog/Validation/Checked.antt =====
-- Calls that return a value with a property or refuse the catalog.
use yo_db.Base.{String, ◌≡◌, refl, Bool, true, false, Option, none, some, List, [], ◌∷◌}
use yo_db.Base.Lists.{All}
use yo_db.Base.Strings.{is_identifier}
use yo_db.Base.Tests.{if◌then◌else◌}
use yo_db.Errors.{Result, ok, fail, crash, catalog_validation_error, ◌>>=◌, for_each, item}
use yo_db.Catalog.Validation.{check, found, validate_named_mapping, validate_identifier}

-- The call returns a value with the property, or refuses the catalog: no KeyError leaves it.
abbrev pub Checked : {A : Type 0} → (A → Type 0) → Result A → Type 0
Checked P (ok a) = P a
Checked P (fail e) = ⊥
Checked P (crash e) = e ≡ catalog_validation_error

pub Checked-bind :
    {A B : Type 0} (P : A → Type 0) (Q : B → Type 0) (m : Result A) (f : A → Result B)
    → Checked P m
    → ((a : A) → P a → Checked Q (f a))
    → Checked Q (m >>= f)
Checked-bind P Q (ok a) f h k = k a h
Checked-bind P Q (fail e) f h k = h
Checked-bind P Q (crash e) f h k = h

pub Checked-weaken :
    {A : Type 0} (P Q : A → Type 0) (r : Result A)
    → Checked P r
    → ((a : A) → P a → Q a)
    → Checked Q r
Checked-weaken P Q (ok a) h f = f a h
Checked-weaken P Q (fail e) h f = h
Checked-weaken P Q (crash e) h f = h

pub Checked-check : (b : Bool) → Checked (λ _. b ≡ true) (check b)
Checked-check true = refl
Checked-check false = refl

pub Checked-found : {V : Type 0} (o : Option V) → Checked (λ v. o ≡ some v) (found o)
Checked-found none = refl
Checked-found (some v) = refl

pub Checked-item :
    {V : Type 0} (o : Option V) → (v : V) × (o ≡ some v) → Checked (λ v. o ≡ some v) (item o)
Checked-item none (v, h) = cc
Checked-item (some v) h = refl

pub Checked-for_each :
    {A : Type 0} (P Q : A → Type 0) (f : A → Result (Unit {0})) (xs : List A)
    → ((x : A) → Q x → Checked (λ _. P x) (f x))
    → All Q xs
    → Checked (λ _. All P xs) (for_each f xs)
unfolding for_each
Checked-for_each P Q f [] h k = tt
Checked-for_each P Q f (x ∷ xs) h k =
    Checked-bind (λ _. P x) (λ _. All P (x ∷ xs)) (f x) _ (h x k.0)
      λ _ p.
        Checked-weaken (λ _. All P xs) _ (for_each f xs) (Checked-for_each P Q f xs h k.1)
          λ _ ps. (p, ps)

-- A loop whose steps need nothing.
pub Checked-each :
    {A : Type 0} (P : A → Type 0) (f : A → Result (Unit {0})) (xs : List A)
    → ((x : A) → Checked (λ _. P x) (f x))
    → Checked (λ _. All P xs) (for_each f xs)
unfolding for_each
Checked-each P f [] h = tt
Checked-each P f (x ∷ xs) h =
    Checked-bind (λ _. P x) (λ _. All P (x ∷ xs)) (f x) _ (h x)
      λ _ p.
        Checked-weaken (λ _. All P xs) _ (for_each f xs) (Checked-each P f xs h) λ _ ps. (p, ps)

-- The name is lower-case letters, digits and `_`, and starts with a letter.
abbrev pub IsIdentifier : String → Type 0
IsIdentifier name = is_identifier name ≡ true

pub names-Checked :
    (ns : List String) → Checked (λ _. All IsIdentifier ns) (validate_named_mapping ns)
unfolding validate_named_mapping validate_identifier
names-Checked [] = refl
names-Checked (n ∷ ns) =
    Checked-each IsIdentifier validate_identifier (n ∷ ns) λ m. Checked-check (is_identifier m)

pub Checked-if :
    {A : Type 0} (P : A → Type 0) (b : Bool) (r s : Result A)
    → (b ≡ true → Checked P r)
    → (b ≡ false → Checked P s)
    → Checked P (if b then r else s)
Checked-if P true r s f g = f refl
Checked-if P false r s f g = g refl
