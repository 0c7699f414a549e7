-- ===== src/Base/Strings.antt =====
-- Python's `str`: concatenation and decimal numbers of f-strings, `strip` and `startswith`.
use Prim.Native.Nat.{ℕ, zero, suc, ◌+◌, ◌/◌, ◌%◌}
use Prim.Native.Char.{Char, code}
use Prim.Native.String.{String, ◌++◌, slice}
use mathlib.Core.Bool.{Bool, true, false, ◌&&◌, ◌||◌}
use yo_db.Base.Tests.{ltb, leb, eqb, if◌then◌else◌}
pub use text.Mathlib.Text.{starts_with}
pub use text.Mathlib.Text.{◌==◌}
pub use text.Mathlib.TextEquality.{eq_iff}
pub use text.Mathlib.TextPositions.{eq_refl}

infixr 66 ◌<>◌
abbrev pub ◌<>◌ : String → String → String
a <> b = a ++ b

digit : ℕ → String
digit d = slice "0123456789" d (d + 1)

show_within : ℕ → ℕ → String
show_within zero n = ""
show_within (suc fuel) n =
    let rest = show_within fuel (n / 10) in if ltb n 10 then digit n else rest <> digit (n % 10)

-- The number as an f-string prints it; a number below `10 ^ k` needs `k` rounds.
unfoldable pub show : ℕ → String
unfolding show_within digit
show n = show_within (suc n) n

between : ℕ → ℕ → ℕ → Bool
between lo hi c = leb lo c && leb c hi

-- The characters that `str.strip` removes.
unfoldable pub is_space : Char → Bool
unfolding between
is_space ch =
    let c = code ch in
    between 9 13 c
    || between 28 32 c
    || eqb c 133
    || eqb c 160
    || eqb c 5760
    || between 8192 8202 c
    || eqb c 8232
    || eqb c 8233
    || eqb c 8239
    || eqb c 8287
    || eqb c 12288

lower : Char → Bool
unfolding between
lower ch = between 97 122 (code ch)

in_identifier : Char → Bool
unfolding between lower
in_identifier ch = lower ch || between 48 57 (code ch) || eqb (code ch) 95

all_in_identifier : String → Bool
unfolding in_identifier
all_in_identifier String.[] = true
all_in_identifier (String.◌∷◌ c s) = in_identifier c && all_in_identifier s

-- a full match of `[a-z][a-z0-9_]*`
unfoldable pub is_identifier : String → Bool
unfolding lower all_in_identifier
is_identifier String.[] = false
is_identifier (String.◌∷◌ c s) = lower c && all_in_identifier s

-- `not text.strip()`
unfoldable pub is_blank : String → Bool
unfolding is_space
is_blank String.[] = true
is_blank (String.◌∷◌ c s) = is_space c && is_blank s
