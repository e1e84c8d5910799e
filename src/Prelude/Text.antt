-- ===== src/Prelude/Text.antt =====
-- The text operations that the program calls. A text is a list of characters.
use Prim.Native.Nat.{ℕ}
use Prim.Native.Char.{Char, code}
use Prim.Native.String.{String}
use mathlib.Core.Path.{◌≡◌, refl}
use mathlib.Core.Bool.{Bool, true, ◌&&◌, ◌||◌}
use tachiko_conductor.Prelude.Tests.{nat_eq, string_eq, leb, ◌==◌, if◌then◌else◌}

-- The characters that ECMAScript counts as white space or as line ends.
abbrev is_space : ℕ → Bool
is_space c =
    (leb 9 c && leb c 13)
    || (c == 32)
    || (c == 160)
    || (c == 0x1680)
    || (leb 0x2000 c && leb c 0x200a)
    || (c == 0x2028)
    || (c == 0x2029)
    || (c == 0x202f)
    || (c == 0x205f)
    || (c == 0x3000)
    || (c == 0xfeff)

trim_start : String → String
trim_start String.[] = String.[]
trim_start (String.◌∷◌ c s) =
    let rest = trim_start s in if is_space (code c) then rest else String.◌∷◌ c s

cons_unless_blank : Char → String → String
cons_unless_blank c String.[] = if is_space (code c) then String.[] else String.◌∷◌ c String.[]
cons_unless_blank c (String.◌∷◌ d s) = String.◌∷◌ c (String.◌∷◌ d s)

trim_end : String → String
unfolding cons_unless_blank
trim_end String.[] = String.[]
trim_end (String.◌∷◌ c s) = cons_unless_blank c (trim_end s)

-- `text.trim()`
unfoldable pub trim : String → String
unfolding trim_start trim_end
trim s = trim_end (trim_start s)

-- `text.trim() === ''`
unfoldable pub is_blank : String → Bool
unfolding trim
is_blank s = trim s == ""

trim-padded : trim " \n HEAD sha  " ≡ "HEAD sha"
unfolding trim
trim-padded = refl

is_blank-spaces : is_blank " \t " ≡ true
unfolding is_blank
is_blank-spaces = refl
