-- ===== src/Text/Chars.antt =====
-- String.prototype.trim and toLowerCase, character by character. Lower-casing is that of ASCII: a
-- letter outside it stays as it is.
use Prim.Native.Char.{Char, code}
use Prim.Native.String.{[], ◌∷◌}
use qpass_backend.Prelude.{ℕ, String, Bool, true, false, ◌&&◌, ◌||◌, leb, eqb, if◌then◌else◌}

-- \s: the white space of ECMAScript, line terminators and the byte order mark included
abbrev pub is_space : ℕ → Bool
is_space c =
    (leb 9 c && leb c 13)
    || eqb c 32
    || eqb c 160
    || eqb c 0x1680
    || (leb 0x2000 c && leb c 0x200a)
    || eqb c 0x2028
    || eqb c 0x2029
    || eqb c 0x202f
    || eqb c 0x205f
    || eqb c 0x3000
    || eqb c 0xfeff

unfoldable pub trim_start : String → String
trim_start [] = []
trim_start (c ∷ s) = let rest = trim_start s in if is_space (code c) then rest else c ∷ s

abbrev pub is_empty : String → Bool
is_empty [] = true
is_empty (c ∷ s) = false

unfoldable pub trim_end : String → String
trim_end [] = []
trim_end (c ∷ s) =
    let rest = trim_end s in if is_empty rest && is_space (code c) then [] else c ∷ rest

unfoldable pub trim : String → String
unfolding trim_start trim_end
trim s = trim_end (trim_start s)

-- The small letter of a capital, by the table of the alphabet.
lower_from : String → String → Char → Char
lower_from (u ∷ us) (l ∷ ls) c =
    let rest = lower_from us ls c in if eqb (code u) (code c) then l else rest
lower_from [] _ c = c
lower_from (u ∷ us) [] c = c

unfoldable pub lower : Char → Char
unfolding lower_from
lower c = lower_from "ABCDEFGHIJKLMNOPQRSTUVWXYZ" "abcdefghijklmnopqrstuvwxyz" c

unfoldable pub to_lower_case : String → String
unfolding lower
to_lower_case [] = []
to_lower_case (c ∷ s) = lower c ∷ to_lower_case s

-- email.split('@')[0]
unfoldable pub before_at : String → String
before_at [] = []
before_at (c ∷ s) = let rest = before_at s in if eqb (code c) 64 then [] else c ∷ rest
