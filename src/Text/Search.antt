-- ===== src/Text/Search.antt =====
-- The text filters of the Prisma client: { contains, mode: "insensitive" } and { equals, mode:
-- "insensitive" }, with the lower-casing of Text.Chars.
use Prim.Native.Char.{code}
use Prim.Native.String.{[], ◌∷◌}
use qpass_backend.Prelude.{String, Bool, true, false, ◌&&◌, ◌||◌, ◌==◌, Option, none, some, eqb}
use qpass_backend.Text.Chars.{to_lower_case}

unfoldable pub starts_with : String → String → Bool
starts_with [] t = true
starts_with (c ∷ s) [] = false
starts_with (c ∷ s) (d ∷ t) = let rest = starts_with s t in eqb (code c) (code d) && rest

unfoldable pub includes : String → String → Bool
includes s [] = starts_with s []
includes s (d ∷ t) = let rest = includes s t in starts_with s (d ∷ t) || rest

abbrev pub contains : String → String → Bool
contains s t = includes (to_lower_case s) (to_lower_case t)

-- A column that is null contains nothing.
abbrev pub contains? : String → Option String → Bool
contains? s none = false
contains? s (some t) = contains s t

abbrev pub equals : String → String → Bool
equals s t = to_lower_case s == to_lower_case t
