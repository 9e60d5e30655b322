-- ===== src/Text/Slug.antt =====
-- utils/slug.js
use Prim.Native.Char.{Char, code}
use Prim.Native.String.{[], ◌∷◌, ◌++◌}
use qpass_backend.Prelude.{
  ℕ, String, ◌≡◌, refl, Bool, true, false, ◌&&◌, ◌||◌, leb, eqb, if◌then◌else◌,
}
use qpass_backend.Text.Chars.{is_space, is_empty, to_lower_case}

abbrev dash : Char
dash = "-"

-- [a-z0-9\s-]
abbrev slug_char : ℕ → Bool
slug_char c = (leb b'a' c && leb c b'z') || (leb b'0' c && leb c b'9') || is_space c || eqb c b'-'

-- .replace(/[^a-z0-9\s-]/g, "")
remove_special : String → String
remove_special [] = []
remove_special (c ∷ s) =
    let rest = remove_special s in if slug_char (code c) then c ∷ rest else rest

-- .replace(/c+/g, "-") for a class `c`; the flag says whether the character before is in a run.
replace_runs : (ℕ → Bool) → Bool → String → String
replace_runs p running [] = []
replace_runs p running (c ∷ s) =
    let inside = replace_runs p true s in
    let outside = replace_runs p false s in
    if p (code c) then (if running then inside else dash ∷ inside) else c ∷ outside

-- .replace(/^-|-$/g, "")
drop_first : String → String
drop_first [] = []
drop_first (c ∷ s) = if eqb (code c) b'-' then s else c ∷ s

drop_last : String → String
drop_last [] = []
drop_last (c ∷ s) =
    let rest = drop_last s in if is_empty s && eqb (code c) b'-' then [] else c ∷ rest

unfoldable pub slug_base : String → String
unfolding remove_special replace_runs drop_first drop_last to_lower_case
slug_base title =
    let cleaned = remove_special (to_lower_case title) in
    let hyphens = replace_runs (λ c. eqb c b'-') false (replace_runs is_space false cleaned) in
    drop_last (drop_first hyphens)

-- The random suffix of six hexadecimal digits is an argument.
unfoldable pub generate_slug : String → String → String
unfolding slug_base
generate_slug title suffix =
    let slug = slug_base title in (if is_empty slug then "untitled" else slug) ++ ("-" ++ suffix)

slug_test : generate_slug "  Jazz & Blues -- Night 2! " "a1b2c3" ≡ "jazz-blues-night-2-a1b2c3"
unfolding generate_slug
slug_test = refl
