-- ===== src/Csv/Print.antt =====
-- modules/reports/export.service.js: `escapeCsv` and `toCsv`, which
-- modules/tickets/tickets.service.js repeats for its export.
use Prim.Native.Char.{Char, code}
use Prim.Native.String.{[], ◌∷◌, ◌++◌}
use qpass_backend.Prelude.{String, Bool, false, ◌||◌, List, eqb, if◌then◌else◌, map}
use qpass_backend.Csv.Split.{is_quote}

-- [\t\r\n ]
abbrev is_blank : Char → Bool
is_blank c = eqb (code c) 9 || eqb (code c) 13 || eqb (code c) 10 || eqb (code c) 32

-- [=+\-@]
abbrev is_operator : Char → Bool
is_operator c = eqb (code c) 61 || eqb (code c) 43 || eqb (code c) 45 || eqb (code c) 64

-- /^[\t\r\n ]*[=+\-@]/: no operator is a blank, so the blanks are all skipped.
unfoldable pub is_formula : String → Bool
is_formula [] = false
is_formula (c ∷ s) = let rest = is_formula s in if is_blank c then rest else is_operator c

-- `safeValue`
unfoldable pub safe_value : String → String
safe_value s = if is_formula s then "'" ++ s else s

-- replace(/"/g, '""')
unfoldable pub double_quotes : String → String
double_quotes [] = []
double_quotes (c ∷ s) = let rest = double_quotes s in if is_quote c then c ∷ c ∷ rest else c ∷ rest

unfoldable pub escape_csv : String → String
escape_csv value = "\"" ++ double_quotes (safe_value value) ++ "\""

-- Array.prototype.join
unfoldable pub join : String → List String → String
join sep List.[] = []
join sep (List.◌∷◌ s List.[]) = s
join sep (List.◌∷◌ s (List.◌∷◌ t ts)) = s ++ sep ++ join sep (List.◌∷◌ t ts)

unfoldable pub csv_row : List String → String
csv_row fields = join "," (map escape_csv fields)

unfoldable pub to_csv : List String → List (List String) → String
to_csv headers rows = join "\n" (List.◌∷◌ (csv_row headers) (map csv_row rows))
