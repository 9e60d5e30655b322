-- ===== src/Csv/Split.antt =====
-- modules/registrations/import.service.js: `splitCsvLine` and `splitCsvLines`. A position is the
-- text from there on, and `skip` is an `i++` in the body of the loop.
use Prim.Native.Char.{Char, code}
use Prim.Native.String.{[], ◌∷◌, ◌++◌}
use qpass_backend.Prelude.{String, Bool, true, false, not, ◌&&◌, ◌||◌, List, eqb, if◌then◌else◌}
use qpass_backend.Text.{trim, is_empty}

abbrev pub is_quote : Char → Bool
is_quote c = eqb (code c) 34

abbrev pub is_comma : Char → Bool
is_comma c = eqb (code c) 44

abbrev pub is_return : Char → Bool
is_return c = eqb (code c) 13

abbrev pub is_newline : Char → Bool
is_newline c = eqb (code c) 10

-- Whether the character at a position is there and passes the test.
unfoldable pub next_is : (Char → Bool) → String → Bool
next_is p [] = false
next_is p (c ∷ s) = p c

-- if (inQuotes && line[i + 1] === '"')
abbrev pub is_pair : Bool → Char → String → Bool
is_pair in_quotes c s = is_quote c && in_quotes && next_is is_quote s

-- The quotes toggle at a quote that is no pair.
abbrev pub toggled : Bool → Char → String → Bool
toggled in_quotes c s =
    if is_quote c && not (is_pair in_quotes c s) then not in_quotes else in_quotes

abbrev pub ends_field : Bool → Char → Bool
ends_field in_quotes c = is_comma c && not in_quotes

-- `current` of the next position: a quote that toggles is dropped, a comma outside quotes starts a
-- new field.
abbrev pub field_so_far : String → Bool → Char → String → String
field_so_far current in_quotes c s =
    if is_quote c
    then if is_pair in_quotes c s then current ++ (c ∷ []) else current
    else if ends_field in_quotes c
    then []
    else current ++ (c ∷ [])

unfoldable pub fields_from : String → Bool → Bool → String → List String
fields_from current in_quotes skip [] = List.◌∷◌ (trim current) List.[]
fields_from current in_quotes true (c ∷ s) = fields_from current in_quotes false s
fields_from current in_quotes false (c ∷ s) =
    let rest =
      fields_from (field_so_far current in_quotes c s) (toggled in_quotes c s)
        (is_pair in_quotes c s) s in
    if ends_field in_quotes c then List.◌∷◌ (trim current) rest else rest

unfoldable pub split_csv_line : String → List String
split_csv_line line = fields_from [] false false line

-- (char === '\r' || char === '\n') && !inQuotes
abbrev pub ends_row : Bool → Char → Bool
ends_row in_quotes c = (is_return c || is_newline c) && not in_quotes

-- if (char === '\r' && text[i + 1] === '\n') i++
abbrev pub is_crlf : Bool → Char → String → Bool
is_crlf in_quotes c s = ends_row in_quotes c && is_return c && next_is is_newline s

-- if (current.trim()) rows.push(current)
unfoldable pub push_row : String → List String → List String
push_row current rows = if is_empty (trim current) then rows else List.◌∷◌ current rows

-- `current` of the next position: the quotes stay in the row.
abbrev pub row_so_far : String → Bool → Char → String → String
row_so_far current in_quotes c s =
    if is_pair in_quotes c s
    then current ++ (c ∷ c ∷ [])
    else if ends_row in_quotes c
    then []
    else current ++ (c ∷ [])

unfoldable pub rows_from : String → Bool → Bool → String → List String
rows_from current in_quotes skip [] = push_row current List.[]
rows_from current in_quotes true (c ∷ s) = rows_from current in_quotes false s
rows_from current in_quotes false (c ∷ s) =
    let rest =
      rows_from (row_so_far current in_quotes c s) (toggled in_quotes c s)
        (is_pair in_quotes c s || is_crlf in_quotes c s) s in
    if ends_row in_quotes c then push_row current rest else rest

unfoldable pub split_csv_lines : String → List String
split_csv_lines text = rows_from [] false false text
