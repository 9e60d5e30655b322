-- ===== src/Import/Parse.antt =====
-- modules/registrations/import.service.js: `parseImportFile`.
use Prim.Native.Char.{Char, code}
use Prim.Native.String.{[], ◌∷◌}
use qpass_backend.Prelude.{String, Bool, ◌||◌, none, List, ◌==◌, eqb, if◌then◌else◌, map}
use qpass_backend.Fault.{bad_request, import_file_empty}
use qpass_backend.Text.{trim, to_lower_case, is_empty}
use qpass_backend.Db.{Result, ok, err}
use qpass_backend.Csv.Split.{split_csv_line, split_csv_lines}
use qpass_backend.Import.Validate.{Row, has}

-- `fileContent`: null or undefined, an array of rows, or what String() makes a text of.
pub data Content : Type 0 where
  missing : Content
  parsed : List Row → Content
  text : String → Content

-- ["']
abbrev is_mark : Char → Bool
is_mark c = eqb (code c) 34 || eqb (code c) 39

-- replace(/^\uFEFF/, '')
abbrev pub without_bom : String → String
without_bom [] = []
without_bom (c ∷ s) = if eqb (code c) 65279 then s else c ∷ s

-- replace(/["']/g, '')
unfoldable pub remove_marks : String → String
remove_marks [] = []
remove_marks (c ∷ s) = let rest = remove_marks s in if is_mark c then rest else c ∷ rest

abbrev pub strip_first : String → String
strip_first [] = []
strip_first (c ∷ s) = if is_mark c then s else c ∷ s

unfoldable pub strip_last : String → String
strip_last [] = []
strip_last (c ∷ s) =
    let rest = strip_last s in if is_empty s then (if is_mark c then [] else c ∷ []) else c ∷ rest

-- replace(/^["']|["']$/g, '').trim(), of a value that is there
abbrev pub value_of : List String → String
value_of List.[] = []
value_of (List.◌∷◌ v vs) = trim (strip_last (strip_first v))

abbrev pub rest_of : List String → List String
rest_of List.[] = List.[]
rest_of (List.◌∷◌ v vs) = vs

-- row[key]: of two columns with one header the later one counts.
unfoldable pub cell : List String → List String → String → String
cell List.[] values key = []
cell (List.◌∷◌ h hs) values key =
    let rest = cell hs (rest_of values) key in
    if has key hs then rest else if h == key then value_of values else []

abbrev pub header : String → String
header h = trim (remove_marks (to_lower_case h))

abbrev pub row_of : List String → String → Row
row_of headers line = record { field = cell headers (split_csv_line line); source_row = none }

abbrev pub parse_lines : List String → Result (List Row)
parse_lines List.[] = err (bad_request import_file_empty)
parse_lines (List.◌∷◌ h List.[]) = err (bad_request import_file_empty)
parse_lines (List.◌∷◌ h (List.◌∷◌ l ls)) =
    ok (map (row_of (map header (split_csv_line h))) (List.◌∷◌ l ls))

unfoldable pub parse_import_file : Content → Result (List Row)
parse_import_file missing = err (bad_request import_file_empty)
parse_import_file (parsed List.[]) = err (bad_request import_file_empty)
parse_import_file (parsed (List.◌∷◌ r rs)) = ok (List.◌∷◌ r rs)
parse_import_file (text s) =
    let cleaned = trim (without_bom s) in
    if is_empty cleaned
    then err (bad_request import_file_empty)
    else parse_lines (split_csv_lines cleaned)
