-- ===== src/Csv/Rows.antt =====
-- modules/reports/export.service.js and modules/registrations/import.service.js: the rows of an
-- export are read back, whatever text the fields hold.
use Prim.Native.String.{[], ◌∷◌, ◌++◌}
use text.Mathlib.TextLemmas.{append_assoc, append-nil, nil-append, cons-append}
use qpass_backend.Prelude.{
  String, ◌≡◌, refl, sym, ap, ◌∙◌, true, false, List, map, arith, All, Bool-cases, inl, inr,
}
use qpass_backend.Text.{trim, trim_start, trim_end, is_empty}
use qpass_backend.Csv.Split.{
  is_quote, next_is, push_row, rows_from, split_csv_line, split_csv_lines,
}
use qpass_backend.Csv.Print.{safe_value, double_quotes, escape_csv, join, csv_row, to_csv}
use qpass_backend.Csv.Fields.{quote, snoc-append, escape_csv-append, split_csv_line-csv_row}

quoted-rows :
    (current s rest : String)
    → next_is is_quote rest ≡ false
    → rows_from current true false (double_quotes s ++ (quote ∷ rest))
      ≡ rows_from (current ++ (double_quotes s ++ (quote ∷ []))) false false rest
unfolding rows_from double_quotes next_is
quoted-rows current [] rest h = rw (nil-append (quote ∷ rest), nil-append (quote ∷ []), h) refl
quoted-rows current (c ∷ s) rest h =
    let d = double_quotes s in
    let x = cons-append c d (quote ∷ rest) in
    let y = cons-append c (c ∷ d) (quote ∷ rest) in
    let x' = cons-append c d (quote ∷ []) in
    let y' = cons-append c (c ∷ d) (quote ∷ []) in
    let one = quoted-rows (current ++ (c ∷ [])) s rest h in
    let two = quoted-rows (current ++ (c ∷ c ∷ [])) s rest h in
    let e = snoc-append current c (d ++ (quote ∷ [])) in
    let e2 = append_assoc current (c ∷ c ∷ []) (d ++ (quote ∷ [])) in
    let e3 = cons-append c (c ∷ []) (d ++ (quote ∷ [])) in
    let e4 = cons-append c [] (d ++ (quote ∷ [])) in
    let e5 = nil-append (d ++ (quote ∷ [])) in
    elim (Bool-cases (is_quote c)) [
      | inl q ↦ ground (arith, q, two, e2, e3, e4, e5, x, y, x', y')
      | inr q ↦ ground (arith, q, one, e, x, x')
    ]

escaped-rows :
    (current v rest : String)
    → next_is is_quote rest ≡ false
    → rows_from current false false (escape_csv v ++ rest)
      ≡ rows_from (current ++ escape_csv v) false false rest
unfolding rows_from
escaped-rows current v rest h =
    let d = double_quotes (safe_value v) in
    ap (rows_from current false false) (escape_csv-append v rest)
    ∙ quoted-rows (current ++ (quote ∷ [])) (safe_value v) rest h
    ∙ ap (λ u. rows_from u false false rest)
        (snoc-append current quote (d ++ (quote ∷ []))
          ∙ ap (λ u. current ++ u) (sym (escape_csv-append v []) ∙ append-nil (escape_csv v)))

row-rows :
    (current f : String) (fs : List String) (rest : String)
    → next_is is_quote rest ≡ false
    → rows_from current false false (csv_row (List.◌∷◌ f fs) ++ rest)
      ≡ rows_from (current ++ csv_row (List.◌∷◌ f fs)) false false rest
unfolding csv_row join rows_from next_is
row-rows current f List.[] rest h = escaped-rows current f rest h
row-rows current f (List.◌∷◌ g gs) rest h =
    let e = escape_csv f in
    let more = csv_row (List.◌∷◌ g gs) in
    let comma : (t : String) → "," ++ t ≡ "," ∷ t =
      λ t. cons-append "," [] t ∙ ap (λ u. "," ∷ u) (nil-append t) in
    ap (rows_from current false false) (
      append_assoc e ("," ++ more) rest
      ∙ ap (λ u. e ++ u) (append_assoc "," more rest ∙ comma (more ++ rest)))
    ∙ escaped-rows current f ("," ∷ (more ++ rest)) refl
    ∙ row-rows ((current ++ e) ++ ("," ∷ [])) g gs rest h
    ∙ ap (λ u. rows_from u false false rest)
        (snoc-append (current ++ e) "," more
          ∙ append_assoc current e ("," ∷ more)
          ∙ ap (λ u. current ++ (e ++ u)) (sym (comma more)))

quote_kept : (s : String) → is_empty (trim (quote ∷ s)) ≡ false
unfolding trim trim_start trim_end
quote_kept s = ground arith

row_kept : (f : String) (fs : List String) → is_empty (trim (csv_row (List.◌∷◌ f fs))) ≡ false
unfolding csv_row join
row_kept f List.[] =
    ap (λ u. is_empty (trim u)) (sym (append-nil (escape_csv f)) ∙ escape_csv-append f [])
    ∙ quote_kept _
row_kept f (List.◌∷◌ g gs) = ap (λ u. is_empty (trim u)) (escape_csv-append f _) ∙ quote_kept _

-- A row of at least one field.
abbrev pub HasField : List String → Type 0
HasField List.[] = ⊥
HasField (List.◌∷◌ f fs) = Unit

pub split_csv_lines-join :
    (r : List String) (rs : List (List String))
    → HasField r
    → All HasField rs
    → split_csv_lines (join "\n" (map csv_row (List.◌∷◌ r rs))) ≡ map csv_row (List.◌∷◌ r rs)
unfolding split_csv_lines join rows_from push_row next_is
split_csv_lines-join List.[] rs h k = elim h [ ]
split_csv_lines-join (List.◌∷◌ f fs) List.[] h k =
    let row = csv_row (List.◌∷◌ f fs) in
    ap (rows_from [] false false) (sym (append-nil row))
    ∙ row-rows [] f fs [] refl
    ∙ rw (nil-append row, row_kept f fs) refl
split_csv_lines-join (List.◌∷◌ f fs) (List.◌∷◌ r rs) h k =
    let row = csv_row (List.◌∷◌ f fs) in
    let text = join "\n" (map csv_row (List.◌∷◌ r rs)) in
    ap (λ u. rows_from [] false false (row ++ u))
      (cons-append "\n" [] text ∙ ap (λ u. "\n" ∷ u) (nil-append text))
    ∙ row-rows [] f fs ("\n" ∷ text) refl
    ∙ rw (nil-append row, row_kept f fs)
        (ap (λ u. List.◌∷◌ row u) (split_csv_lines-join r rs k.0 k.1))

split-fields :
    (rs : List (List String))
    → All HasField rs
    → map split_csv_line (map csv_row rs) ≡ map (λ r. map (λ v. trim (safe_value v)) r) rs
split-fields List.[] h = refl
split-fields (List.◌∷◌ List.[] rs) h = elim h.0 [ ]
split-fields (List.◌∷◌ (List.◌∷◌ f fs) rs) h =
    rw (split_csv_line-csv_row f fs, split-fields rs h.1) refl

-- A table that was exported as CSV, of which the header and each row have at least one field, is
-- read back row by row and field by field whatever text the fields hold: quotes, commas, line
-- breaks. Each field comes back as it was exported (a formula after its apostrophe), trimmed.
pub split-to_csv :
    (headers : List String) (rows : List (List String))
    → HasField headers
    → All HasField rows
    → map split_csv_line (split_csv_lines (to_csv headers rows))
      ≡ map (λ r. map (λ v. trim (safe_value v)) r) (List.◌∷◌ headers rows)
unfolding to_csv
split-to_csv headers rows h k =
    ap (map split_csv_line) (split_csv_lines-join headers rows h k)
    ∙ split-fields (List.◌∷◌ headers rows) (h, k)
