-- ===== src/Csv/Fields.antt =====
-- modules/reports/export.service.js and modules/registrations/import.service.js: the fields of a row
-- that was written are read back.
use Prim.Native.Char.{Char}
use Prim.Native.String.{[], ◌∷◌, ◌++◌}
use text.Mathlib.TextLemmas.{append_assoc, append-nil, nil-append, cons-append}
use qpass_backend.Prelude.{
  String, ◌≡◌, refl, sym, ap, ◌∙◌, true, false, List, map, arith, Bool-cases, inl, inr,
}
use qpass_backend.Text.{trim}
use qpass_backend.Csv.Split.{is_quote, next_is, fields_from, split_csv_line}
use qpass_backend.Csv.Print.{safe_value, double_quotes, escape_csv, join, csv_row}

abbrev pub quote : Char
quote = "\""

pub quote-append : (t : String) → "\"" ++ t ≡ quote ∷ t
quote-append t = cons-append quote [] t ∙ ap (λ u. quote ∷ u) (nil-append t)

-- The field, character by character.
pub snoc-append : (s : String) (c : Char) (t : String) → (s ++ (c ∷ [])) ++ t ≡ s ++ (c ∷ t)
snoc-append s c t =
    append_assoc s (c ∷ []) t
    ∙ ap (λ u. s ++ u) (cons-append c [] t ∙ ap (λ u. c ∷ u) (nil-append t))

quoted-fields :
    (current s rest : String)
    → next_is is_quote rest ≡ false
    → fields_from current true false (double_quotes s ++ (quote ∷ rest))
      ≡ fields_from (current ++ s) false false rest
unfolding fields_from double_quotes next_is
quoted-fields current [] rest h = rw (nil-append (quote ∷ rest), append-nil current, h) refl
quoted-fields current (c ∷ s) rest h =
    let ih = quoted-fields (current ++ (c ∷ [])) s rest h in
    let e = snoc-append current c s in
    let x = cons-append c (double_quotes s) (quote ∷ rest) in
    let y = cons-append c (c ∷ double_quotes s) (quote ∷ rest) in
    elim (Bool-cases (is_quote c)) [
      | inl q ↦ ground (arith, q, ih, e, x, y)
      | inr q ↦ ground (arith, q, ih, e, x)
    ]

pub escape_csv-append :
    (v rest : String)
    → escape_csv v ++ rest ≡ quote ∷ (double_quotes (safe_value v) ++ (quote ∷ rest))
unfolding escape_csv
escape_csv-append v rest =
    append_assoc "\"" (double_quotes (safe_value v) ++ "\"") rest
    ∙ quote-append ((double_quotes (safe_value v) ++ "\"") ++ rest)
    ∙ ap (λ u. quote ∷ u) (snoc-append (double_quotes (safe_value v)) quote rest)

escaped-fields :
    (v rest : String)
    → next_is is_quote rest ≡ false
    → fields_from [] false false (escape_csv v ++ rest)
      ≡ fields_from (safe_value v) false false rest
unfolding fields_from
escaped-fields v rest h =
    ap (fields_from [] false false) (escape_csv-append v rest)
    ∙ quoted-fields [] (safe_value v) rest h
    ∙ ap (λ u. fields_from u false false rest) (nil-append (safe_value v))

-- A written row of at least one field is split into its fields: each as it was exported, a formula
-- after its apostrophe, and trimmed.
pub split_csv_line-csv_row :
    (f : String) (fs : List String)
    → split_csv_line (csv_row (List.◌∷◌ f fs)) ≡ map (λ v. trim (safe_value v)) (List.◌∷◌ f fs)
unfolding split_csv_line csv_row join fields_from next_is
split_csv_line-csv_row f List.[] =
    ap (fields_from [] false false) (sym (append-nil (escape_csv f))) ∙ escaped-fields f [] refl
split_csv_line-csv_row f (List.◌∷◌ g gs) =
    let rest = csv_row (List.◌∷◌ g gs) in
    let comma = cons-append "," [] rest ∙ ap (λ u. "," ∷ u) (nil-append rest) in
    ap (λ u. fields_from [] false false (escape_csv f ++ u)) comma
    ∙ escaped-fields f ("," ∷ rest) refl
    ∙ ap (λ u. List.◌∷◌ (trim (safe_value f)) u) (split_csv_line-csv_row g gs)
