-- ===== src/Import/Batch.antt =====
-- modules/registrations/import.service.js: what the validation of a batch lets through.
use qpass_backend.Prelude.{
  ℕ, suc, ◌+◌, ◌≤◌, String, ◌≡◌, refl, sym, Bool, true, false, List, [], ◌∷◌, ◌==◌, ltb, length,
  All, arith, Bool-cases, inl, inr,
}
use qpass_backend.Prelude.Tables.{Distinct}
use qpass_backend.Db.{RowError}
use qpass_backend.Text.{is_empty}
use qpass_backend.Text.Email.{is_email, utf16_length, max_email_length}
use qpass_backend.Import.Validate.{
  Row, Entry, Validation, valid, invalid, row_email, row_name, row_number, has, validate_row, push,
  validate_rows,
}

-- A well-formed address of at most 254 code units, and a name.
abbrev pub WellFormed : Entry → Type 0
WellFormed e =
    (is_email e.email ≡ true)
    × (utf16_length e.email ≤ max_email_length)
    × (is_empty e.name ≡ false)

Step : List String → Validation × List String → Type 0
Step seen (valid e, next) = (next ≡ e.email ∷ seen) × (has e.email seen ≡ false) × WellFormed e
Step seen (invalid x, next) = next ≡ seen

validate_row-Step : (r : Row) (n : ℕ) (seen : List String) → Step seen (validate_row r n seen)
unfolding validate_row Step
validate_row-Step r n seen = elim (Bool-cases (is_empty (row_email r))) [
  | inl a ↦ rw a refl
  | inr a ↦ elim (Bool-cases (ltb max_email_length (utf16_length (row_email r)))) [
    | inl b ↦ rw (a, b) refl
    | inr b ↦ elim (Bool-cases (is_email (row_email r))) [
      | inr c ↦ rw (a, b, c) refl
      | inl c ↦ elim (Bool-cases (is_empty (row_name r))) [
        | inl d ↦ rw (a, b, c, d) refl
        | inr d ↦ elim (Bool-cases (has (row_email r) seen)) [
          | inl e ↦ rw (a, b, c, d, e) refl
          | inr e ↦ rw (a, b, c, d, e) (refl, e, (c, ground (arith, b), d))
        ]
      ]
    ]
  ]
]

abbrev pub same_email : Entry → Entry → Bool
same_email a b = a.email == b.email

abbrev Accepted : List String → Entry → Type 0
Accepted seen e = (has e.email seen ≡ false) × WellFormed e

unlike :
    (e : Entry) (seen : List String) (es : List Entry)
    → All (Accepted (e.email ∷ seen)) es
    → All (λ y. same_email y e ≡ false) es × All (Accepted seen) es
unfolding has
unlike e seen [] h = (tt, tt)
unlike e seen (y ∷ es) (h, hs) =
    let ih = unlike e seen es hs in
    let away = h.0 in ((ground (arith, away), ih.0), ((ground (arith, away), h.1), ih.1))

abbrev Good : List String → ℕ → List Entry × List RowError → Type 0
Good seen n r = (length r.0 + length r.1 ≡ n) × Distinct same_email r.0 × All (Accepted seen) r.0

push-Good :
    (seen : List String) (n : ℕ) (p : Validation × List String) (r : List Entry × List RowError)
    → Step seen p
    → Good p.1 n r
    → Good seen (suc n) (push p.0 r)
unfolding Step
push-Good seen n (invalid x, next) r s (l, d, a) = (ground (arith, l), d, rw (sym s) a)
push-Good seen n (valid e, next) r (s, new, w) (l, d, a) =
    let others : All (Accepted (e.email ∷ seen)) r.0 = rw (sym s) a in
    let u = unlike e seen r.0 others in (ground (arith, l), (u.0, d), ((new, w), u.1))

-- Every row of a file becomes an entry or an error, one of each row. The entries have well-formed
-- addresses of at most 254 code units and names; their addresses differ from each other and from
-- those that were seen before.
pub validate_rows-accounts :
    (i : ℕ) (rows : List Row) (seen : List String)
    → (length (validate_rows i rows seen).0 + length (validate_rows i rows seen).1 ≡ length rows)
      × Distinct same_email (validate_rows i rows seen).0
      × All (λ e. (has e.email seen ≡ false) × WellFormed e) (validate_rows i rows seen).0
unfolding validate_rows
validate_rows-accounts i [] seen = (refl, tt, tt)
validate_rows-accounts i (r ∷ rows) seen =
    let p = validate_row r (row_number r.source_row i) seen in
    push-Good seen (length rows) p (validate_rows (i + 1) rows p.1)
      (validate_row-Step r (row_number r.source_row i) seen)
      (validate_rows-accounts (i + 1) rows p.1)
