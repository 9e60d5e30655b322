-- ===== src/Import/Validate.antt =====
-- modules/registrations/import.service.js: `validateRow`, and the loop of the import that calls it.
use qpass_backend.Prelude.{
  ℕ, zero, suc, ◌+◌, String, Bool, false, not, ◌||◌, Option, none, some, List, [], ◌∷◌, ◌==◌,
  if◌then◌else◌, ltb,
}
use qpass_backend.Db.{
  RowError, Problem, missing_email, email_too_long, malformed_email, name_required, duplicate_email,
}
use qpass_backend.Text.{trim, to_lower_case, is_empty}
use qpass_backend.Text.Email.{is_email, utf16_length, max_email_length}

-- A row of the file: the text under a header, empty where there is none, and `sourceRow`.
pub record Row : Type 0 where
  pub field : String → String
  pub source_row : Option ℕ

pub record Entry : Type 0 where
  pub row : ℕ
  pub email : String
  pub name : String
  pub phone : Option String
  pub ticket_type_id : Option String

pub data Validation : Type 0 where
  valid : Entry → Validation
  invalid : RowError → Validation

-- a || b
abbrev pub or_text : String → String → String
or_text a b = if is_empty a then b else a

-- a || null
abbrev pub or_null : String → Option String
or_null a = if is_empty a then none else some a

abbrev pub row_email : Row → String
row_email r =
    to_lower_case (
      trim
        (or_text (r.field "email") (or_text (r.field "attendeeEmail") (r.field "attendeeemail"))))

abbrev pub row_name : Row → String
row_name r =
    trim (or_text (r.field "name") (or_text (r.field "attendeeName") (r.field "attendeename")))

abbrev pub row_phone : Row → Option String
row_phone r =
    or_null (or_text (r.field "phone") (or_text (r.field "phoneNumber") (r.field "phonenumber")))

abbrev pub row_ticket_type : Row → Option String
row_ticket_type r = or_null (
    or_text (r.field "ticketTypeId")
      (or_text (r.field "ticketType") (or_text (r.field "tickettype") (r.field "tickettypeid"))))

-- Set.prototype.has
unfoldable pub has : String → List String → Bool
has s [] = false
has s (t ∷ ts) = let rest = has s ts in (s == t) || rest

abbrev pub new_entry : Row → ℕ → Entry
new_entry r n = record {
  row = n;
  email = row_email r;
  name = row_name r;
  phone = row_phone r;
  ticket_type_id = row_ticket_type r;
}

abbrev pub refused : ℕ → Option String → Problem → Validation
refused n email p = invalid (record { row = n; email = email; error = p })

-- The validation, and `seenEmails` after it.
unfoldable pub validate_row : Row → ℕ → List String → Validation × List String
validate_row r n seen =
    if is_empty (row_email r)
    then (refused n none missing_email, seen)
    else if ltb max_email_length (utf16_length (row_email r))
    then (refused n (some (row_email r)) email_too_long, seen)
    else if not (is_email (row_email r))
    then (refused n (some (row_email r)) malformed_email, seen)
    else if is_empty (row_name r)
    then (refused n (some (row_email r)) name_required, seen)
    else if has (row_email r) seen
    then (refused n (some (row_email r)) duplicate_email, seen)
    else (valid (new_entry r n), row_email r ∷ seen)

-- row.sourceRow || (i + 2)
abbrev pub row_number : Option ℕ → ℕ → ℕ
row_number none i = i + 2
row_number (some zero) i = i + 2
row_number (some (suc n)) i = suc n

-- validEntries and validationErrors
abbrev pub push : Validation → List Entry × List RowError → List Entry × List RowError
push (valid e) (es, errors) = (e ∷ es, errors)
push (invalid x) (es, errors) = (es, x ∷ errors)

unfoldable pub validate_rows : ℕ → List Row → List String → List Entry × List RowError
validate_rows i [] seen = ([], [])
validate_rows i (r ∷ rows) seen =
    let p = validate_row r (row_number r.source_row i) seen in
    push p.0 (validate_rows (i + 1) rows p.1)
