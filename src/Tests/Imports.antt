-- ===== src/Tests/Imports.antt =====
-- modules/registrations/import.service.js: the owner of the launch imports a file.
use qpass_backend.Prelude.{
  Bool, String, ◌≡◌, refl, true, none, List, [], ◌∷◌, arith, ◌==◌, if◌then◌else◌,
}
use qpass_backend.Db.{RowError, unparsable, Result, ok}
use qpass_backend.Text.{trim, to_lower_case}
use qpass_backend.Csv.Split.{
  next_is, push_row, rows_from, fields_from, split_csv_line, split_csv_lines,
}
use qpass_backend.Import.Validate.{Row, has}
use qpass_backend.Import.Create.{RowDraw}
use qpass_backend.Import.Parse.{text, parse_import_file, cell, remove_marks, strip_last}
use qpass_backend.Import.Process.{Upload, process_import_file}
use qpass_backend.Import.Capacity.{IsSold, process_import_file-IsSold}
use qpass_backend.Tests.Fixture.{store, plain_crypto, draw}

abbrev row : String → Row
row email = record {
  field = λ k.
      if k == "email"
      then email
      else if k == "name"
      then "Eve"
      else if k == "ticketType"
      then "standing"
      else "";
  source_row = none;
}

abbrev row_draw : RowDraw
row_draw = record {
  ticket_code_id = λ k. "k9";
  ticket_code = λ k. "QP-9";
  registration_id = "r9";
  draw = draw;
}

abbrev upload : Upload
upload = record {
  now = 300;
  batch_id = "b1";
  event_id = "e1";
  uploaded_by_id = "o1";
  filename = "a.csv";
  file_type = "text/csv";
  draws = λ k. row_draw;
  commits = λ k. true;
  between = λ k db. db;
  io_up = true;
}

-- One new attendee, twice, and one who is registered.
abbrev file : List Row
file = row "eve@x.org" ∷ row "eve@x.org" ∷ row "ada@x.org" ∷ []

abbrev parse_errors : List RowError
parse_errors = record { row = 5; email = none; error = unparsable } ∷ []

abbrev others_too : String → Bool
others_too id = true

store-IsSold : IsSold store
store-IsSold = record {
  distinct = ((refl, tt), (tt, tt));
  fits = (ground arith, (ground arith, tt));
}

process_import_file-IsSold_example :
    IsSold (process_import_file plain_crypto upload file parse_errors store).1
process_import_file-IsSold_example =
    process_import_file-IsSold plain_crypto upload file parse_errors store (λ n d h. h) store-IsSold

-- The address of the first row.
abbrev first_email : Result (List Row) → String
first_email (ok (r ∷ rs)) = r.field "email"
first_email x = ""

first_email_read :
    first_email (parse_import_file (text "\"Name\",E-mail,Email\n'Ada',a,ada@x.org")) ≡ "ada@x.org"
unfolding parse_import_file cell remove_marks strip_last trim to_lower_case split_csv_lines
    rows_from next_is push_row split_csv_line fields_from has
first_email_read = refl
