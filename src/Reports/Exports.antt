-- ===== src/Reports/Exports.antt =====
-- modules/reports/export.service.js and modules/tickets/tickets.service.js: the exports are read back.
use qpass_backend.Prelude.{
  Bool, ◌&&◌, ◌==◌, is_none, String, ◌≡◌, ap, Option, none, some, List, [], ◌∷◌, map, All,
}
use qpass_backend.Prelude.Tables.{find_first, find_many, count}
use qpass_backend.Db.{Db, UserRole, Registration, CheckIn, Result, ok, err, ◌>>◌}
use qpass_backend.Text.{trim}
use qpass_backend.Csv.Split.{split_csv_line, split_csv_lines}
use qpass_backend.Csv.Print.{safe_value, to_csv}
use qpass_backend.Csv.Rows.{HasField, split-to_csv}
use qpass_backend.Tickets.Types.{check_event_ownership}
use qpass_backend.Registration.Register.{is_registration}
use qpass_backend.Paging.{newest_first}
use qpass_backend.CheckIn.Order.{live_check_in, by_scan}
use qpass_backend.CheckIn.Latest.{LatestFirst, by_scan-LatestFirst, count-by_scan_many}
use qpass_backend.Reports.Export.{
  File, Printer, build_export, registration_headers, registration_row, registrations_at,
  export_registrations, attendance_headers, attendee_cells, attendance_row, check_ins_at,
  export_attendance, ticket_headers, ticket_row, export_event_tickets,
}

-- The table that is read from the file of an answer.
abbrev pub read_file : Result File × Db → Option (List (List String))
read_file (ok f, db) = some (map split_csv_line (split_csv_lines f.content))
read_file (err e, db) = none

-- A table with its fields as they are exported, trimmed.
abbrev pub shown : List String → List (List String) → List (List String)
shown headers rows = map (λ r. map (λ v. trim (safe_value v)) r) (headers ∷ rows)

All-map :
    {A : Type 0} (f : A → List String) (xs : List A)
    → ((a : A) → HasField (f a))
    → All HasField (map f xs)
All-map f [] h = tt
All-map f (x ∷ xs) h = (h x, All-map f xs h)

attendee_cells-HasField :
    (db : Db) (o : Option Registration) (c : CheckIn) (rest : List String)
    → HasField (attendee_cells db o c rest)
attendee_cells-HasField db none c rest = tt
attendee_cells-HasField db (some r) c rest = tt

back :
    (headers : List String) (rows : List (List String))
    → HasField headers
    → All HasField rows
    → some (map split_csv_line (split_csv_lines (to_csv headers rows))) ≡ some (shown headers rows)
back headers rows g k = ap some (split-to_csv headers rows g k)

module _ (printer : Printer) (event_id user_id : String) (role : UserRole) (db : Db) where
  -- When the caller may export the event, the CSV files of the registrations, the tickets and the
  -- check-ins are read back, with the reader of the import, as the header and one row for each
  -- registration of the event, newest first, and for each check-in of the event that was not undone,
  -- the latest scan first: a list with the same check-ins, each as often, by whatever test they are
  -- counted. Whatever text the fields hold, each is read as it was exported, trimmed.
  pub exports_read_back :
      check_event_ownership event_id user_id role db ≡ (ok tt, db)
      → let registrations =
          newest_first
            (find_many (λ (r : Registration). r.event_id == event_id) db.registrations) in
        (read_file (export_registrations printer event_id user_id role "csv" db)
          ≡ some (shown registration_headers (map (registration_row printer db) registrations)))
        × (read_file (export_event_tickets printer event_id user_id role "csv" db)
            ≡ some (shown ticket_headers (map (ticket_row db) registrations)))
        × ((cs : List CheckIn) × (read_file
                (export_attendance printer event_id user_id role "csv" db)
              ≡ some (shown attendance_headers (map (attendance_row printer db) cs)))
            × LatestFirst cs
            × ((p : CheckIn → Bool)
                → count p cs
                  ≡ count
                      (λ c. p c && ((c.event_id == event_id) && is_none c.deleted_at))
                      db.check_ins))
  unfolding export_registrations export_attendance export_event_tickets build_export
      registrations_at check_ins_at ◌>>◌
  exports_read_back h =
      let registrations =
        newest_first (find_many (λ (r : Registration). r.event_id == event_id) db.registrations) in
      let live = find_many (live_check_in event_id) db.check_ins in
      (
        rw h (back _ _ tt (All-map (registration_row printer db) registrations (λ r. tt))),
        rw h (back _ _ tt (All-map (ticket_row db) registrations (λ r. tt))),
        (
          by_scan live,
          rw h (
              back _ _ tt (
                All-map (attendance_row printer db) (by_scan live) (λ c.
                  attendee_cells-HasField db
                    (find_first (is_registration c.registration_id) db.registrations) c _))),
          by_scan-LatestFirst live,
          λ p. count-by_scan_many p (live_check_in event_id) db.check_ins,
        ),
      )
