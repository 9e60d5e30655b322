-- ===== src/Tests/Reports.antt =====
-- The exports of one event, and the body of a request.
use qpass_backend.Prelude.{
  [], ◌∷◌, List, Bool, ◌&&◌, ◌==◌, is_none, ◌≡◌, refl, true, some, map, ◌↔◌,
}
use qpass_backend.Prelude.Tables.{find_first, find_many, count}
use qpass_backend.Db.{Db, CheckIn, UserRole, ok, ◌>>◌}
use qpass_backend.Tickets.Types.{check_event_ownership}
use qpass_backend.Paging.{newest_first}
use qpass_backend.CheckIn.Latest.{LatestFirst}
use qpass_backend.Reports.Export.{
  Printer, registration_headers, registration_row, export_registrations, attendance_headers,
  attendance_row, export_attendance, ticket_headers, ticket_row, export_event_tickets,
}
use qpass_backend.Reports.Exports.{read_file, shown, exports_read_back}
use qpass_backend.Middlewares.Sanitize.{
  Json, scalar, array, object, cons, nil, field, end, sanitize_body,
}
use qpass_backend.Middlewares.Clean.{is_clean, sanitize_body_clean}
use qpass_backend.Tests.Fixture.{store, ada, adas_check_in}

abbrev printer : Printer
printer = record {
  draw_table = λ title headers rows. title;
  draw_tickets = λ event registrations. "";
  created_at = λ r. "2026-01-01T00:00:00.000Z";
  iso = λ t. "2026-01-02T00:00:00.000Z";
}

-- Ada is inside.
abbrev entered : Db
entered = record store { check_ins = adas_check_in ∷ [] }

owner_may_export : check_event_ownership "e1" "o1" UserRole.organizer entered ≡ (ok tt, entered)
unfolding check_event_ownership find_first ◌>>◌
owner_may_export = refl

exports_read_back_example :
    (read_file (export_registrations printer "e1" "o1" UserRole.organizer "csv" entered)
      ≡ some (shown registration_headers (map (registration_row printer entered) (ada ∷ []))))
    × (read_file (export_event_tickets printer "e1" "o1" UserRole.organizer "csv" entered)
        ≡ some (shown ticket_headers (map (ticket_row entered) (ada ∷ []))))
    × ((cs : List CheckIn) × (read_file
            (export_attendance printer "e1" "o1" UserRole.organizer "csv" entered)
          ≡ some (shown attendance_headers (map (attendance_row printer entered) cs)))
        × LatestFirst cs
        × ((p : CheckIn → Bool)
            → count p cs
              ≡ count
                  (λ c. p c && ((c.event_id == "e1") && is_none c.deleted_at))
                  entered.check_ins))
unfolding find_many newest_first
exports_read_back_example =
    exports_read_back printer "e1" "o1" UserRole.organizer entered owner_may_export

abbrev polluted : Json
polluted =
    array (cons (object (field "__proto__" (scalar "1") (field "name" (scalar "Ada") end))) nil)

sanitize_body_clean_example :
    (is_clean (sanitize_body polluted) ≡ true)
    × ((sanitize_body polluted ≡ polluted) ↔ (is_clean polluted ≡ true))
sanitize_body_clean_example = sanitize_body_clean polluted
