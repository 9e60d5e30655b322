-- ===== src/Reports/Export.antt =====
-- modules/reports/export.service.js, and `exportEventTickets` of modules/tickets/tickets.service.js:
-- the tables that are exported. Drawing a PDF file and the text of a time stamp are arguments.
use Prim.Native.String.{◌++◌}
use qpass_backend.Prelude.{ℕ, String, Option, none, some, List, [], ◌∷◌, ◌==◌, if◌then◌else◌, map}
use qpass_backend.Prelude.Tables.{find_first, find_many}
use qpass_backend.Fault.{bad_request, export_unsupported_format}
use qpass_backend.Db.{
  Db, User, UserRole, Event, TicketType, TicketCode, Registration, RegistrationStatus,
  PaymentStatus, CheckIn, M, ◌>>=◌, ◌>>◌, pure, throw, gets,
}
use qpass_backend.Db.Users.{is_user}
use qpass_backend.Csv.Print.{to_csv}
use qpass_backend.Paging.{newest_first}
use qpass_backend.Tickets.Types.{is_event, is_ticket_type, check_event_ownership}
use qpass_backend.Registration.Register.{is_registration}
use qpass_backend.Import.Create.{is_code}
use qpass_backend.CheckIn.Order.{live_check_in, by_scan}
use qpass_backend.Reports.Dashboard.{at_event}

pub record File : Type 0 where
  pub content_type : String
  pub content : String
  pub extension : String

-- pdfkit, which draws the table under its title, and Date.prototype.toISOString of the time stamps
pub record Printer : Type 0 where
  pub draw_table : String → List String → List (List String) → String
  pub draw_tickets : Option Event → List Registration → String
  pub created_at : Registration → String
  pub iso : ℕ → String

abbrev pub status_name : RegistrationStatus → String
status_name RegistrationStatus.pending = "PENDING"
status_name RegistrationStatus.confirmed = "CONFIRMED"
status_name RegistrationStatus.cancelled = "CANCELLED"

abbrev pub payment_name : PaymentStatus → String
payment_name PaymentStatus.pending = "PENDING"
payment_name PaymentStatus.success = "SUCCESS"
payment_name PaymentStatus.failed = "FAILED"
payment_name PaymentStatus.refunded = "REFUNDED"

-- value || ""
abbrev pub or_blank : Option String → String
or_blank none = ""
or_blank (some s) = s

-- registration.ticketType?.name || ""
abbrev pub type_name : Option String → List TicketType → String
type_name none types = ""
type_name (some id) types = elim (find_first (is_ticket_type id) types) [
  | none ↦ ""
  | some t ↦ t.name
]

abbrev pub code_text : String → List TicketCode → String
code_text id codes = elim (find_first (is_code id) codes) [ none ↦ "" | some c ↦ c.code ]

abbrev pub title_of : Option Event → String
title_of none = ""
title_of (some e) = e.title

abbrev pub registration_headers : List String
registration_headers =
    "Name" ∷ "Email" ∷ "Phone" ∷ "Ticket Type" ∷ "Status" ∷ "Payment" ∷ "Ticket Code"
    ∷ "Registered At" ∷ []

unfoldable pub registrations_at : String → Db → List Registration
registrations_at event_id db = newest_first (find_many (at_event event_id) db.registrations)

abbrev pub attendance_headers : List String
attendance_headers =
    "Attendee Name" ∷ "Email" ∷ "Ticket Type" ∷ "Checked In At" ∷ "Device Info" ∷ "Checked In By"
    ∷ []

-- The name, the address and the ticket type of the registration of a check-in.
abbrev pub attendee_cells : Db → Option Registration → CheckIn → List String → List String
attendee_cells db none c rest = "" ∷ "" ∷ "" ∷ rest
attendee_cells db (some r) c rest =
    r.attendee_name ∷ r.attendee_email ∷ type_name r.ticket_type_id db.ticket_types ∷ rest

abbrev pub user_name : Option User → String
user_name none = ""
user_name (some u) = u.name

unfoldable pub check_ins_at : String → Db → List CheckIn
check_ins_at event_id db = by_scan (find_many (live_check_in event_id) db.check_ins)

abbrev pub ticket_headers : List String
ticket_headers = "Name" ∷ "Email" ∷ "Ticket Type" ∷ "Status" ∷ "Payment" ∷ "Ticket Code" ∷ []

abbrev pub ticket_row : Db → Registration → List String
ticket_row db r =
    r.attendee_name
    ∷ r.attendee_email
    ∷ type_name r.ticket_type_id db.ticket_types
    ∷ status_name r.status
    ∷ payment_name r.payment_status
    ∷ code_text r.ticket_code_id db.ticket_codes
    ∷ []

module _ (printer : Printer) where
  unfoldable pub build_export : String → String → List String → List (List String) → M File
  build_export format title headers rows =
      if format == "csv"
      then pure (record {
        content_type = "text/csv; charset=utf-8";
        content = to_csv headers rows;
        extension = "csv";
      })
      else if format == "pdf"
      then pure (record {
        content_type = "application/pdf";
        content = printer.draw_table title headers rows;
        extension = "pdf";
      })
      else throw (bad_request export_unsupported_format)

  abbrev pub registration_row : Db → Registration → List String
  registration_row db r =
      r.attendee_name
      ∷ r.attendee_email
      ∷ or_blank r.phone
      ∷ type_name r.ticket_type_id db.ticket_types
      ∷ status_name r.status
      ∷ payment_name r.payment_status
      ∷ code_text r.ticket_code_id db.ticket_codes
      ∷ printer.created_at r
      ∷ []

  unfoldable pub export_registrations : String → String → UserRole → String → M File
  export_registrations event_id user_id role format = do
    check_event_ownership event_id user_id role
    rows ← gets (λ db. map (registration_row db) (registrations_at event_id db))
    event ← gets (λ db. find_first (is_event event_id) db.events)
    build_export format ("Registrations: " ++ title_of event) registration_headers rows

  abbrev pub attendance_row : Db → CheckIn → List String
  attendance_row db c =
      attendee_cells db (find_first (is_registration c.registration_id) db.registrations) c (
        printer.iso c.scanned_at
        ∷ or_blank c.device_info
        ∷ user_name (find_first (is_user c.staff_id) db.users)
        ∷ [])

  unfoldable pub export_attendance : String → String → UserRole → String → M File
  export_attendance event_id user_id role format = do
    check_event_ownership event_id user_id role
    rows ← gets (λ db. map (attendance_row db) (check_ins_at event_id db))
    event ← gets (λ db. find_first (is_event event_id) db.events)
    build_export format ("Attendance: " ++ title_of event) attendance_headers rows

  -- tickets.service.js
  unfoldable pub export_event_tickets : String → String → UserRole → String → M File
  export_event_tickets event_id user_id role format = do
    check_event_ownership event_id user_id role
    registrations ← gets (registrations_at event_id)
    rows ← gets (λ db. map (ticket_row db) registrations)
    event ← gets (λ db. find_first (is_event event_id) db.events)
    (if format == "csv"
        then pure (record {
          content_type = "text/csv";
          content = to_csv ticket_headers rows;
          extension = "csv";
        })
        else if format == "pdf"
        then pure (record {
          content_type = "application/pdf";
          content = printer.draw_tickets event registrations;
          extension = "pdf";
        })
        else throw (bad_request export_unsupported_format))
