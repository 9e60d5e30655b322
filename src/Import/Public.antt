-- ===== src/Import/Public.antt =====
-- modules/registrations/import.service.js: `registerPublic`, the e-mail aside, and the list of the
-- imports of an event.
use qpass_backend.Prelude.{String, Bool, false, not, ◌&&◌, Option, none, some, List, ◌==◌, ltb, leb}
use qpass_backend.Prelude.Tables.{find_first, find_many}
use qpass_backend.Fault.{
  not_found, bad_request, conflict, unique_violation, import_event_not_found, import_name_required,
  import_email_required, import_email_too_long, import_malformed_email, import_not_open,
  import_invalid_ticket_type, import_type_sold_out, import_already_registered,
}
use qpass_backend.Text.{trim, to_lower_case, is_empty}
use qpass_backend.Text.Email.{is_email, utf16_length, max_email_length}
use qpass_backend.Db.{
  Db, published, TicketType, TicketCode, TicketCodeStatus, Registration, RegistrationStatus,
  RegistrationSource, PaymentStatus, ImportBatch, M, Result, ok, err, ◌>>=◌, ◌>>◌, pure, throw,
  throw_if, or_throw, gets, transaction, attempt,
}
use qpass_backend.Paging.{newest_first}
use qpass_backend.Event.Handlers.{alive}
use qpass_backend.Event.Lists.{same_event_status}
use qpass_backend.Registration.Create.{insert_ticket_code, insert_registration}
use qpass_backend.Import.Validate.{or_null}

-- The body of the request: a value that is not a text is as a missing one.
pub record PublicAttendee : Type 0 where
  pub name : Option String
  pub email : Option String
  pub phone : Option String
  pub ticket_type_id : Option String

-- The random code and the new ids.
pub record PublicCodes : Type 0 where
  pub ticket_code_id : String
  pub ticket_code : String
  pub registration_id : String

abbrev pub text_of : Option String → String
text_of none = ""
text_of (some s) = s

-- where: { id: ticketTypeId, eventId, active: true }
abbrev pub on_sale : String → String → TicketType → Bool
on_sale id event_id t = (t.id == id) && (t.event_id == event_id) && t.active

abbrev pub type_is_full : TicketType → Bool
type_is_full t = elim t.capacity [ none ↦ false | some limit ↦ leb limit t.quantity_sold ]

unfoldable pub check_type : String → Option String → M (Unit {0})
check_type event_id none = pure tt
check_type event_id (some id) = do
  found ← gets (λ db. find_first (on_sale id event_id) db.ticket_types)
  t ← or_throw found (bad_request import_invalid_ticket_type)
  throw_if (type_is_full t) (bad_request import_type_sold_out)

abbrev pub public_code : String → String → String → PublicCodes → TicketCode
public_code event_id email name codes = record {
  id = codes.ticket_code_id;
  event_id = event_id;
  code = codes.ticket_code;
  status = TicketCodeStatus.used;
  attendee_email = some email;
  attendee_name = some name;
}

abbrev pub public_registration :
    String → String → String → Option String → Option String → PublicCodes → Registration
public_registration event_id email name phone ticket_type_id codes = record {
  id = codes.registration_id;
  event_id = event_id;
  ticket_code_id = codes.ticket_code_id;
  attendee_email = email;
  attendee_name = name;
  phone = phone;
  ticket_type_id = ticket_type_id;
  payment_status = PaymentStatus.pending;
  source = RegistrationSource.public_link;
  confirmation_code = none;
  qr_issued = false;
  qr_issued_at = none;
  status = RegistrationStatus.confirmed;
}

-- The `catch` around the transaction.
unfoldable pub or_conflict : Result Registration → M Registration
or_conflict (ok r) = pure r
or_conflict (err unique_violation) = throw (conflict import_already_registered)
or_conflict (err e) = throw e

unfoldable pub register_public : String → PublicAttendee → PublicCodes → M Registration
register_public event_id given codes = do
  let name = trim (text_of given.name)
  let email = to_lower_case (trim (text_of given.email))
  let ticket_type_id = or_null (text_of given.ticket_type_id)
  throw_if (is_empty name) (bad_request import_name_required)
  throw_if (is_empty (text_of given.email)) (bad_request import_email_required)
  throw_if (ltb max_email_length (utf16_length email)) (bad_request import_email_too_long)
  throw_if (not (is_email email)) (bad_request import_malformed_email)
  found ← gets (λ db. find_first (alive event_id) db.events)
  event ← or_throw found (not_found import_event_not_found)
  throw_if (not (same_event_status event.status published)) (bad_request import_not_open)
  check_type event_id ticket_type_id
  created ← attempt (
      transaction (
        insert_ticket_code (public_code event_id email name codes)
        >> insert_registration (
            public_registration event_id email name (or_null (text_of given.phone)) ticket_type_id
              codes)))
  or_conflict created

abbrev pub imported_into : String → ImportBatch → Bool
imported_into event_id b = b.event_id == event_id

unfoldable pub list_import_batches_by_event : String → Db → List ImportBatch
list_import_batches_by_event event_id db =
    newest_first (find_many (imported_into event_id) db.import_batches)
