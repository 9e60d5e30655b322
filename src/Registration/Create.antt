-- ===== src/Registration/Create.antt =====
-- modules/registrations/registration.service.js: `createFreeRegistration`, its transaction and its
-- attempts.
use qpass_backend.Prelude.{
  ℕ, zero, suc, ◌+◌, String, Bool, false, not, ◌&&◌, ◌||◌, Option, none, some, [], ◌∷◌, ◌++◌, ◌==◌,
  is_some, eqb,
}
use qpass_backend.Prelude.Tables.{find_first, count, update_many}
use qpass_backend.Fault.{
  bad_request, conflict, unique_violation, registration_capacity_exceeded,
  registration_ticket_type_full, registration_duplicate,
}
use qpass_backend.Db.{
  Event, TicketType, TicketCode, TicketCodeStatus, Registration, RegistrationStatus,
  RegistrationSource, success, M, Result, ok, err, ◌>>=◌, ◌>>◌, pure, throw, throw_if, gets, modify,
  transaction, attempt,
}
use qpass_backend.Registration.Checks.{attending, is_full, of_attendee}

-- The random codes and the new ids of one attempt.
pub record Codes : Type 0 where
  pub ticket_code_id : String
  pub ticket_code : String
  pub registration_id : String
  pub confirmation_code : String

pub record Attendee : Type 0 where
  pub name : String
  pub email : String
  pub phone : Option String
  pub ticket_type_id : Option String

-- SELECT "capacity" ... FOR UPDATE: `eventRows[0]?.capacity ?? null`
abbrev pub capacity_of : Option Event → Option ℕ
capacity_of none = none
capacity_of (some e) = e.capacity

abbrev pub has_id : String → Event → Bool
has_id id e = e.id == id

-- "active" = true AND ("capacity" IS NULL OR "quantity_sold" < "capacity")
abbrev pub sellable : String → TicketType → Bool
sellable id t = (t.id == id) && t.active && not (is_full t.capacity t.quantity_sold)

abbrev pub sell : TicketType → TicketType
sell t = record t { quantity_sold = t.quantity_sold + 1 }

unfoldable pub claim_ticket : Option String → M (Unit {0})
claim_ticket none = pure tt
claim_ticket (some id) = do
  n ← gets (λ db. count (sellable id) db.ticket_types)
  modify (λ db. record db { ticket_types = update_many (sellable id) sell db.ticket_types })
  throw_if (eqb n 0) (bad_request registration_ticket_type_full)

abbrev pub code_clashes : TicketCode → TicketCode → Bool
code_clashes new c = (c.id == new.id) || ((c.event_id == new.event_id) && (c.code == new.code))

unfoldable pub insert_ticket_code : TicketCode → M (Unit {0})
insert_ticket_code new = do
  clash ← gets (λ db. find_first (code_clashes new) db.ticket_codes)
  throw_if (is_some clash) unique_violation
  modify (λ db. record db { ticket_codes = db.ticket_codes ++ new ∷ [] })

abbrev same_code : Option String → Option String → Bool
same_code none b = false
same_code (some a) none = false
same_code (some a) (some b) = a == b

-- The unique columns: id, (eventId, attendeeEmail), ticketCodeId, confirmationCode.
abbrev pub clashes : Registration → Registration → Bool
clashes new r =
    (r.id == new.id)
    || of_attendee new.event_id new.attendee_email r
    || (r.ticket_code_id == new.ticket_code_id)
    || same_code r.confirmation_code new.confirmation_code

unfoldable pub insert_registration : Registration → M Registration
insert_registration new = do
  clash ← gets (λ db. find_first (clashes new) db.registrations)
  throw_if (is_some clash) unique_violation
  modify (λ db. record db { registrations = db.registrations ++ new ∷ [] })
  pure new

abbrev pub new_registration : Event → Attendee → Codes → Registration
new_registration event a codes = record {
  id = codes.registration_id;
  event_id = event.id;
  ticket_code_id = codes.ticket_code_id;
  attendee_email = a.email;
  attendee_name = a.name;
  phone = a.phone;
  ticket_type_id = a.ticket_type_id;
  payment_status = success;
  source = RegistrationSource.public_link;
  confirmation_code = some codes.confirmation_code;
  qr_issued = false;
  qr_issued_at = none;
  status = RegistrationStatus.confirmed;
}

abbrev pub new_ticket_code : Event → Attendee → Codes → TicketCode
new_ticket_code event a codes = record {
  id = codes.ticket_code_id;
  event_id = event.id;
  code = codes.ticket_code;
  status = TicketCodeStatus.used;
  attendee_email = some a.email;
  attendee_name = some a.name;
}

-- The body of the transaction.
unfoldable pub registration_writes : Event → Attendee → Codes → M Registration
registration_writes event a codes = do
  row ← gets (λ db. find_first (has_id event.id) db.events)
  registered ← gets (λ db. count (attending event.id) db.registrations)
  throw_if (is_full (capacity_of row) registered) (bad_request registration_capacity_exceeded)
  claim_ticket a.ticket_type_id
  insert_ticket_code (new_ticket_code event a codes)
  insert_registration (new_registration event a codes)

-- The `catch` of an attempt: only a unique violation is tried again, and not if it is the e-mail.
unfoldable pub after_attempt :
    Event → Attendee → Result Registration → M Registration → M Registration
after_attempt event a (ok r) again = pure r
after_attempt event a (err unique_violation) again = do
  duplicate ← gets (λ db. find_first (of_attendee event.id a.email) db.registrations)
  throw_if (is_some duplicate) (conflict registration_duplicate)
  again
after_attempt event a (err e) again = throw e

-- `left` attempts, of which this is the one with the number `k`; after the last one its error is
-- thrown.
unfoldable pub create_free_from : Event → Attendee → (ℕ → Codes) → ℕ → ℕ → M Registration
create_free_from event a codes zero k = throw unique_violation
create_free_from event a codes (suc left) k = do
  r ← attempt (transaction (registration_writes event a (codes k)))
  after_attempt event a r (create_free_from event a codes left (k + 1))

-- CONFIRMATION_CODE_RETRIES = 3
unfoldable pub create_free_registration : Event → Attendee → (ℕ → Codes) → M Registration
create_free_registration event a codes = create_free_from event a codes 3 0
