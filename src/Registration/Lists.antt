-- ===== src/Registration/Lists.antt =====
-- modules/registrations/registration.service.js: the registrations and the public event that are
-- looked up and listed.
use qpass_backend.Prelude.{
  ℕ, String, Bool, true, false, ◌&&◌, Option, none, some, List, ◌==◌, if◌then◌else◌, is_none,
}
use qpass_backend.Prelude.Tables.{find_first, find_many, count}
use qpass_backend.Fault.{not_found, event_not_found, registration_not_found}
use qpass_backend.Db.{
  Db, ℤ, Event, TicketType, Registration, RegistrationStatus, PaymentStatus, M, ◌>>=◌, or_throw,
  gets,
}
use qpass_backend.Text.{trim, to_lower_case}
use qpass_backend.Paging.{Listing, at_least_one, page_size, page_number, newest_first, listed}
use qpass_backend.Registration.Checks.{is_open_status, of_attendee}

-- findOpenEventBySlug aside: the event of the public page, with the ticket types that are active.
abbrev pub is_public : String → Event → Bool
is_public slug e = (e.slug == slug) && is_none e.deleted_at && is_open_status e.status

abbrev pub on_offer : String → TicketType → Bool
on_offer event_id t = (t.event_id == event_id) && t.active

unfoldable pub get_public_event_by_slug : String → M (Event × List TicketType)
get_public_event_by_slug slug = do
  found ← gets (λ db. find_first (is_public slug) db.events)
  event ← or_throw found (not_found event_not_found)
  gets (λ db. (event, find_many (on_offer event.id) db.ticket_types))

abbrev pub is_id : String → Registration → Bool
is_id id r = r.id == id

unfoldable pub get_registration_by_id : String → M Registration
get_registration_by_id id = do
  found ← gets (λ db. find_first (is_id id) db.registrations)
  or_throw found (not_found registration_not_found)

unfoldable pub get_registration_by_email : String → String → Db → Option Registration
get_registration_by_email event_id email db =
    find_first (of_attendee event_id (to_lower_case (trim email))) db.registrations

abbrev pub same_status : RegistrationStatus → RegistrationStatus → Bool
same_status RegistrationStatus.pending RegistrationStatus.pending = true
same_status RegistrationStatus.confirmed RegistrationStatus.confirmed = true
same_status RegistrationStatus.cancelled RegistrationStatus.cancelled = true
same_status _ _ = false

abbrev pub same_payment : PaymentStatus → PaymentStatus → Bool
same_payment PaymentStatus.pending PaymentStatus.pending = true
same_payment PaymentStatus.success PaymentStatus.success = true
same_payment PaymentStatus.failed PaymentStatus.failed = true
same_payment PaymentStatus.refunded PaymentStatus.refunded = true
same_payment _ _ = false

pub record Filters : Type 0 where
  pub status : Option RegistrationStatus
  pub payment_status : Option PaymentStatus

abbrev pub has_status : Option RegistrationStatus → Registration → Bool
has_status none r = true
has_status (some s) r = same_status r.status s

abbrev pub has_payment : Option PaymentStatus → Registration → Bool
has_payment none r = true
has_payment (some s) r = same_payment r.payment_status s

abbrev pub selected : String → Filters → Registration → Bool
selected event_id filters r =
    (r.event_id == event_id) && has_status filters.status r && has_payment filters.payment_status r

abbrev pub take_of : Bool → Option ℤ → ℕ
take_of unbounded limit = if unbounded then at_least_one 20 limit else page_size limit

unfoldable pub list_registrations_by_event :
    String → Option ℤ → Option ℤ → Filters → Bool → Db → Listing Registration
list_registrations_by_event event_id page limit filters unbounded db =
    listed (page_number page) (take_of unbounded limit)
      (count (selected event_id filters) db.registrations)
      (newest_first (find_many (selected event_id filters) db.registrations))
