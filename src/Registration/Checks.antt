-- ===== src/Registration/Checks.antt =====
-- modules/registrations/registration.service.js: what is checked before a free registration is
-- created: `findOpenEventBySlug`, `assertCapacity`, `assertNoDuplicate`.
use qpass_backend.Prelude.{
  ℕ, String, Bool, true, false, not, ◌&&◌, Option, none, some, ◌==◌, is_none, leb, ltb,
}
use qpass_backend.Prelude.Tables.{find_first, count}
use qpass_backend.Fault.{
  not_found, bad_request, event_not_found, registration_not_open, registration_capacity_exceeded,
  registration_paid_event, registration_invalid_ticket_type, registration_paid_ticket_type,
  registration_ticket_type_full,
}
use qpass_backend.Db.{
  Event, EventStatus, published, RegistrationMode, closed_import, TicketType, Registration,
  RegistrationStatus, M, ◌>>=◌, ◌>>◌, pure, throw_if, or_throw, gets,
}

-- EVENT_OPEN_STATUSES
abbrev pub is_open_status : EventStatus → Bool
is_open_status published = true
is_open_status EventStatus.active = true
is_open_status _ = false

abbrev pub is_closed_import : RegistrationMode → Bool
is_closed_import closed_import = true
is_closed_import _ = false

abbrev pub is_cancelled : RegistrationStatus → Bool
is_cancelled RegistrationStatus.cancelled = true
is_cancelled _ = false

abbrev pub is_confirmed : RegistrationStatus → Bool
is_confirmed RegistrationStatus.confirmed = true
is_confirmed _ = false

-- now < opensAt, now > closesAt, where these are given
abbrev pub too_early : ℕ → Option ℕ → Bool
too_early now none = false
too_early now (some opens) = ltb now opens

abbrev pub too_late : ℕ → Option ℕ → Bool
too_late now none = false
too_late now (some closes) = ltb closes now

unfoldable pub find_open_event : ℕ → String → M Event
find_open_event now slug = do
  found ← gets (λ db. find_first (λ e. (e.slug == slug) && is_none e.deleted_at) db.events)
  e ← or_throw found (not_found event_not_found)
  throw_if (not (is_open_status e.status)) (bad_request registration_not_open)
  throw_if (is_closed_import e.registration_mode) (bad_request registration_not_open)
  throw_if (too_early now e.registration_opens_at) (bad_request registration_not_open)
  throw_if (too_late now e.registration_closes_at) (bad_request registration_not_open)
  pure e

-- where: { eventId, status: { not: 'CANCELLED' } }
abbrev pub attending : String → Registration → Bool
attending event_id r = (r.event_id == event_id) && not (is_cancelled r.status)

-- limit != null && n >= limit
abbrev pub is_full : Option ℕ → ℕ → Bool
is_full none n = false
is_full (some limit) n = leb limit n

abbrev pub offered : String → String → TicketType → Bool
offered ticket_type_id event_id t = (t.id == ticket_type_id) && (t.event_id == event_id) && t.active

unfoldable pub check_ticket_type : Event → Option String → M (Option TicketType)
check_ticket_type event none = do
  throw_if event.is_paid (bad_request registration_paid_event)
  pure none
check_ticket_type event (some ticket_type_id) = do
  found ← gets (λ db. find_first (offered ticket_type_id event.id) db.ticket_types)
  t ← or_throw found (bad_request registration_invalid_ticket_type)
  throw_if (ltb 0 t.price) (bad_request registration_paid_ticket_type)
  throw_if (is_full t.capacity t.quantity_sold) (bad_request registration_ticket_type_full)
  pure (some t)

unfoldable pub assert_capacity : Event → Option String → M (Option TicketType)
assert_capacity event ticket_type_id = do
  registered ← gets (λ db. count (attending event.id) db.registrations)
  throw_if (is_full event.capacity registered) (bad_request registration_capacity_exceeded)
  check_ticket_type event ticket_type_id

-- where: { eventId_attendeeEmail: { eventId, attendeeEmail } }
abbrev pub of_attendee : String → String → Registration → Bool
of_attendee event_id email r = (r.event_id == event_id) && (r.attendee_email == email)
