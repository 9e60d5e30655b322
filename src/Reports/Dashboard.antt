-- ===== src/Reports/Dashboard.antt =====
-- modules/reports/dashboard.service.js: `getDashboardStats`.
use qpass_backend.Prelude.{
  ℕ, ◌-◌, String, Bool, false, not, ◌&&◌, Option, none, some, List, ◌==◌, is_some, if◌then◌else◌,
  map, leb, length,
}
use qpass_backend.Prelude.Tables.{find_first, find_many, count}
use qpass_backend.Fault.{forbidden, event_unauthorized}
use qpass_backend.Db.{
  Db, UserRole, Event, TicketType, Registration, RegistrationStatus, CheckIn, AuditLog, M, ◌>>=◌,
  gets,
}
use qpass_backend.Registration.Lists.{same_status}
use qpass_backend.CheckIn.Scan.{is_valid}
use qpass_backend.CheckIn.Order.{live_check_in}
use qpass_backend.CheckIn.Gate.{require_part, is_duplicate_scan}

-- where: { eventId }, and with a status
abbrev pub at_event : String → Registration → Bool
at_event event_id r = r.event_id == event_id

abbrev pub with_status : String → RegistrationStatus → Registration → Bool
with_status event_id s r = at_event event_id r && same_status r.status s

-- entityId: { in: ... }
abbrev pub names_one : List CheckIn → AuditLog → Bool
names_one cs a = is_some (find_first (λ (c : CheckIn). c.id == a.entity_id) cs)

abbrev pub duplicates : List CheckIn → List AuditLog → ℕ
duplicates cs logs = count (λ a. is_duplicate_scan a && names_one cs a) logs

abbrev pub has_type : String → Option String → Bool
has_type id none = false
has_type id (some t) = t == id

-- groupBy ticketTypeId, where: { eventId, status: { not: CANCELLED } }
abbrev pub sold_of : String → String → Registration → Bool
sold_of event_id id r =
    at_event event_id r
    && not (same_status r.status RegistrationStatus.cancelled)
    && has_type id r.ticket_type_id

-- checkin.registration?.ticketTypeId
abbrev pub type_of : List Registration → CheckIn → Option String
type_of rs c = elim (find_first (λ (r : Registration). r.id == c.registration_id) rs) [
  | none ↦ none
  | some r ↦ r.ticket_type_id
]

abbrev pub valid_check_in : String → CheckIn → Bool
valid_check_in event_id c = live_check_in event_id c && is_valid c.result

pub record Breakdown : Type 0 where
  pub ticket_type : String
  pub sold : ℕ
  pub checked_in : ℕ

abbrev pub breakdown : String → Db → TicketType → Breakdown
breakdown event_id db t = record {
  ticket_type = t.name;
  sold = count (sold_of event_id t.id) db.registrations;
  checked_in =
      count (λ c. valid_check_in event_id c && has_type t.id (type_of db.registrations c))
        db.check_ins;
}

-- `percent n capacity` is Math.round((n / capacity) * 100), in floating-point numbers.
abbrev pub utilization : (ℕ → ℕ → ℕ) → Option ℕ → ℕ → Option ℕ
utilization percent none n = none
utilization percent (some capacity) n = if leb capacity 0 then none else some (percent n capacity)

pub record Dashboard : Type 0 where
  pub total : ℕ
  pub confirmed : ℕ
  pub pending : ℕ
  pub cancelled : ℕ
  pub check_ins : ℕ
  pub valid : ℕ
  pub duplicate : ℕ
  pub no_shows : ℕ
  pub capacity : Option ℕ
  pub utilization : Option ℕ
  pub ticket_breakdown : List Breakdown

-- The order of the ticket types is left out.
unfoldable pub dashboard : (ℕ → ℕ → ℕ) → Event → String → Db → Dashboard
dashboard percent event event_id db =
    let confirmed = count (with_status event_id RegistrationStatus.confirmed) db.registrations in
    let live = find_many (live_check_in event_id) db.check_ins in
    let valid = count (λ (c : CheckIn). is_valid c.result) live in
    record {
      total = count (at_event event_id) db.registrations;
      confirmed = confirmed;
      pending = count (with_status event_id RegistrationStatus.pending) db.registrations;
      cancelled = count (with_status event_id RegistrationStatus.cancelled) db.registrations;
      check_ins = length live;
      valid = valid;
      duplicate = duplicates live db.audit_logs;
      no_shows = confirmed - valid;
      capacity = event.capacity;
      utilization = utilization percent event.capacity confirmed;
      ticket_breakdown =
          map (breakdown event_id db)
            (find_many (λ (t : TicketType). t.event_id == event_id) db.ticket_types);
    }

unfoldable pub get_dashboard_stats : (ℕ → ℕ → ℕ) → String → String → UserRole → M Dashboard
get_dashboard_stats percent event_id user_id role = do
  event ← require_part (forbidden event_unauthorized) event_id user_id role
  gets (dashboard percent event event_id)
