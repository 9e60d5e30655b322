-- ===== src/CheckIn/Gate.antt =====
-- modules/checkins/checkins.service.js, realtime/socket.js and modules/reports/dashboard.service.js:
-- who may look at the check-ins of an event, and what they are shown.
use qpass_backend.Prelude.{
  ℕ, ◌+◌, String, Bool, true, false, not, ◌&&◌, ◌||◌, Option, none, some, List, [], ◌∷◌, ◌==◌,
  is_none, is_some, if◌then◌else◌, map,
}
use qpass_backend.Prelude.Tables.{find_first, find_many, count}
use qpass_backend.Fault.{Fault, not_found, forbidden, event_not_found, checkin_not_authorized}
use qpass_backend.Db.{
  Db, ℤ, UserRole, Event, EventStaffAssignment, Registration, RegistrationStatus, QrToken, CheckIn,
  AuditLog, M, ◌>>=◌, ◌>>◌, pure, throw_if, or_throw, gets,
}
use qpass_backend.Text.{trim, is_empty}
use qpass_backend.Text.Search.{contains, contains?}
use qpass_backend.Paging.{Listing, page_size, page_number, newest_first, listed}
use qpass_backend.Event.Handlers.{is_admin, alive}
use qpass_backend.CheckIn.Scan.{assigned, is_valid}
use qpass_backend.CheckIn.Order.{live_check_in, by_scan}
use qpass_backend.Registration.Lists.{has_status}

abbrev pub is_on_staff : Option EventStaffAssignment → Bool
is_on_staff none = false
is_on_staff (some a) = a.active

abbrev pub owner_is : Option Event → String → Bool
owner_is none user_id = false
owner_is (some e) user_id = e.owner_id == user_id

unfoldable pub on_staff : String → String → Db → Bool
on_staff event_id user_id db = is_on_staff (find_first (assigned event_id user_id) db.assignments)

-- realtime/socket.js, isAuthorizedForEvent
unfoldable pub is_authorized_for_event : String → UserRole → String → Db → Bool
is_authorized_for_event user_id role event_id db =
    let event = find_first (alive event_id) db.events in
    if is_admin role
    then true
    else if is_none event
    then false
    else if owner_is event user_id
    then true
    else on_staff event_id user_id db

-- The guard of getCheckinStatistics, listEventAttendees and getDashboardStats, which throw different
-- errors at a caller without a part in the event.
unfoldable pub require_part : Fault → String → String → UserRole → M Event
require_part e event_id user_id role = do
  found ← gets (λ db. find_first (alive event_id) db.events)
  event ← or_throw found (not_found event_not_found)
  staff ← gets (on_staff event_id user_id)
  throw_if (not (event.owner_id == user_id) && not (is_admin role) && not staff) e
  pure event

unfoldable pub get_checkins : String → String → M (List CheckIn)
get_checkins event_id user_id = do
  found ← gets (λ db. find_first (alive event_id) db.events)
  event ← or_throw found (not_found event_not_found)
  staff ← gets (on_staff event_id user_id)
  throw_if (not (event.owner_id == user_id) && not staff) (not_found event_not_found)
  gets (λ db. by_scan (find_many (live_check_in event_id) db.check_ins))

pub record Query : Type 0 where
  pub q : Option String
  pub page : Option ℤ
  pub limit : Option ℤ
  pub status : Option RegistrationStatus

-- typeof query.q === "string" ? query.q.trim() : ""
abbrev pub search_text : Option String → String
search_text none = ""
search_text (some s) = trim s

abbrev pub matches : String → Registration → Bool
matches search r =
    contains search r.attendee_name
    || contains search r.attendee_email
    || contains? search r.phone
    || contains? search r.confirmation_code

abbrev pub attendee_selected : String → Query → Registration → Bool
attendee_selected event_id query r =
    (r.event_id == event_id)
    && has_status query.status r
    && (is_empty (search_text query.q) || matches (search_text query.q) r)

abbrev pub of_registration : String → CheckIn → Bool
of_registration id c = (c.registration_id == id) && is_none c.deleted_at && is_valid c.result

abbrev pub token_of : String → QrToken → Bool
token_of id t = t.registration_id == id

abbrev pub unrevoked : Option QrToken → Bool
unrevoked none = false
unrevoked (some t) = is_none t.revoked_at

-- The row of an attendee: the registration, whether it is checked in, and whether its QR is issued.
pub record AttendeeRow : Type 0 where
  pub registration : Registration
  pub checked_in : Bool
  pub issued : Bool

abbrev pub attendee_row : Db → Registration → AttendeeRow
attendee_row db r = record {
  registration = r;
  checked_in = is_some (find_first (of_registration r.id) db.check_ins);
  issued = unrevoked (find_first (token_of r.id) db.qr_tokens);
}

abbrev pub shown : Db → Listing Registration → Listing AttendeeRow
shown db l = record {
  items = map (attendee_row db) l.items;
  page = l.page;
  limit = l.limit;
  total = l.total;
  total_pages = l.total_pages;
}

unfoldable pub attendees_of : String → Query → Db → Listing Registration
attendees_of event_id query db =
    listed (page_number query.page) (page_size query.limit)
      (count (attendee_selected event_id query) db.registrations)
      (newest_first (find_many (attendee_selected event_id query) db.registrations))

unfoldable pub list_event_attendees : String → String → UserRole → Query → M (Listing AttendeeRow)
list_event_attendees event_id user_id role query = do
  event ← require_part (forbidden checkin_not_authorized) event_id user_id role
  gets (λ db. shown db (attendees_of event_id query db))

-- COUNT(DISTINCT ...)
unfoldable pub distinct : List String → ℕ
distinct [] = 0
distinct (s ∷ ss) =
    let rest = distinct ss in if is_some (find_first (λ t. t == s) ss) then rest else rest + 1

abbrev pub is_duplicate_scan : AuditLog → Bool
is_duplicate_scan a = (a.action == "DUPLICATE_SCAN") && (a.entity == "CheckIn")

abbrev pub names_live : String → List CheckIn → AuditLog → Bool
names_live event_id cs a =
    is_some (find_first (λ c. live_check_in event_id c && (c.id == a.entity_id)) cs)

-- INNER JOIN check_ins c ON c.id = a.entity_id: an id has at most one row.
unfoldable pub count_duplicate_scans : String → Db → ℕ
count_duplicate_scans event_id db =
    count (λ a. is_duplicate_scan a && names_live event_id db.check_ins a) db.audit_logs

unfoldable pub count_checked_in : String → Db → ℕ
count_checked_in event_id db =
    distinct
      (map (λ (c : CheckIn). c.registration_id) (find_many (live_check_in event_id) db.check_ins))

pub record Statistics : Type 0 where
  pub total : ℕ
  pub valid : ℕ
  pub duplicate : ℕ
  pub unique_attendees_checked_in : ℕ
  pub events_with_checkins : ℕ

unfoldable pub statistics : String → Db → Statistics
statistics event_id db = record {
  total = count (live_check_in event_id) db.check_ins;
  valid = count (λ c. live_check_in event_id c && is_valid c.result) db.check_ins;
  duplicate = count_duplicate_scans event_id db;
  unique_attendees_checked_in = count_checked_in event_id db;
  events_with_checkins =
      count (λ e. alive event_id e && is_some (find_first (live_check_in event_id) db.check_ins))
        db.events;
}

-- With an `eventId`; the summary of the whole system is left out.
unfoldable pub get_checkin_statistics : String → UserRole → String → M Statistics
get_checkin_statistics user_id role event_id = do
  event ← require_part (forbidden checkin_not_authorized) event_id user_id role
  gets (statistics event_id)
