-- ===== src/Tests/Listings.antt =====
-- The listings, and who may look: pages of one row on the database of Tests.Fixture.
use qpass_backend.Prelude.{ℕ, ◌≡◌, ◌≤◌, ◌+◌, refl, true, false, none, some, arith}
use qpass_backend.Prelude.Tables.{find_first, find_many}
use qpass_backend.Db.{pos, UserRole, ok, err}
use qpass_backend.Fault.{not_found, forbidden, event_not_found, checkin_not_authorized}
use qpass_backend.Text.{to_lower_case}
use qpass_backend.Event.Handlers.{alone}
use qpass_backend.Paging.{newest_first}
use qpass_backend.Paging.Pages.{collect}
use qpass_backend.Paging.Services.{listings-pages, IsBounded, listings-IsBounded}
use qpass_backend.Registration.Lists.{Filters, selected, list_registrations_by_event}
use qpass_backend.CheckIn.Scan.{may_scan}
use qpass_backend.CheckIn.Gate.{
  on_staff, is_authorized_for_event, get_checkins, Query, attendee_selected, attendees_of,
  list_event_attendees, get_checkin_statistics,
}
use qpass_backend.CheckIn.Parts.{access-rule}
use qpass_backend.Tickets.View.{mine, my_tickets, get_ticket_details}
use qpass_backend.Tickets.Visibility.{get_ticket_details-visible}
use qpass_backend.Event.Lists.{list_events}
use qpass_backend.Admin.Users.{list_users}
use qpass_backend.Admin.AuditLogs.{AuditQuery, list_audit_logs}
use qpass_backend.Reports.Dashboard.{dashboard}
use qpass_backend.Reports.Sums.{sum_sold, dashboard-sums}
use qpass_backend.Tests.Fixture.{store, ada, launch, plain_crypto, draw}

abbrev all : Filters
all = record { status = none; payment_status = none }

abbrev query : Query
query = record { q = some " ADA"; page = none; limit = some (pos 1); status = none }

listings-pages_example :
    (collect
        (λ p. list_registrations_by_event "e1" (some (pos p)) (some (pos 1)) all false store)
        (list_registrations_by_event "e1" none (some (pos 1)) all false store).total_pages
      ≡ newest_first (find_many (selected "e1" all) store.registrations))
    × (collect
          (λ p. attendees_of "e1" (record query { page = some (pos p) }) store)
          (attendees_of "e1" query store).total_pages
        ≡ newest_first (find_many (attendee_selected "e1" query) store.registrations))
    × (collect
          (λ p. my_tickets "ada@x.org" (some (pos p)) (some (pos 1)) store)
          (my_tickets "ada@x.org" none (some (pos 1)) store).total_pages
        ≡ newest_first (find_many (mine "ada@x.org" store.events) store.registrations))
listings-pages_example = listings-pages "e1" "ada@x.org" (some (pos 1)) all false query store

abbrev audit : AuditQuery
audit = record {
  page = none;
  limit = some 1;
  action = none;
  entity = some "User";
  actor_id = none;
  in_range = λ a. true;
}

listings-IsBounded_example :
    IsBounded (list_registrations_by_event "e1" none (some (pos 500)) all false store)
    × IsBounded (attendees_of "e1" query store)
    × IsBounded (my_tickets "ada@x.org" none (some (pos 500)) store)
    × IsBounded (list_events "e1" UserRole.admin none (some 7) none store)
    × IsBounded (list_users none (some 7) (some "sam") store)
    × IsBounded (list_audit_logs audit store)
listings-IsBounded_example =
    listings-IsBounded store "e1" "ada@x.org" none (some (pos 500)) all query UserRole.admin none
      (some "sam") none (some 7) audit (ground arith) (ground arith)

access-rule_example :
    (is_authorized_for_event "u9" UserRole.organizer "e1" store ≡ may_scan "e1" "u9" store)
    × (get_checkins "e1" "u9" store ≡ (err (not_found event_not_found), store))
    × (list_event_attendees "e1" "u9" UserRole.organizer query store
        ≡ (err (forbidden checkin_not_authorized), store))
    × (get_checkin_statistics "u9" UserRole.organizer "e1" store
        ≡ (err (forbidden checkin_not_authorized), store))
unfolding may_scan find_first
access-rule_example = access-rule "e1" "u9" UserRole.organizer query store

-- Sam is on the staff of the launch, and does not see Ada's token.
get_ticket_details-visible_example :
    get_ticket_details plain_crypto alone draw 300 "r1" "u1" UserRole.staff store
    ≡ (ok (ada, none), store)
unfolding find_first on_staff to_lower_case
get_ticket_details-visible_example =
    get_ticket_details-visible plain_crypto alone draw 300 "r1" "u1" UserRole.staff ada store refl

abbrev half : ℕ → ℕ → ℕ
half n capacity = 50

dashboard-sums_example :
    let d = dashboard half launch "e1" store in
    (d.total ≡ d.confirmed + d.pending + d.cancelled)
    × (d.valid ≤ d.check_ins)
    × (d.confirmed ≤ d.no_shows + d.valid)
    × (sum_sold d.ticket_breakdown ≤ d.confirmed + d.pending)
dashboard-sums_example = dashboard-sums half launch "e1" store ((refl, tt), (tt, tt))
