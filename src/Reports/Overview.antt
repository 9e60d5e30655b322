-- ===== src/Reports/Overview.antt =====
-- modules/reports/analytics.service.js: `getOverviewStats`.
use qpass_backend.Prelude.{
  ℕ, String, Bool, true, false, not, ◌&&◌, ◌||◌, Option, some, List, ◌==◌, is_some, is_none, map,
}
use qpass_backend.Prelude.Tables.{find_first, find_many, count}
use qpass_backend.Fault.{forbidden, auth_forbidden}
use qpass_backend.Text.Search.{equals}
use qpass_backend.Db.{
  Db, User, UserRole, Event, published, Registration, RegistrationStatus, M, ◌>>◌, throw_if, gets,
}
use qpass_backend.Event.Handlers.{is_admin}
use qpass_backend.Event.Lists.{same_event_status}
use qpass_backend.Registration.Lists.{same_status}
use qpass_backend.CheckIn.Gate.{distinct}

pub data Scope : Type 0 where
  own system : Scope

abbrev pub is_system : Option Scope → Bool
is_system (some system) = true
is_system _ = false

abbrev pub is_own : Option Scope → Bool
is_own (some own) = true
is_own _ = false

-- scope === "own" || !isAdmin
abbrev pub own_scope : Option Scope → UserRole → Bool
own_scope scope role = is_own scope || not (is_admin role)

-- { deletedAt: null, ...ownerFilter }
abbrev pub in_scope : Bool → String → Event → Bool
in_scope own_only user_id e = is_none e.deleted_at && (not own_only || (e.owner_id == user_id))

abbrev pub at_scope : Bool → String → List Event → Registration → Bool
at_scope own_only user_id events r =
    is_some (find_first (λ e. (e.id == r.event_id) && in_scope own_only user_id e) events)

-- { event: eventWhere, status: { not: CANCELLED } }
abbrev pub counted : Bool → String → List Event → Registration → Bool
counted own_only user_id events r =
    at_scope own_only user_id events r && not (same_status r.status RegistrationStatus.cancelled)

abbrev pub is_attendee : UserRole → Bool
is_attendee UserRole.attendee = true
is_attendee _ = false

-- INNER JOIN registrations, on the addresses without their case
abbrev pub registered_at : String → Db → User → Bool
registered_at user_id db u = is_some (
    find_first (λ r. equals r.attendee_email u.email && at_scope true user_id db.events r)
      db.registrations)

abbrev pub counted_user : Bool → String → Db → User → Bool
counted_user own_only user_id db u =
    is_attendee u.role && is_none u.deleted_at && (not own_only || registered_at user_id db u)

pub record Overview : Type 0 where
  pub total_events : ℕ
  pub published_events : ℕ
  pub total_attendees : ℕ
  pub total_registrations : ℕ
  pub registered_users : ℕ

unfoldable pub overview : Bool → String → Db → Overview
overview own_only user_id db = record {
  total_events = count (in_scope own_only user_id) db.events;
  published_events =
      count (λ e. in_scope own_only user_id e && same_event_status e.status published) db.events;
  total_attendees = distinct (
      map (λ (r : Registration). r.attendee_email)
        (find_many (counted own_only user_id db.events) db.registrations));
  total_registrations = count (counted own_only user_id db.events) db.registrations;
  registered_users = count (counted_user own_only user_id db) db.users;
}

unfoldable pub get_overview_stats : String → UserRole → Option Scope → M Overview
get_overview_stats user_id role scope = do
  throw_if (is_system scope && not (is_admin role)) (forbidden auth_forbidden)
  gets (overview (own_scope scope role) user_id)
