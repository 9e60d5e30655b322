-- ===== src/Staff/Assign.antt =====
-- modules/staff/staff.service.js: who is assigned to an event, and who no longer is. The invitation
-- that is sent, and the URL in it, are left out.
use qpass_backend.Prelude.{
  String, Bool, true, false, not, ◌&&◌, ◌||◌, Option, none, some, [], ◌∷◌, ◌++◌, ◌==◌, is_some,
  is_none, if◌then◌else◌, List,
}
use qpass_backend.Prelude.Tables.{find_first, find_many, delete_many}
use qpass_backend.Fault.{
  not_found, conflict, forbidden, unique_violation, record_missing, event_not_found,
  event_unauthorized, staff_already_assigned, staff_not_found, staff_privileged,
}
use qpass_backend.Db.{
  User, UserRole, attendee, staff, UserStatus, Event, EventStaffAssignment, M, Result, ok, err,
  ◌>>=◌, ◌>>◌, pure, throw, throw_if, or_throw, gets, modify, transaction, attempt, from_result,
  write_audit_log,
}
use qpass_backend.Db.Users.{has_email, insert_user, update_user}
use qpass_backend.Text.{trim, to_lower_case, before_at}
use qpass_backend.Event.Handlers.{Interleaving, alive}
use qpass_backend.CheckIn.Scan.{assigned}

unfoldable pub verify_event_ownership : String → String → M Event
verify_event_ownership event_id owner_id = do
  found ← gets (λ db. find_first (alive event_id) db.events)
  event ← or_throw found (not_found event_not_found)
  throw_if (not (event.owner_id == owner_id)) (forbidden event_unauthorized)
  pure event

abbrev pub is_assignment : String → EventStaffAssignment → Bool
is_assignment id a = a.id == id

-- What a request draws: the ids of the rows that it may insert, and the hash of a random password.
pub record Hire : Type 0 where
  pub user_id : String
  pub password_hash : String
  pub assignment_id : String

pub record StaffData : Type 0 where
  pub email : String
  pub permission_scope : Option String

-- The row of a new user: what the service gives, and the column defaults.
abbrev pub invited_user : Hire → String → User
invited_user hire email = record {
  id = hire.user_id;
  name = before_at email;
  email = email;
  password_hash = hire.password_hash;
  phone = none;
  role = staff;
  status = UserStatus.active;
  email_verified_at = none;
  deleted_at = none;
}

-- The `catch`: on a unique violation the user that is there by now, if any.
unfoldable pub or_reload : String → Result User → M User
or_reload email (ok user) = pure user
or_reload email (err unique_violation) = do
  found ← gets (λ db. find_first (has_email email) db.users)
  or_throw found unique_violation
or_reload email (err e) = throw e

-- The user of that address with `isNewUser`. `env.before_write` is what other requests do since the
-- lookup.
unfoldable pub or_invite : Interleaving → Hire → String → Option User → M (User × Bool)
or_invite env hire email (some user) = pure (user, false)
or_invite env hire email none = do
  modify env.before_write
  r ← attempt (insert_user (invited_user hire email))
  user ← or_reload email r
  pure (user, true)

-- An attendee becomes staff; an organizer or an admin cannot.
unfoldable pub make_staff : String → UserRole → M (Unit {0})
make_staff id attendee = update_user id λ u. record u { role = staff }
make_staff id staff = pure tt
make_staff id _ = throw (forbidden staff_privileged)

abbrev pub new_assignment : Hire → String → String → Option String → EventStaffAssignment
new_assignment hire event_id user_id scope = record {
  id = hire.assignment_id;
  event_id = event_id;
  user_id = user_id;
  permission_scope = scope;
  active = true;
}

-- tx.eventStaffAssignment.create
unfoldable pub insert_assignment : EventStaffAssignment → M EventStaffAssignment
insert_assignment new = do
  clash ← gets (λ db.
      find_first (λ a. is_assignment new.id a || assigned new.event_id new.user_id a)
        db.assignments)
  throw_if (is_some clash) unique_violation
  modify (λ db. record db { assignments = db.assignments ++ new ∷ [] })
  pure new

-- The transaction of assignStaff.
unfoldable pub record_assignment : EventStaffAssignment → String → Bool → M EventStaffAssignment
record_assignment new owner_id is_new_user = transaction (do
  created ← insert_assignment new
  write_audit_log (some owner_id) (if is_new_user then "STAFF_INVITE_CREATE" else "STAFF_ASSIGN")
      "EventStaffAssignment" created.id
  pure created)

-- The assignment of a user that is there. `env.after_write` is what other requests do before the
-- transaction.
unfoldable pub assign_user :
    Interleaving → Hire → String → String → Option String → User → Bool → M EventStaffAssignment
assign_user env hire event_id owner_id scope user is_new_user = do
  existing ← gets (λ db. find_first (assigned event_id user.id) db.assignments)
  throw_if (is_some existing) (conflict staff_already_assigned)
  make_staff user.id user.role
  modify env.after_write
  record_assignment (new_assignment hire event_id user.id scope) owner_id is_new_user

unfoldable pub assign_staff :
    Interleaving → Hire → String → String → StaffData → M (Event × EventStaffAssignment)
assign_staff env hire event_id owner_id data_ = do
  event ← verify_event_ownership event_id owner_id
  found ← gets (λ db. find_first (has_email (to_lower_case (trim data_.email))) db.users)
  p ← or_invite env hire (to_lower_case (trim data_.email)) found
  a ← assign_user env hire event_id owner_id data_.permission_scope p.0 p.1
  pure (event, a)

-- where: { eventId, active: true }; the order of the list is left out
abbrev pub on_duty : String → EventStaffAssignment → Bool
on_duty event_id a = (a.event_id == event_id) && a.active

unfoldable pub list_staff : String → String → M (Event × List EventStaffAssignment)
list_staff event_id owner_id = do
  event ← verify_event_ownership event_id owner_id
  staff_ ← gets (λ db. find_many (on_duty event_id) db.assignments)
  pure (event, staff_)

abbrev pub is_of_event : String → Option EventStaffAssignment → Bool
is_of_event event_id none = false
is_of_event event_id (some a) = a.event_id == event_id

-- The transaction of removeStaff.
unfoldable pub delete_assignment : String → String → M (Unit {0})
delete_assignment staff_id owner_id = transaction (do
  found ← gets (λ db. find_first (is_assignment staff_id) db.assignments)
  throw_if (is_none found) record_missing
  modify (λ db. record db { assignments = delete_many (is_assignment staff_id) db.assignments })
  write_audit_log (some owner_id) "STAFF_REMOVE" "EventStaffAssignment" staff_id)

-- catch (err) { if (err.code === 'P2025') throw new NotFoundError(...); throw err; }
abbrev pub missing_staff : Result (Unit {0}) → Result (Unit {0})
missing_staff (ok u) = ok u
missing_staff (err record_missing) = err (not_found staff_not_found)
missing_staff (err e) = err e

unfoldable pub remove_staff : Interleaving → String → String → String → M (String × String)
remove_staff env event_id staff_id owner_id = do
  event ← verify_event_ownership event_id owner_id
  assignment ← gets (λ db. find_first (is_assignment staff_id) db.assignments)
  throw_if (not (is_of_event event_id assignment)) (not_found staff_not_found)
  modify env.before_write
  r ← attempt (delete_assignment staff_id owner_id)
  u ← from_result (missing_staff r)
  pure (staff_id, event_id)
