-- ===== src/Event/Lists.antt =====
-- modules/events/event.service.js: the events of an organizer, of an admin and of a member of staff.
use qpass_backend.Prelude.{
  ℕ, String, Bool, true, false, ◌&&◌, ◌||◌, Option, none, some, List, [], ◌∷◌, ◌==◌, is_none, leb,
  if◌then◌else◌, map,
}
use qpass_backend.Prelude.Tables.{find_first, find_many, count}
use qpass_backend.Db.{Db, UserRole, Event, EventStatus, EventStaffAssignment}
use qpass_backend.Paging.{Listing, given_or, checked_size, newest_first, listed}
use qpass_backend.Event.Handlers.{is_admin, alive}

abbrev pub same_event_status : EventStatus → EventStatus → Bool
same_event_status EventStatus.draft EventStatus.draft = true
same_event_status EventStatus.published EventStatus.published = true
same_event_status EventStatus.active EventStatus.active = true
same_event_status EventStatus.completed EventStatus.completed = true
same_event_status EventStatus.cancelled EventStatus.cancelled = true
same_event_status _ _ = false

abbrev pub event_has_status : Option EventStatus → Event → Bool
event_has_status none e = true
event_has_status (some s) e = same_event_status e.status s

abbrev pub visible : String → UserRole → Option EventStatus → Event → Bool
visible user_id role status e =
    is_none e.deleted_at && event_has_status status e && (is_admin role || (e.owner_id == user_id))

-- orderBy: { startTime: "asc" }, where equal times keep the order of the table
unfoldable pub insert_by_start : Event → List Event → List Event
insert_by_start e [] = e ∷ []
insert_by_start e (f ∷ fs) =
    let rest = insert_by_start e fs in
    if leb e.start_time f.start_time then e ∷ f ∷ fs else f ∷ rest

unfoldable pub by_start : List Event → List Event
by_start [] = []
by_start (e ∷ es) = insert_by_start e (by_start es)

unfoldable pub list_events :
    String → UserRole → Option ℕ → Option ℕ → Option EventStatus → Db → Listing Event
list_events user_id role page limit status db =
    listed (given_or 1 page) (checked_size limit) (count (visible user_id role status) db.events)
      (by_start (find_many (visible user_id role status) db.events))

-- where: { userId, active: true, event: { deletedAt: null } }
abbrev pub works_at : String → List Event → EventStaffAssignment → Bool
works_at user_id events a =
    (a.user_id == user_id)
    && a.active
    && (elim (find_first (alive a.event_id) events) [ none ↦ false | some e ↦ true ])

abbrev pub event_of : List Event → EventStaffAssignment → Option Event × Option String
event_of events a = (find_first (alive a.event_id) events, a.permission_scope)

-- Each event with the scope of the assignment, newest assignment first.
unfoldable pub list_assigned_events : String → Db → List (Option Event × Option String)
list_assigned_events user_id db =
    map (event_of db.events) (newest_first (find_many (works_at user_id db.events) db.assignments))
