-- ===== src/Event/Handlers.antt =====
-- modules/events/event.service.js: the handlers that read or change an event that exists.
use qpass_backend.Prelude.{
  ℕ, String, Bool, true, false, not, ◌&&◌, ◌||◌, Option, none, some, ◌==◌, is_none, is_some,
  if◌then◌else◌, eqb,
}
use qpass_backend.Prelude.Tables.{find_first, count, update_many}
use qpass_backend.Fault.{
  not_found, forbidden, validation, event_not_found, event_unauthorized, event_not_draft,
  event_not_published, event_cannot_cancel_draft, event_already_cancelled,
}
use qpass_backend.Db.{
  Db, Event, EventStatus, draft, published, completed, UserRole, admin, M, ◌>>=◌, ◌>>◌, pure, throw,
  throw_if, or_throw, when, gets, modify, or_else, write_audit_log,
}

-- What the other requests do across the awaits before and after the handler's write.
pub record Interleaving : Type 0 where
  pub before_write : Db → Db
  pub after_write : Db → Db

abbrev pub alone : Interleaving
alone = record { before_write = λ db. db; after_write = λ db. db }

-- userRole === constants.ROLES.ADMIN
abbrev pub is_admin : UserRole → Bool
is_admin admin = true
is_admin _ = false

abbrev pub is_draft : EventStatus → Bool
is_draft draft = true
is_draft _ = false

abbrev pub is_published_or_active : EventStatus → Bool
is_published_or_active published = true
is_published_or_active EventStatus.active = true
is_published_or_active _ = false

abbrev pub is_cancelled : EventStatus → Bool
is_cancelled EventStatus.cancelled = true
is_cancelled _ = false

-- status: { in: [PUBLISHED, ACTIVE, COMPLETED] }
abbrev pub is_cancellable : EventStatus → Bool
is_cancellable published = true
is_cancellable EventStatus.active = true
is_cancellable completed = true
is_cancellable _ = false

-- where: { id: eventId, deletedAt: null }
abbrev pub alive : String → Event → Bool
alive event_id e = (e.id == event_id) && is_none e.deleted_at

-- where: { id: eventId, deletedAt: null, ...(isAdmin ? {} : { ownerId }) }
abbrev pub editable : String → String → UserRole → Event → Bool
editable event_id owner_id role e = alive event_id e && (is_admin role || (e.owner_id == owner_id))

unfoldable pub find_event : (Event → Bool) → M (Option Event)
find_event where_ = gets λ db. find_first where_ db.events

-- prisma.event.updateMany, with the count that it returns
unfoldable pub update_events : (Event → Bool) → (Event → Event) → M ℕ
update_events where_ data_ = do
  n ← gets (λ db. count where_ db.events)
  modify (λ db. record db { events = update_many where_ data_ db.events })
  pure n

unfoldable pub get_event : String → String → UserRole → M Event
get_event event_id user_id role = do
  found ← find_event (alive event_id)
  event ← or_throw found (not_found event_not_found)
  throw_if (not ((event.owner_id == user_id) || is_admin role)) (forbidden event_unauthorized)
  pure event

-- `exists` and the two throws that follow a lookup or an update that matched nothing
unfoldable pub refuse : {A : Type 0} → String → M A
refuse event_id = do
  exists ← find_event (alive event_id)
  event ← or_throw exists (not_found event_not_found)
  throw (forbidden event_unauthorized)

-- the lookup at the head of publishEvent, unpublishEvent and cancelEvent
unfoldable pub require_editable : String → String → UserRole → M Event
require_editable event_id owner_id role = do
  found ← find_event (editable event_id owner_id role)
  or_else found (refuse event_id)

-- The fields that the update schema lets through; an absent one is left alone.
pub record EventData : Type 0 where
  pub title : Option String
  pub description : Option String
  pub venue : Option String
  pub start_time : Option ℕ
  pub end_time : Option ℕ

abbrev pub given {ℓ} : {A : Type ℓ} → Option A → A → A
given none old = old
given (some new) old = new

abbrev pub given? {ℓ} : {A : Type ℓ} → Option A → Option A → Option A
given? none old = old
given? (some new) old = some new

abbrev pub apply_data : EventData → Event → Event
apply_data d e = record e {
  title = given d.title e.title;
  description = given? d.description e.description;
  venue = given? d.venue e.venue;
  start_time = given d.start_time e.start_time;
  end_time = given d.end_time e.end_time;
}

unfoldable pub update_event : Interleaving → String → EventData → String → UserRole → M Event
update_event env event_id event_data owner_id role = do
  before ← find_event (editable event_id owner_id role)
  modify env.before_write
  n ← update_events (editable event_id owner_id role) (apply_data event_data)
  modify env.after_write
  if eqb n 0 then refuse event_id else do
    when (is_some before) (write_audit_log (some owner_id) "EVENT_UPDATED" "Event" event_id)
    get_event event_id owner_id role

unfoldable pub delete_event : Interleaving → ℕ → String → String → UserRole → M String
delete_event env now event_id owner_id role = do
  modify env.before_write
  n ← update_events (editable event_id owner_id role) (λ e. record e { deleted_at = some now })
  modify env.after_write
  if eqb n 0
      then refuse event_id
      else do write_audit_log (some owner_id) "EVENT_DELETED" "Event" event_id; pure event_id

abbrev pub publish : ℕ → Event → Event
publish now e = record e { status = published; published_at = some now }

abbrev pub publishable : String → String → UserRole → Event → Bool
publishable event_id owner_id role e = editable event_id owner_id role e && is_draft e.status

unfoldable pub publish_event : Interleaving → ℕ → String → String → UserRole → M Event
publish_event env now event_id owner_id role = do
  event ← require_editable event_id owner_id role
  throw_if (not (is_draft event.status)) (validation event_not_draft)
  modify env.before_write
  n ← update_events (publishable event_id owner_id role) (publish now)
  throw_if (eqb n 0) (validation event_not_draft)
  modify env.after_write
  write_audit_log (some owner_id) "EVENT_PUBLISHED" "Event" event_id
  get_event event_id owner_id role

abbrev pub unpublish : Event → Event
unpublish e = record e { status = draft }

abbrev pub unpublishable : String → String → UserRole → Event → Bool
unpublishable event_id owner_id role e =
    editable event_id owner_id role e && is_published_or_active e.status

unfoldable pub unpublish_event : Interleaving → String → String → UserRole → M Event
unpublish_event env event_id owner_id role = do
  event ← require_editable event_id owner_id role
  throw_if (not (is_published_or_active event.status)) (validation event_not_published)
  modify env.before_write
  n ← update_events (unpublishable event_id owner_id role) unpublish
  throw_if (eqb n 0) (validation event_not_published)
  modify env.after_write
  write_audit_log (some owner_id) "EVENT_UNPUBLISHED" "Event" event_id
  get_event event_id owner_id role

abbrev pub cancel : Event → Event
cancel e = record e { status = EventStatus.cancelled }

abbrev pub cancellable : String → String → UserRole → Event → Bool
cancellable event_id owner_id role e = editable event_id owner_id role e && is_cancellable e.status

unfoldable pub cancel_event : Interleaving → String → String → UserRole → M Event
cancel_event env event_id owner_id role = do
  event ← require_editable event_id owner_id role
  throw_if (is_draft event.status) (validation event_cannot_cancel_draft)
  throw_if (is_cancelled event.status) (validation event_already_cancelled)
  modify env.before_write
  n ← update_events (cancellable event_id owner_id role) cancel
  throw_if (eqb n 0) (validation event_already_cancelled)
  modify env.after_write
  write_audit_log (some owner_id) "EVENT_CANCELLED" "Event" event_id
  get_event event_id owner_id role
