-- ===== src/Event/Create.antt =====
-- modules/events/event.service.js: the creation of an event under a unique slug.
use qpass_backend.Prelude.{
  ℕ, zero, suc, ◌+◌, String, Bool, false, ◌&&◌, ◌||◌, Option, none, some, [], ◌∷◌, ◌++◌, ◌==◌,
  is_none, is_some, if◌then◌else◌,
}
use qpass_backend.Prelude.Tables.{find_first}
use qpass_backend.Fault.{unique_violation, plain, slug_retries}
use qpass_backend.Db.{
  Event, draft, public_link, Result, ok, err, M, ◌>>=◌, ◌>>◌, pure, throw, throw_if, gets, modify,
  attempt, write_audit_log,
}
use qpass_backend.Text.Slug.{generate_slug}
use qpass_backend.Event.Handlers.{find_event}

pub record NewEvent : Type 0 where
  pub title : String
  pub description : Option String
  pub venue : Option String
  pub start_time : ℕ
  pub end_time : ℕ

-- where: { slug, deletedAt: null }
abbrev pub has_live_slug : String → Event → Bool
has_live_slug slug e = (e.slug == slug) && is_none e.deleted_at

-- The `while` loop of generateUniqueSlug, with `left` lookups to go; `suffix i` is the random suffix
-- of the i-th slug that the title is given.
unfoldable pub unique_slug_from : String → (ℕ → String) → ℕ → ℕ → M String
unique_slug_from title suffix zero i = throw (plain slug_retries)
unique_slug_from title suffix (suc left) i = do
  taken ← find_event (has_live_slug (generate_slug title (suffix i)))
  if is_some taken
      then unique_slug_from title suffix left (i + 1)
      else pure (generate_slug title (suffix i))

abbrev pub max_slug_retries : ℕ
max_slug_retries = 10

abbrev pub generate_unique_slug : String → (ℕ → String) → M String
generate_unique_slug title suffix = unique_slug_from title suffix max_slug_retries 0

-- The unique columns of the table: id and slug, the slugs of deleted events included.
abbrev pub clashes : Event → Event → Bool
clashes new e = (e.id == new.id) || (e.slug == new.slug)

-- prisma.event.create
unfoldable pub insert_event : Event → M Event
insert_event new = do
  clash ← gets (λ db. find_first (clashes new) db.events)
  throw_if (is_some clash) unique_violation
  modify (λ db. record db { events = db.events ++ new ∷ [] })
  pure new

-- The row of a new event: what the service gives, and the column defaults.
abbrev pub new_event : String → NewEvent → String → String → Event
new_event id event_data slug owner_id = record {
  id = id;
  title = event_data.title;
  description = event_data.description;
  venue = event_data.venue;
  slug = slug;
  start_time = event_data.start_time;
  end_time = event_data.end_time;
  status = draft;
  owner_id = owner_id;
  registration_mode = public_link;
  is_paid = false;
  capacity = none;
  registration_opens_at = none;
  registration_closes_at = none;
  published_at = none;
  deleted_at = none;
}

-- The body of the `try`. `ids k` is the id that the database gives in the k-th attempt.
unfoldable pub try_create : (ℕ → String) → (ℕ → ℕ → String) → NewEvent → String → ℕ → M Event
try_create ids suffix event_data owner_id attempt_no = do
  slug ← generate_unique_slug event_data.title (suffix attempt_no)
  event ← insert_event (new_event (ids attempt_no) event_data slug owner_id)
  write_audit_log (some owner_id) "EVENT_CREATED" "Event" event.id
  pure event

-- The `catch`, where attempts are left: `continue` on a unique violation.
unfoldable pub retried : Result Event → M Event → M Event
retried (ok event) again = pure event
retried (err unique_violation) again = again
retried (err e) again = throw e

unfoldable pub create_from : (ℕ → String) → (ℕ → ℕ → String) → NewEvent → String → ℕ → ℕ → M Event
create_from ids suffix event_data owner_id zero attempt_no =
    try_create ids suffix event_data owner_id attempt_no
create_from ids suffix event_data owner_id (suc left) attempt_no = do
  r ← attempt (try_create ids suffix event_data owner_id attempt_no)
  retried r (create_from ids suffix event_data owner_id left (attempt_no + 1))

-- MAX_RETRIES = 3: two attempts that may be repeated, and a last one.
unfoldable pub create_event : (ℕ → String) → (ℕ → ℕ → String) → NewEvent → String → M Event
create_event ids suffix event_data owner_id = create_from ids suffix event_data owner_id 2 0
