-- ===== src/Event/Slugs.antt =====
-- modules/events/event.service.js: what `createEvent` adds to the events.
use qpass_backend.Prelude.{
  ℕ, zero, suc, ◌+◌, String, ◌≡◌, refl, ◌∙◌, none, some, [], ◌∷◌, ◌++◌, arith, Option-cases, inl,
  inr,
}
use qpass_backend.Prelude.Tables.{find_first}
use qpass_backend.Fault.{unique_violation}
use qpass_backend.Db.{
  Db, Event, draft, Result, ok, err, M, pure, after, ◌>>=◌, ◌>>◌, write_audit_log,
}
use qpass_backend.Event.Handlers.{find_event}
use qpass_backend.Event.Create.{
  NewEvent, unique_slug_from, clashes, insert_event, new_event, try_create, retried, create_from,
  create_event,
}

-- What `createEvent` leaves behind: on success one new row at the end, a draft of the owner whose
-- id and slug no other event has, and nothing on a throw.
abbrev pub Created : String → Db → Result Event × Db → Type 0
Created owner_id db (ok e, db') =
    (db'.events ≡ db.events ++ e ∷ [])
    × (e.status ≡ draft)
    × (e.owner_id ≡ owner_id)
    × (find_first (clashes e) db.events ≡ none)
Created owner_id db (err f, db') = db'.events ≡ db.events

unique_slug_reads :
    (title : String) (suffix : ℕ → String) (left i : ℕ) (db : Db)
    → (unique_slug_from title suffix left i db).1 ≡ db
unfolding unique_slug_from find_event ◌>>=◌
unique_slug_reads title suffix zero i db = refl
unique_slug_reads title suffix (suc left) i db =
    ground (arith, unique_slug_reads title suffix left (i + 1) db)

insert_event-Created :
    (owner_id : String) (new : Event) (db : Db)
    → new.status ≡ draft
    → new.owner_id ≡ owner_id
    → Created owner_id db (insert_event new db)
unfolding insert_event ◌>>◌
insert_event-Created owner_id new db s o =
    elim (Option-cases (find_first (clashes new) db.events)) [
      | inl e ↦ rw e (refl, s, o, e)
      | inr (a, e) ↦ rw e refl
    ]

module _ (owner_id : String) (db : Db) where
  logged-Created :
      (p : Result Event × Db)
      → Created owner_id db p
      → Created owner_id db (
          after p.0
            (λ e. write_audit_log (some owner_id) "EVENT_CREATED" "Event" e.id >> pure e)
            p.1)
  unfolding ◌>>◌ write_audit_log
  logged-Created (ok e, d) h = h
  logged-Created (err f, d) h = h

  -- `db` has the same events as the database that the next attempt starts from.
  Created-of_eq :
      (db' : Db) (p : Result Event × Db)
      → db'.events ≡ db.events
      → Created owner_id db' p
      → Created owner_id db p
  Created-of_eq db' (ok e, d) h (a, s, o, n) = (rw h at a, s, o, rw h at n)
  Created-of_eq db' (err f, d) h a = a ∙ h

module _ (ids : ℕ → String) (suffix : ℕ → ℕ → String) (event_data : NewEvent)
    (owner_id : String) where
  with_slug-Created :
      (k : ℕ) (db : Db) (r : Result String)
      → Created owner_id db (
          after r
            (λ slug. insert_event (new_event (ids k) event_data slug owner_id) >>= λ e.
              write_audit_log (some owner_id) "EVENT_CREATED" "Event" e.id >> pure e)
            db)
  unfolding ◌>>=◌
  with_slug-Created k db (ok slug) =
      logged-Created owner_id db _
        (insert_event-Created owner_id (new_event (ids k) event_data slug owner_id) db refl refl)
  with_slug-Created k db (err f) = refl

  try_create-Created :
      (k : ℕ) (db : Db) → Created owner_id db (try_create ids suffix event_data owner_id k db)
  unfolding try_create ◌>>=◌
  try_create-Created k db =
      rw (unique_slug_reads event_data.title (suffix k) 10 0 db)
        (with_slug-Created k db (unique_slug_from event_data.title (suffix k) 10 0 db).0)

  -- What follows a failed attempt.
  retry-Created :
      (db : Db) (p : Result Event × Db) (again : M Event)
      → Created owner_id db p
      → ((db' : Db) → Created owner_id db' (again db'))
      → Created owner_id db (retried p.0 again p.1)
  unfolding retried ◌>>=◌
  retry-Created db (ok e, d) again h k = h
  retry-Created db (err unique_violation, d) again h k =
      Created-of_eq owner_id db d (again d) h (k d)
  retry-Created db (err f, d) again h k = h

  create_from-Created :
      (left k : ℕ) (db : Db)
      → Created owner_id db (create_from ids suffix event_data owner_id left k db)
  unfolding create_from ◌>>=◌
  create_from-Created zero k db = try_create-Created k db
  create_from-Created (suc left) k db =
      retry-Created db _ _ (try_create-Created k db) (create_from-Created left (k + 1))

  -- A successful `create_event` adds one row at the end: a draft of the caller, whose id and slug
  -- no event had before, deleted ones included. A throw leaves the events as they were.
  pub create_event-Created :
      (db : Db) → Created owner_id db (create_event ids suffix event_data owner_id db)
  unfolding create_event
  create_event-Created db = create_from-Created 2 0 db
