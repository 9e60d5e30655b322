-- ===== src/Event/Guards.antt =====
-- modules/events/event.service.js: who may change an event, and from which status, when no other
-- request comes between.
use qpass_backend.Prelude.{
  ℕ, String, ◌≡◌, refl, true, Option, none, some, arith, is_some, if◌then◌else◌,
}
use qpass_backend.Prelude.Tables.{
  find_first, find_first-update_many, find_first_narrow, count-pos, count-eq-zero, update_many_none,
}
use qpass_backend.Fault.{
  not_found, forbidden, validation, event_not_found, event_unauthorized, event_not_draft,
  event_not_published, event_cannot_cancel_draft, event_already_cancelled,
}
use qpass_backend.Db.{
  Db, Event, EventStatus, draft, published, UserRole, Result, ok, err, ◌>>◌, write_audit_log,
}
use qpass_backend.Event.Handlers.{
  alone, alive, editable, find_event, update_events, get_event, refuse, require_editable, EventData,
  apply_data, update_event, delete_event, publish, publishable, publish_event, unpublish,
  unpublishable, unpublish_event, cancel, cancellable, cancel_event,
}

-- The answer to a caller who may not change the event: 404 if there is no such event, else 403.
abbrev refusal {ℓ} : {A : Type ℓ} → String → Db → Result A
refusal event_id db =
    if is_some (find_first (alive event_id) db.events)
    then err (forbidden event_unauthorized)
    else err (not_found event_not_found)

module _ (event_id owner_id : String) (role : UserRole) (db : Db)
    (outsider : find_first (editable event_id owner_id role) db.events ≡ none) where
  publish_refused :
      (now : ℕ) → publish_event alone now event_id owner_id role db ≡ (refusal event_id db, db)
  unfolding publish_event require_editable refuse find_event ◌>>◌
  publish_refused now = ground (arith, outsider)

  unpublish_refused : unpublish_event alone event_id owner_id role db ≡ (refusal event_id db, db)
  unfolding unpublish_event require_editable refuse find_event ◌>>◌
  unpublish_refused = ground (arith, outsider)

  cancel_refused : cancel_event alone event_id owner_id role db ≡ (refusal event_id db, db)
  unfolding cancel_event require_editable refuse find_event ◌>>◌
  cancel_refused = ground (arith, outsider)

  update_refused :
      (d : EventData) → update_event alone event_id d owner_id role db ≡ (refusal event_id db, db)
  unfolding update_event refuse find_event update_events ◌>>◌
  update_refused d = ground (
    arith,
    outsider,
    count-eq-zero (editable event_id owner_id role) db.events,
    update_many_none (editable event_id owner_id role) (apply_data d) db.events,
  )

  delete_refused :
      (now : ℕ) → delete_event alone now event_id owner_id role db ≡ (refusal event_id db, db)
  unfolding delete_event refuse find_event update_events ◌>>◌
  delete_refused now = ground (
    arith,
    outsider,
    count-eq-zero (editable event_id owner_id role) db.events,
    update_many_none (editable event_id owner_id role) (λ e. record e { deleted_at = some now })
        db.events,
  )

  -- When no other request comes between, a caller for whom no live event of that id is editable (not
  -- the owner, not an admin, or no such event) changes nothing by any of the five handlers, and is
  -- answered 404 if there is no live event of that id and 403 if there is one.
  pub handlers_refused :
      (now : ℕ) (d : EventData)
      → (publish_event alone now event_id owner_id role db ≡ (refusal event_id db, db))
        × (unpublish_event alone event_id owner_id role db ≡ (refusal event_id db, db))
        × (cancel_event alone event_id owner_id role db ≡ (refusal event_id db, db))
        × (update_event alone event_id d owner_id role db ≡ (refusal event_id db, db))
        × (delete_event alone now event_id owner_id role db ≡ (refusal event_id db, db))
  handlers_refused now d =
      (publish_refused now, unpublish_refused, cancel_refused, update_refused d, delete_refused now)

module _ (event_id owner_id : String) (role : UserRole) (db : Db) (e : Event)
    (found : find_first (alive event_id) db.events ≡ some e)
    (allowed : editable event_id owner_id role e ≡ true) where
  found_editable : find_first (editable event_id owner_id role) db.events ≡ some e
  found_editable = find_first_narrow _ _ db.events (λ b h. ground arith) found allowed

  -- The live event of the id after the handler.
  abbrev event_after {ℓ} : {A : Type ℓ} → A × Db → Option Event
  event_after r = find_first (alive event_id) r.1.events

  -- What an editor's publish, unpublish and cancel answer, by the status of the event.
  abbrev pub publish_answer : ℕ → EventStatus → Result Event
  publish_answer now draft = ok (record e { status = published; published_at = some now })
  publish_answer now _ = err (validation event_not_draft)

  abbrev pub unpublish_answer : EventStatus → Result Event
  unpublish_answer published = ok (record e { status = draft })
  unpublish_answer EventStatus.active = ok (record e { status = draft })
  unpublish_answer _ = err (validation event_not_published)

  abbrev pub cancel_answer : EventStatus → Result Event
  cancel_answer draft = err (validation event_cannot_cancel_draft)
  cancel_answer EventStatus.cancelled = err (validation event_already_cancelled)
  cancel_answer _ = ok (record e { status = EventStatus.cancelled })

  -- The row after an answer: as it was returned, or as it was.
  abbrev pub row_after : Result Event → Event
  row_after (ok changed) = changed
  row_after (err fault) = e

  publish_outcome :
      (now : ℕ)
      → let r = publish_event alone now event_id owner_id role db in
        (r.0 ≡ publish_answer now e.status)
        × (event_after r ≡ some (row_after (publish_answer now e.status)))
  unfolding publish_event require_editable get_event find_event update_events write_audit_log ◌>>◌
  publish_outcome now = ground (
    arith,
    found,
    found_editable,
    count-pos (publishable event_id owner_id role) db.events {a = e},
    find_first_narrow (alive event_id) (publishable event_id owner_id role) db.events {a = e}
        (λ b h. ground arith),
    find_first-update_many (alive event_id) (publishable event_id owner_id role) (publish now)
        db.events (λ a h. refl),
  )

  unpublish_outcome :
      let r = unpublish_event alone event_id owner_id role db in
      (r.0 ≡ unpublish_answer e.status)
      × (event_after r ≡ some (row_after (unpublish_answer e.status)))
  unfolding unpublish_event require_editable get_event find_event update_events write_audit_log ◌>>◌
  unpublish_outcome = ground (
    arith,
    found,
    found_editable,
    count-pos (unpublishable event_id owner_id role) db.events {a = e},
    find_first_narrow (alive event_id) (unpublishable event_id owner_id role) db.events {a = e}
        (λ b h. ground arith),
    find_first-update_many (alive event_id) (unpublishable event_id owner_id role) unpublish
        db.events (λ a h. refl),
  )

  cancel_outcome :
      let r = cancel_event alone event_id owner_id role db in
      (r.0 ≡ cancel_answer e.status) × (event_after r ≡ some (row_after (cancel_answer e.status)))
  unfolding cancel_event require_editable get_event find_event update_events write_audit_log ◌>>◌
  cancel_outcome = ground (
    arith,
    found,
    found_editable,
    count-pos (cancellable event_id owner_id role) db.events {a = e},
    find_first_narrow (alive event_id) (cancellable event_id owner_id role) db.events {a = e}
        (λ b h. ground arith),
    find_first-update_many (alive event_id) (cancellable event_id owner_id role) cancel db.events
        (λ a h. refl),
  )

  -- When no other request comes between, a caller who may edit the live event publishes exactly a
  -- draft, which is then published at that time; unpublishes exactly a published or active event,
  -- which is then a draft with its slug kept; and cancels a published, active or completed event,
  -- which is then cancelled, where a draft and a cancelled event are refused with a message each.
  -- From every other status each of the three is refused, and the event stays as it was.
  pub status_outcomes :
      (now : ℕ)
      → let p = publish_event alone now event_id owner_id role db in
        let u = unpublish_event alone event_id owner_id role db in
        let c = cancel_event alone event_id owner_id role db in
        ((p.0 ≡ publish_answer now e.status)
          × (event_after p ≡ some (row_after (publish_answer now e.status))))
        × ((u.0 ≡ unpublish_answer e.status)
            × (event_after u ≡ some (row_after (unpublish_answer e.status))))
        × ((c.0 ≡ cancel_answer e.status)
            × (event_after c ≡ some (row_after (cancel_answer e.status))))
  status_outcomes now = (publish_outcome now, unpublish_outcome, cancel_outcome)
