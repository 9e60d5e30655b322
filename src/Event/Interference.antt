-- ===== src/Event/Interference.antt =====
-- modules/events/event.service.js: the handlers among other requests, whatever these do.
use qpass_backend.Prelude.{ℕ, String, some}
use qpass_backend.Db.{Db, EventStatus, UserRole, modify}
use qpass_backend.Db.Guarantee.{Guarantees, Guarantees-modify, guarantee_rules}
use qpass_backend.Event.Handlers.{
  Interleaving, editable, update_events, get_event, refuse, require_editable, EventData, apply_data,
  update_event, delete_event, publish, publishable, publish_event, unpublish, unpublishable,
  unpublish_event, cancel, cancellable, cancel_event,
}
use qpass_backend.Event.Lifecycle.{
  Move, publishing, unpublishing, unpublishing_active, cancelling, cancelling_active,
  cancelling_completed, Publishing, publishes, Unpublishing, unpublishes, unpublishes_active,
  Cancelling, cancels, cancels_active, cancels_completed, Staying, Evolves,
}
use qpass_backend.Event.Runs.{
  IsEvolving, Runs, theirs_before, theirs_after, here, Runs-IsPreorder, Runs-Evolves,
  find_event-Runs, write_audit_log-Runs, update_events-Runs, Step-publish, Step-unpublish,
  Step-cancel, Step-apply_data, Step-delete,
}

Publishing-Move : (s t : EventStatus) → Publishing s t → Move s t
Publishing-Move s t publishes = publishing

Unpublishing-Move : (s t : EventStatus) → Unpublishing s t → Move s t
Unpublishing-Move s t unpublishes = unpublishing
Unpublishing-Move s t unpublishes_active = unpublishing_active

Cancelling-Move : (s t : EventStatus) → Cancelling s t → Move s t
Cancelling-Move s t cancels = cancelling
Cancelling-Move s t cancels_active = cancelling_active
Cancelling-Move s t cancels_completed = cancelling_completed

Staying-Move : (s t : EventStatus) → Staying s t → Move s t
Staying-Move s t k = elim k [ ]

module _ (event_id owner_id : String) (role : UserRole) (env : Interleaving) where
  module _ (K : EventStatus → EventStatus → Type 0) where
    before_write-Runs : Guarantees (Runs K env) (modify env.before_write)
    before_write-Runs = Guarantees-modify env.before_write (λ db. theirs_before here)

    after_write-Runs : Guarantees (Runs K env) (modify env.after_write)
    after_write-Runs = Guarantees-modify env.after_write (λ db. theirs_after here)

    ruleset run_rules = (
      guarantee_rules, Runs-IsPreorder, write_audit_log-Runs, find_event-Runs, before_write-Runs,
      after_write-Runs,
    )

    get_event-Runs : Guarantees (Runs K env) (get_event event_id owner_id role)
    unfolding get_event
    get_event-Runs = search run_rules

    refuse-Runs : {A : Type 0} → Guarantees (Runs K env) (refuse {A = A} event_id)
    unfolding refuse
    refuse-Runs = search run_rules

    require_editable-Runs : Guarantees (Runs K env) (require_editable event_id owner_id role)
    unfolding require_editable
    require_editable-Runs = search (run_rules, refuse-Runs)

    ruleset handler_rules = (run_rules, get_event-Runs, refuse-Runs, require_editable-Runs)

    -- Each handler runs where its write does.
    publish_event_with :
        (now : ℕ)
        → Guarantees (Runs K env) (update_events (publishable event_id owner_id role) (publish now))
        → Guarantees (Runs K env) (publish_event env now event_id owner_id role)
    unfolding publish_event
    publish_event_with now write = search handler_rules depth 15

    unpublish_event_with :
        Guarantees (Runs K env) (update_events (unpublishable event_id owner_id role) unpublish)
        → Guarantees (Runs K env) (unpublish_event env event_id owner_id role)
    unfolding unpublish_event
    unpublish_event_with write = search handler_rules depth 15

    cancel_event_with :
        Guarantees (Runs K env) (update_events (cancellable event_id owner_id role) cancel)
        → Guarantees (Runs K env) (cancel_event env event_id owner_id role)
    unfolding cancel_event
    cancel_event_with write = search handler_rules depth 15

    update_event_with :
        (d : EventData)
        → Guarantees (Runs K env) (update_events (editable event_id owner_id role) (apply_data d))
        → Guarantees (Runs K env) (update_event env event_id d owner_id role)
    unfolding update_event
    update_event_with d write = search handler_rules depth 15

    delete_event_with :
        (now : ℕ)
        → Guarantees (Runs K env) (
            update_events
              (editable event_id owner_id role)
              (λ e. record e { deleted_at = some now }))
        → Guarantees (Runs K env) (delete_event env now event_id owner_id role)
    unfolding delete_event
    delete_event_with now write = search handler_rules depth 15

  publish_event-Runs :
      (now : ℕ) → Guarantees (Runs Publishing env) (publish_event env now event_id owner_id role)
  publish_event-Runs now =
      publish_event_with Publishing now
        (update_events-Runs Publishing env _ _ (λ e. Step-publish event_id owner_id role e now))

  unpublish_event-Runs :
      Guarantees (Runs Unpublishing env) (unpublish_event env event_id owner_id role)
  unpublish_event-Runs =
      unpublish_event_with Unpublishing
        (update_events-Runs Unpublishing env _ _ (λ e. Step-unpublish event_id owner_id role e))

  cancel_event-Runs : Guarantees (Runs Cancelling env) (cancel_event env event_id owner_id role)
  cancel_event-Runs =
      cancel_event_with Cancelling
        (update_events-Runs Cancelling env _ _ (λ e. Step-cancel event_id owner_id role e))

  update_event-Runs :
      (d : EventData) → Guarantees (Runs Staying env) (update_event env event_id d owner_id role)
  update_event-Runs d =
      update_event_with Staying d
        (update_events-Runs Staying env _ _ (λ e. Step-apply_data event_id owner_id role e d))

  delete_event-Runs :
      (now : ℕ) → Guarantees (Runs Staying env) (delete_event env now event_id owner_id role)
  delete_event-Runs now =
      delete_event_with Staying now
        (update_events-Runs Staying env _ _ (λ e. Step-delete event_id owner_id role e now))

  -- Where the other requests only evolve the events, each of the five handlers, whether it
  -- succeeds or throws, is a run of their changes and of writes of its own, which keep the id,
  -- slug and owner of a row, change no deleted row, and move a status, if at all, from draft to
  -- published when it publishes, from published or active to draft when it unpublishes, from
  -- published, active or completed to cancelled when it cancels, and not at all when it updates or
  -- deletes: so it never cancels a draft, one that another request unpublished meanwhile included.
  -- And the handler only evolves the events too: no row is removed, none loses its id, slug or
  -- owner, statuses move along the allowed transitions only, and a deleted row never changes.
  pub handlers-Evolve :
      (others : IsEvolving env) (now : ℕ) (d : EventData) (db : Db)
      → let p = (publish_event env now event_id owner_id role db).1 in
        let u = (unpublish_event env event_id owner_id role db).1 in
        let c = (cancel_event env event_id owner_id role db).1 in
        let w = (update_event env event_id d owner_id role db).1 in
        let r = (delete_event env now event_id owner_id role db).1 in
        (Runs Publishing env db p
          × Runs Unpublishing env db u
          × Runs Cancelling env db c
          × Runs Staying env db w
          × Runs Staying env db r)
        × (Evolves db p × Evolves db u × Evolves db c × Evolves db w × Evolves db r)
  handlers-Evolve others now d db =
      let p = (publish_event-Runs now).at db in
      let u = unpublish_event-Runs.at db in
      let c = cancel_event-Runs.at db in
      let w = (update_event-Runs d).at db in
      let r = (delete_event-Runs now).at db in
      (
        (p, u, c, w, r),
        (
          Runs-Evolves Publishing env Publishing-Move others p,
          Runs-Evolves Unpublishing env Unpublishing-Move others u,
          Runs-Evolves Cancelling env Cancelling-Move others c,
          Runs-Evolves Staying env Staying-Move others w,
          Runs-Evolves Staying env Staying-Move others r,
        ),
      )
