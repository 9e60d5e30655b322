-- ===== src/Tests/Events.antt =====
-- modules/events/event.service.js: the organizer's handlers.
use qpass_backend.Prelude.{◌≡◌, refl, none, some}
use qpass_backend.Prelude.Tables.{find_first}
use qpass_backend.Fault.{
  forbidden, validation, event_unauthorized, event_not_published, event_cannot_cancel_draft,
}
use qpass_backend.Db.{UserRole, published, ok, err}
use qpass_backend.Event.Handlers.{
  alone, alive, EventData, publish_event, unpublish_event, cancel_event, update_event, delete_event,
}
use qpass_backend.Event.Create.{NewEvent, create_event}
use qpass_backend.Event.Guards.{handlers_refused, status_outcomes}
use qpass_backend.Event.Lifecycle.{
  Publishing, Unpublishing, Cancelling, Staying, Evolves, Evolves-IsPreorder,
}
use qpass_backend.Event.Runs.{Runs}
use qpass_backend.Event.Interference.{handlers-Evolve}
use qpass_backend.Event.Slugs.{Created, create_event-Created}
use qpass_backend.Tests.Fixture.{store, plan}

abbrev retitled : EventData
retitled = record {
  title = some "Party";
  description = none;
  venue = none;
  start_time = none;
  end_time = none;
}

-- Someone else's request, which changes nothing that the owner owns.
handlers_refused_example :
    (publish_event alone 300 "e2" "o9" UserRole.organizer store
      ≡ (err (forbidden event_unauthorized), store))
    × (unpublish_event alone "e2" "o9" UserRole.organizer store
        ≡ (err (forbidden event_unauthorized), store))
    × (cancel_event alone "e2" "o9" UserRole.organizer store
        ≡ (err (forbidden event_unauthorized), store))
    × (update_event alone "e2" retitled "o9" UserRole.organizer store
        ≡ (err (forbidden event_unauthorized), store))
    × (delete_event alone 300 "e2" "o9" UserRole.organizer store
        ≡ (err (forbidden event_unauthorized), store))
unfolding find_first
handlers_refused_example = handlers_refused "e2" "o9" UserRole.organizer store refl 300 retitled

-- A draft is published, and nothing else.
status_outcomes_example :
    (((publish_event alone 300 "e2" "o1" UserRole.organizer store).0
        ≡ ok (record plan { status = published; published_at = some 300 }))
      × (find_first
            (alive "e2")
            (publish_event alone 300 "e2" "o1" UserRole.organizer store).1.events
          ≡ some (record plan { status = published; published_at = some 300 })))
    × (((unpublish_event alone "e2" "o1" UserRole.organizer store).0
          ≡ err (validation event_not_published))
        × (find_first
              (alive "e2")
              (unpublish_event alone "e2" "o1" UserRole.organizer store).1.events
            ≡ some plan))
    × (((cancel_event alone "e2" "o1" UserRole.organizer store).0
          ≡ err (validation event_cannot_cancel_draft))
        × (find_first (alive "e2") (cancel_event alone "e2" "o1" UserRole.organizer store).1.events
            ≡ some plan))
unfolding find_first
status_outcomes_example = status_outcomes "e2" "o1" UserRole.organizer store plan refl refl 300

handlers-Evolve_example :
    let p = (publish_event alone 300 "e2" "o1" UserRole.organizer store).1 in
    let u = (unpublish_event alone "e2" "o1" UserRole.organizer store).1 in
    let c = (cancel_event alone "e2" "o1" UserRole.organizer store).1 in
    let w = (update_event alone "e2" retitled "o1" UserRole.organizer store).1 in
    let r = (delete_event alone 300 "e2" "o1" UserRole.organizer store).1 in
    (Runs Publishing alone store p
      × Runs Unpublishing alone store u
      × Runs Cancelling alone store c
      × Runs Staying alone store w
      × Runs Staying alone store r)
    × (Evolves store p × Evolves store u × Evolves store c × Evolves store w × Evolves store r)
handlers-Evolve_example =
    handlers-Evolve "e2" "o1" UserRole.organizer alone
      (record { before = Evolves-IsPreorder.refl_at; after = Evolves-IsPreorder.refl_at }) 300
      retitled store

abbrev party : NewEvent
party = record {
  title = "Launch";
  description = none;
  venue = none;
  start_time = 5000;
  end_time = 6000;
}

create_event-Created_example :
    Created "o1" store (create_event (λ k. "e3") (λ k i. "abcd") party "o1" store)
create_event-Created_example = create_event-Created (λ k. "e3") (λ k i. "abcd") party "o1" store
