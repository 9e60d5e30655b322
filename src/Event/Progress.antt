-- ===== src/Event/Progress.antt =====
-- modules/events/event.service.js: `createEvent` returns an event where a slug is free.
use qpass_backend.Prelude.{
  ℕ, zero, suc, ◌+◌, ◌<◌, ◌≤◌, String, ◌≡◌, ◌≢◌, refl, Bool, true, ◌==◌, none, List, [], ◌∷◌, arith,
  All, is_none, inl, inr, Option-cases,
}
use qpass_backend.Prelude.Tables.{find_first}
use qpass_backend.Text.Slug.{generate_slug}
use qpass_backend.Db.{Db, Event, ok, ◌>>◌, write_audit_log}
use qpass_backend.Event.Handlers.{find_event}
use qpass_backend.Event.Create.{
  NewEvent, has_live_slug, unique_slug_from, clashes, insert_event, new_event, try_create, retried,
  create_from, create_event,
}

-- A row with the id, and a row with the slug: no row with either.
unclashed :
    (new : Event) (es : List Event)
    → All (λ (e : Event). is_none e.deleted_at ≡ true) es
    → find_first (λ e. e.id == new.id) es ≡ none
    → find_first (has_live_slug new.slug) es ≡ none
    → find_first (clashes new) es ≡ none
unfolding find_first
unclashed new [] a i s = refl
unclashed new (e ∷ es) (a, others) i s = ground (arith, a, i, s, unclashed new es others)

module _ (title : String) (suffix : ℕ → String) (db : Db) where
  abbrev pub is_free : ℕ → Bool
  is_free i = is_none (find_first (has_live_slug (generate_slug title (suffix i))) db.events)

  -- With `left` lookups to go, a free slug among them is found, or one before it.
  finds_slug :
      (left k i : ℕ)
      → k ≤ i
      → i < k + left
      → is_free i ≡ true
      → (s : String) × (unique_slug_from title suffix left k db ≡ (ok s, db))
        × (find_first (has_live_slug s) db.events ≡ none)
  unfolding unique_slug_from find_event ◌>>◌
  finds_slug zero k i h l f = ground (arith, h, l)
  finds_slug (suc left) k i h l f =
      elim (Option-cases (find_first (has_live_slug (generate_slug title (suffix k))) db.events)) [
        | inl e ↦ (generate_slug title (suffix k), rw e refl, e)
        | inr (a, e) ↦
            let past : k ≢ i =
              λ p. let here : is_free k ≡ true = rw p f in ground (arith, e, here) in
            let further : k + 1 ≤ i = omega (arith, h, past) in
            let (s, r, n) = finds_slug left (k + 1) i further (omega (arith, l)) f in (s, rw e r, n)
      ]

-- Where no event is deleted, the new id is unused and one of the ten slugs that the first attempt may
-- draw belongs to no event, the event is created at the first attempt.
pub create_event-succeeds :
    (ids : ℕ → String) (suffix : ℕ → ℕ → String) (event_data : NewEvent) (owner_id : String) (i : ℕ)
    (db : Db)
    → All (λ (e : Event). is_none e.deleted_at ≡ true) db.events
    → find_first (λ e. e.id == ids 0) db.events ≡ none
    → i < 10
    → is_none (find_first (has_live_slug (generate_slug event_data.title (suffix 0 i))) db.events)
      ≡ true
    → (slug : String) × ((create_event ids suffix event_data owner_id db).0
        ≡ ok (new_event (ids 0) event_data slug owner_id))
unfolding create_event create_from try_create retried insert_event write_audit_log ◌>>◌
create_event-succeeds ids suffix event_data owner_id i db live unused few free =
    let (s, r, n) =
      finds_slug event_data.title (suffix 0) db 10 0 i (omega arith) (omega (arith, few)) free in
    let c = unclashed (new_event (ids 0) event_data s owner_id) db.events live unused n in
    (s, ground (arith, r, c))
