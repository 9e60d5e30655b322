-- ===== src/Tickets/Order.antt =====
-- modules/tickets/tickets.service.js: what the handlers of ticket types do on each branch, when no
-- other request comes between.
use qpass_backend.Prelude.{
  ℕ, ◌<◌, String, ◌≡◌, refl, true, false, not, ◌&&◌, ◌||◌, none, some, List, [], ◌∷◌, ◌++◌, arith,
  is_some, if◌then◌else◌, All, Bool-cases, inl, inr,
}
use qpass_backend.Prelude.Tables.{
  find_first, find_first-some, find_first-test, find_first-delete_many,
}
use qpass_backend.Fault.{
  Fault, not_found, conflict, forbidden, event_not_found, event_unauthorized,
  ticket_type_has_registrations,
}
use qpass_backend.Db.{Db, UserRole, TicketType, ok, err, ◌>>◌, write_audit_log}
use qpass_backend.Event.Handlers.{alone, is_admin}
use qpass_backend.Tickets.Types.{
  is_event, is_dead, owned, check_event_ownership, of_event, is_ticket_type, next_sort_order,
  NewTicketType, new_ticket_type, clashes, insert_ticket_type, try_create_ticket_type, retried,
  attempts, create_ticket_type, get_ticket_types, TicketTypeData, update_ticket_type, type_of_event,
  refers_to, delete_row, delete_ticket_type,
}

-- The rows of the event that come before `n`.
abbrev pub Before : String → ℕ → TicketType → Type 0
Before event_id n t = of_event event_id t ≡ true → t.sort_order < n

Before-weaken :
    (event_id : String) (m n : ℕ) (ts : List TicketType)
    → ((k : ℕ) → k < m → k < n)
    → All (Before event_id m) ts
    → All (Before event_id n) ts
Before-weaken event_id m n [] h b = tt
Before-weaken event_id m n (t ∷ ts) h b =
    (λ e. h t.sort_order (b.0 e), Before-weaken event_id m n ts h b.1)

All-Before :
    (event_id : String) (ts : List TicketType)
    → All (Before event_id (next_sort_order event_id ts)) ts
unfolding next_sort_order
All-Before event_id [] = tt
All-Before event_id (t ∷ ts) = (
  λ e. ground arith,
  Before-weaken event_id (next_sort_order event_id ts) _ ts (λ k h. ground arith)
      (All-Before event_id ts),
)

unclashed :
    (id event_id : String) (d : NewTicketType) (n : ℕ) (ts : List TicketType)
    → All (Before event_id n) ts
    → find_first (is_ticket_type id) ts ≡ none
    → find_first (clashes (new_ticket_type id event_id d n)) ts ≡ none
unfolding find_first
unclashed id event_id d n [] b h = refl
unclashed id event_id d n (t ∷ ts) b h =
    let head = b.0 in let ih = unclashed id event_id d n ts b.1 in ground (arith, head, ih)

-- With no other request between.
abbrev pub quiet : ℕ → Db → Db
quiet k db = db

module _ (event_id user_id : String) (role : UserRole) (db : Db) where
  module _ (live : is_dead (find_first (is_event event_id) db.events) ≡ false)
      (allowed : (owned (find_first (is_event event_id) db.events) user_id || is_admin role)
        ≡ true) where
    passes : check_event_ownership event_id user_id role db ≡ (ok tt, db)
    unfolding check_event_ownership ◌>>◌
    passes = ground (arith, live, allowed)

    -- When the caller may manage the event, the id that the database draws is unused and no other
    -- request comes between, a new ticket type is created at the first attempt: it is added after the
    -- rows that are there, and each of these that belongs to the event has a smaller sort order.
    pub create_ticket_type-last :
        (ids : ℕ → String) (d : NewTicketType)
        → find_first (is_ticket_type (ids 0)) db.ticket_types ≡ none
        → ((create_ticket_type quiet ids event_id user_id role d db).0
            ≡ ok (new_ticket_type (ids 0) event_id d (next_sort_order event_id db.ticket_types)))
          × ((create_ticket_type quiet ids event_id user_id role d db).1.ticket_types
              ≡ db.ticket_types
                ++ new_ticket_type (ids 0) event_id d (next_sort_order event_id db.ticket_types)
                  ∷ [])
          × All (Before event_id (next_sort_order event_id db.ticket_types)) db.ticket_types
    unfolding create_ticket_type attempts try_create_ticket_type insert_ticket_type retried
        write_audit_log ◌>>◌
    create_ticket_type-last ids d h =
        let n = next_sort_order event_id db.ticket_types in
        let u =
          unclashed (ids 0) event_id d n db.ticket_types (All-Before event_id db.ticket_types) h in
        (ground (arith, passes, u), ground (arith, passes, u), All-Before event_id db.ticket_types)

    -- When no other request comes between, a caller who may manage the event deletes its ticket type
    -- only when no registration refers to it: else the answer is 409 and nothing is written. After a
    -- deletion no row has that id.
    pub delete_ticket_type_outcome :
        (id : String) (t : TicketType)
        → find_first (type_of_event id event_id) db.ticket_types ≡ some t
        → if is_some (find_first (refers_to id) db.registrations)
          then delete_ticket_type alone event_id id user_id role db
            ≡ (err (conflict ticket_type_has_registrations), db)
          else ((delete_ticket_type alone event_id id user_id role db).0 ≡ ok true)
            × ((delete_ticket_type alone event_id id user_id role db).1.registrations
                ≡ db.registrations)
            × (find_first
                  (is_ticket_type id)
                  (delete_ticket_type alone event_id id user_id role db).1.ticket_types
                ≡ none)
    unfolding delete_ticket_type delete_row write_audit_log ◌>>◌
    delete_ticket_type_outcome id t h =
        let s = find_first-some (type_of_event id event_id) (is_ticket_type id) db.ticket_types h in
        let test = find_first-test (type_of_event id event_id) db.ticket_types h in
        let gone = find_first-delete_many (is_ticket_type id) db.ticket_types in
        elim (Bool-cases (is_some (find_first (refers_to id) db.registrations))) [
          | inl e ↦ rw e (ground (arith, passes, s, test, h, e))
          | inr e ↦ rw e (
            ground (arith, passes, s, test, h, e),
            ground (arith, passes, s, test, h, e),
            ground (arith, passes, s, test, h, e, gone),
          )
        ]

  -- The answer to a caller who may not manage the ticket types of the event.
  abbrev pub refusal : Fault
  refusal =
      if is_dead (find_first (is_event event_id) db.events)
      then not_found event_not_found
      else forbidden event_unauthorized

  -- A caller who neither owns the event nor is an admin, or an event that is absent or deleted: each
  -- handler of ticket types, with no other request between, answers 404 where there is no live event
  -- and else 403, and writes nothing.
  pub ticket_type_handlers_refused :
      (is_dead (find_first (is_event event_id) db.events)
          || (not (owned (find_first (is_event event_id) db.events) user_id)
              && not (is_admin role)))
        ≡ true
      → (ids : ℕ → String) (d : NewTicketType) (id : String) (c : TicketTypeData)
      → (create_ticket_type quiet ids event_id user_id role d db ≡ (err refusal, db))
        × (get_ticket_types event_id user_id role db ≡ (err refusal, db))
        × (update_ticket_type alone event_id id user_id role c db ≡ (err refusal, db))
        × (delete_ticket_type alone event_id id user_id role db ≡ (err refusal, db))
  unfolding create_ticket_type get_ticket_types update_ticket_type delete_ticket_type
      check_event_ownership ◌>>◌
  ticket_type_handlers_refused h ids d id c =
      (ground (arith, h), ground (arith, h), ground (arith, h), ground (arith, h))
