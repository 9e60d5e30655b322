-- ===== src/Tickets/Types.antt =====
-- modules/tickets/tickets.service.js: the handlers of ticket types. The description of a ticket
-- type, which no service reads, is left out.
use qpass_backend.Prelude.{
  ℕ, zero, suc, ◌+◌, String, Bool, true, false, not, ◌&&◌, ◌||◌, Option, none, some, List, [], ◌∷◌,
  ◌++◌, ◌==◌, is_some, is_none, if◌then◌else◌, eqb, leb,
}
use qpass_backend.Prelude.Tables.{find_first, find_many, update_many, delete_many}
use qpass_backend.Fault.{
  not_found, conflict, forbidden, unique_violation, foreign_key_violation, record_missing,
  event_not_found, event_unauthorized, general_not_found, ticket_type_has_registrations,
}
use qpass_backend.Db.{
  Db, UserRole, Event, TicketType, Registration, M, Result, ok, err, ◌>>=◌, ◌>>◌, pure, throw,
  throw_if, or_throw, gets, modify, attempt, from_result, write_audit_log,
}
use qpass_backend.Event.Handlers.{Interleaving, is_admin, given, given?}

-- where: { id: eventId }
abbrev pub is_event : String → Event → Bool
is_event id e = e.id == id

abbrev pub is_dead : Option Event → Bool
is_dead none = true
is_dead (some e) = is_some e.deleted_at

abbrev pub owned : Option Event → String → Bool
owned none user_id = false
owned (some e) user_id = e.owner_id == user_id

unfoldable pub check_event_ownership : String → String → UserRole → M (Unit {0})
check_event_ownership event_id user_id role = do
  event ← gets (λ db. find_first (is_event event_id) db.events)
  throw_if (is_dead event) (not_found event_not_found)
  throw_if (not (owned event user_id) && not (is_admin role)) (forbidden event_unauthorized)

abbrev pub of_event : String → TicketType → Bool
of_event event_id t = t.event_id == event_id

abbrev pub is_ticket_type : String → TicketType → Bool
is_ticket_type id t = t.id == id

abbrev pub max : ℕ → ℕ → ℕ
max m n = if leb m n then n else m

-- (maxSortOrder._max.sortOrder ?? -1) + 1, over the ticket types of the event
unfoldable pub next_sort_order : String → List TicketType → ℕ
next_sort_order event_id [] = 0
next_sort_order event_id (t ∷ ts) =
    let rest = next_sort_order event_id ts in
    if of_event event_id t then max (t.sort_order + 1) rest else rest

-- What createTicketTypeSchema lets through.
pub record NewTicketType : Type 0 where
  pub name : String
  pub price : ℕ
  pub capacity : Option ℕ

abbrev pub new_ticket_type : String → String → NewTicketType → ℕ → TicketType
new_ticket_type id event_id data_ sort_order = record {
  id = id;
  event_id = event_id;
  name = data_.name;
  price = data_.price;
  capacity = data_.capacity;
  quantity_sold = 0;
  active = true;
  sort_order = sort_order;
}

-- The unique columns of the table: the id, and the pair of event and sort order.
abbrev pub clashes : TicketType → TicketType → Bool
clashes new t = (t.id == new.id) || (of_event new.event_id t && eqb t.sort_order new.sort_order)

-- tx.ticketType.create
unfoldable pub insert_ticket_type : TicketType → M TicketType
insert_ticket_type new = do
  clash ← gets (λ db. find_first (clashes new) db.ticket_types)
  throw_if (is_some clash) unique_violation
  modify (λ db. record db { ticket_types = db.ticket_types ++ new ∷ [] })
  pure new

-- The body of the `try`. Its transaction writes one row, so that it has nothing to roll back.
-- `between` is what other requests do after the greatest sort order is read.
unfoldable pub try_create_ticket_type :
    (Db → Db) → String → String → String → NewTicketType → M TicketType
try_create_ticket_type between id event_id user_id data_ = do
  sort_order ← gets (λ db. next_sort_order event_id db.ticket_types)
  modify between
  t ← insert_ticket_type (new_ticket_type id event_id data_ sort_order)
  write_audit_log (some user_id) "TICKET_TYPE_CREATED" "TicketType" t.id
  pure t

-- The `catch`, where attempts are left: `continue` on a unique violation.
unfoldable pub retried : Result TicketType → M TicketType → M TicketType
retried (ok t) again = pure t
retried (err unique_violation) again = again
retried (err e) again = throw e

-- `between k` and `ids k` belong to the k-th attempt.
unfoldable pub attempts :
    (ℕ → Db → Db) → (ℕ → String) → String → String → NewTicketType → ℕ → ℕ → M TicketType
attempts between ids event_id user_id data_ zero k =
    try_create_ticket_type (between k) (ids k) event_id user_id data_
attempts between ids event_id user_id data_ (suc left) k = do
  r ← attempt (try_create_ticket_type (between k) (ids k) event_id user_id data_)
  retried r (attempts between ids event_id user_id data_ left (k + 1))

-- MAX_RETRIES = 3: two attempts that may be repeated, and a last one.
unfoldable pub create_ticket_type :
    (ℕ → Db → Db) → (ℕ → String) → String → String → UserRole → NewTicketType → M TicketType
create_ticket_type between ids event_id user_id role data_ =
    check_event_ownership event_id user_id role >> attempts between ids event_id user_id data_ 2 0

-- The order of the list is left out.
unfoldable pub get_ticket_types : String → String → UserRole → M (List TicketType)
get_ticket_types event_id user_id role = do
  check_event_ownership event_id user_id role
  gets (λ db. find_many (of_event event_id) db.ticket_types)

-- What updateTicketTypeSchema lets through; an absent field is left alone.
pub record TicketTypeData : Type 0 where
  pub name : Option String
  pub price : Option ℕ
  pub capacity : Option ℕ
  pub active : Option Bool

abbrev pub apply_type_data : TicketTypeData → TicketType → TicketType
apply_type_data d t = record t {
  name = given d.name t.name;
  price = given d.price t.price;
  capacity = given? d.capacity t.capacity;
  active = given d.active t.active;
}

-- where: { id: ticketTypeId, eventId }
abbrev pub type_of_event : String → String → TicketType → Bool
type_of_event id event_id t = is_ticket_type id t && of_event event_id t

-- `env.before_write` is what other requests do between the lookup and the update, here and below.
unfoldable pub update_ticket_type :
    Interleaving → String → String → String → UserRole → TicketTypeData → M TicketType
update_ticket_type env event_id id user_id role d = do
  check_event_ownership event_id user_id role
  found ← gets (λ db. find_first (type_of_event id event_id) db.ticket_types)
  throw_if (is_none found) (not_found general_not_found)
  modify env.before_write
  row ← gets (λ db. find_first (is_ticket_type id) db.ticket_types)
  t ← or_throw row record_missing
  modify (λ db. record db {
    ticket_types = update_many (is_ticket_type id) (apply_type_data d) db.ticket_types;
  })
  write_audit_log (some user_id) "TICKET_TYPE_UPDATED" "TicketType" id
  pure (apply_type_data d t)

abbrev pub refers_to : String → Registration → Bool
refers_to id r = elim r.ticket_type_id [ none ↦ false | some t ↦ t == id ]

-- tx.ticketType.delete: a registration that refers to the row holds it (onDelete: Restrict).
unfoldable pub delete_row : String → M (Unit {0})
delete_row id = do
  row ← gets (λ db. find_first (is_ticket_type id) db.ticket_types)
  throw_if (is_none row) record_missing
  held ← gets (λ db. find_first (refers_to id) db.registrations)
  throw_if (is_some held) foreign_key_violation
  modify (λ db. record db { ticket_types = delete_many (is_ticket_type id) db.ticket_types })

-- catch (err) { if (err.code === 'P2003') throw new ConflictError(...); throw err; }
abbrev pub held_error : Result (Unit {0}) → Result (Unit {0})
held_error (ok u) = ok u
held_error (err foreign_key_violation) = err (conflict ticket_type_has_registrations)
held_error (err e) = err e

-- The transaction of deleteTicketType writes one row, so that it has nothing to roll back.
unfoldable pub delete_ticket_type : Interleaving → String → String → String → UserRole → M Bool
delete_ticket_type env event_id id user_id role = do
  check_event_ownership event_id user_id role
  found ← gets (λ db. find_first (type_of_event id event_id) db.ticket_types)
  throw_if (is_none found) (not_found general_not_found)
  modify env.before_write
  r ← attempt (delete_row id)
  u ← from_result (held_error r)
  write_audit_log (some user_id) "TICKET_TYPE_DELETED" "TicketType" id
  pure true
