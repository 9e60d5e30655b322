-- ===== src/Import/Resolve.antt =====
-- modules/registrations/import.service.js: the entries of `processImportFile` that are registered
-- already, and the ticket types that the others name.
use qpass_backend.Prelude.{
  ℕ, ◌+◌, String, Bool, ◌&&◌, Option, none, some, List, [], ◌∷◌, ◌==◌, if◌then◌else◌, map, leb,
}
use qpass_backend.Prelude.Tables.{find_many}
use qpass_backend.Db.{
  Registration, TicketType, RowError, Problem, already_registered, invalid_ticket_type,
  ticket_type_full,
}
use qpass_backend.Text.{trim, to_lower_case}
use qpass_backend.Import.Validate.{Entry, Validation, valid, refused, has, push}

-- where: { eventId, attendeeEmail: { in: emails } }
abbrev pub registered : String → List String → Registration → Bool
registered event_id emails r = (r.event_id == event_id) && has r.attendee_email emails

-- existingEmailSet
abbrev pub existing_emails : String → List Entry → List Registration → List String
existing_emails event_id entries regs =
    map (λ (r : Registration). r.attendee_email)
      (find_many (registered event_id (map (λ (e : Entry). e.email) entries)) regs)

abbrev pub not_created : Entry → Problem → Validation
not_created e p = refused e.row (some e.email) p

abbrev pub check_existing : List String → Entry → Validation
check_existing existing e =
    if has e.email existing then not_created e already_registered else valid e

-- The entries that are left, and the errors of the others.
unfoldable pub drop_existing : List String → List Entry → List Entry × List RowError
drop_existing existing [] = ([], [])
drop_existing existing (e ∷ es) = push (check_existing existing e) (drop_existing existing es)

-- claimsByTicketType
abbrev pub Claims : Type 0
Claims = List (String × ℕ)

-- Map.prototype.get
unfoldable pub map_get : String → Claims → Option ℕ
map_get key [] = none
map_get key ((k, v) ∷ m) = if k == key then some v else map_get key m

-- Map.prototype.set
unfoldable pub map_set : String → ℕ → Claims → Claims
map_set key n [] = (key, n) ∷ []
map_set key n ((k, v) ∷ m) = if k == key then (k, n) ∷ m else (k, v) ∷ map_set key n m

-- The entry of a Map that is built from rows: the last row of a key.
unfoldable pub find_last : (TicketType → Bool) → List TicketType → Option TicketType
find_last p [] = none
find_last p (t ∷ ts) = elim (find_last p ts) [
  | some u ↦ some u
  | none ↦ if p t then some t else none
]

abbrev pub by_id : String → TicketType → Bool
by_id key t = to_lower_case t.id == key

abbrev pub by_name : String → TicketType → Bool
by_name key t = to_lower_case t.name == key

-- validTtById.get(key) || validTtByName.get(key)
unfoldable pub find_type : String → List TicketType → Option TicketType
find_type key types = elim (find_last (by_id key) types) [
  | some t ↦ some t
  | none ↦ find_last (by_name key) types
]

-- claimsByTicketType.get(tt.id) || 0
abbrev pub claimed : String → Claims → ℕ
claimed id claims = elim (map_get id claims) [ none ↦ 0 | some n ↦ n ]

-- tt.capacity !== null && (tt.quantitySold + claimed) >= tt.capacity
abbrev pub sold_out : TicketType → ℕ → Bool
sold_out t n = elim t.capacity [ none ↦ Bool.false | some limit ↦ leb limit (t.quantity_sold + n) ]

-- The entry with the id of its ticket type, and the claims after it.
unfoldable pub claim_for : Option TicketType → Claims → Entry → Validation × Claims
claim_for none claims e = (not_created e invalid_ticket_type, claims)
claim_for (some t) claims e =
    if sold_out t (claimed t.id claims) then (not_created e ticket_type_full, claims) else (
      valid (record e { ticket_type_id = some t.id }),
      map_set t.id (claimed t.id claims + 1) claims,
    )

unfoldable pub resolve_entry : List TicketType → Claims → Entry → Validation × Claims
resolve_entry types claims e = elim e.ticket_type_id [
  | none ↦ (valid e, claims)
  | some raw ↦ claim_for (find_type (to_lower_case (trim raw)) types) claims e
]

-- where: { eventId, active: true }
abbrev pub active_type : String → TicketType → Bool
active_type event_id t = (t.event_id == event_id) && t.active

-- The loop, which lets every entry through where none names a ticket type: the `if` around it saves
-- a query.
unfoldable pub resolve_entries :
    List TicketType → Claims → List Entry → (List Entry × List RowError) × Claims
resolve_entries types claims [] = (([], []), claims)
resolve_entries types claims (e ∷ es) =
    let p = resolve_entry types claims e in
    let rest = resolve_entries types p.1 es in (push p.0 rest.0, rest.1)
