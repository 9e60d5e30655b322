-- ===== src/Import/Create.antt =====
-- modules/registrations/import.service.js: what `processImportFile` writes for one entry, and for the
-- entries of one transaction. A statement that fails leaves the ones after it to run, as the `catch`
-- blocks inside the transaction expect.
use qpass_backend.Prelude.{
  ℕ, zero, suc, ◌+◌, ◌-◌, String, Bool, true, false, ◌&&◌, ◌||◌, Option, none, some, List, [], ◌∷◌,
  ◌==◌, is_none, is_some, if◌then◌else◌, eqb, ltb,
}
use qpass_backend.Prelude.Tables.{find_first, count, update_many, delete_many}
use qpass_backend.Fault.{plain, unique_violation, import_ticket_type_full}
use qpass_backend.Db.{
  Db, Event, TicketType, TicketCode, TicketCodeStatus, Registration, RegistrationStatus,
  RegistrationSource, PaymentStatus, QrToken, pos, RowError, statement_failed, M, Result, ok, err,
  ◌>>=◌, ◌>>◌, pure, throw, throw_if, gets, modify, attempt,
}
use qpass_backend.Qr.{Crypto, Draw, hours_ms, insert_token}
use qpass_backend.Tickets.Types.{is_ticket_type}
use qpass_backend.Registration.Create.{sell, insert_ticket_code, insert_registration}
use qpass_backend.Import.Validate.{Entry}
use qpass_backend.Import.Resolve.{Claims, map_get}

-- The random values and the new ids of one entry; those of a ticket code are of one attempt each.
pub record RowDraw : Type 0 where
  pub ticket_code_id : ℕ → String
  pub ticket_code : ℕ → String
  pub registration_id : String
  pub draw : Draw

-- ttId && claimsByTicketType.has(ttId)
abbrev pub has_claim : Claims → Option String → Bool
has_claim claims none = false
has_claim claims (some id) = is_some (map_get id claims)

abbrev pub type_id : Option String → String
type_id none = ""
type_id (some id) = id

abbrev pub type_of_entry : Claims → Option String → List TicketType → Option TicketType
type_of_entry claims o types =
    if has_claim claims o then find_first (is_ticket_type (type_id o)) types else none

-- capacity: null, or else OR: [{ capacity: null }, { quantitySold: { lt: tt.capacity } }]
abbrev pub has_room : Option ℕ → TicketType → Bool
has_room none t = is_none t.capacity
has_room (some limit) t = is_none t.capacity || ltb t.quantity_sold limit

abbrev pub claimable : TicketType → TicketType → Bool
claimable seen t = is_ticket_type seen.id t && has_room seen.capacity t

unfoldable pub claim_type : Option TicketType → M (Unit {0})
claim_type none = pure tt
claim_type (some seen) = do
  n ← gets (λ db. count (claimable seen) db.ticket_types)
  modify (λ db. record db { ticket_types = update_many (claimable seen) sell db.ticket_types })
  throw_if (eqb n 0) (plain import_ticket_type_full)

-- quantitySold: { decrement: 1 }, of a row whose quantity was incremented before
abbrev pub unsell : TicketType → TicketType
unsell t = record t { quantity_sold = t.quantity_sold - 1 }

unfoldable pub undo_claim : Option TicketType → Db → Db
undo_claim none db = db
undo_claim (some seen) db = record db {
  ticket_types = update_many (is_ticket_type seen.id) unsell db.ticket_types;
}

abbrev pub uses_code : String → Registration → Bool
uses_code id r = r.ticket_code_id == id

abbrev pub is_code : String → TicketCode → Bool
is_code id c = c.id == id

-- tx.ticketCode.delete(...).catch(() => {}): a registration that refers to the row holds it.
unfoldable pub undo_code : String → Db → Db
undo_code id db =
    if is_some (find_first (uses_code id) db.registrations)
    then db
    else record db { ticket_codes = delete_many (is_code id) db.ticket_codes }

-- The part of the `catch` that belongs to a throw of `m`.
unfoldable pub on_error : {A : Type 0} → (Db → Db) → M A → M A
on_error undo m db = ((m db).0, elim (m db).0 [ ok a ↦ (m db).1 | err e ↦ undo (m db).1 ])

abbrev pub new_code : Event → Entry → RowDraw → ℕ → TicketCode
new_code event e d k = record {
  id = d.ticket_code_id k;
  event_id = event.id;
  code = d.ticket_code k;
  status = TicketCodeStatus.used;
  attendee_email = some e.email;
  attendee_name = some e.name;
}

-- `left` further attempts after the one with the number `k`: the id of the row that is created.
unfoldable pub again : Result (Unit {0}) → String → M String → M String
again (ok u) id rest = pure id
again (err unique_violation) id rest = rest
again (err e) id rest = throw e

unfoldable pub create_code : Event → Entry → RowDraw → ℕ → ℕ → M String
create_code event e d zero k =
    insert_ticket_code (new_code event e d k) >> pure (d.ticket_code_id k)
create_code event e d (suc left) k = do
  r ← attempt (insert_ticket_code (new_code event e d k))
  again r (d.ticket_code_id k) (create_code event e d left (k + 1))

abbrev pub imported : ℕ → Event → Entry → RowDraw → String → Registration
imported now event e d code_id = record {
  id = d.registration_id;
  event_id = event.id;
  ticket_code_id = code_id;
  attendee_email = e.email;
  attendee_name = e.name;
  phone = e.phone;
  ticket_type_id = e.ticket_type_id;
  payment_status = PaymentStatus.pending;
  source = RegistrationSource.imported;
  confirmation_code = none;
  qr_issued = true;
  qr_issued_at = some now;
  status = RegistrationStatus.confirmed;
}

module _ (crypto : Crypto) (now : ℕ) (event : Event) (claims : Claims) where
  abbrev pub imported_token : RowDraw → QrToken
  imported_token d = record {
    id = d.draw.new_id;
    registration_id = d.registration_id;
    token_hash = crypto.hash_token d.draw.raw_token;
    token_cipher = none;
    expires_at = event.end_time + hours_ms 24;
    revoked_at = none;
    scan_count = pos 0;
  }

  unfoldable pub register_row : Entry → RowDraw → String → M Registration
  register_row e d code_id = do
    r ← insert_registration (imported now event e d code_id)
    insert_token (imported_token d)
    pure r

  -- The inner `try`, whose `catch` takes back what was claimed and created before the throw.
  unfoldable pub write_row : Option TicketType → Entry → RowDraw → M Registration
  write_row t e d = do
    claim_type t
    code_id ← on_error (undo_claim t) (create_code event e d 2 0)
    on_error (λ db. undo_code code_id (undo_claim t db)) (register_row e d code_id)

  -- batchAttendees, and the errors that are pushed
  abbrev pub collect :
      Result Registration
      → Entry
      → List Registration × List RowError
      → List Registration × List RowError
  collect (ok r) e (done, errors) = (r ∷ done, errors)
  collect (err x) e (done, errors) =
      (done, record { row = e.row; email = some e.email; error = statement_failed x } ∷ errors)

  -- The callback of the transaction. `draws k` belongs to the k-th entry of the import.
  unfoldable pub write_rows : (ℕ → RowDraw) → ℕ → List Entry → M (List Registration × List RowError)
  write_rows draws k [] = pure ([], [])
  write_rows draws k (e ∷ es) = do
    t ← gets (λ db. type_of_entry claims e.ticket_type_id db.ticket_types)
    r ← attempt (write_row t e (draws k))
    rest ← write_rows draws (k + 1) es
    pure (collect r e rest)
