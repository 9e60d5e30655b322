-- ===== src/Registration/Capacity.antt =====
-- modules/registrations/registration.service.js: no event and no ticket type is oversold.
use qpass_backend.Prelude.{
  ℕ, ◌+◌, ◌≤◌, String, ◌≡◌, refl, ◌∙◌, true, false, ◌⊎◌, inl, inr, Option, none, some, [], ◌∷◌,
  ◌++◌, arith, ◌==◌, eq_iff, if◌then◌else◌, All, Bool-cases,
}
use qpass_backend.Prelude.Tables.{find_first, count, update_many, count-append, All-update_many}
use qpass_backend.Db.{Db, Event, TicketType, ◌>>◌}
use qpass_backend.Db.Guarantee.{Guarantees, Preserves}
use qpass_backend.Registration.Checks.{attending, is_full}
use qpass_backend.Registration.Create.{
  Codes, Attendee, capacity_of, has_id, sellable, sell, claim_ticket, insert_ticket_code,
  insert_registration, new_registration, registration_writes,
}

abbrev pub Fits : Option ℕ → ℕ → Type 0
Fits none n = Unit
Fits (some limit) n = n ≤ limit

-- The registrations of an event that are not cancelled are at most its capacity, where it has one,
-- and of no ticket type more are sold than its capacity.
pub record IsWithin (db : Db) : Type 0 where
  pub events :
      (id : String) (e : Event)
      → find_first (has_id id) db.events ≡ some e
      → Fits e.capacity (count (attending id) db.registrations)
  pub tickets : All (λ (t : TicketType). Fits t.capacity t.quantity_sold) db.ticket_types

Fits-more : (limit : Option ℕ) (n m : ℕ) → m ≡ n + 1 → is_full limit n ≡ false → Fits limit m
Fits-more none n m e h = tt
Fits-more (some c) n m e h = ground arith

Fits-same : (limit : Option ℕ) (n m : ℕ) → m ≡ n → Fits limit n → Fits limit m
Fits-same limit n m e f = rw e f

claim_ticket-keeps :
    (id : Option String) (db : Db)
    → ((claim_ticket id db).1.registrations ≡ db.registrations)
      × ((claim_ticket id db).1.events ≡ db.events)
unfolding claim_ticket ◌>>◌
claim_ticket-keeps none db = (refl, refl)
claim_ticket-keeps (some id) db = (ground arith, ground arith)

module _ (event : Event) (a : Attendee) (codes : Codes) where
  writes-registrations :
      (db : Db)
      → let d = (registration_writes event a codes db).1 in
        (d.events ≡ db.events)
        × ((d.registrations ≡ db.registrations)
            ⊎ ((d.registrations ≡ db.registrations ++ new_registration event a codes ∷ [])
                × (is_full
                      (capacity_of (find_first (has_id event.id) db.events))
                      (count (attending event.id) db.registrations)
                    ≡ false)))
  unfolding registration_writes insert_ticket_code insert_registration ◌>>◌
  writes-registrations db = (
    ground (arith, claim_ticket-keeps a.ticket_type_id db),
    ground (arith, claim_ticket-keeps a.ticket_type_id db),
  )

  count_new :
      (db : Db) (id : String)
      → count (attending id) (db.registrations ++ new_registration event a codes ∷ [])
        ≡ count (attending id) db.registrations + (if event.id == id then 1 else 0)
  unfolding count
  count_new db id =
      ground
        (arith, count-append (attending id) db.registrations (new_registration event a codes ∷ []))

  -- One more registration fits where the event is not full.
  one_more :
      (db : Db) (id : String) (e : Event)
      → find_first (has_id id) db.events ≡ some e
      → Fits e.capacity (count (attending id) db.registrations)
      → is_full
          (capacity_of (find_first (has_id event.id) db.events))
          (count (attending event.id) db.registrations)
        ≡ false
      → Fits e.capacity
          (count (attending id) (db.registrations ++ new_registration event a codes ∷ []))
  one_more db id e h f room = elim (Bool-cases (event.id == id)) [
    | inl same ↦
        let k : event.id ≡ id = (eq_iff event.id id).0 same in
        let room' : is_full e.capacity (count (attending id) db.registrations) ≡ false =
          rw h at (rw k at room) in
        Fits-more e.capacity _ _ (count_new db id ∙ rw same refl) room'
    | inr other ↦ Fits-same e.capacity _ _ (count_new db id ∙ rw other (omega arith)) f
  ]

  -- The ticket types stay within their capacity.
  sell-Fits :
      (id : String) (t : TicketType)
      → sellable id t ≡ true
      → Fits t.capacity t.quantity_sold
      → Fits (sell t).capacity (sell t).quantity_sold
  sell-Fits id t h f =
      Fits-more t.capacity t.quantity_sold (t.quantity_sold + 1) refl (ground arith)

  claim_ticket-Fits :
      (id : Option String) (db : Db)
      → All (λ (t : TicketType). Fits t.capacity t.quantity_sold) db.ticket_types
      → All
          (λ (t : TicketType). Fits t.capacity t.quantity_sold)
          (claim_ticket id db).1.ticket_types
  unfolding claim_ticket ◌>>◌
  claim_ticket-Fits none db h = h
  claim_ticket-Fits (some id) db h =
      let sold : (claim_ticket (some id) db).1.ticket_types
          ≡ update_many (sellable id) sell db.ticket_types =
        ground arith in
      rw sold (
        All-update_many (λ (t : TicketType). Fits t.capacity t.quantity_sold) (sellable id) sell
          db.ticket_types (sell-Fits id) h)

  writes-ticket_types :
      (db : Db)
      → (registration_writes event a codes db).1.ticket_types ≡ db.ticket_types
        ⊎ ((registration_writes event a codes db).1.ticket_types
            ≡ (claim_ticket a.ticket_type_id db).1.ticket_types)
  unfolding registration_writes insert_ticket_code insert_registration ◌>>◌
  writes-ticket_types db = ground arith

  pub registration_writes-IsWithin :
      Guarantees (Preserves IsWithin) (registration_writes event a codes)
  registration_writes-IsWithin = record {
    at = λ db h. record {
      events = λ id e found.
          let (same, registrations) = writes-registrations db in
          let before = rw same at found in
          elim registrations [
            | inl kept ↦ rw kept (h.events id e before)
            | inr (more, room) ↦ rw more (one_more db id e before (h.events id e before) room)
          ];
      tickets = elim (writes-ticket_types db) [
        | inl same ↦ rw same h.tickets
        | inr sold ↦ rw sold (claim_ticket-Fits a.ticket_type_id db h.tickets)
      ];
    };
  }
