-- ===== src/Tickets/Visibility.antt =====
-- modules/tickets/tickets.service.js: who is shown a ticket, and who its token.
use qpass_backend.Prelude.{
  ℕ, String, ◌≡◌, Bool, true, not, ◌&&◌, ◌||◌, Option, none, some, arith, if◌then◌else◌,
}
use qpass_backend.Prelude.Tables.{find_first}
use qpass_backend.Fault.{forbidden, event_unauthorized}
use qpass_backend.Db.{Db, UserRole, Registration, M, Result, ok, err, ◌>>◌}
use qpass_backend.Db.Users.{is_user}
use qpass_backend.Event.Handlers.{Interleaving, is_admin}
use qpass_backend.Qr.{Crypto, Draw, token_of}
use qpass_backend.Registration.Lists.{is_id, get_registration_by_id}
use qpass_backend.CheckIn.Gate.{on_staff}
use qpass_backend.Tickets.Types.{is_event, owned}
use qpass_backend.Tickets.View.{is_holder, viewing, recover_if, get_ticket_details}

module _ (crypto : Crypto) (env : Interleaving) (draw : Draw) (now : ℕ) (id user_id : String)
    (role : UserRole) (r : Registration) (db : Db)
    (found : find_first (is_id id) db.registrations ≡ some r) where
  abbrev pub manages : Bool
  manages = owned (find_first (is_event r.event_id) db.events) user_id || is_admin role

  abbrev pub holds_ticket : Bool
  holds_ticket = is_holder (find_first (is_user user_id) db.users) r

  -- What the token's row gives to those who may see the token.
  abbrev pub recovered : M (Option String)
  recovered =
      recover_if crypto env draw now (find_first (is_event r.event_id) db.events) true
        (find_first (token_of r.id) db.qr_tokens)

  abbrev pub with_token : Result (Option String) × Db → Result (Registration × Option String) × Db
  with_token (ok raw, d) = (ok (r, raw), d)
  with_token (err e, d) = (err e, d)

  -- The owner of the event, an admin, and the holder of the ticket get it with its token; active staff
  -- of the event get it without the token, even where they hold it, and all others are refused with
  -- 403. Only those who get the token can cause a write.
  pub get_ticket_details-visible : get_ticket_details crypto env draw now id user_id role db ≡ (
      if manages || (holds_ticket && not (on_staff r.event_id user_id db))
      then with_token (recovered db)
      else if on_staff r.event_id user_id db
      then (ok (r, none), db)
      else (err (forbidden event_unauthorized), db))
  unfolding get_ticket_details get_registration_by_id viewing recover_if ◌>>◌
  get_ticket_details-visible = ground (arith, found)
