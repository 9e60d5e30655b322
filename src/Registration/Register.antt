-- ===== src/Registration/Register.antt =====
-- modules/registrations/registration.service.js: `registerFree` and the functions it calls. The
-- e-mails that it sends are left out.
use qpass_backend.Prelude.{
  ℕ, ◌+◌, String, Bool, true, not, is_none, ◌&&◌, ◌||◌, Option, none, some, ◌∷◌, ◌==◌,
  if◌then◌else◌, ltb,
}
use qpass_backend.Prelude.Tables.{find_first, update_many}
use qpass_backend.Fault.{
  plain, bad_request, conflict, registration_duplicate, validation_name_required,
  validation_invalid_email, ticket_invalid_qr, record_missing,
}
use qpass_backend.Db.{
  Db, Event, Registration, QrToken, M, ◌>>=◌, ◌>>◌, pure, throw, throw_if, or_throw, gets, modify,
  when, registration_new, write_audit_log,
}
use qpass_backend.Text.{trim, is_empty}
use qpass_backend.Text.Email.{is_email, normalize_email, utf16_length, max_email_length}
use qpass_backend.Event.Handlers.{Interleaving}
use qpass_backend.Qr.{Crypto, Draw, token_of, hours_ms, generate_token, recover_raw_token}
use qpass_backend.Registration.Checks.{is_confirmed, find_open_event, assert_capacity, of_attendee}
use qpass_backend.Registration.Create.{Codes, Attendee, create_free_registration}

abbrev pub is_registration : String → Registration → Bool
is_registration id r = r.id == id

abbrev pub mark_issued : ℕ → Registration → Registration
mark_issued now r = record r { qr_issued = true; qr_issued_at = some now }

-- What the request brings besides the database.
pub record Request : Type 0 where
  pub now : ℕ
  pub codes : ℕ → Codes
  pub draw : Draw
  pub io_up : Bool

module _ (crypto : Crypto) where
  -- A token that is stored is recovered; otherwise one is generated.
  unfoldable pub raw_token_for :
      Interleaving → Request → String → Event → Option QrToken → M (Option String)
  raw_token_for env req registration_id event (some t) =
      recover_raw_token crypto env req.draw req.now (some event.end_time) t
  raw_token_for env req registration_id event none = do
    raw ← generate_token crypto req.draw registration_id (event.end_time + hours_ms 24)
    pure (some raw)

  unfoldable pub issue_qr_token : Interleaving → Request → String → Event → M (Option String)
  issue_qr_token env req registration_id event = do
    existing ← gets (λ db. find_first (token_of registration_id) db.qr_tokens)
    raw ← raw_token_for env req registration_id event existing
    row ← gets (λ db. find_first (is_registration registration_id) db.registrations)
    throw_if (is_none row) record_missing
    modify (λ db. record db {
      registrations =
          update_many (is_registration registration_id) (mark_issued req.now) db.registrations;
    })
    pure raw

  -- An image of no token cannot be drawn: `createQrImage` throws.
  unfoldable pub complete_registration :
      Interleaving → Request → Event → Registration → M (Registration × String)
  complete_registration env req event r = do
    raw ← issue_qr_token env req r.id event
    token ← or_throw raw (plain ticket_invalid_qr)
    write_audit_log none "PUBLIC_REGISTRATION" "Registration" r.id
    when req.io_up (
        modify λ db. record db {
          emitted =
              registration_new event.id r.id r.attendee_name r.attendee_email r.ticket_type_id
              ∷ db.emitted;
        })
    pure (mark_issued req.now r, token)

  -- What is done with a registration of the same e-mail.
  unfoldable pub with_existing :
      Interleaving → Request → Event → Attendee → Option Registration → M (Registration × String)
  with_existing env req event a (some r) =
      if is_confirmed r.status && not r.qr_issued
      then complete_registration env req event r
      else throw (conflict registration_duplicate)
  with_existing env req event a none = do
    r ← create_free_registration event a req.codes
    complete_registration env req event r

  -- `between` is what the other requests do between the checks and the creation.
  unfoldable pub register_free :
      Interleaving → (Db → Db) → Request → String → Attendee → M (Registration × String)
  register_free env between req slug given = do
    let name = trim given.name
    let email = normalize_email given.email
    throw_if (is_empty name) (bad_request validation_name_required)
    throw_if (not (is_email email) || ltb max_email_length (utf16_length email))
        (bad_request validation_invalid_email)
    event ← find_open_event req.now slug
    ticket_type ← assert_capacity event given.ticket_type_id
    existing ← gets (λ db. find_first (of_attendee event.id email) db.registrations)
    modify between
    with_existing env req event (record given { name = name; email = email }) existing
