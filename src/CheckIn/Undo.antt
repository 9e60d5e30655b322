-- ===== src/CheckIn/Undo.antt =====
-- modules/checkins/checkins.service.js: `undoCheckin`.
use qpass_backend.Prelude.{
  ℕ, ◌*◌, ◌-◌, String, Bool, not, ◌&&◌, Option, none, some, ◌==◌, is_none, is_some, if◌then◌else◌,
  ltb, eqb,
}
use qpass_backend.Prelude.Tables.{find_first, count, update_many}
use qpass_backend.Fault.{
  not_found, forbidden, bad_request, record_missing, checkin_not_found, event_not_found,
  checkin_undo_not_authorized, checkin_undo_window_expired,
}
use qpass_backend.Db.{
  CheckIn, Registration, RegistrationStatus, QrToken, M, ◌>>=◌, ◌>>◌, pure, throw_if, or_throw,
  gets, modify, transaction, write_audit_log,
}
use qpass_backend.Event.Handlers.{Interleaving, alive, find_event}
use qpass_backend.CheckIn.Resolve.{decrement, is_check_in, is_registration, is_qr_token}

abbrev pub hours_24_ms : ℕ
hours_24_ms = 24 * 60 * 60 * 1000

-- where: { id: checkInId, deletedAt: null }
abbrev pub active_check_in : String → CheckIn → Bool
active_check_in id c = is_check_in id c && is_none c.deleted_at

-- where: { registrationId }
abbrev pub token_of : String → QrToken → Bool
token_of registration_id t = t.registration_id == registration_id

abbrev pub give_back : QrToken → QrToken
give_back t = record t { revoked_at = none; scan_count = decrement t.scan_count }

abbrev pub confirm : Registration → Registration
confirm r = record r { status = RegistrationStatus.confirmed }

-- if (qrToken?.revokedAt) await tx.qrToken.update(...)
unfoldable pub reverse_token : Option QrToken → M (Unit {0})
reverse_token none = pure tt
reverse_token (some t) =
    if is_none t.revoked_at
    then pure tt
    else modify
        (λ db. record db { qr_tokens = update_many (is_qr_token t.id) give_back db.qr_tokens })

-- The transaction.
unfoldable pub undo_writes : ℕ → String → String → CheckIn → M (Unit {0})
undo_writes now check_in_id staff_id c = transaction (do
  n ← gets (λ db. count (active_check_in check_in_id) db.check_ins)
  modify (λ db. record db {
    check_ins =
        update_many (active_check_in check_in_id) (λ x. record x { deleted_at = some now })
          db.check_ins;
  })
  throw_if (eqb n 0) (not_found checkin_not_found)
  write_audit_log (some staff_id) "UNDO_CHECKIN" "CheckIn" check_in_id
  r ← gets (λ db. find_first (is_registration c.registration_id) db.registrations)
  throw_if (is_none r) record_missing
  modify (λ db. record db {
    registrations = update_many (is_registration c.registration_id) confirm db.registrations;
  })
  t ← gets (λ db. find_first (token_of c.registration_id) db.qr_tokens)
  reverse_token t)

-- `env.before_write` is what other requests do between the checks and the transaction.
unfoldable pub undo_check_in : Interleaving → ℕ → String → String → String → M (Unit {0})
undo_check_in env now event_id check_in_id staff_id = do
  found ← gets (λ db. find_first (is_check_in check_in_id) db.check_ins)
  c ← or_throw found (not_found checkin_not_found)
  throw_if (not (c.event_id == event_id)) (not_found checkin_not_found)
  throw_if (is_some c.deleted_at) (not_found checkin_not_found)
  event ← find_event (alive event_id)
  e ← or_throw event (not_found event_not_found)
  throw_if (not (e.owner_id == staff_id) && not (c.staff_id == staff_id))
      (forbidden checkin_undo_not_authorized)
  throw_if (ltb hours_24_ms (now - c.scanned_at)) (bad_request checkin_undo_window_expired)
  modify env.before_write
  undo_writes now check_in_id staff_id c
