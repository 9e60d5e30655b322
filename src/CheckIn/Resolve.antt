-- ===== src/CheckIn/Resolve.antt =====
-- modules/checkins/checkins.service.js: `resolveCheckIn`.
use qpass_backend.Prelude.{
  ℕ, suc, zero, String, Bool, ◌&&◌, Option, none, some, [], ◌∷◌, ◌++◌, ◌==◌, is_none, is_some,
  if◌then◌else◌,
}
use qpass_backend.Prelude.Tables.{find_first, update_many}
use qpass_backend.Fault.{
  Message, unique_violation, record_missing, checkin_duplicate, checkin_success,
}
use qpass_backend.Db.{
  CheckIn, CheckInResult, valid, duplicate, Registration, QrToken, ℤ, pos, negsuc, M, ◌>>=◌, ◌>>◌,
  pure, throw_if, or_throw, gets, modify, transaction, write_audit_log,
}

-- The response of a scan: { result, message, attendeeName?, checkinId? }.
pub record ScanResult : Type 0 where
  pub result : CheckInResult
  pub message : Message
  pub attendee_name : Option String
  pub checkin_id : Option String

-- A scan result with the attendee's name that goes to the sockets.
pub record Resolved : Type 0 where
  pub attendee_name : Option String
  pub scan_result : ScanResult

-- What the request finds outside the database: the clock, the id of the next row, and whether
-- Redis and Socket.IO answer.
pub record Context : Type 0 where
  pub now : ℕ
  pub new_id : String
  pub redis_up : Bool
  pub io_up : Bool

-- { increment: 1 }, { decrement: 1 }
unfoldable pub increment : ℤ → ℤ
increment (pos n) = pos (suc n)
increment (negsuc zero) = pos 0
increment (negsuc (suc n)) = negsuc n

unfoldable pub decrement : ℤ → ℤ
decrement (pos (suc n)) = pos n
decrement (pos zero) = negsuc 0
decrement (negsuc n) = negsuc (suc n)

-- where: { eventId_registrationId: { eventId, registrationId } }
abbrev pub of_pair : String → String → CheckIn → Bool
of_pair event_id registration_id c =
    (c.event_id == event_id) && (c.registration_id == registration_id)

abbrev pub is_registration : String → Registration → Bool
is_registration id r = r.id == id

abbrev pub is_check_in : String → CheckIn → Bool
is_check_in id c = c.id == id

abbrev pub is_qr_token : String → QrToken → Bool
is_qr_token id t = t.id == id

abbrev attendee_of : Option Registration → Option String
attendee_of none = none
attendee_of (some r) = some r.attendee_name

-- The QR token of a check-in that came from a scan is used up.
abbrev pub use_up : ℕ → QrToken → QrToken
use_up now t = record t { scan_count = increment t.scan_count; revoked_at = some now }

-- if (qrTokenId) await tx.qrToken.update(...)
unfoldable pub revoke_token : ℕ → Option String → M (Unit {0})
revoke_token now none = pure tt
revoke_token now (some id) = do
  token ← gets (λ db. find_first (is_qr_token id) db.qr_tokens)
  throw_if (is_none token) record_missing
  modify (λ db. record db { qr_tokens = update_many (is_qr_token id) (use_up now) db.qr_tokens })

-- Prisma leaves a column alone whose value is undefined.
abbrev given {ℓ} : {A : Type ℓ} → Option A → Option A → Option A
given none old = old
given (some new) old = some new

abbrev pub restore : Context → String → Option String → CheckIn → CheckIn
restore ctx staff_id device_info c = record c {
  deleted_at = none;
  staff_id = staff_id;
  result = valid;
  scanned_at = ctx.now;
  device_info = given device_info c.device_info;
}

-- The transaction that restores an undone check-in.
unfoldable pub restore_check_in :
    Context → CheckIn → String → Option String → Option String → M Registration
unfolding ◌>>=◌
restore_check_in ctx existing staff_id device_info qr_token_id = transaction (do
  modify (λ db. record db {
    check_ins =
        update_many (is_check_in existing.id) (restore ctx staff_id device_info) db.check_ins;
  })
  found ← gets (λ db. find_first (is_registration existing.registration_id) db.registrations)
  registration ← or_throw found record_missing
  revoke_token ctx.now qr_token_id
  write_audit_log (some staff_id) "CHECKIN_VALID" "CheckIn" existing.id
  pure registration)

abbrev pub new_check_in : Context → String → String → String → Option String → CheckIn
new_check_in ctx event_id registration_id staff_id device_info = record {
  id = ctx.new_id;
  event_id = event_id;
  registration_id = registration_id;
  staff_id = staff_id;
  scanned_at = ctx.now;
  result = valid;
  device_info = device_info;
  deleted_at = none;
}

-- The transaction that creates a check-in.
unfoldable pub create_check_in :
    Context → String → String → String → Option String → Option String → M Registration
create_check_in ctx event_id registration_id staff_id device_info qr_token_id = transaction (do
  clash ← gets (λ db. find_first (of_pair event_id registration_id) db.check_ins)
  throw_if (is_some clash) unique_violation
  modify (λ db. record db {
    check_ins = db.check_ins ++ new_check_in ctx event_id registration_id staff_id device_info ∷ [];
  })
  found ← gets (λ db. find_first (is_registration registration_id) db.registrations)
  registration ← or_throw found record_missing
  revoke_token ctx.now qr_token_id
  write_audit_log (some staff_id) "CHECKIN_VALID" "CheckIn" ctx.new_id
  pure registration)

abbrev pub admitted : String → String → Resolved
admitted attendee_name checkin_id = record {
  attendee_name = some attendee_name;
  scan_result = record {
    result = valid;
    message = checkin_success;
    attendee_name = some attendee_name;
    checkin_id = some checkin_id;
  };
}

-- A check-in that is already active: the attempt goes to the audit log.
unfoldable pub refuse_duplicate : CheckIn → String → M Resolved
refuse_duplicate existing staff_id = do
  write_audit_log (some staff_id) "DUPLICATE_SCAN" "CheckIn" existing.id
  registration ← gets (λ db. find_first (is_registration existing.registration_id) db.registrations)
  pure (record {
    attendee_name = attendee_of registration;
    scan_result = record {
      result = duplicate;
      message = checkin_duplicate;
      attendee_name = none;
      checkin_id = none;
    };
  })

abbrev resolve_existing :
    Context → String → String → String → Option String → Option String → Option CheckIn → M Resolved
resolve_existing ctx event_id registration_id staff_id device_info qr_token_id (some existing) =
    if is_none existing.deleted_at then refuse_duplicate existing staff_id else do
      registration ← restore_check_in ctx existing staff_id device_info qr_token_id
      pure (admitted registration.attendee_name existing.id)
resolve_existing ctx event_id registration_id staff_id device_info qr_token_id none = do
  registration ← create_check_in ctx event_id registration_id staff_id device_info qr_token_id
  pure (admitted registration.attendee_name ctx.new_id)

unfoldable pub resolve_check_in :
    Context → String → String → String → Option String → Option String → M Resolved
resolve_check_in ctx event_id registration_id staff_id device_info qr_token_id = do
  existing ← gets (λ db. find_first (of_pair event_id registration_id) db.check_ins)
  resolve_existing ctx event_id registration_id staff_id device_info qr_token_id existing
