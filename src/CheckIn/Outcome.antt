-- ===== src/CheckIn/Outcome.antt =====
-- modules/checkins/checkins.service.js: the three ways of `resolveCheckIn`, with the database that
-- each leaves behind.
use qpass_backend.Prelude.{
  ℕ, String, ◌≡◌, true, false, Option, none, some, List, [], ◌∷◌, ◌++◌, arith, ◌==◌, eq_iff,
  is_none, is_some, and-right,
}
use qpass_backend.Prelude.Tables.{find_first, update_many, find_first-test}
use qpass_backend.Fault.{checkin_duplicate}
use qpass_backend.Db.{
  Db, Registration, QrToken, CheckIn, AuditLog, duplicate, ok, ◌>>◌, write_audit_log,
}
use qpass_backend.CheckIn.Resolve.{
  Context, Resolved, of_pair, is_registration, is_check_in, is_qr_token, use_up, revoke_token,
  restore, restore_check_in, new_check_in, create_check_in, admitted, refuse_duplicate,
  resolve_check_in,
}

-- The token that a check-in uses up is stored.
abbrev pub IsKnown : Option String → Db → Type 0
IsKnown none db = Unit
IsKnown (some id) db = is_some (find_first (is_qr_token id) db.qr_tokens) ≡ true

-- The tokens after a check-in.
abbrev pub spent : ℕ → Option String → List QrToken → List QrToken
spent now none ts = ts
spent now (some id) ts = update_many (is_qr_token id) (use_up now) ts

abbrev pub entry : String → String → String → AuditLog
entry staff_id action id = record {
  actor_id = some staff_id;
  action = action;
  entity = "CheckIn";
  entity_id = id;
}

-- The answer to a second check-in.
abbrev pub refused : String → Resolved
refused attendee_name = record {
  attendee_name = some attendee_name;
  scan_result = record {
    result = duplicate;
    message = checkin_duplicate;
    attendee_name = none;
    checkin_id = none;
  };
}

module _ (ctx : Context) (event_id registration_id staff_id : String) (device_info : Option String)
    (r : Registration) where
  module _ (db : Db)
      (known : find_first (is_registration registration_id) db.registrations ≡ some r) where
    pub resolve_new :
        (token_id : Option String)
        → IsKnown token_id db
        → find_first (of_pair event_id registration_id) db.check_ins ≡ none
        → resolve_check_in ctx event_id registration_id staff_id device_info token_id db ≡ (
          ok (admitted r.attendee_name ctx.new_id),
          record db {
            check_ins =
                db.check_ins ++ new_check_in ctx event_id registration_id staff_id device_info ∷ [];
            qr_tokens = spent ctx.now token_id db.qr_tokens;
            audit_logs = db.audit_logs ++ entry staff_id "CHECKIN_VALID" ctx.new_id ∷ [];
          },
        )
    unfolding resolve_check_in create_check_in revoke_token write_audit_log ◌>>◌
    resolve_new none k h = ground (arith, known)
    resolve_new (some id) k h = ground (arith, known)

    module _ (c : CheckIn)
        (found : find_first (of_pair event_id registration_id) db.check_ins ≡ some c) where
      same_registration : c.registration_id ≡ registration_id
      same_registration = (eq_iff c.registration_id registration_id).0 (
          and-right (c.event_id == event_id) (c.registration_id == registration_id)
            (find_first-test _ db.check_ins found))

      pub resolve_deleted :
          (token_id : Option String)
          → IsKnown token_id db
          → is_none c.deleted_at ≡ false
          → resolve_check_in ctx event_id registration_id staff_id device_info token_id db ≡ (
            ok (admitted r.attendee_name c.id),
            record db {
              check_ins =
                  update_many (is_check_in c.id) (restore ctx staff_id device_info) db.check_ins;
              qr_tokens = spent ctx.now token_id db.qr_tokens;
              audit_logs = db.audit_logs ++ entry staff_id "CHECKIN_VALID" c.id ∷ [];
            },
          )
      unfolding resolve_check_in restore_check_in revoke_token write_audit_log ◌>>◌
      resolve_deleted none k h = ground (arith, known, found, same_registration)
      resolve_deleted (some id) k h = ground (arith, known, found, same_registration)

      pub resolve_active :
          (token_id : Option String)
          → is_none c.deleted_at ≡ true
          → resolve_check_in ctx event_id registration_id staff_id device_info token_id db ≡ (
            ok (refused r.attendee_name),
            record db { audit_logs = db.audit_logs ++ entry staff_id "DUPLICATE_SCAN" c.id ∷ [] },
          )
      unfolding resolve_check_in refuse_duplicate write_audit_log ◌>>◌
      resolve_active token_id h = ground (arith, known, found, same_registration)
