-- ===== src/Auth/Otp.antt =====
-- modules/auth/otp.service.js, and modules/auth/verification.service.js: proofs that an e-mail address
-- is the user's. Whether the e-mail was accepted is an argument, and so are the random codes.
use Prim.Native.String.{◌++◌}
use qpass_backend.Prelude.{
  ℕ, String, Bool, true, false, not, ◌&&◌, ◌||◌, Option, none, some, ◌==◌, is_some, if◌then◌else◌,
}
use qpass_backend.Prelude.Tables.{find_first}
use qpass_backend.Fault.{unauthorized, auth_otp_invalid, auth_verify_token_invalid}
use qpass_backend.Db.{User, M, ◌>>=◌, ◌>>◌, pure, throw_if, or_throw, gets, modify}
use qpass_backend.Db.Redis.{redis_get, redis_set, redis_del}
use qpass_backend.Db.Users.{has_email, is_user, update_user}
use qpass_backend.Text.{trim, to_lower_case, is_empty}

-- `${REDIS_PREFIX}${normalizedEmail}`
abbrev pub otp_key : String → String
otp_key email = "otp:email_verify:" ++ to_lower_case (trim email)

abbrev pub otp_ttl_seconds : ℕ
otp_ttl_seconds = 600

-- { success: true, sent: false }, { success: true, code } or { success: false, error }
pub data Sending : Type 0 where
  not_sent failed : Sending
  sent : String → Sending

-- !user || user.deletedAt || user.emailVerifiedAt
abbrev pub needs_no_code : Option User → Bool
needs_no_code none = true
needs_no_code (some u) = is_some u.deleted_at || is_some u.email_verified_at

-- The e-mail failed: the key is deleted.
unfoldable pub undone : Bool → String → String → M Sending
undone true key code = pure (sent code)
undone false key code = do modify (redis_del key); pure failed

unfoldable pub send_code : Bool → ℕ → String → String → ℕ → String → M Sending
send_code mailed now key code ttl value = do
  modify (redis_set now key value ttl)
  undone mailed key code

unfoldable pub send_otp : Bool → String → ℕ → String → M Sending
send_otp mailed code now email = do
  user ← gets (λ db. find_first (has_email (to_lower_case (trim email))) db.users)
  if needs_no_code user
      then pure not_sent
      else send_code mailed now (otp_key email) code otp_ttl_seconds code

-- !(!stored || stored !== code)
abbrev pub is_code : Option String → String → Bool
is_code none code = false
is_code (some stored) code = not (is_empty stored) && (stored == code)

-- user && !user.deletedAt
abbrev pub live_user : Option User → Option User
live_user none = none
live_user (some u) = if is_some u.deleted_at then none else some u

abbrev pub verified : ℕ → User → User
verified now u = record u { email_verified_at = some now }

unfoldable pub verify_otp : ℕ → String → String → M User
verify_otp now email code = do
  stored ← gets (redis_get now (otp_key email))
  throw_if (not (is_code stored code)) (unauthorized auth_otp_invalid)
  found ← gets (λ db. find_first (has_email (to_lower_case (trim email))) db.users)
  user ← or_throw (live_user found) (unauthorized auth_otp_invalid)
  update_user user.id (verified now)
  modify (redis_del (otp_key email))
  pure (verified now user)

-- modules/auth/verification.service.js: a link in place of a code
abbrev pub verify_key : String → String
verify_key token = "verify_email:" ++ token

abbrev pub verify_token_ttl_seconds : ℕ
verify_token_ttl_seconds = 900

unfoldable pub request_email_verification : Bool → String → ℕ → User → M Sending
request_email_verification mailed verify_token now user =
    send_code mailed now (verify_key verify_token) verify_token verify_token_ttl_seconds user.id

-- !userId: an empty text counts as none
abbrev pub non_empty : Option String → Option String
non_empty none = none
non_empty (some s) = if is_empty s then none else some s

unfoldable pub verify_email : ℕ → String → M User
verify_email now token = do
  stored ← gets (redis_get now (verify_key token))
  user_id ← or_throw (non_empty stored) (unauthorized auth_verify_token_invalid)
  found ← gets (λ db. find_first (is_user user_id) db.users)
  user ← or_throw (live_user found) (unauthorized auth_verify_token_invalid)
  update_user user_id (verified now)
  modify (redis_del (verify_key token))
  pure (verified now user)
