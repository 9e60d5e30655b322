-- ===== src/Auth/Passwords.antt =====
-- modules/auth/password.service.js, and the profile of modules/auth/auth.service.js. Hashing and
-- comparing passwords is bcrypt's; whether an e-mail was accepted is an argument.
use Prim.Native.String.{◌++◌}
use qpass_backend.Prelude.{ℕ, String, Bool, true, not, Option, none, some, if◌then◌else◌}
use qpass_backend.Prelude.Tables.{find_first}
use qpass_backend.Fault.{
  unauthorized, auth_unauthorized, auth_current_password_invalid, auth_reset_token_invalid,
}
use qpass_backend.Text.{is_empty}
use qpass_backend.Db.{User, M, ◌>>=◌, ◌>>◌, pure, throw_if, or_throw, gets, modify, write_audit_log}
use qpass_backend.Db.Redis.{redis_get, redis_del}
use qpass_backend.Db.Users.{has_email, is_user, update_user}
use qpass_backend.Auth.Otp.{Sending, not_sent, live_user, non_empty, send_code}
use qpass_backend.Auth.Revocation.{RedisClient, revoke_all_sessions}

-- `${REDIS_PREFIX}${resetToken}`
abbrev pub reset_key : String → String
reset_key token = "pwd_reset:" ++ token

abbrev pub reset_token_ttl_seconds : ℕ
reset_token_ttl_seconds = 900

unfoldable pub forgot_password_of : Bool → String → ℕ → Option User → M Sending
forgot_password_of mailed reset_token now none = pure not_sent
forgot_password_of mailed reset_token now (some user) =
    send_code mailed now (reset_key reset_token) reset_token reset_token_ttl_seconds user.id

unfoldable pub forgot_password : Bool → String → ℕ → String → M Sending
forgot_password mailed reset_token now email = do
  user ← gets (λ db. find_first (has_email email) db.users)
  forgot_password_of mailed reset_token now user

abbrev pub with_password : String → User → User
with_password password_hash u = record u { password_hash = password_hash }

-- `password_hash` is the hash of the new password.
unfoldable pub reset_password : RedisClient → ℕ → String → String → M Bool
reset_password redis now token password_hash = do
  stored ← gets (redis_get now (reset_key token))
  user_id ← or_throw (non_empty stored) (unauthorized auth_reset_token_invalid)
  update_user user_id (with_password password_hash)
  modify (redis_del (reset_key token))
  revoke_all_sessions redis now user_id none
  write_audit_log (some user_id) "PASSWORD_RESET" "User" user_id
  pure true

unfoldable pub change_password :
    (String → String → Bool) → RedisClient → ℕ → String → String → String → M Bool
change_password compare_password redis now user_id current password_hash = do
  found ← gets (λ db. find_first (is_user user_id) db.users)
  user ← or_throw (live_user found) (unauthorized auth_unauthorized)
  throw_if (not (compare_password current user.password_hash))
      (unauthorized auth_current_password_invalid)
  update_user user_id (with_password password_hash)
  revoke_all_sessions redis now user_id none
  write_audit_log (some user_id) "PASSWORD_CHANGED" "User" user_id
  pure true

-- publicProfile leaves the password hash out; the model returns the row.
unfoldable pub get_profile : String → M User
get_profile user_id = do
  found ← gets (λ db. find_first (is_user user_id) db.users)
  or_throw (live_user found) (unauthorized auth_unauthorized)

abbrev pub null_if_empty : String → Option String
null_if_empty s = if is_empty s then none else some s

-- A field that is absent or equal is not written, which leaves the row as writing it does.
abbrev pub profile : Option String → Option String → User → User
profile name phone u = record u {
  name = elim name [ none ↦ u.name | some n ↦ n ];
  phone = elim phone [ none ↦ u.phone | some p ↦ null_if_empty p ];
}

unfoldable pub update_profile : String → Option String → Option String → M User
update_profile user_id name phone = do
  found ← gets (λ db. find_first (is_user user_id) db.users)
  user ← or_throw (live_user found) (unauthorized auth_unauthorized)
  update_user user_id (profile name phone)
  write_audit_log (some user_id) "USER_PROFILE_UPDATED" "User" user_id
  pure (profile name phone user)
