-- ===== src/Auth/Accounts.antt =====
-- modules/auth/auth.service.js: registering, signing in, and exchanging a refresh token.
use Prim.Native.String.{◌++◌}
use qpass_backend.Prelude.{
  ℕ, ◌-◌, ◌/◌, String, Bool, true, false, not, ◌||◌, Option, none, some, is_some, is_none,
  if◌then◌else◌, ltb,
}
use qpass_backend.Prelude.Tables.{find_first}
use qpass_backend.Fault.{
  conflict, unauthorized, auth_already_exists, auth_invalid_credentials, auth_account_suspended,
  auth_refresh_revoked, auth_refresh_invalid, auth_unauthorized,
}
use qpass_backend.Db.{
  Db, User, UserRole, UserStatus, M, ◌>>=◌, ◌>>◌, pure, throw_if, or_throw, gets, modify, when,
  write_audit_log,
}
use qpass_backend.Db.Redis.{redis_get, redis_set}
use qpass_backend.Db.Users.{has_email, is_user, insert_user, update_user}

pub record NewUser : Type 0 where
  pub name : String
  pub email : String
  pub password_hash : String
  pub role : UserRole

abbrev pub reactivated : NewUser → User → User
reactivated d u = record u {
  deleted_at = none;
  name = d.name;
  password_hash = d.password_hash;
  role = d.role;
}

-- The row of a new user: what the service gives, and the column defaults.
abbrev pub new_user : String → NewUser → User
new_user id d = record {
  id = id;
  name = d.name;
  email = d.email;
  password_hash = d.password_hash;
  phone = none;
  role = d.role;
  status = UserStatus.active;
  email_verified_at = none;
  deleted_at = none;
}

unfoldable pub with_account : String → NewUser → Option User → M User
with_account id d none = do
  user ← insert_user (new_user id d)
  write_audit_log (some user.id) "USER_REGISTERED" "User" user.id
  pure user
with_account id d (some existing) = do
  throw_if (is_none existing.deleted_at) (conflict auth_already_exists)
  update_user existing.id (reactivated d)
  write_audit_log (some existing.id) "USER_REACTIVATED" "User" existing.id
  pure (reactivated d existing)

-- `id` is the id that the database gives a new row.
unfoldable pub register_user : String → NewUser → M User
register_user id d = do
  existing ← gets (λ db. find_first (has_email d.email) db.users)
  with_account id d existing

abbrev pub is_active : UserStatus → Bool
is_active UserStatus.active = true
is_active _ = false

-- user.deletedAt || user.status !== 'ACTIVE'
abbrev pub is_suspended : User → Bool
is_suspended u = is_some u.deleted_at || not (is_active u.status)

-- `compare_password` is bcrypt.compare.
unfoldable pub authenticate_user : (String → String → Bool) → String → String → M User
authenticate_user compare_password email plain_password = do
  found ← gets (λ db. find_first (has_email email) db.users)
  user ← or_throw found (unauthorized auth_invalid_credentials)
  throw_if (not (compare_password plain_password user.password_hash))
      (unauthorized auth_invalid_credentials)
  throw_if (is_suspended user) (unauthorized auth_account_suspended)
  write_audit_log (some user.id) "USER_LOGIN" "User" user.id
  pure user

-- What a verified refresh token says: the user, and its end in seconds since the epoch.
pub record Claims : Type 0 where
  pub sub : String
  pub exp : ℕ

-- utils/jwt.utils.js over jsonwebtoken: `verify now token` is `none` where the original throws, and
-- `sign` makes an access token or a refresh token for a user.
pub record Jwt : Type 0 where
  pub verify : ℕ → String → Option Claims
  pub sign_access : User → String
  pub sign_refresh : User → String

abbrev pub blacklist_key : String → String
blacklist_key token = "blacklist:refresh:" ++ token

unfoldable pub is_token_blacklisted : ℕ → String → Db → Bool
is_token_blacklisted now token db = is_some (redis_get now (blacklist_key token) db)

abbrev pub blacklisted : ℕ → String → Option Claims → Db → Db
blacklisted now token none db = db
blacklisted now token (some c) db =
    if ltb (now / 1000) c.exp
    then redis_set now (blacklist_key token) "1" (c.exp - now / 1000) db
    else db

-- `up` says whether Redis takes the write: the `catch` ignores a failed one.
unfoldable pub blacklist_refresh_token : Jwt → Bool → ℕ → String → M (Unit {0})
blacklist_refresh_token jwt up now token =
    when up (modify (blacklisted now token (jwt.verify now token)))

-- !user || user.deletedAt || user.status !== 'ACTIVE'
abbrev pub usable : Option User → Option User
usable none = none
usable (some u) = if is_suspended u then none else some u

-- The access token and the refresh token.
unfoldable pub refresh_token : Jwt → Bool → ℕ → String → M (String × String)
refresh_token jwt up now token = do
  revoked ← gets (is_token_blacklisted now token)
  throw_if revoked (unauthorized auth_refresh_revoked)
  decoded ← or_throw (jwt.verify now token) (unauthorized auth_refresh_invalid)
  found ← gets (λ db. find_first (is_user decoded.sub) db.users)
  user ← or_throw (usable found) (unauthorized auth_unauthorized)
  blacklist_refresh_token jwt up now token
  pure (jwt.sign_access user, jwt.sign_refresh user)
