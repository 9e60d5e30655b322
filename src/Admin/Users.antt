-- ===== src/Admin/Users.antt =====
-- modules/admin/admin-users.service.js: inviting admins, listing users, and what an admin does to an
-- account. Whether the e-mail of an invitation was accepted is an argument.
use Prim.Native.String.{◌++◌}
use qpass_backend.Prelude.{
  ℕ, ◌*◌, String, Bool, true, false, ◌&&◌, ◌||◌, Option, none, some, ◌==◌, is_some, is_none,
  if◌then◌else◌,
}
use qpass_backend.Prelude.Tables.{find_first, find_many, count}
use qpass_backend.Fault.{
  conflict, forbidden, not_found, unauthorized, admin_cannot_deactivate_self, admin_user_not_found,
  admin_cannot_modify_self, admin_invite_invalid, admin_invite_already_admin,
  admin_user_already_exists,
}
use qpass_backend.Text.{trim, to_lower_case}
use qpass_backend.Text.Search.{contains}
use qpass_backend.Db.{
  Db, User, UserRole, UserStatus, M, ◌>>=◌, ◌>>◌, pure, throw_if, or_throw, gets, modify, when,
  write_audit_log,
}
use qpass_backend.Db.Redis.{redis_get, redis_del}
use qpass_backend.Db.Users.{has_email, is_user, insert_user, update_user}
use qpass_backend.Paging.{Listing, given_or, checked_size, newest_first, listed}
use qpass_backend.Event.Handlers.{is_admin}
use qpass_backend.Auth.Otp.{Sending, sent, live_user, non_empty, send_code}

abbrev pub invite_ttl_seconds : ℕ
invite_ttl_seconds = 7 * 24 * 60 * 60

-- `${REDIS_PREFIX}${inviteToken}`
abbrev pub invite_key : String → String
invite_key token = "admin_invite:" ++ token

-- existing && !existing.deletedAt: an account that is in use is a conflict.
unfoldable pub refuse_existing : Option User → M (Unit {0})
refuse_existing none = pure tt
refuse_existing (some u) =
    if is_some u.deleted_at
    then pure tt
    else if is_admin u.role
    then throw_if true (conflict admin_invite_already_admin)
    else throw_if true (conflict admin_user_already_exists)

abbrev pub was_sent : Sending → Bool
was_sent (sent code) = true
was_sent _ = false

unfoldable pub send_admin_invite : Bool → String → ℕ → String → String → M Sending
send_admin_invite mailed invite_token now email actor_id = do
  let normalized = to_lower_case (trim email)
  existing ← gets (λ db. find_first (has_email normalized) db.users)
  refuse_existing existing
  r ← send_code mailed now (invite_key invite_token) invite_token invite_ttl_seconds normalized
  when (was_sent r) (write_audit_log (some actor_id) "ADMIN_INVITE_SENT" "User" "")
  pure r

-- `data` of `acceptAdminInvite`, over an account that was deleted.
abbrev pub revived : ℕ → String → String → String → User → User
revived now email name password_hash u = record u {
  name = name;
  email = email;
  password_hash = password_hash;
  role = UserRole.admin;
  status = UserStatus.active;
  email_verified_at = some now;
  deleted_at = none;
}

-- The same for a new account, with the column defaults.
abbrev pub new_admin : String → ℕ → String → String → String → User
new_admin id now email name password_hash = record {
  id = id;
  name = name;
  email = email;
  password_hash = password_hash;
  phone = none;
  role = UserRole.admin;
  status = UserStatus.active;
  email_verified_at = some now;
  deleted_at = none;
}

unfoldable pub save_admin : String → ℕ → String → String → String → Option User → M User
save_admin id now email name password_hash none =
    insert_user (new_admin id now email name password_hash)
save_admin id now email name password_hash (some existing) = do
  update_user existing.id (revived now email name password_hash)
  pure (revived now email name password_hash existing)

-- `id` is the id of a new row, `password_hash` what bcrypt gives.
unfoldable pub accept_admin_invite : String → ℕ → String → String → String → M User
accept_admin_invite id now token name password_hash = do
  stored ← gets (redis_get now (invite_key token))
  email ← or_throw (non_empty stored) (unauthorized admin_invite_invalid)
  existing ← gets (λ db. find_first (has_email email) db.users)
  refuse_existing existing
  user ← save_admin id now email name password_hash existing
  modify (redis_del (invite_key token))
  write_audit_log none "ADMIN_INVITE_ACCEPTED" "User" user.id
  pure user

abbrev pub found_by : Option String → User → Bool
found_by none u = true
found_by (some search) u = contains search u.name || contains search u.email

abbrev pub listed_user : Option String → User → Bool
listed_user search u = is_none u.deleted_at && found_by search u

unfoldable pub list_users : Option ℕ → Option ℕ → Option String → Db → Listing User
list_users page limit search db =
    listed (given_or 1 page) (checked_size limit) (count (listed_user search) db.users)
      (newest_first (find_many (listed_user search) db.users))

abbrev pub deactivated : User → User
deactivated u = record u { status = UserStatus.inactive }

abbrev pub is_inactive : UserStatus → Bool
is_inactive UserStatus.inactive = true
is_inactive _ = false

unfoldable pub deactivate_row : String → String → User → M User
deactivate_row actor_id user_id user = do
  update_user user_id deactivated
  write_audit_log (some actor_id) "ADMIN_USER_DEACTIVATED" "User" user_id
  pure (deactivated user)

unfoldable pub deactivate_user : String → String → M User
deactivate_user user_id actor_id = do
  throw_if (user_id == actor_id) (forbidden admin_cannot_deactivate_self)
  found ← gets (λ db. find_first (is_user user_id) db.users)
  user ← or_throw (live_user found) (not_found admin_user_not_found)
  if is_inactive user.status then pure user else deactivate_row actor_id user_id user

abbrev pub promoted : User → User
promoted u = record u { role = UserRole.admin }

unfoldable pub promote_to_admin : String → String → M User
promote_to_admin user_id actor_id = do
  throw_if (user_id == actor_id) (forbidden admin_cannot_modify_self)
  found ← gets (λ db. find_first (is_user user_id) db.users)
  user ← or_throw (live_user found) (not_found admin_user_not_found)
  update_user user_id promoted
  write_audit_log (some actor_id) "ADMIN_USER_PROMOTED" "User" user_id
  pure (promoted user)
