-- ===== src/Auth/SignIn.antt =====
-- modules/auth/oauth.service.js: the account that a Google sign-in gives, and its state.
use qpass_backend.Prelude.{none, ℕ, String, some, is_some, if◌then◌else◌}
use qpass_backend.Text.{is_empty}
use qpass_backend.Db.{Db, User, UserStatus}

-- The account after a sign-in at `now`.
abbrev pub account_of : ℕ → String → User → User
account_of now name u = record u {
  deleted_at = none;
  status = if is_some u.deleted_at then UserStatus.active else u.status;
  name = if is_empty u.name then name else u.name;
  email_verified_at = if is_some u.email_verified_at then u.email_verified_at else some now;
}
