-- ===== src/Admin/Lockout.antt =====
-- modules/admin/admin-users.service.js with modules/auth/auth.service.js: a deactivated account, and an
-- invitation that was accepted.
use qpass_backend.Prelude.{
  ℕ, String, ◌≡◌, refl, sym, ◌∙◌, Bool, true, Option, none, some, ◌⊎◌, inl, inr, ap, Option-cases,
  ◌==◌, eq_iff, eq_both, arith, if◌then◌else◌,
}
use qpass_backend.Prelude.Tables.{
  find_first, find_first-All, find_first-update_many, find_first-some, Distinct, find_first_unique,
}
use qpass_backend.Fault.{
  unauthorized, admin_invite_invalid, auth_unauthorized, auth_refresh_revoked,
  auth_account_suspended, auth_invalid_credentials,
}
use qpass_backend.Db.{Db, User, ok, err, ◌>>◌, write_audit_log}
use qpass_backend.Db.Redis.{redis_get, redis_del}
use qpass_backend.Db.Users.{has_email, is_user, insert_user, update_user}
use qpass_backend.Auth.Accounts.{
  Claims, Jwt, is_suspended, authenticate_user, usable, refresh_token, is_token_blacklisted,
}
use qpass_backend.Auth.Middleware.{AccessClaims, bearer_token, decoded, require_auth}
use qpass_backend.Auth.SingleUse.{deleted}
use qpass_backend.Admin.Users.{
  invite_key, refuse_existing, save_admin, accept_admin_invite, deactivated, deactivate_row,
  deactivate_user,
}

-- An invitation that was accepted is spent: sent again, it is refused, and nothing is written.
pub accept_admin_invite-once :
    (id other : String) (now later : ℕ) (token name name' hash hash' : String) (u : User) (db : Db)
    → (accept_admin_invite id now token name hash db).0 ≡ ok u
    → accept_admin_invite other later token name' hash'
        (accept_admin_invite id now token name hash db).1
      ≡ (err (unauthorized admin_invite_invalid), (accept_admin_invite id now token name hash db).1)
unfolding accept_admin_invite refuse_existing save_admin insert_user update_user redis_get redis_del
    write_audit_log ◌>>◌
accept_admin_invite-once id other now later token name name' hash hash' u db h =
    ground (arith, h, deleted later (invite_key token) db.redis)

abbrev pub same_id : User → User → Bool
same_id a b = a.id == b.id

both_are :
    (id : String) (x y : User) → is_user id x ≡ true → is_user id y ≡ true → same_id x y ≡ true
both_are id x y h k = eq_both x.id y.id id h k

-- After the deactivation, the row of the account is not active, by its id and by its address.
module _ (user_id actor_id : String) (u w : User) (email : String) (db : Db)
    (distinct : Distinct same_id db.users) (done : (deactivate_user user_id actor_id db).0 ≡ ok u)
    (found : find_first (has_email email) db.users ≡ some w) (theirs : w.id ≡ user_id) where
  abbrev pub after : Db
  after = (deactivate_user user_id actor_id db).1

  is_theirs : is_user user_id w ≡ true
  is_theirs = (eq_iff w.id user_id).1 theirs

  -- The row that the deactivation found, by its id, is the one of the address.
  same_row : find_first (is_user user_id) db.users ≡ some w
  same_row = elim (Option-cases (find_first (is_user user_id) db.users)) [
    | inl e ↦ ground (
      arith,
      e,
      is_theirs,
      find_first-some (has_email email) (is_user user_id) db.users found is_theirs,
    )
    | inr (a, e) ↦
        let unique =
          find_first_unique same_id (is_user user_id) db.users (both_are user_id) distinct e in
        let same =
          find_first-All (λ x. is_user user_id x ≡ true → x ≡ a) (has_email email) db.users unique
            found in
        e ∙ ap some (sym (same is_theirs))
  ]

  by_id : usable (find_first (is_user user_id) after.users) ≡ none
  unfolding deactivate_user deactivate_row update_user write_audit_log ◌>>◌
  by_id =
      let x =
        find_first-update_many (is_user user_id) (is_user user_id) deactivated db.users
          (λ b e. refl) in
      ground (arith, done, x, same_row, is_theirs)

  by_email :
      (find_first (has_email email) after.users ≡ some w × (is_suspended w ≡ true))
      ⊎ (find_first (has_email email) after.users ≡ some (deactivated w))
  unfolding deactivate_user deactivate_row update_user write_audit_log ◌>>◌
  by_email =
      let x =
        find_first-update_many (has_email email) (is_user user_id) deactivated db.users
          (λ b e. refl) in
      ground (arith, done, x, same_row, is_theirs, found)

  -- Ids of users are distinct, and the account of an address is deactivated. Then no access token of
  -- it passes the middleware, no refresh token of it is exchanged, and signing in with the address
  -- fails whatever the password; the database is left as it was.
  pub deactivate_user-locked_out :
      (verify : String → Option AccessClaims) (header : Option String) (access : AccessClaims)
      (jwt : Jwt) (up : Bool) (now : ℕ) (token : String) (claims : Claims)
      (compare_password : String → String → Bool) (password : String)
      → decoded verify (bearer_token header) ≡ some access
      → access.sub ≡ user_id
      → jwt.verify now token ≡ some claims
      → claims.sub ≡ user_id
      → (require_auth verify header after ≡ none)
        × (refresh_token jwt up now token after ≡ (
          err (
              unauthorized (
                if is_token_blacklisted now token after
                then auth_refresh_revoked
                else auth_unauthorized)),
          after,
        ))
        × (authenticate_user compare_password email password after ≡ (
          err (
              unauthorized (
                if compare_password password w.password_hash
                then auth_account_suspended
                else auth_invalid_credentials)),
          after,
        ))
  unfolding require_auth refresh_token authenticate_user ◌>>◌
  deactivate_user-locked_out verify header access jwt up now token claims compare_password password
        a sub v sub' =
      let none' : usable (find_first (is_user claims.sub) after.users) ≡ none = rw sub' by_id in
      (
        rw (a, sub, by_id) refl,
        ground (arith, v, none'),
        elim by_email [ inl (e, s) ↦ ground (arith, e, s) | inr e ↦ ground (arith, e) ],
      )
