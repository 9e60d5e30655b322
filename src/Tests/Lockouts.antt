-- ===== src/Tests/Lockouts.antt =====
-- Sam is deactivated and changes a password, Ada arrives and leaves, and an event is created.
use qpass_backend.Prelude.{
  String, ◌≡◌, refl, Bool, true, false, none, some, List, [], ◌∷◌, map, arith, ◌==◌, eq_refl,
  eq_both, is_some, Bool-cases, inl, inr,
}
use qpass_backend.Prelude.Tables.{find_first}
use qpass_backend.Fault.{
  unauthorized, auth_unauthorized, auth_account_suspended, admin_invite_invalid,
}
use qpass_backend.Text.Search.{starts_with}
use qpass_backend.Db.{
  Db, User, UserStatus, UserRole, valid, RedisKey, ok, err, ◌>>◌, write_audit_log,
}
use qpass_backend.Db.Redis.{holds, redis_get, redis_del}
use qpass_backend.Db.Users.{update_user}
use qpass_backend.Event.Handlers.{alone}
use qpass_backend.Event.Create.{NewEvent, new_event, create_event}
use qpass_backend.Event.Progress.{create_event-succeeds}
use qpass_backend.Import.Validate.{has}
use qpass_backend.Auth.Accounts.{Jwt, refresh_token, authenticate_user, is_token_blacklisted}
use qpass_backend.Auth.Sessions.{Codec, session_key, has_active_session, revoke_session}
use qpass_backend.Auth.Keys.{session_pattern, after_last, id_of, has_no_colon}
use qpass_backend.Text.Slug.{generate_slug}
use qpass_backend.Auth.Revocation.{
  RedisClient, scan_keys, list_sessions, revoke_each, revoke_all_sessions,
}
use qpass_backend.Auth.Passwords.{change_password}
use qpass_backend.Auth.Revoked.{change_password-no_session}
use qpass_backend.Auth.Middleware.{
  AccessClaims, before_space, after_space, bearer_token, decoded, require_auth,
}
use qpass_backend.Admin.Users.{
  refuse_existing, save_admin, accept_admin_invite, revived, deactivated, deactivate_row,
  deactivate_user,
}
use qpass_backend.Admin.Lockout.{accept_admin_invite-once, deactivate_user-locked_out}
use qpass_backend.Auth.Google.{Profile}
use qpass_backend.CheckIn.Resolve.{resolve_check_in}
use qpass_backend.CheckIn.Undo.{undo_check_in}
use qpass_backend.CheckIn.Attendance.{attendance}
use qpass_backend.CheckIn.Refine.{result_of, resolve_check_in-refines, undo_check_in-refines}
use qpass_backend.Tests.Fixture.{store, sam, ada, launch, adas_check_in, at_door}

abbrev access : AccessClaims
access = record { sub = "u1"; role = UserRole.staff }

abbrev jwt : Jwt
jwt = record {
  verify = λ now s. some (record { sub = "u1"; exp = 60 });
  sign_access = λ u. u.id;
  sign_refresh = λ u. u.email;
}

abbrev compare : String → String → Bool
compare a b = a == b

sam_out : (deactivate_user "u1" "o1" store).0 ≡ ok (deactivated sam)
unfolding deactivate_user deactivate_row update_user write_audit_log find_first ◌>>◌
sam_out = refl

passes : decoded (λ s. some access) (bearer_token (some "Bearer tok")) ≡ some access
unfolding bearer_token starts_with before_space after_space
passes = refl

abbrev locked : Db
locked = (deactivate_user "u1" "o1" store).1

deactivate_user-locked_out_example :
    (require_auth (λ s. some access) (some "Bearer tok") locked ≡ none)
    × (refresh_token jwt true 500 "tok" locked ≡ (err (unauthorized auth_unauthorized), locked))
    × (authenticate_user compare "sam@x.org" "hash" locked
        ≡ (err (unauthorized auth_account_suspended), locked))
unfolding is_token_blacklisted redis_get find_first deactivate_user deactivate_row update_user
    write_audit_log ◌>>◌
deactivate_user-locked_out_example =
    deactivate_user-locked_out "u1" "o1" (deactivated sam) sam "sam@x.org" store (tt, tt) sam_out
      refl refl (λ s. some access) (some "Bearer tok") access jwt true 500 "tok"
      (record { sub = "u1"; exp = 60 }) compare "hash" passes refl refl refl

-- A Redis that returns all keys in one round.
abbrev redis : RedisClient
redis = record {
  scan = λ pattern ks cursor. (0, map (λ (k : RedisKey). k.key) ks);
  rounds = 1;
  up = true;
  parse = λ s. record { user_agent = none; created_at = none; expires_at = none };
}

scanned :
    (key pattern : String) (ks : List RedisKey)
    → is_some (find_first (holds 500 key) ks) ≡ true
    → has key (scan_keys redis.scan pattern ks 1 0) ≡ true
unfolding find_first has scan_keys
scanned key pattern [] h = ground arith
scanned key pattern (k ∷ ks) h = elim (Bool-cases (k.key == key)) [
  | inl e ↦ let same = eq_both key k.key key (eq_refl key) e in ground (arith, same)
  | inr e ↦ let rest = scanned key pattern ks in ground (arith, h, e, rest)
]

abbrev codec : Codec
codec = record { hash_token = λ s. s; decode_exp = λ s. none; to_json = λ a t e. "meta" }

-- Sam is signed in.
abbrev sam_online : Db
sam_online = record store {
  redis = record { key = session_key "u1" "tok"; value = "meta"; expires_at = 9000 } ∷ [];
}

changed : (change_password compare redis 500 "u1" "hash" "new" sam_online).0 ≡ ok true
unfolding change_password update_user revoke_all_sessions list_sessions revoke_each revoke_session
    scan_keys id_of after_last redis_del redis_get write_audit_log find_first ◌>>◌
changed = refl

no_colon : has_no_colon "tok" ≡ true
unfolding after_last
no_colon = refl

change_password-no_session_example :
    has_active_session codec true 600 "u1" "tok"
      (change_password compare redis 500 "u1" "hash" "new" sam_online).1
    ≡ (ok false, (change_password compare redis 500 "u1" "hash" "new" sam_online).1)
change_password-no_session_example =
    change_password-no_session redis 500 600 "u1" refl
      (λ ks id h. scanned (session_key "u1" id) (session_pattern "u1") ks h) (ground arith) codec
      "tok" no_colon sam_online compare "hash" "new" changed

resolve_check_in-refines_example :
    (result_of (resolve_check_in at_door "e1" "r1" "o1" none none store).0 ≡ some valid)
    × (attendance "e1" (resolve_check_in at_door "e1" "r1" "o1" none none store).1.check_ins "r1"
        ≡ true)
unfolding find_first
resolve_check_in-refines_example =
    resolve_check_in-refines "e1" "r1" store tt tt at_door "o1" none none ada "r1" refl tt

-- Ada is inside.
abbrev entered : Db
entered = record store { check_ins = adas_check_in ∷ [] }

undo_check_in-refines_example :
    attendance "e1" (undo_check_in alone 600 "e1" "c1" "o1" entered).1.check_ins "r1" ≡ false
unfolding find_first
undo_check_in-refines_example =
    undo_check_in-refines "e1" "r1" entered (tt, tt) (tt, tt) "c1" "o1" 600 adas_check_in launch ada
      "r1" refl refl refl refl refl

abbrev party : NewEvent
party = record { title = "Party"; description = none; venue = none; start_time = 1; end_time = 2 }

create_event-succeeds_example :
    (slug : String) × ((create_event (λ k. "e3") (λ k i. "x") party "o1" store).0
      ≡ ok (new_event "e3" party slug "o1"))
unfolding find_first generate_slug
create_event-succeeds_example =
    create_event-succeeds (λ k. "e3") (λ k i. "x") party "o1" 0 store (refl, (refl, tt)) refl
      (ground arith) refl

-- Sam was deleted, and is invited.
abbrev invited : Db
invited = record store {
  users = record sam { deleted_at = some 400 } ∷ [];
  redis = record { key = "admin_invite:tok"; value = "sam@x.org"; expires_at = 900 } ∷ [];
}

accepted :
    (accept_admin_invite "u9" 500 "tok" "Sam" "h" invited).0
    ≡ ok (revived 500 "sam@x.org" "Sam" "h" sam)
unfolding accept_admin_invite refuse_existing save_admin update_user redis_get redis_del
    write_audit_log find_first ◌>>◌
accepted = refl

accept_admin_invite-once_example :
    accept_admin_invite "u8" 600 "tok" "Sam" "h2"
      (accept_admin_invite "u9" 500 "tok" "Sam" "h" invited).1
    ≡ (
      err (unauthorized admin_invite_invalid),
      (accept_admin_invite "u9" 500 "tok" "Sam" "h" invited).1,
    )
accept_admin_invite-once_example =
    accept_admin_invite-once "u9" "u8" 500 600 "tok" "Sam" "Sam" "h" "h2"
      (revived 500 "sam@x.org" "Sam" "h" sam) invited accepted

abbrev sams_profile : Profile
sams_profile = record { email = some "Sam@x.org"; email_verified = true; name = none }

-- Sam is deactivated, and signs in all the same.
abbrev sam_signed_in : User
sam_signed_in = record sam { status = UserStatus.inactive; email_verified_at = some 600 }
