-- ===== src/Auth/Google.antt =====
-- modules/auth/oauth.service.js: signing in with Google. The URL of the consent page and the cookie
-- header are left out; the calls of Google, JSON and the random values are arguments.
use Prim.Native.String.{◌++◌}
use qpass_backend.Prelude.{
  ℕ, String, Bool, true, false, not, ◌||◌, ◌==◌, Option, none, some, is_some, if◌then◌else◌,
}
use qpass_backend.Prelude.Tables.{find_first}
use qpass_backend.Fault.{
  bad_request, unauthorized, auth_google_state_invalid, auth_google_oauth_failed,
  auth_google_email_not_verified, auth_account_suspended,
}
use qpass_backend.Text.{to_lower_case, before_at, is_empty}
use qpass_backend.Db.{
  Db, User, UserRole, UserStatus, M, Result, ◌>>=◌, ◌>>◌, pure, throw_if, or_throw, gets, modify,
  from_result, write_audit_log,
}
use qpass_backend.Db.Redis.{redis_get, redis_set, redis_del}
use qpass_backend.Db.Users.{has_email, insert_user, update_user}
use qpass_backend.Auth.Accounts.{Jwt}
use qpass_backend.Auth.Sessions.{Codec, record_session}

pub record OAuthState : Type 0 where
  pub role : UserRole
  pub binding_hash : String
  pub pkce_verifier : String

pub record Profile : Type 0 where
  pub email : Option String
  pub email_verified : Bool
  pub name : Option String

-- Google and the libraries: SHA-256, JSON.stringify and JSON.parse of a state, and the two requests,
-- which may throw. An answer may be without an access token.
pub record Google : Type 0 where
  pub sha256 : String → String
  pub to_json : OAuthState → String
  pub parse : String → Option OAuthState
  pub exchange : String → String → Result (Option String)
  pub fetch_user : String → Result Profile

abbrev pub oauth_state_ttl_seconds : ℕ
oauth_state_ttl_seconds = 600

-- `${OAUTH_STATE_PREFIX}${state}`
abbrev pub state_key : String → String
state_key state = "oauth_state:" ++ state

-- SUPPORTED_ROLES.has(role) ? role : 'ATTENDEE'
abbrev pub supported : Option UserRole → UserRole
supported (some UserRole.organizer) = UserRole.organizer
supported (some UserRole.staff) = UserRole.staff
supported _ = UserRole.attendee

module _ (google : Google) where
  unfoldable pub store_oauth_state : ℕ → String → OAuthState → Db → Db
  store_oauth_state now state r db =
      redis_set now (state_key state) (google.to_json r) oauth_state_ttl_seconds db

  abbrev pub parsed : Option String → Option OAuthState
  parsed none = none
  parsed (some raw) = if is_empty raw then none else google.parse raw

  -- redis.getdel
  unfoldable pub consume_oauth_state : ℕ → String → M (Option OAuthState)
  consume_oauth_state now state = do
    raw ← gets (redis_get now (state_key state))
    modify (redis_del (state_key state))
    pure (parsed raw)

  -- The state and the value of the cookie, both random.
  unfoldable pub initiate_google_oauth : ℕ → String → String → String → Option UserRole → M String
  initiate_google_oauth now state binding pkce_verifier role = do
    modify (
        store_oauth_state now state (record {
          role = supported role;
          binding_hash = google.sha256 binding;
          pkce_verifier = pkce_verifier;
        }))
    pure state

  abbrev pub bound : String → Option OAuthState → Option OAuthState
  bound binding none = none
  bound binding (some s) = if s.binding_hash == google.sha256 binding then some s else none

-- existing.name || name, existing.emailVerifiedAt || now
abbrev pub or_name : String → String → String
or_name a b = if is_empty a then b else a

abbrev pub or_now : ℕ → Option ℕ → Option ℕ
or_now now none = some now
or_now now (some t) = some t

abbrev pub signed_in : ℕ → String → User → User
signed_in now name u = record u {
  name = or_name u.name name;
  email_verified_at = or_now now u.email_verified_at;
}

abbrev pub reactivated_google : ℕ → String → User → User
reactivated_google now name u = record u {
  deleted_at = none;
  status = UserStatus.active;
  name = or_name u.name name;
  email_verified_at = or_now now u.email_verified_at;
}

abbrev pub new_google_user : String → ℕ → String → String → String → UserRole → User
new_google_user id now email name password_hash role = record {
  id = id;
  name = name;
  email = email;
  password_hash = password_hash;
  phone = none;
  role = supported (some role);
  status = UserStatus.active;
  email_verified_at = some now;
  deleted_at = none;
}

abbrev pub is_status_suspended : UserStatus → Bool
is_status_suspended UserStatus.suspended = true
is_status_suspended _ = false

unfoldable pub sign_in_existing : ℕ → String → User → M (User × Bool)
sign_in_existing now name u =
    if is_some u.deleted_at
    then (do
      update_user u.id (reactivated_google now name)
      write_audit_log (some u.id) "USER_REACTIVATED" "User" u.id
      pure (reactivated_google now name u, true))
    else (do update_user u.id (signed_in now name); pure (signed_in now name u, false))

unfoldable pub with_google_account :
    String → ℕ → String → String → String → UserRole → Option User → M (User × Bool)
with_google_account id now email name password_hash role (some u) = do
  throw_if (is_status_suspended u.status) (unauthorized auth_account_suspended)
  sign_in_existing now name u
with_google_account id now email name password_hash role none = do
  u ← insert_user (new_google_user id now email name password_hash role)
  pure (u, true)

-- profile.email ? profile.email.toLowerCase() : ""
abbrev pub profile_email : Option String → String
profile_email none = ""
profile_email (some s) = to_lower_case s

-- profile.name || email.split("@")[0]
abbrev pub profile_name : Option String → String → String
profile_name none email = before_at email
profile_name (some s) email = or_name s (before_at email)

-- `id` is the id of a new row, `password_hash` the hash of a random text.
unfoldable pub find_or_create_google_user :
    String → ℕ → String → Profile → UserRole → M (User × Bool)
find_or_create_google_user id now password_hash profile role = do
  let email = profile_email profile.email
  throw_if (is_empty email || not profile.email_verified)
      (unauthorized auth_google_email_not_verified)
  existing ← gets (λ db. find_first (has_email email) db.users)
  with_google_account id now email (profile_name profile.name email) password_hash role existing

-- The user, the access token and the refresh token. `binding` is the cookie of the request.
unfoldable pub complete_google_oauth :
    Google
    → Jwt
    → Codec
    → Bool
    → String
    → ℕ
    → String
    → String
    → String
    → Option String
    → Option String
    → M (User × String × String)
complete_google_oauth google jwt codec up id now password_hash code state user_agent binding = do
  cookie ← or_throw binding (bad_request auth_google_state_invalid)
  stored ← consume_oauth_state google now state
  s ← or_throw (bound google cookie stored) (bad_request auth_google_state_invalid)
  answer ← from_result (google.exchange code s.pkce_verifier)
  token ← or_throw answer (bad_request auth_google_oauth_failed)
  profile ← from_result (google.fetch_user token)
  account ← find_or_create_google_user id now password_hash profile s.role
  write_audit_log (some account.0.id)
      (if account.1 then "USER_OAUTH_SIGNUP" else "USER_OAUTH_LOGIN") "User" account.0.id
  session ← record_session codec up now account.0.id (jwt.sign_refresh account.0) user_agent
  pure (account.0, jwt.sign_access account.0, jwt.sign_refresh account.0)
