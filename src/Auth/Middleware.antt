-- ===== src/Auth/Middleware.antt =====
-- modules/auth/auth.middleware.js and middlewares/rbac.middleware.js: which requests reach a handler.
use Prim.Native.Char.{code}
use Prim.Native.String.{[], ◌∷◌}
use qpass_backend.Prelude.{String, Bool, true, false, Option, none, some, List, if◌then◌else◌, eqb}
use qpass_backend.Prelude.Tables.{find_first}
use qpass_backend.Text.Search.{starts_with}
use qpass_backend.Db.{Db, User, UserRole}
use qpass_backend.Db.Users.{is_user}
use qpass_backend.Auth.Accounts.{usable}

-- What a verified access token says.
pub record AccessClaims : Type 0 where
  pub sub : String
  pub role : UserRole

unfoldable pub before_space : String → String
before_space [] = []
before_space (c ∷ s) = let rest = before_space s in if eqb (code c) 32 then [] else c ∷ rest

-- split(" ")[1]
unfoldable pub after_space : String → String
after_space [] = []
after_space (c ∷ s) = let rest = after_space s in if eqb (code c) 32 then before_space s else rest

unfoldable pub bearer_token : Option String → Option String
bearer_token none = none
bearer_token (some header) =
    if starts_with "Bearer " header then some (after_space header) else none

abbrev pub when_usable : Option User → AccessClaims → Option AccessClaims
when_usable none c = none
when_usable (some u) c = some c

abbrev pub of_claims : Db → Option AccessClaims → Option AccessClaims
of_claims db none = none
of_claims db (some c) = when_usable (usable (find_first (is_user c.sub) db.users)) c

abbrev pub decoded : (String → Option AccessClaims) → Option String → Option AccessClaims
decoded verify none = none
decoded verify (some token) = verify token

-- req.user, or `none` for the answer 401. `verify` is jwt.verify at the time of the request.
unfoldable pub require_auth :
    (String → Option AccessClaims) → Option String → Db → Option AccessClaims
require_auth verify header db = of_claims db (decoded verify (bearer_token header))

pub data Passage : Type 0 where
  next unauthenticated not_allowed : Passage

abbrev pub same_role : UserRole → UserRole → Bool
same_role UserRole.attendee UserRole.attendee = true
same_role UserRole.staff UserRole.staff = true
same_role UserRole.organizer UserRole.organizer = true
same_role UserRole.admin UserRole.admin = true
same_role _ _ = false

abbrev pub passage : List UserRole → Option AccessClaims → Passage
passage allowed none = unauthenticated
passage allowed (some c) = elim (find_first (same_role c.role) allowed) [
  | none ↦ not_allowed
  | some r ↦ next
]

-- requireRole: 401 without a user, 403 for a role that is not allowed
unfoldable pub require_role : List UserRole → Option AccessClaims → Passage
require_role allowed user = passage allowed user
