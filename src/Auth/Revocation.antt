-- ===== src/Auth/Revocation.antt =====
-- modules/auth/session.service.js: `listSessions` and `revokeAllSessions`.
use qpass_backend.Prelude.{
  ℕ, zero, suc, String, Bool, false, not, ◌==◌, Option, none, some, List, [], ◌∷◌, ◌++◌, eqb,
  if◌then◌else◌, map,
}
use qpass_backend.Db.{Db, RedisKey, M, ◌>>=◌, ◌>>◌, pure, gets, when}
use qpass_backend.Db.Redis.{redis_get}
use qpass_backend.Auth.Keys.{session_pattern, id_of}
use qpass_backend.Auth.Sessions.{revoke_session}

-- redis.scan(cursor, "MATCH", pattern): the next cursor, and some of the keys.
abbrev pub Scan : Type 0
Scan = String → List RedisKey → ℕ → ℕ × List String

-- The `do` loop over the cursor, of at most `fuel` rounds.
unfoldable pub scan_keys : Scan → String → List RedisKey → ℕ → ℕ → List String
scan_keys scan pattern ks zero cursor = []
scan_keys scan pattern ks (suc fuel) cursor =
    let p = scan pattern ks cursor in
    let rest = scan_keys scan pattern ks fuel p.0 in p.1 ++ (if eqb p.0 0 then [] else rest)

-- The metadata of a session: what JSON.parse gives of the value, all null where it throws.
pub record Client : Type 0 where
  pub user_agent : Option String
  pub created_at : Option String
  pub expires_at : Option String

pub record Session : Type 0 where
  pub id : String
  pub client : Client

-- What the functions get from Redis: its SCAN, the rounds that it takes at most, whether Redis
-- answers, and JSON.parse.
pub record RedisClient : Type 0 where
  pub scan : Scan
  pub rounds : ℕ
  pub up : Bool
  pub parse : Option String → Client

abbrev pub session_of : RedisClient → ℕ → Db → String → Session
session_of redis now db key = record { id = id_of key; client = redis.parse (redis_get now key db) }

-- The order of the list is left out.
unfoldable pub list_sessions : RedisClient → ℕ → String → Db → List Session
list_sessions redis now user_id db =
    if redis.up
    then map (session_of redis now db)
        (scan_keys redis.scan (session_pattern user_id) db.redis redis.rounds 0)
    else []

abbrev pub excluded : Option String → String → Bool
excluded none id = false
excluded (some e) id = id == e

unfoldable pub revoke_each : Bool → String → Option String → List Session → M (Unit {0})
revoke_each up user_id exclude [] = pure tt
revoke_each up user_id exclude (s ∷ rest) = do
  when (not (excluded exclude s.id)) (revoke_session up user_id s.id)
  revoke_each up user_id exclude rest

unfoldable pub revoke_all_sessions : RedisClient → ℕ → String → Option String → M (Unit {0})
revoke_all_sessions redis now user_id exclude = do
  sessions ← gets (list_sessions redis now user_id)
  revoke_each redis.up user_id exclude sessions
