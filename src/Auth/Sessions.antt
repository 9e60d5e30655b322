-- ===== src/Auth/Sessions.antt =====
-- modules/auth/session.service.js: a refresh token as a session of its user. `up` says whether Redis
-- answers: where it does not, the source logs and carries on.
use Prim.Native.String.{◌++◌}
use qpass_backend.Prelude.{
  ℕ, ◌+◌, ◌-◌, ◌*◌, ◌/◌, String, Bool, ◌&&◌, Option, none, some, is_some, if◌then◌else◌, leb,
}
use qpass_backend.Db.{M, ◌>>=◌, ◌>>◌, pure, gets, modify, when}
use qpass_backend.Db.Redis.{redis_get, redis_set, redis_del}

-- `${SESSION_PREFIX}${userId}:${sessionId}`
abbrev pub session_key : String → String → String
session_key user_id session_id = "session:" ++ user_id ++ ":" ++ session_id

abbrev pub fallback_ttl_seconds : ℕ
fallback_ttl_seconds = 7 * 24 * 60 * 60

-- The third-party functions: SHA-256, the `exp` of a token that decodes to one, and JSON.stringify of
-- the client, the time and the end of a session.
pub record Codec : Type 0 where
  pub hash_token : String → String
  pub decode_exp : String → Option ℕ
  pub to_json : Option String → ℕ → ℕ → String

-- Math.max(1, decoded.exp - Math.floor(Date.now() / 1000))
abbrev pub ttl_until : ℕ → Option ℕ → ℕ
ttl_until now none = fallback_ttl_seconds
ttl_until now (some exp) = let left = exp - now / 1000 in if leb 1 left then left else 1

unfoldable pub resolve_ttl : Codec → ℕ → String → ℕ
resolve_ttl codec now refresh_token = ttl_until now (codec.decode_exp refresh_token)

-- `sessionId` is the hash of a refresh token.
unfoldable pub revoke_session : Bool → String → String → M (Unit {0})
revoke_session up user_id session_id = when up (modify (redis_del (session_key user_id session_id)))

module _ (codec : Codec) (up : Bool) where
  unfoldable pub record_session : ℕ → String → String → Option String → M (Option String)
  record_session now user_id refresh_token user_agent = do
    let session_id = codec.hash_token refresh_token
    let ttl = resolve_ttl codec now refresh_token
    when up (
        modify (
          redis_set now (session_key user_id session_id)
            (codec.to_json user_agent now (now + ttl * 1000)) ttl))
    pure (if up then some session_id else none)

  unfoldable pub has_active_session : ℕ → String → String → M Bool
  has_active_session now user_id refresh_token =
      gets λ db.
        up && is_some (redis_get now (session_key user_id (codec.hash_token refresh_token)) db)

  -- redis.getdel
  unfoldable pub consume_session : ℕ → String → String → M Bool
  consume_session now user_id refresh_token = do
    raw ← gets (redis_get now (session_key user_id (codec.hash_token refresh_token)))
    when up (modify (redis_del (session_key user_id (codec.hash_token refresh_token))))
    pure (up && is_some raw)

  unfoldable pub delete_session : String → String → M (Unit {0})
  delete_session user_id refresh_token = revoke_session up user_id (codec.hash_token refresh_token)
