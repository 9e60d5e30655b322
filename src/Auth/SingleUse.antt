-- ===== src/Auth/SingleUse.antt =====
-- modules/auth: codes, links and refresh tokens are good once.
use qpass_backend.Prelude.{
  Option, Bool, true, false, ◌+◌, ℕ, ◌<◌, ◌*◌, ◌/◌, String, ◌≡◌, none, some, List, arith, eq_refl,
}
use qpass_backend.Prelude.Tables.{
  find_first, delete_many, find_first-none, find_first-delete_many, delete_many_twice,
}
use qpass_backend.Fault.{
  unauthorized, auth_otp_invalid, auth_verify_token_invalid, auth_refresh_revoked,
}
use qpass_backend.Db.{Db, RedisKey, User, ok, err, ◌>>◌}
use qpass_backend.Db.Redis.{has_key, holds, redis_get, redis_set, redis_del}
use qpass_backend.Db.Users.{update_user}
use qpass_backend.Auth.Otp.{otp_key, verify_otp, verify_key, verify_email}
use qpass_backend.Auth.Sessions.{
  session_key, Codec, resolve_ttl, record_session, consume_session, has_active_session,
}
use qpass_backend.Auth.Accounts.{
  Claims, Jwt, blacklist_key, is_token_blacklisted, blacklist_refresh_token, refresh_token,
}

pub deleted :
    (now : ℕ) (key : String) (ks : List RedisKey)
    → find_first (holds now key) (delete_many (has_key key) ks) ≡ none
deleted now key ks =
    find_first-none (has_key key) (holds now key) (delete_many (has_key key) ks)
      (λ k e. ground arith) (find_first-delete_many (has_key key) ks)

verify_otp-once :
    (now later : ℕ) (email code other : String) (u : User) (db : Db)
    → (verify_otp now email code db).0 ≡ ok u
    → verify_otp later email other (verify_otp now email code db).1
      ≡ (err (unauthorized auth_otp_invalid), (verify_otp now email code db).1)
unfolding verify_otp update_user redis_get redis_del ◌>>◌
verify_otp-once now later email code other u db h =
    ground (arith, h, deleted later (otp_key email) db.redis)

verify_email-once :
    (now later : ℕ) (token : String) (u : User) (db : Db)
    → (verify_email now token db).0 ≡ ok u
    → verify_email later token (verify_email now token db).1
      ≡ (err (unauthorized auth_verify_token_invalid), (verify_email now token db).1)
unfolding verify_email update_user redis_get redis_del ◌>>◌
verify_email-once now later token u db h =
    ground (arith, h, deleted later (verify_key token) db.redis)

-- What verified an address is spent: after a one-time code, whatever code is sent for the address next
-- is refused, and a verification link that is sent again is refused; nothing is written.
pub verifications_once :
    (now later : ℕ) (email code other token : String) (u v : User) (db db' : Db)
    → (verify_otp now email code db).0 ≡ ok u
    → (verify_email now token db').0 ≡ ok v
    → (verify_otp later email other (verify_otp now email code db).1
        ≡ (err (unauthorized auth_otp_invalid), (verify_otp now email code db).1))
      × (verify_email later token (verify_email now token db').1
          ≡ (err (unauthorized auth_verify_token_invalid), (verify_email now token db').1))
verifications_once now later email code other token u v db db' h k =
    (verify_otp-once now later email code other u db h, verify_email-once now later token v db' k)

-- While Redis takes the write, a refresh token that was exchanged is refused as revoked as long as it
-- has not expired, and nothing is written, when the token verified as one that had not expired. Where
-- Redis does not take it, the exchange succeeds all the same, with the same tokens, and writes nothing.
pub refresh_token-once :
    (jwt : Jwt) (up : Bool) (now later : ℕ) (token : String) (c : Claims) (tokens : String × String)
    (db : Db)
    → jwt.verify now token ≡ some c
    → now / 1000 < c.exp
    → later < c.exp * 1000
    → (refresh_token jwt true now token db).0 ≡ ok tokens
    → (refresh_token jwt up later token (refresh_token jwt true now token db).1
        ≡ (err (unauthorized auth_refresh_revoked), (refresh_token jwt true now token db).1))
      × (refresh_token jwt false now token db ≡ (ok tokens, db))
unfolding refresh_token is_token_blacklisted blacklist_refresh_token redis_get redis_set find_first
    ◌>>◌
refresh_token-once jwt up now later token c tokens db v l r h =
    (ground (arith, h, v, l, r, eq_refl (blacklist_key token)), ground (arith, h, v))

consumed :
    (codec : Codec) (later last : ℕ) (user_id token : String) (db : Db)
    → consume_session codec true last user_id token
        (consume_session codec true later user_id token db).1
      ≡ (ok false, (consume_session codec true later user_id token db).1)
unfolding consume_session redis_get redis_del ◌>>◌
consumed codec later last user_id token db =
    let key = session_key user_id (codec.hash_token token) in
    ground (arith, deleted last key db.redis, delete_many_twice (has_key key) db.redis)

module _ (codec : Codec) (now later last : ℕ) (user_id token : String) (agent : Option String)
    (db : Db) where
  -- While Redis answers, a session that was recorded is active until its time to live is over, the
  -- first request that consumes it before then wins, and whoever consumes it after that finds none
  -- and changes nothing.
  pub consume_session-once :
      later < now + resolve_ttl codec now token * 1000
      → let recorded = (record_session codec true now user_id token agent db).1 in
        let taken = consume_session codec true later user_id token recorded in
        (has_active_session codec true later user_id token recorded ≡ (ok true, recorded))
        × (taken.0 ≡ ok true)
        × (consume_session codec true last user_id token taken.1 ≡ (ok false, taken.1))
  unfolding record_session consume_session has_active_session redis_get redis_set redis_del
      find_first ◌>>◌
  consume_session-once h =
      let key = session_key user_id (codec.hash_token token) in
      let recorded = (record_session codec true now user_id token agent db).1 in
      (
        ground (arith, h, eq_refl key),
        ground (arith, h, eq_refl key),
        consumed codec later last user_id token recorded,
      )
