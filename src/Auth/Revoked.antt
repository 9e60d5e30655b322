-- ===== src/Auth/Revoked.antt =====
-- modules/auth: after a password was changed or reset, no session of the user is left.
use qpass_backend.Prelude.{
  ℕ, ◌≤◌, String, ◌≡◌, sym, ◌∙◌, ap, Bool, true, false, ◌==◌, eq_iff, none, some, List, [], ◌∷◌,
  map, arith, inl, inr, Bool-cases, is_some,
}
use qpass_backend.Prelude.Tables.{
  find_first, update_many, delete_many, find_first-none, find_first-none_delete,
  find_first-delete_many,
}
use qpass_backend.Db.{Db, RedisKey, ok, ◌>>◌, write_audit_log}
use qpass_backend.Db.Redis.{has_key, holds, redis_get, redis_del}
use qpass_backend.Db.Users.{is_user, update_user}
use qpass_backend.Import.Validate.{has}
use qpass_backend.Auth.Sessions.{session_key, Codec, has_active_session, revoke_session}
use qpass_backend.Auth.Keys.{session_pattern, id_of, has_no_colon, id_of-session_key}
use qpass_backend.Auth.Revocation.{
  scan_keys, Session, RedisClient, session_of, list_sessions, revoke_each, revoke_all_sessions,
}
use qpass_backend.Auth.Passwords.{reset_key, with_password, reset_password, change_password}

-- A key that is gone stays gone while sessions are revoked.
revoke_each-none :
    (now : ℕ) (key user_id : String) (ss : List Session) (db : Db)
    → find_first (holds now key) db.redis ≡ none
    → find_first (holds now key) (revoke_each true user_id none ss db).1.redis ≡ none
unfolding revoke_each revoke_session redis_del ◌>>◌
revoke_each-none now key user_id [] db h = h
revoke_each-none now key user_id (s ∷ ss) db h =
    revoke_each-none now key user_id ss (redis_del (session_key user_id s.id) db)
      (find_first-none_delete (holds now key) (has_key (session_key user_id s.id)) db.redis h)

-- The session of a key that was listed is revoked.
revoke_each-listed :
    (redis : RedisClient) (now later : ℕ) (user_id id : String) (keys : List String) (seen db : Db)
    → has_no_colon id ≡ true
    → has (session_key user_id id) keys ≡ true
    → find_first
        (holds later (session_key user_id id))
        (revoke_each true user_id none (map (session_of redis now seen) keys) db).1.redis
      ≡ none
unfolding has revoke_each revoke_session redis_del ◌>>◌
revoke_each-listed redis now later user_id id [] seen db c h = ground arith
revoke_each-listed redis now later user_id id (k ∷ ks) seen db c h =
    let key = session_key user_id id in
    let db' = redis_del (session_key user_id (id_of k)) db in
    elim (Bool-cases (key == k)) [
      | inr e ↦ revoke_each-listed redis now later user_id id ks seen db' c (ground (arith, h, e))
      | inl e ↦
          let same : id_of k ≡ id =
            ap id_of (sym ((eq_iff key k).0 e)) ∙ id_of-session_key user_id id c in
          revoke_each-none later key user_id (map (session_of redis now seen) ks) db' (
            rw same (
              find_first-none (has_key key) (holds later key) (delete_many (has_key key) db.redis)
                (λ x y. ground (arith, y)) (find_first-delete_many (has_key key) db.redis)))
    ]

module _ (redis : RedisClient) (now later : ℕ) (user_id : String) (up : redis.up ≡ true)
    (scanned : (ks : List RedisKey) (id : String)
      → is_some (find_first (holds now (session_key user_id id)) ks) ≡ true
      → has
          (session_key user_id id)
          (scan_keys redis.scan (session_pattern user_id) ks redis.rounds 0)
        ≡ true)
    (order : now ≤ later) where
  revoke_all_sessions-none :
      (id : String) (db : Db)
      → has_no_colon id ≡ true
      → find_first
          (holds later (session_key user_id id))
          (revoke_all_sessions redis now user_id none db).1.redis
        ≡ none
  unfolding revoke_all_sessions list_sessions ◌>>◌
  revoke_all_sessions-none id db c =
      let key = session_key user_id id in
      let keys = scan_keys redis.scan (session_pattern user_id) db.redis redis.rounds 0 in
      rw up (elim (Bool-cases (is_some (find_first (holds now key) db.redis))) [
        | inl e ↦ revoke_each-listed redis now later user_id id keys db db c (scanned db.redis id e)
        | inr e ↦ revoke_each-none later key user_id (map (session_of redis now db) keys) db (
            find_first-none (holds now key) (holds later key) db.redis
              (λ k h. ground (arith, h, order)) (ground (arith, e)))
      ])

  module _ (codec : Codec) (refresh_token : String)
      (hex : has_no_colon (codec.hash_token refresh_token) ≡ true) (db : Db) where
    -- While Redis answers, its SCAN finds every key that is there, and hashes hold no colon: once a
    -- password was changed, no refresh token that the user held is an active session any more.
    pub change_password-no_session :
        (compare_password : String → String → Bool) (current password_hash : String)
        → (change_password compare_password redis now user_id current password_hash db).0 ≡ ok true
        → let after =
            (change_password compare_password redis now user_id current password_hash db).1 in
          has_active_session codec true later user_id refresh_token after ≡ (ok false, after)
    unfolding change_password update_user has_active_session redis_get write_audit_log ◌>>◌
    change_password-no_session compare_password current password_hash h =
        let d : Db = record db {
          users = update_many (is_user user_id) (with_password password_hash) db.users;
        } in
        ground (arith, h, revoke_all_sessions-none (codec.hash_token refresh_token) d hex)

    -- The same once a password was reset by a token that was sent to the user, which is then spent.
    pub reset_password-no_session :
        (token password_hash : String)
        → redis_get now (reset_key token) db ≡ some user_id
        → (reset_password redis now token password_hash db).0 ≡ ok true
        → let after = (reset_password redis now token password_hash db).1 in
          (has_active_session codec true later user_id refresh_token after ≡ (ok false, after))
    unfolding reset_password update_user has_active_session redis_get redis_del write_audit_log ◌>>◌
    reset_password-no_session token password_hash stored h =
        let d : Db = record db {
          users = update_many (is_user user_id) (with_password password_hash) db.users;
          redis = delete_many (has_key (reset_key token)) db.redis;
        } in
        ground (arith, h, stored, revoke_all_sessions-none (codec.hash_token refresh_token) d hex)
