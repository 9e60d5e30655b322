-- ===== src/Db/Redis.antt =====
-- config/redis.js: the commands of Redis that the services send, on keys with an expiry.
use qpass_backend.Prelude.{ℕ, ◌+◌, ◌*◌, String, Bool, ◌&&◌, Option, none, some, ◌∷◌, ◌==◌, ltb}
use qpass_backend.Prelude.Tables.{find_first, delete_many}
use qpass_backend.Db.Rows.{Db, RedisKey}

abbrev pub has_key : String → RedisKey → Bool
has_key key k = k.key == key

-- A key that has not expired.
abbrev pub holds : ℕ → String → RedisKey → Bool
holds now key k = has_key key k && ltb now k.expires_at

abbrev value_of : Option RedisKey → Option String
value_of none = none
value_of (some k) = some k.value

-- redis.get(key)
unfoldable pub redis_get : ℕ → String → Db → Option String
redis_get now key db = value_of (find_first (holds now key) db.redis)

-- redis.set(key, value, "EX", seconds)
unfoldable pub redis_set : ℕ → String → String → ℕ → Db → Db
redis_set now key value seconds db = record db {
  redis =
      record { key = key; value = value; expires_at = now + seconds * 1000 }
      ∷ delete_many (has_key key) db.redis;
}

-- redis.del(key)
unfoldable pub redis_del : String → Db → Db
redis_del key db = record db { redis = delete_many (has_key key) db.redis }
