-- ===== src/Lock/Scripts.antt =====
-- redis_kit/lock/_lua.py. The server runs a script as one step; 1 and 0 are returned as Booleans.
use redis_kit.Common.{
  ℕ, String, Bool, true, false, Option, none, some, [], ◌∷◌, response, Exec, pure, raise, ◌>>=◌,
  ◌>>◌, if◌then◌else◌,
}
use redis_kit.Common.Integers.{pos, negsuc, is_positive}
use redis_kit.Redis.Keyspace.{Datum, text, number, datum_eq, Keyspace}
use redis_kit.Redis.Server.{Redis}

-- `redis.call(…) == ARGV[1]`; a missing key is `false` in Lua.
abbrev pub matches : Option Datum → String → Bool
matches none owner = false
matches (some d) owner = datum_eq d (text owner)

abbrev pub found : Option Datum → Bool
found none = false
found (some _) = true

-- `tonumber(readers) > 0`; comparing nil raises a script error.
abbrev pub positive_number : Option Datum → Exec Keyspace Bool
positive_number none = pure false
positive_number (some (number n)) = pure (is_positive n)
positive_number (some (text _)) = raise response

module _ (r : Redis) where
  unfoldable pub release_lock : String → String → Exec Keyspace Bool
  release_lock key owner = do
    current ← r.get key
    if matches current owner then r.del key else pure false

  unfoldable pub reentrant_acquire : String → String → ℕ → Exec Keyspace Bool
  reentrant_acquire key owner timeout = do
    current ← r.hget key "owner"
    elim current [
      | none ↦ do
        r.hset key (("owner", text owner) ∷ ("count", number (pos 1)) ∷ [])
        _ ← r.expire key timeout
        pure true
      | some d ↦
          if datum_eq d (text owner)
          then (do _ ← r.hincrby key "count" (pos 1); _ ← r.expire key timeout; pure true)
          else pure false
    ]

  unfoldable pub reentrant_release : String → String → Exec Keyspace Bool
  reentrant_release key owner = do
    current ← r.hget key "owner"
    if matches current owner
        then (do
          count ← r.hincrby key "count" (negsuc 0)
          if is_positive count then pure true else do _ ← r.del key; pure true)
        else pure false

  unfoldable pub extend_lock : String → String → ℕ → Exec Keyspace Bool
  extend_lock key owner timeout = do
    current ← r.get key
    if matches current owner then r.expire key timeout else pure false

  unfoldable pub extend_reentrant_lock : String → String → ℕ → Exec Keyspace Bool
  extend_reentrant_lock key owner timeout = do
    current ← r.hget key "owner"
    if matches current owner then r.expire key timeout else pure false

  unfoldable pub read_acquire : String → String → ℕ → Exec Keyspace Bool
  read_acquire key writer_key timeout = do
    writer ← r.get writer_key
    if found writer
        then pure false
        else do _ ← r.hincrby key "readers" (pos 1); _ ← r.expire key timeout; pure true

  unfoldable pub read_release : String → Exec Keyspace Bool
  read_release key = do
    count ← r.hincrby key "readers" (negsuc 0)
    if is_positive count then pure true else do r.hdel key "readers"; pure true

  unfoldable pub write_acquire : String → String → String → ℕ → Exec Keyspace Bool
  write_acquire key writer_key owner timeout = do
    writer ← r.get writer_key
    if found writer then pure false else do
      readers ← r.hget key "readers"
      busy ← positive_number readers
      if busy then pure false else do r.setex writer_key timeout (text owner); pure true

  unfoldable pub write_release : String → String → Exec Keyspace Bool
  write_release writer_key owner = do
    current ← r.get writer_key
    if matches current owner then (do _ ← r.del writer_key; pure true) else pure false
