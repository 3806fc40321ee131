-- ===== src/Repository/Scripts.antt =====
-- redis_kit/repository/_lua.py. The server runs a script as one step; 1 and 0 are Booleans here.
use redis_kit.Common.{
  suc, String, Bool, true, false, not, Option, none, some, [], ◌∷◌, Exec, pure, ◌>>=◌, ◌>>◌,
  if◌then◌else◌,
}
use redis_kit.Common.Integers.{ℤ, pos}
use redis_kit.Redis.Keyspace.{Datum, datum_eq, Fields, Keyspace}
use redis_kit.Redis.Server.{Redis}

-- `current ~= expected_version`, for a version that is there.
abbrev pub differs : Option Datum → Datum → Bool
differs none expected = false
differs (some d) expected = not (datum_eq d expected)

-- `current == false or current ~= expected_version`
abbrev pub absent_or_differs : Option Datum → Datum → Bool
absent_or_differs none expected = true
absent_or_differs (some d) expected = not (datum_eq d expected)

module _ (r : Redis) (encode : Fields → Datum) where
  -- HSET of the new fields, if there are any.
  abbrev pub write_fields : String → Fields → Exec Keyspace (Unit {0})
  write_fields key [] = pure tt
  write_fields key (f ∷ l) = r.hset key (f ∷ l)

  abbrev pub trim : String → ℤ → Exec Keyspace (Unit {0})
  trim history_key (pos (suc n)) = r.ltrim history_key (suc n)
  trim history_key _ = pure tt

  -- The history gets what the hash held before; `encode` is `cjson.encode`.
  abbrev pub append_history : String → ℤ → Fields → Exec Keyspace (Unit {0})
  append_history history_key max_history [] = pure tt
  append_history history_key max_history (f ∷ l) =
      r.lpush history_key (encode (f ∷ l)) >> trim history_key max_history

  unfoldable pub optimistic_lock_set : String → String → Datum → ℤ → Fields → Exec Keyspace Bool
  optimistic_lock_set key history_key expected_version max_history field_args = do
    current ← r.hget key "version"
    if differs current expected_version then pure false else do
      old_data ← r.hgetall key
      write_fields key field_args
      append_history history_key max_history old_data
      pure true

  unfoldable pub optimistic_lock_partial_set :
      String → String → Datum → ℤ → Fields → Exec Keyspace Bool
  optimistic_lock_partial_set key history_key expected_version max_history field_args = do
    current ← r.hget key "version"
    if absent_or_differs current expected_version then pure false else do
      old_data ← r.hgetall key
      write_fields key field_args
      append_history history_key max_history old_data
      pure true
