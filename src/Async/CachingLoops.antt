-- ===== src/Async/CachingLoops.antt =====
-- The loops of `get_many`, `_get_many_raw` and `set_many` in redis_kit/cache/async_cache.py.
use redis_kit.Common.{
  ℕ, suc, String, Option, none, some, List, [], ◌∷◌, map, Result, ok, err, Exec, if◌then◌else◌,
}
use redis_kit.Redis.Keyspace.{Datum, Keyspace}
use redis_kit.Cache.Ttl.{Ttl, parse_ttl}
use redis_kit.Cache.Pipeline.{apply_jitter, Fetched, miss, hit, encode, decode}
use redis_kit.Cache.Client.{Cache, make_key, write_command}
use redis_kit.Cache.Bulk.{pipeline, put_in}

-- `zip(keys, raw_values)`
unfoldable pub zip : List String → List (Option Datum) → List (String × Option Datum)
zip (k ∷ ks) (raw ∷ raws) = (k, raw) ∷ zip ks raws
zip _ _ = []

module _ {ℓ} {V : Type ℓ} (self : Cache V) where
  -- `pipe.execute()` or `mget`
  unfoldable pub raw_values : List String → Exec Keyspace (List (Option Datum))
  raw_values full_keys =
      if self.is_cluster
      then pipeline (map self.client.get full_keys)
      else self.client.mget full_keys

  -- The loop over the replies, with what the dictionary holds so far.
  unfoldable pub decode_all :
      List (String × Option Datum) → List (String × Fetched V) → Result (List (String × Fetched V))
  decode_all [] result = ok result
  decode_all ((key, raw) ∷ l) result = elim (decode self.pipeline raw) [
    | err e ↦ err e
    | ok v ↦ decode_all l (put_in key v result)
  ]

  -- `{k: None for k in keys}`
  unfoldable pub nones : List String → List (String × Option V) → List (String × Option V)
  nones [] result = result
  nones (k ∷ keys) result = nones keys (put_in k none result)

  -- `v if v is not _MISS else None`
  unfoldable pub plain : List (String × Fetched V) → List (String × Option V)
  plain [] = []
  plain ((k, hit v) ∷ raw_result) = (k, v) ∷ plain raw_result
  plain ((k, miss) ∷ raw_result) = (k, none) ∷ plain raw_result

  -- `base_ttl`
  unfoldable pub base_of : Option Ttl → Result (Option ℕ)
  base_of none = ok none
  base_of (some ttl) = elim (parse_ttl self.letters ttl) [ err e ↦ err e | ok n ↦ ok (some n) ]

  -- The loop that fills the pipeline; `n` counts what `random` has drawn.
  unfoldable pub set_commands :
      Option ℕ → ℕ → List (String × Option V) → Result (List (Exec Keyspace (Unit {0})))
  set_commands base_ttl n [] = ok []
  set_commands base_ttl n ((key, v) ∷ mapping) =
      let full_key = make_key self key in
      let resolved_ttl : Option ℕ = elim base_ttl [
        | none ↦ none
        | some t ↦ some (apply_jitter self.share self.no_jitter (self.draw n) t)
      ] in
      let rest = set_commands base_ttl (suc n) mapping in
      elim (encode self.pipeline v) [
        | err e ↦ err e
        | ok encoded ↦ elim rest [
          | err e ↦ err e
          | ok commands ↦ ok (write_command self full_key encoded resolved_ttl ∷ commands)
        ]
      ]
