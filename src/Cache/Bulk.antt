-- ===== src/Cache/Bulk.antt =====
-- The methods of `Cache` in redis_kit/cache/cache.py that work on several keys or on the deadline of
-- one, and `BoundCache`.
use redis_kit.Common.{
  ℕ, suc, ◌+◌, String, ◌==◌, Option, none, some, List, [], ◌∷◌, ◌++◌, map, length, leb, Error,
  Result, ok, err, Exec, pure, ◌>>=◌, ◌>>◌, if◌then◌else◌,
}
use redis_kit.Common.Keys.{joined}
use redis_kit.Redis.Keyspace.{Datum, Keyspace}
use redis_kit.Cache.Ttl.{Ttl, parse_ttl}
use redis_kit.Cache.Pipeline.{apply_jitter, Fetched, encode, decode}
use redis_kit.Cache.Policy.{apply_fallback_policy, before, after, error, World, notify, send}
use redis_kit.Cache.Client.{Cache, make_key, or_none, write_command, write_failed}

-- The commands of a pipeline that is no transaction: each is sent, and then the first error is raised.
module _ {ℓ} {A : Type ℓ} where
  abbrev pub cons_reply : Result A → Result (List A) → Result (List A)
  cons_reply (err e) rest = err e
  cons_reply (ok a) (err e) = err e
  cons_reply (ok a) (ok as') = ok (a ∷ as')

  unfoldable pub pipeline : List (Exec Keyspace A) → Exec Keyspace (List A)
  pipeline [] s = (ok [], s)
  pipeline (m ∷ ms) s = let rest = pipeline ms (m s).1 in (cons_reply (m s).0 rest.0, rest.1)

-- A dictionary that is filled key by key: a key that is there keeps its place.
module _ {ℓ} {A : Type ℓ} where
  unfoldable pub put_in : String → A → List (String × A) → List (String × A)
  put_in k v [] = (k, v) ∷ []
  put_in k v ((j, w) ∷ l) = if j == k then (k, v) ∷ l else (j, w) ∷ put_in k v l

module _ {ℓ} {V : Type ℓ} (self : Cache V) where
  -- The loop over the replies, with what the dictionary holds so far.
  unfoldable pub decode_all :
      List String
      → List (Option Datum)
      → List (String × Fetched V)
      → Result (List (String × Fetched V))
  decode_all (k ∷ ks) (raw ∷ raws) result = elim (decode self.pipeline raw) [
    | err e ↦ err e
    | ok v ↦ decode_all ks raws (put_in k v result)
  ]
  decode_all _ _ result = ok result

  abbrev pub many_raw : List String → Exec Keyspace (List (Option Datum))
  many_raw keys =
      if self.is_cluster
      then pipeline (map (λ k. self.client.get (make_key self k)) keys)
      else self.client.mget (map (make_key self) keys)

  unfoldable pub get_many_raw : List String → Exec World (List (String × Fetched V))
  get_many_raw [] w = (ok [], w)
  get_many_raw (k ∷ ks) w =
      let (reply, w') = send (many_raw (k ∷ ks)) w in
      elim reply [ err e ↦ (err e, w') | ok raws ↦ (decode_all (k ∷ ks) raws [], w') ]

  -- `{k: None for k in keys}`, and the dictionary that `_get_many_raw` gave with `None` for a miss.
  unfoldable pub nones : List String → List (String × Option V) → List (String × Option V)
  nones [] result = result
  nones (k ∷ ks) result = nones ks (put_in k none result)

  unfoldable pub plain : List (String × Fetched V) → List (String × Option V)
  plain [] = []
  plain ((k, v) ∷ l) = (k, or_none self v) ∷ plain l

  -- A callback stands for the whole dictionary; it gives one here or raises.
  abbrev pub many_failed :
      (List (String × Option V) → Option V → List (String × Option V))
      → List String
      → Error
      → Exec World (List (String × Option V))
  many_failed from_callback keys e = notify error "GET_MANY" (joined keys) >> λ w. (
    apply_fallback_policy self.fallback e "GET_MANY" (joined keys) (nones keys [])
        (from_callback (nones keys [])),
    w,
  )

  unfoldable pub get_many :
      (List (String × Option V) → Option V → List (String × Option V))
      → List String
      → Exec World (List (String × Option V))
  get_many from_callback keys = do
    notify before "GET_MANY" (joined keys)
    λ w.
        let (reply, w') = get_many_raw keys w in
        elim reply [
          | err e ↦ many_failed from_callback keys e w'
          | ok raw ↦ (notify after "GET_MANY" (joined keys) >> pure (plain raw)) w'
        ]

  unfoldable pub jittered : ℕ → Option ℕ → Option ℕ
  jittered n none = none
  jittered n (some t) = some (apply_jitter self.share self.no_jitter (self.draw n) t)

  -- The loop that fills the pipeline; `n` counts what `random` has drawn.
  unfoldable pub set_commands :
      Option ℕ → ℕ → List (String × Option V) → Result (List (Exec Keyspace (Unit {0})))
  set_commands base_ttl n [] = ok []
  set_commands base_ttl n ((key, v) ∷ mapping) =
      let resolved_ttl = jittered n base_ttl in
      let rest = set_commands base_ttl (suc n) mapping in
      elim (encode self.pipeline v) [
        | err e ↦ err e
        | ok d ↦ elim rest [
          | err e ↦ err e
          | ok ms ↦ ok (write_command self (make_key self key) d resolved_ttl ∷ ms)
        ]
      ]

  abbrev pub base_of : Option Ttl → Result (Option ℕ)
  base_of none = ok none
  base_of (some ttl) = elim (parse_ttl self.letters ttl) [ ok n ↦ ok (some n) | err e ↦ err e ]

  -- The `try` block: an exception of the serializer is handled as one of the client is.
  abbrev pub set_all : Option ℕ → List (String × Option V) → Exec Keyspace (List (Unit {0}))
  set_all base_ttl mapping = elim (set_commands base_ttl 0 mapping) [
    | err e ↦ λ s. (err e, s)
    | ok ms ↦ pipeline ms
  ]

  abbrev pub set_many_from : List (String × Option V) → Result (Option ℕ) → Exec World (Unit {0})
  set_many_from mapping base = do
    base_ttl ← λ w. (base, w)
    let keys_str = joined (map (λ m. m.0) mapping)
    notify before "SET_MANY" keys_str
    λ w.
        let (reply, w') = send (set_all base_ttl mapping) w in
        elim reply [
          | err e ↦ write_failed self "SET_MANY" keys_str e w'
          | ok _ ↦ notify after "SET_MANY" keys_str w'
        ]

  unfoldable pub set_many : List (String × Option V) → Option Ttl → Exec World (Unit {0})
  set_many mapping ttl = set_many_from mapping (base_of ttl)

  unfoldable pub flush_delete_batch : List String → Exec Keyspace (Unit {0})
  flush_delete_batch batch =
      if self.is_cluster
      then pipeline (map self.client.del batch) >>= (λ _. pure tt)
      else self.client.del_many batch

  -- The loop of `delete_pattern` over the keys that `scan_iter` yields, full keys, and how the
  -- iteration ends; `batch` is in the order in which the keys came.
  unfoldable pub delete_loop : ℕ → Option Error → List String → ℕ → List String → Exec Keyspace ℕ
  delete_loop batch_size ended [] count batch = elim ended [
    | some e ↦ λ s. (err e, s)
    | none ↦ elim batch [
      | [] ↦ pure count
      | b ∷ bs ↦ flush_delete_batch (b ∷ bs) >> pure (count + length (b ∷ bs))
    ]
  ]
  delete_loop batch_size ended (key ∷ keys) count batch =
      let batch' = batch ++ key ∷ [] in
      let go_on = delete_loop batch_size ended keys count batch' in
      let start_anew = delete_loop batch_size ended keys (count + length batch') [] in
      if leb batch_size (length batch') then flush_delete_batch batch' >> start_anew else go_on

  abbrev pub delete_reported : String → Result ℕ × World → Result ℕ × World
  delete_reported pattern' (err e, w) =
      (notify error "DELETE_PATTERN" pattern' >> λ v. (err e, v)) w
  delete_reported pattern' (ok count, w) = (notify after "DELETE_PATTERN" pattern' >> pure count) w

  -- `found` are the keys that the scan for the pattern yields.
  unfoldable pub delete_pattern : List String → Option Error → String → ℕ → Exec World ℕ
  delete_pattern found ended pattern' batch_size = do
    notify before "DELETE_PATTERN" pattern'
    λ w. delete_reported pattern' (send (delete_loop batch_size ended found 0 []) w)
