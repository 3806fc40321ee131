-- ===== src/Async/Caching.antt =====
-- redis_kit/cache/async_cache.py.
use Prim.Native.String.{count}
use redis_kit.Common.{
  ℕ, suc, nat_eq, ◌==◌, ◌+◌, String, Bool, true, false, ◌&&◌, Option, none, some, List, [], ◌∷◌,
  ◌++◌, map, length, leb, Error, Result, ok, err, if◌then◌else◌, Exec,
}
use redis_kit.Common.Keys.{joined, drop_chars}
use redis_kit.Common.Integers.{ℤ}
use redis_kit.Redis.Keyspace.{Datum, Keyspace}
use redis_kit.Async.Task.{Task, done, await, pure, raise, at_once, command, caught, ◌>>=◌, ◌>>◌}
use redis_kit.Cache.Ttl.{Ttl}
use redis_kit.Cache.Pipeline.{Fetched, miss, hit, encode, decode}
use redis_kit.Cache.Policy.{
  OnConnectionError, callback, apply_fallback_policy, is_fallback_error, Phase, before, after,
  error, World, notify, send,
}
use redis_kit.Cache.Client.{Cache, make_key, resolve_ttl, or_none, write_command}
use redis_kit.Cache.Bulk.{pipeline}
use redis_kit.Async.CachingLoops.{zip, raw_values, decode_all, nones, plain, base_of, set_commands}

-- `is_awaitable` says whether what the callback of the policy returns is to be awaited; what it
-- gives, awaited or not, is the callback's result.
pub record AsyncCache {ℓ} (V : Type ℓ) : Type ℓ where
  pub base : Cache V
  pub is_awaitable : String → String → Error → Bool

abbrev is_callback : OnConnectionError → Bool
is_callback callback = true
is_callback _ = false

module _ {ℓ} {V : Type ℓ} (self : AsyncCache V) where
  -- `_handle_fallback`
  unfoldable pub handle_fallback {κ} :
      {D : Type κ} → Error → String → String → D → (Option V → D) → Task World D
  handle_fallback e cmd key default returned =
      let fallback = self.base.fallback in
      let result = apply_fallback_policy fallback e cmd key default returned in
      if is_fallback_error e
        && is_callback fallback.on_connection_error
        && self.is_awaitable cmd key e
      then await (λ w. w) (λ _. done result)
      else done result

  abbrev pub note : Phase → String → String → Task World (Unit {0})
  note p cmd key = at_once (notify p cmd key)

  -- What comes after `before` in a command that returns a value of its own.
  abbrev pub got : String → Result (Option Datum) → Task World (Fetched V)
  got key (err e) = note error "GET" key >> handle_fallback e "GET" key miss hit
  got key (ok raw) = do
    value ← done (decode self.base.pipeline raw)
    note after "GET" key
    pure value

  unfoldable pub get_raw : String → Task World (Fetched V)
  get_raw key = do
    note before "GET" key
    reply ← caught (command (send (self.base.client.get (make_key self.base key))))
    got key reply

  unfoldable pub get : String → Task World (Option V)
  unfolding get_raw
  get key = do value ← get_raw key; pure (or_none self.base value)

  -- The branches behind the `try` of a command without a result.
  abbrev pub finished {κ} : {A : Type κ} → String → String → Result A → Task World (Unit {0})
  finished cmd key (err e) = note error cmd key >> handle_fallback e cmd key tt (λ _. tt)
  finished cmd key (ok _) = note after cmd key

  unfoldable pub set : String → Option V → Option Ttl → Task World (Unit {0})
  set key value ttl = do
    encoded ← done (encode self.base.pipeline value)
    resolved_ttl ← done (resolve_ttl self.base ttl)
    note before "SET" key
    reply ←
        caught
          (command (send (write_command self.base (make_key self.base key) encoded resolved_ttl)))
    finished "SET" key reply

  unfoldable pub delete : String → Task World (Unit {0})
  delete key = do
    note before "DELETE" key
    reply ← caught (command (send (self.base.client.del (make_key self.base key))))
    finished "DELETE" key reply

  unfoldable pub ttl : String → Task World ℤ
  ttl key = command (send (self.base.client.ttl (make_key self.base key)))

  unfoldable pub pttl : String → Task World ℤ
  pttl key = command (send (self.base.client.pttl (make_key self.base key)))

  unfoldable pub persist : String → Task World (Unit {0})
  persist key = do _ ← command (send (self.base.client.persist (make_key self.base key))); pure tt

  unfoldable pub expire : String → ℕ → Task World (Unit {0})
  expire key seconds = do
    _ ← command (send (self.base.client.expire (make_key self.base key) seconds))
    pure tt

  -- `when` in milliseconds.
  unfoldable pub expire_at : String → ℕ → Task World (Unit {0})
  expire_at key when = do
    _ ← command (send (self.base.client.expireat (make_key self.base key) when))
    pure tt

  abbrev pub or_compute :
      Task World (Option V) → String → Option Ttl → Fetched V → Task World (Option V)
  or_compute factory key ttl (hit v) = pure v
  or_compute factory key ttl miss = do value ← factory; set key value ttl; pure value

  -- `factory` is a coroutine, or what a plain call does, at once.
  unfoldable pub remember : String → Task World (Option V) → Option Ttl → Task World (Option V)
  unfolding get_raw set
  remember key factory ttl = do value ← get_raw key; or_compute factory key ttl value

  unfoldable pub get_many_raw : List String → Task World (List (String × Fetched V))
  get_many_raw [] = pure []
  get_many_raw (k ∷ ks) = do
    raws ← command (send (raw_values self.base (map (make_key self.base) (k ∷ ks))))
    done (decode_all self.base (zip (k ∷ ks) raws) [])

  abbrev pub got_many :
      (List (String × Option V) → Option V → List (String × Option V))
      → List String
      → Result (List (String × Fetched V))
      → Task World (List (String × Option V))
  got_many from_callback keys (err e) =
      note error "GET_MANY" (joined keys)
      >> handle_fallback e "GET_MANY" (joined keys) (nones self.base keys [])
          (from_callback (nones self.base keys []))
  got_many from_callback keys (ok raw) = do
    note after "GET_MANY" (joined keys)
    pure (plain self.base raw)

  unfoldable pub get_many :
      (List (String × Option V) → Option V → List (String × Option V))
      → List String
      → Task World (List (String × Option V))
  unfolding get_many_raw
  get_many from_callback keys = do
    note before "GET_MANY" (joined keys)
    raw_result ← caught (get_many_raw keys)
    got_many from_callback keys raw_result

  abbrev pub executed : Result (List (Exec Keyspace (Unit {0}))) → Task World (List (Unit {0}))
  executed (err e) = raise e
  executed (ok ms) = command (send (pipeline ms))

  abbrev pub set_many_from : List (String × Option V) → Result (Option ℕ) → Task World (Unit {0})
  set_many_from mapping base = do
    base_ttl ← done base
    note before "SET_MANY" (joined (map (λ m. m.0) mapping))
    reply ← caught (executed (set_commands self.base base_ttl 0 mapping))
    finished "SET_MANY" (joined (map (λ m. m.0) mapping)) reply

  unfoldable pub set_many : List (String × Option V) → Option Ttl → Task World (Unit {0})
  set_many mapping ttl = set_many_from mapping (base_of self.base ttl)

  unfoldable pub flush_delete_batch : List String → Task World (Unit {0})
  flush_delete_batch batch =
      if self.base.is_cluster
      then (do _ ← command (send (pipeline (map self.base.client.del batch))); pure tt)
      else command (send (self.base.client.del_many batch))

  -- The loop of `delete_pattern`: each key comes out of the awaited scan.
  unfoldable pub delete_loop : ℕ → Option Error → List String → ℕ → List String → Task World ℕ
  delete_loop batch_size ended [] count batch = elim ended [
    | some e ↦ raise e
    | none ↦ elim batch [
      | [] ↦ pure count
      | b ∷ bs ↦ flush_delete_batch (b ∷ bs) >> pure (count + length (b ∷ bs))
    ]
  ]
  delete_loop batch_size ended (key ∷ keys) count batch =
      let batch' = batch ++ key ∷ [] in
      let go_on = delete_loop batch_size ended keys count batch' in
      let start_anew = delete_loop batch_size ended keys (count + length batch') [] in
      await (λ w. w)
        (λ _.
          if leb batch_size (length batch') then flush_delete_batch batch' >> start_anew else go_on)

  abbrev pub delete_reported : String → Result ℕ → Task World ℕ
  delete_reported pattern' (err e) = note error "DELETE_PATTERN" pattern' >> raise e
  delete_reported pattern' (ok count) = note after "DELETE_PATTERN" pattern' >> pure count

  unfoldable pub delete_pattern : List String → Option Error → String → ℕ → Task World ℕ
  delete_pattern found ended pattern' batch_size = do
    note before "DELETE_PATTERN" pattern'
    reply ← caught (delete_loop batch_size ended found 0 [])
    delete_reported pattern' reply

  -- The keys that the awaited `scan_iter` yields for the pattern, without the prefix.
  unfoldable pub iter_keys : List String → Task World (List String)
  iter_keys full_keys =
      let prefix = self.base.prefix in
      let prefix_len : ℕ = if prefix == "" then 0 else suc (count prefix) in
      await (λ w. w)
        (λ _.
          pure (map (λ k. if nat_eq prefix_len 0 then k else drop_chars prefix_len k) full_keys))

-- `AsyncBoundCache`
pub record AsyncBoundCache {ℓ} (V : Type ℓ) : Type ℓ where
  pub cache : AsyncCache V
  pub key : String

-- `AsyncCache.bind`
unfoldable pub bind {ℓ} : {V : Type ℓ} → AsyncCache V → String → AsyncBoundCache V
bind cache key = record { cache = cache; key = key }

module _ {ℓ} {V : Type ℓ} (self : AsyncBoundCache V) where
  unfoldable pub bound_get : Task World (Option V)
  bound_get = get self.cache self.key

  unfoldable pub bound_set : Option V → Option Ttl → Task World (Unit {0})
  bound_set value ttl = set self.cache self.key value ttl

  unfoldable pub bound_delete : Task World (Unit {0})
  bound_delete = delete self.cache self.key

  unfoldable pub bound_ttl : Task World ℤ
  bound_ttl = ttl self.cache self.key

  unfoldable pub bound_pttl : Task World ℤ
  bound_pttl = pttl self.cache self.key

  unfoldable pub bound_persist : Task World (Unit {0})
  bound_persist = persist self.cache self.key

  unfoldable pub bound_expire : ℕ → Task World (Unit {0})
  bound_expire seconds = expire self.cache self.key seconds

  unfoldable pub bound_expire_at : ℕ → Task World (Unit {0})
  bound_expire_at when = expire_at self.cache self.key when
