-- ===== src/Cache/Client.antt =====
-- `CacheBase` of redis_kit/cache/_base.py and `Cache` of redis_kit/cache/cache.py.
use Prim.Native.String.{◌++◌, count}
use redis_kit.Common.{
  ℕ, suc, String, ◌==◌, Bool, Option, none, some, Error, Result, ok, err, Exec, pure, ◌>>=◌, ◌>>◌,
  if◌then◌else◌, List, map, nat_eq,
}
use redis_kit.Common.Keys.{drop_chars}
use redis_kit.Redis.Keyspace.{Datum, Keyspace}
use redis_kit.Common.Integers.{ℤ}
use redis_kit.Redis.Server.{Redis}
use redis_kit.Cache.Pipeline.{apply_jitter, Fetched, miss, hit, DataPipeline, encode, decode}
use redis_kit.Cache.Ttl.{Letters, Ttl, parse_ttl}
use redis_kit.Cache.Policy.{
  FallbackPolicy, apply_fallback_policy, before, after, error, World, notify, send,
}

-- `draw` gives what `random` draws during a call, in order; `share` is `int(ttl * ttl_jitter)`.
pub record Cache {ℓ} (V : Type ℓ) : Type ℓ where
  pub client : Redis
  pub prefix : String
  pub pipeline : DataPipeline V
  pub fallback : FallbackPolicy V
  pub is_cluster : Bool
  pub letters : Letters
  pub share : ℕ → ℕ
  pub no_jitter : Bool
  pub draw : ℕ → ℕ

module _ {ℓ} {V : Type ℓ} (self : Cache V) where
  unfoldable pub make_key : String → String
  make_key key = if self.prefix == "" then key else self.prefix ++ ":" ++ key

  unfoldable pub resolve_ttl : Option Ttl → Result (Option ℕ)
  resolve_ttl none = ok none
  resolve_ttl (some ttl) = elim (parse_ttl self.letters ttl) [
    | ok n ↦ ok (some (apply_jitter self.share self.no_jitter (self.draw 0) n))
    | err e ↦ err e
  ]

  -- The `except` branch of a read: the hooks first, then the policy.
  abbrev pub read_failed : String → Error → Exec World (Fetched V)
  read_failed key e =
      notify error "GET" key >> λ w. (apply_fallback_policy self.fallback e "GET" key miss hit, w)

  abbrev pub decoded : String → Option Datum → Exec World (Fetched V)
  decoded key raw = elim (decode self.pipeline raw) [
    | err e ↦ λ w. (err e, w)
    | ok value ↦ notify after "GET" key >> pure value
  ]

  unfoldable pub get_raw : String → Exec World (Fetched V)
  get_raw key = do
    notify before "GET" key
    λ w.
        let (reply, w') = send (self.client.get (make_key key)) w in
        elim reply [ err e ↦ read_failed key e w' | ok raw ↦ decoded key raw w' ]

  abbrev pub or_none : Fetched V → Option V
  or_none miss = none
  or_none (hit v) = v

  unfoldable pub get : String → Exec World (Option V)
  unfolding get_raw
  get key = do value ← get_raw key; pure (or_none value)

  -- The `except` branch of a write: what the policy returns is dropped, what it raises is raised.
  abbrev pub write_failed : String → String → Error → Exec World (Unit {0})
  write_failed command key e = notify error command key >> λ w.
      (apply_fallback_policy self.fallback e command key tt (λ _. tt), w)

  abbrev pub write_command : String → Datum → Option ℕ → Exec Keyspace (Unit {0})
  write_command full_key d (some (suc t)) = self.client.setex full_key (suc t) d
  write_command full_key d _ = self.client.set full_key d

  abbrev pub finished {ι} : {A : Type ι} → String → String → Exec Keyspace A → Exec World (Unit {0})
  finished command key m w =
      let (reply, w') = send m w in
      elim reply [ err e ↦ write_failed command key e w' | ok _ ↦ notify after command key w' ]

  unfoldable pub set : String → Option V → Option Ttl → Exec World (Unit {0})
  set key value ttl = do
    encoded ← λ w. (encode self.pipeline value, w)
    resolved_ttl ← λ w. (resolve_ttl ttl, w)
    notify before "SET" key
    finished "SET" key (write_command (make_key key) encoded resolved_ttl)

  unfoldable pub delete : String → Exec World (Unit {0})
  delete key = do notify before "DELETE" key; finished "DELETE" key (self.client.del (make_key key))

  abbrev pub or_compute :
      Exec World (Option V) → String → Option Ttl → Fetched V → Exec World (Option V)
  or_compute factory key ttl (hit v) = pure v
  or_compute factory key ttl miss = do value ← factory; set key value ttl; pure value

  unfoldable pub remember : String → Exec World (Option V) → Option Ttl → Exec World (Option V)
  remember key factory ttl = do value ← get_raw key; or_compute factory key ttl value

  unfoldable pub expire : String → ℕ → Exec World (Unit {0})
  expire key seconds = send (self.client.expire (make_key key) seconds) >>= λ _. pure tt

  unfoldable pub ttl : String → Exec World ℤ
  ttl key = send (self.client.ttl (make_key key))

  unfoldable pub pttl : String → Exec World ℤ
  pttl key = send (self.client.pttl (make_key key))

  unfoldable pub persist : String → Exec World (Unit {0})
  persist key = send (self.client.persist (make_key key)) >>= λ _. pure tt

  -- `when` in milliseconds.
  unfoldable pub expire_at : String → ℕ → Exec World (Unit {0})
  expire_at key when = send (self.client.expireat (make_key key) when) >>= λ _. pure tt

  -- The keys that `scan_iter` yields for the pattern, without the prefix.
  unfoldable pub iter_keys : List String → List String
  iter_keys full_keys =
      let prefix_len : ℕ = if self.prefix == "" then 0 else suc (count self.prefix) in
      map (λ k. if nat_eq prefix_len 0 then k else drop_chars prefix_len k) full_keys
