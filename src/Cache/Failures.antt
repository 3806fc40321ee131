-- ===== src/Cache/Failures.antt =====
-- The cache when the client raises: the fallback policy, and the rounds over the hooks.
use redis_kit.Common.{
  String, ◌≡◌, Option, none, some, ◌∷◌, Error, redis_connection, redis_timeout, Result, ok, err,
  arith,
}
use redis_kit.Redis.Keyspace.{Keyspace}
use redis_kit.Cache.Policy.{
  raise_error, return_none, callback, FallbackPolicy, apply_fallback_policy, Phase, before, after,
  error, Note, World, notify,
}
use redis_kit.Cache.Client.{Cache, make_key, get_raw, get, delete}

-- What a policy makes of a command that could not reach the server.
abbrev pub unreachable {ℓ} :
    {V : Type ℓ} → FallbackPolicy V → String → String → Error → Result (Option V)
unreachable policy command key e = elim policy.on_connection_error [
  | raise_error ↦ err e
  | return_none ↦ ok none
  | callback ↦ elim policy.fallback [ none ↦ err e | some f ↦ f command key e ]
]

-- The table of what may be degraded: two of the errors.
abbrev pub degraded {ℓ} :
    {V : Type ℓ} → FallbackPolicy V → String → String → Error → Result (Option V)
degraded policy command key redis_connection = unreachable policy command key redis_connection
degraded policy command key redis_timeout = unreachable policy command key redis_timeout
degraded policy command key e = err e

abbrev pub without_value {ℓ} : {V : Type ℓ} → Result (Option V) → Result (Unit {0})
without_value (ok v) = ok tt
without_value (err e) = err e

abbrev pub note : Phase → String → String → Note
note p command key = record { phase = p; command = command; key = key }

module _ {ℓ} {V : Type ℓ} (self : Cache V) (key : String) (w : World) where
  -- What `get` and `delete` do when the client raises: a connection or timeout error is handled as
  -- the policy says (raised, `None`, or what the callback gives), and every other error is raised,
  -- whatever the policy is. The hooks see `before` and then `error`, and no `after`.
  pub get_failed :
      (e : Error) (s t : Keyspace)
      → self.client.get (make_key self key) w.store ≡ (err e, s)
      → self.client.del (make_key self key) w.store ≡ (err e, t)
      → ((get self key w).0 ≡ degraded self.fallback "GET" key e)
        × ((get self key w).1
            ≡ record { store = s; notes = note error "GET" key ∷ note before "GET" key ∷ w.notes })
        × ((delete self key w).0 ≡ without_value (degraded self.fallback "DELETE" key e))
        × ((delete self key w).1 ≡ record {
          store = t;
          notes = note error "DELETE" key ∷ note before "DELETE" key ∷ w.notes;
        })
  unfolding get get_raw delete notify apply_fallback_policy
  get_failed redis_connection s t failed failed' = ground (arith, failed, failed')
  get_failed redis_timeout s t failed failed' = ground (arith, failed, failed')
  get_failed e s t failed failed' = ground (arith, failed, failed')

  -- Every `delete` makes one round of `before` over the hooks and then one more: `after` if the
  -- client replied, and `error` if it raised.
  pub delete_notes :
      (delete self key w).1.notes
      ≡ note
          (elim (self.client.del (make_key self key) w.store).0 [ ok _ ↦ after | err _ ↦ error ])
          "DELETE"
          key
        ∷ note before "DELETE" key
        ∷ w.notes
  unfolding delete notify
  delete_notes = ground arith
