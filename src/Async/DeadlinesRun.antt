-- ===== src/Async/DeadlinesRun.antt =====
-- The commands of `AsyncCache` on the deadline of a key, and its scan, against those of `Cache`.
use redis_kit.Common.{ℕ, String, List, ◌≡◌, refl, Result, ok, err, Exec, continue}
use redis_kit.Redis.Keyspace.{Keyspace}
use redis_kit.Async.Task.{done, command, pure, run, ◌>>=◌}
use redis_kit.Cache.Policy.{World, send}
use redis_kit.Cache.Client
use redis_kit.Cache.Client.{make_key}
use redis_kit.Async.Caching.{AsyncCache, ttl, pttl, persist, expire, expire_at, iter_keys}

dropped {ℓ} :
    {A : Type ℓ} (m : Exec Keyspace A) (w : World)
    → Path
        (Result (Unit {0}) × World)
        (run (command (send m) >>= λ _. pure tt) w)
        (continue (send m w).0 (λ _ u. (ok tt, u)) (send m w).1)
unfolding run
dropped {A = A} m w = replied (m w.store).0 (record w { store = (m w.store).1 })
  where
    replied :
        (reply : Result A) (u : World)
        → Path
            (Result (Unit {0}) × World)
            (run (done reply >>= λ _. pure tt) u)
            (continue reply (λ _ t. (ok tt, t)) u)
    replied (err e) u = refl
    replied (ok a) u = refl

module _ {ℓ} {V : Type ℓ} (self : AsyncCache V) where
  -- What the commands on a deadline and the scan do.
  pub run-deadlines :
      (key : String) (seconds when : ℕ) (full_keys : List String) (w : World)
      → (run (ttl self key) w ≡ Client.ttl self.base key w)
        × (run (pttl self key) w ≡ Client.pttl self.base key w)
        × (run (persist self key) w ≡ Client.persist self.base key w)
        × (run (expire self key seconds) w ≡ Client.expire self.base key seconds w)
        × (run (expire_at self key when) w ≡ Client.expire_at self.base key when w)
        × (run (iter_keys self full_keys) w ≡ (ok (Client.iter_keys self.base full_keys), w))
  unfolding ttl pttl persist expire expire_at iter_keys Client.ttl Client.pttl Client.persist
      Client.expire Client.expire_at Client.iter_keys run
  run-deadlines key seconds when full_keys w = (
    refl,
    refl,
    dropped (self.base.client.persist (make_key self.base key)) w,
    dropped (self.base.client.expire (make_key self.base key) seconds) w,
    dropped (self.base.client.expireat (make_key self.base key) when) w,
    refl,
  )
