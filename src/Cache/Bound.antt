-- ===== src/Cache/Bound.antt =====
-- `BoundCache` of redis_kit/cache/cache.py.
use redis_kit.Common.{ℕ, String, Option, Exec}
use redis_kit.Common.Integers.{ℤ}
use redis_kit.Cache.Ttl.{Ttl}
use redis_kit.Cache.Policy.{World}
use redis_kit.Cache.Client
use redis_kit.Cache.Client.{Cache}

pub record BoundCache {ℓ} (V : Type ℓ) : Type ℓ where
  pub cache : Cache V
  pub key : String

-- `Cache.bind`
unfoldable pub bind {ℓ} : {V : Type ℓ} → Cache V → String → BoundCache V
bind cache key = record { cache = cache; key = key }

module _ {ℓ} {V : Type ℓ} (self : BoundCache V) where
  unfoldable pub get : Exec World (Option V)
  get = Client.get self.cache self.key

  unfoldable pub set : Option V → Option Ttl → Exec World (Unit {0})
  set value ttl = Client.set self.cache self.key value ttl

  unfoldable pub delete : Exec World (Unit {0})
  delete = Client.delete self.cache self.key

  unfoldable pub ttl : Exec World ℤ
  ttl = Client.ttl self.cache self.key

  unfoldable pub pttl : Exec World ℤ
  pttl = Client.pttl self.cache self.key

  unfoldable pub persist : Exec World (Unit {0})
  persist = Client.persist self.cache self.key

  unfoldable pub expire : ℕ → Exec World (Unit {0})
  expire seconds = Client.expire self.cache self.key seconds

  unfoldable pub expire_at : ℕ → Exec World (Unit {0})
  expire_at when = Client.expire_at self.cache self.key when
