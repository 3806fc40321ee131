-- ===== src/Cache/TieredBulk.antt =====
-- The methods of `TieredCache` in redis_kit/cache/tiered.py that work on several keys or on the
-- deadline of one, and `BoundTieredCache`.
use redis_kit.Common.{
  ℕ, suc, String, Option, none, some, List, [], ◌∷◌, length, Error, Exec, pure, ◌>>=◌, ◌>>◌,
}
use redis_kit.Common.Integers.{ℤ}
use redis_kit.Cache.Local.{size}
use redis_kit.Cache.Pipeline.{Fetched, miss, hit}
use redis_kit.Cache.Ttl.{Ttl}
use redis_kit.Cache.Bulk
use redis_kit.Cache.Bulk.{put_in}
use redis_kit.Cache.Client
use redis_kit.Cache.Tiered
use redis_kit.Cache.Tiered.{
  Slot, negative, value, Tiers, TieredCache, Moment, l1_get, l1_set, on_l2, clear_local,
}

module _ {V : Type 0} (self : TieredCache V) where
  -- The first loop of `get_many`: the dictionary so far, and the keys that the local cache has not.
  -- The n-th access to the local cache happens at the n-th moment.
  unfoldable pub look_up :
      (ℕ → Moment)
      → ℕ
      → List String
      → List (String × Option V)
      → Exec (Tiers V) (List (String × Option V) × List String)
  look_up m n [] result = pure (result, [])
  look_up m n (key ∷ keys) result = do
    local_val ← l1_get self (m n) key
    elim local_val [
      | some negative ↦ look_up m (suc n) keys (put_in key none result)
      | some (value v) ↦ look_up m (suc n) keys (put_in key v result)
      | none ↦ do found ← look_up m (suc n) keys result; pure (found.0, key ∷ found.1)
    ]

  -- The second loop, over what Redis had.
  unfoldable pub fill_in :
      (ℕ → Moment)
      → ℕ
      → List (String × Fetched V)
      → List (String × Option V)
      → Exec (Tiers V) (List (String × Option V))
  fill_in m n [] result = pure result
  fill_in m n ((key, hit v) ∷ l) result = do
    l1_set self (m n) key (value v) none
    fill_in m (suc n) l (put_in key v result)
  fill_in m n ((key, miss) ∷ l) result = do
    l1_set self (m n) key negative (some self.negative_ttl)
    fill_in m (suc n) l (put_in key none result)

  abbrev pub fetch_rest :
      (ℕ → Moment)
      → ℕ
      → List (String × Option V) × List String
      → Exec (Tiers V) (List (String × Option V))
  fetch_rest m n (result, []) = pure result
  fetch_rest m n (result, k ∷ l2_keys) = do
    l2_result ← on_l2 self (Bulk.get_many_raw self.l2 (k ∷ l2_keys))
    fill_in m n l2_result result

  unfoldable pub get_many : (ℕ → Moment) → List String → Exec (Tiers V) (List (String × Option V))
  get_many m keys = do found ← look_up m 0 keys []; fetch_rest m (length keys) found

  unfoldable pub set_all_local :
      (ℕ → Moment) → ℕ → List (String × Option V) → Exec (Tiers V) (Unit {0})
  set_all_local m n [] = pure tt
  set_all_local m n ((key, v) ∷ mapping) = do
    l1_set self (m n) key (value v) none
    set_all_local m (suc n) mapping

  unfoldable pub set_many :
      (ℕ → Moment) → List (String × Option V) → Option Ttl → Exec (Tiers V) (Unit {0})
  set_many m mapping ttl = do
    on_l2 self (Bulk.set_many self.l2 mapping ttl)
    set_all_local m 0 mapping

  unfoldable pub delete_pattern : List String → Option Error → String → ℕ → Exec (Tiers V) ℕ
  delete_pattern found ended pattern' batch_size = do
    clear_local self
    on_l2 self (Bulk.delete_pattern self.l2 found ended pattern' batch_size)

  unfoldable pub iter_keys : List String → List String
  iter_keys full_keys = Client.iter_keys self.l2 full_keys

  unfoldable pub ttl : String → Exec (Tiers V) ℤ
  ttl key = on_l2 self (Client.ttl self.l2 key)

  unfoldable pub pttl : String → Exec (Tiers V) ℤ
  pttl key = on_l2 self (Client.pttl self.l2 key)

  unfoldable pub persist : String → Exec (Tiers V) (Unit {0})
  persist key = on_l2 self (Client.persist self.l2 key)

  unfoldable pub expire : String → ℕ → Exec (Tiers V) (Unit {0})
  expire key seconds = on_l2 self (Client.expire self.l2 key seconds)

  unfoldable pub expire_at : String → ℕ → Exec (Tiers V) (Unit {0})
  expire_at key when = on_l2 self (Client.expire_at self.l2 key when)

  unfoldable pub local_size : Tiers V → ℕ
  local_size s = size s.l1

pub record BoundTieredCache (V : Type 0) : Type 0 where
  pub cache : TieredCache V
  pub key : String

-- `TieredCache.bind`
unfoldable pub bind : {V : Type 0} → TieredCache V → String → BoundTieredCache V
bind cache key = record { cache = cache; key = key }

module _ {V : Type 0} (self : BoundTieredCache V) where
  unfoldable pub bound_get : Moment → Exec (Tiers V) (Option V)
  bound_get m = Tiered.get self.cache m self.key

  unfoldable pub bound_set : Moment → Option V → Option Ttl → Exec (Tiers V) (Unit {0})
  bound_set m v ttl = Tiered.set self.cache m self.key v ttl

  unfoldable pub bound_delete : Exec (Tiers V) (Unit {0})
  bound_delete = Tiered.delete self.cache self.key

  unfoldable pub bound_ttl : Exec (Tiers V) ℤ
  bound_ttl = ttl self.cache self.key
