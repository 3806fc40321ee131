-- ===== src/Async/Tiered.antt =====
-- redis_kit/cache/async_tiered.py.
use redis_kit.Common.{ℕ, suc, String, Option, none, some, List, [], ◌∷◌, length, Error, ok}
use redis_kit.Common.Integers.{ℤ}
use redis_kit.Async.Task.{Task, done, step, await, pure, at_once, ◌>>=◌, ◌>>◌}
use redis_kit.Async.Caching
use redis_kit.Async.Caching.{AsyncCache}
use redis_kit.Cache.Local
use redis_kit.Cache.Pipeline.{Fetched, miss, hit}
use redis_kit.Cache.Policy.{World}
use redis_kit.Cache.Ttl.{Ttl}
use redis_kit.Cache.Bulk.{put_in}
use redis_kit.Cache.Tiered.{Slot, negative, value, Tiers, Moment}

pub record AsyncTieredCache (V : Type 0) : Type 0 where
  pub l2 : AsyncCache V
  pub negative_ttl : ℕ

-- A coroutine of the Redis cache, with the local cache beside its world.
module _ {ℓ} {V : Type 0} {A : Type ℓ} where
  abbrev pub on_l2 : Task World A → Task (Tiers V) A
  on_l2 (done r) = done r
  on_l2 (step g k) = step (λ s. record s { world = g s.world }) (λ s. on_l2 (k s.world))
  on_l2 (await g k) = await (λ s. record s { world = g s.world }) (λ s. on_l2 (k s.world))

module _ {V : Type 0} (self : AsyncTieredCache V) where
  abbrev pub l1_get : Moment → String → Task (Tiers V) (Option (Slot V))
  l1_get m key =
      at_once
        (λ s. (ok (Local.get m.read key s.l1).0, record s { l1 = (Local.get m.read key s.l1).1 }))

  abbrev pub l1_set : Moment → String → Slot V → Option ℕ → Task (Tiers V) (Unit {0})
  l1_set m key v ttl =
      at_once (λ s. (ok tt, record s { l1 = Local.set m.write m.again m.lucky key v ttl s.l1 }))

  abbrev pub backfill : Moment → String → Fetched V → Task (Tiers V) (Option V)
  backfill m key (hit v) = l1_set m key (value v) none >> pure v
  backfill m key miss = l1_set m key negative (some self.negative_ttl) >> pure none

  abbrev pub ask_l2 : Moment → String → Option (Slot V) → Task (Tiers V) (Option V)
  ask_l2 m key (some negative) = pure none
  ask_l2 m key (some (value v)) = pure v
  ask_l2 m key none = do l2_val ← on_l2 (Caching.get_raw self.l2 key); backfill m key l2_val

  unfoldable pub get : Moment → String → Task (Tiers V) (Option V)
  get m key = do local_val ← l1_get m key; ask_l2 m key local_val

  unfoldable pub set : Moment → String → Option V → Option Ttl → Task (Tiers V) (Unit {0})
  set m key v ttl = do on_l2 (Caching.set self.l2 key v ttl); l1_set m key (value v) none

  unfoldable pub delete : String → Task (Tiers V) (Unit {0})
  delete key = do
    at_once (λ s. (ok tt, record s { l1 = Local.delete key s.l1 }))
    on_l2 (Caching.delete self.l2 key)

  abbrev pub compute :
      Moment
      → String
      → Task (Tiers V) (Option V)
      → Option Ttl
      → Fetched V
      → Task (Tiers V) (Option V)
  compute m key factory ttl (hit v) = l1_set m key (value v) none >> pure v
  compute m key factory ttl miss = do
    v ← factory
    on_l2 (Caching.set self.l2 key v ttl)
    l1_set m key (value v) none
    pure v

  abbrev pub recall :
      Moment
      → String
      → Task (Tiers V) (Option V)
      → Option Ttl
      → Option (Slot V)
      → Task (Tiers V) (Option V)
  recall m key factory ttl (some (value v)) = pure v
  recall m key factory ttl _ = do
    l2_val ← on_l2 (Caching.get_raw self.l2 key)
    compute m key factory ttl l2_val

  unfoldable pub remember :
      Moment → String → Task (Tiers V) (Option V) → Option Ttl → Task (Tiers V) (Option V)
  remember m key factory ttl = do local_val ← l1_get m key; recall m key factory ttl local_val

  unfoldable pub look_up :
      (ℕ → Moment)
      → ℕ
      → List String
      → List (String × Option V)
      → Task (Tiers V) (List (String × Option V) × List String)
  look_up m n [] result = pure (result, [])
  look_up m n (key ∷ keys) result = do
    local_val ← l1_get (m n) key
    elim local_val [
      | some negative ↦ look_up m (suc n) keys (put_in key none result)
      | some (value v) ↦ look_up m (suc n) keys (put_in key v result)
      | none ↦ do found ← look_up m (suc n) keys result; pure (found.0, key ∷ found.1)
    ]

  unfoldable pub fill_in :
      (ℕ → Moment)
      → ℕ
      → List (String × Fetched V)
      → List (String × Option V)
      → Task (Tiers V) (List (String × Option V))
  fill_in m n [] result = pure result
  fill_in m n ((key, hit v) ∷ l) result = do
    l1_set (m n) key (value v) none
    fill_in m (suc n) l (put_in key v result)
  fill_in m n ((key, miss) ∷ l) result = do
    l1_set (m n) key negative (some self.negative_ttl)
    fill_in m (suc n) l (put_in key none result)

  abbrev pub fetch_rest :
      (ℕ → Moment)
      → ℕ
      → List (String × Option V) × List String
      → Task (Tiers V) (List (String × Option V))
  fetch_rest m n (result, []) = pure result
  fetch_rest m n (result, k ∷ l2_keys) = do
    l2_result ← on_l2 (Caching.get_many_raw self.l2 (k ∷ l2_keys))
    fill_in m n l2_result result

  unfoldable pub get_many : (ℕ → Moment) → List String → Task (Tiers V) (List (String × Option V))
  get_many m keys = do found ← look_up m 0 keys []; fetch_rest m (length keys) found

  unfoldable pub set_all_local :
      (ℕ → Moment) → ℕ → List (String × Option V) → Task (Tiers V) (Unit {0})
  set_all_local m n [] = pure tt
  set_all_local m n ((key, v) ∷ mapping) = do
    l1_set (m n) key (value v) none
    set_all_local m (suc n) mapping

  unfoldable pub set_many :
      (ℕ → Moment) → List (String × Option V) → Option Ttl → Task (Tiers V) (Unit {0})
  set_many m mapping ttl = do
    on_l2 (Caching.set_many self.l2 mapping ttl)
    set_all_local m 0 mapping

  abbrev pub clear_l1 : Task (Tiers V) (Unit {0})
  clear_l1 = at_once (λ s. (ok tt, record s { l1 = Local.clear s.l1 }))

  unfoldable pub delete_pattern : List String → Option Error → String → ℕ → Task (Tiers V) ℕ
  delete_pattern found ended pattern' batch_size = do
    clear_l1
    on_l2 (Caching.delete_pattern self.l2 found ended pattern' batch_size)

  unfoldable pub iter_keys : List String → Task (Tiers V) (List String)
  iter_keys full_keys = on_l2 (Caching.iter_keys self.l2 full_keys)

  unfoldable pub ttl : String → Task (Tiers V) ℤ
  ttl key = on_l2 (Caching.ttl self.l2 key)

  unfoldable pub pttl : String → Task (Tiers V) ℤ
  pttl key = on_l2 (Caching.pttl self.l2 key)

  unfoldable pub persist : String → Task (Tiers V) (Unit {0})
  persist key = on_l2 (Caching.persist self.l2 key)

  unfoldable pub expire : String → ℕ → Task (Tiers V) (Unit {0})
  expire key seconds = on_l2 (Caching.expire self.l2 key seconds)

  unfoldable pub expire_at : String → ℕ → Task (Tiers V) (Unit {0})
  expire_at key when = on_l2 (Caching.expire_at self.l2 key when)

  unfoldable pub invalidate_local : String → Tiers V → Tiers V
  invalidate_local key s = record s { l1 = Local.delete key s.l1 }

  unfoldable pub clear_local : Tiers V → Tiers V
  clear_local s = record s { l1 = Local.clear s.l1 }

  unfoldable pub local_size : Tiers V → ℕ
  local_size s = Local.size s.l1

-- `AsyncBoundTieredCache`
pub record AsyncBoundTieredCache (V : Type 0) : Type 0 where
  pub cache : AsyncTieredCache V
  pub key : String

unfoldable pub bind : {V : Type 0} → AsyncTieredCache V → String → AsyncBoundTieredCache V
bind cache key = record { cache = cache; key = key }

module _ {V : Type 0} (self : AsyncBoundTieredCache V) where
  unfoldable pub bound_get : Moment → Task (Tiers V) (Option V)
  bound_get m = get self.cache m self.key

  unfoldable pub bound_set : Moment → Option V → Option Ttl → Task (Tiers V) (Unit {0})
  bound_set m v ttl = set self.cache m self.key v ttl

  unfoldable pub bound_delete : Task (Tiers V) (Unit {0})
  bound_delete = delete self.cache self.key

  unfoldable pub bound_ttl : Task (Tiers V) ℤ
  bound_ttl = ttl self.cache self.key
