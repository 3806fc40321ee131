-- ===== src/Cache/Tiered.antt =====
-- `TieredCacheBase` of redis_kit/cache/_tiered_base.py and `TieredCache` of redis_kit/cache/tiered.py.
use redis_kit.Common.{ℕ, String, Bool, Option, none, some, ok, Exec, pure, ◌>>=◌, ◌>>◌, []}
use redis_kit.Cache.Local
use redis_kit.Cache.Local.{LruCache}
use redis_kit.Cache.Pipeline.{Fetched, miss, hit}
use redis_kit.Cache.Ttl.{Ttl}
use redis_kit.Cache.Policy.{World}
use redis_kit.Cache.Client
use redis_kit.Cache.Client.{Cache}

-- What the local cache holds: `_NEGATIVE`, or a value, which may be `None`.
pub data Slot {ℓ} (V : Type ℓ) : Type ℓ where
  negative : Slot V
  value : Option V → Slot V

-- The local cache and the world that the Redis cache works on.
pub record Tiers (V : Type 0) : Type 0 where
  pub l1 : LruCache (Slot V)
  pub world : World

pub record TieredCache (V : Type 0) : Type 0 where
  pub l2 : Cache V
  pub negative_ttl : ℕ

-- What one call reads from the clock and from `random`: the time of the local read, those of the
-- local write and of its clean-up, and whether the clean-up runs.
pub record Moment : Type 0 where
  pub read : ℕ
  pub write : ℕ
  pub again : ℕ
  pub lucky : Bool

unfoldable pub init : {V : Type 0} → ℕ → ℕ → World → Tiers V
init local_maxsize local_ttl w = record {
  l1 = record { maxsize = local_maxsize; default_ttl = local_ttl; entries = [] };
  world = w;
}

module _ {V : Type 0} (self : TieredCache V) where
  abbrev pub l1_get : Moment → String → Exec (Tiers V) (Option (Slot V))
  l1_get m key s = let (found, l1) = Local.get m.read key s.l1 in (ok found, record s { l1 = l1 })

  abbrev pub l1_set : Moment → String → Slot V → Option ℕ → Exec (Tiers V) (Unit {0})
  l1_set m key v ttl s = (ok tt, record s { l1 = Local.set m.write m.again m.lucky key v ttl s.l1 })

  abbrev pub on_l2 {ℓ} : {A : Type ℓ} → Exec World A → Exec (Tiers V) A
  on_l2 m s = ((m s.world).0, record s { world = (m s.world).1 })

  abbrev pub backfill : Moment → String → Fetched V → Exec (Tiers V) (Option V)
  backfill m key (hit v) = l1_set m key (value v) none >> pure v
  backfill m key miss = l1_set m key negative (some self.negative_ttl) >> pure none

  unfoldable pub get : Moment → String → Exec (Tiers V) (Option V)
  get m key = do
    local_val ← l1_get m key
    elim local_val [
      | some negative ↦ pure none
      | some (value v) ↦ pure v
      | none ↦ do l2_val ← on_l2 (Client.get_raw self.l2 key); backfill m key l2_val
    ]

  unfoldable pub set : Moment → String → Option V → Option Ttl → Exec (Tiers V) (Unit {0})
  set m key v ttl = do on_l2 (Client.set self.l2 key v ttl); l1_set m key (value v) none

  abbrev pub l1_delete : String → Exec (Tiers V) (Unit {0})
  l1_delete key s = (ok tt, record s { l1 = Local.delete key s.l1 })

  unfoldable pub delete : String → Exec (Tiers V) (Unit {0})
  delete key = do l1_delete key; on_l2 (Client.delete self.l2 key)

  abbrev pub compute :
      Moment
      → String
      → Exec (Tiers V) (Option V)
      → Option Ttl
      → Fetched V
      → Exec (Tiers V) (Option V)
  compute m key factory ttl (hit v) = l1_set m key (value v) none >> pure v
  compute m key factory ttl miss = do
    v ← factory
    on_l2 (Client.set self.l2 key v ttl)
    l1_set m key (value v) none
    pure v

  -- A negative entry does not stop `remember`.
  unfoldable pub remember :
      Moment → String → Exec (Tiers V) (Option V) → Option Ttl → Exec (Tiers V) (Option V)
  remember m key factory ttl = do
    local_val ← l1_get m key
    elim local_val [
      | some (value v) ↦ pure v
      | _ ↦ do l2_val ← on_l2 (Client.get_raw self.l2 key); compute m key factory ttl l2_val
    ]

  unfoldable pub invalidate_local : String → Exec (Tiers V) (Unit {0})
  invalidate_local key = l1_delete key

  unfoldable pub clear_local : Exec (Tiers V) (Unit {0})
  clear_local s = (ok tt, record s { l1 = Local.clear s.l1 })
