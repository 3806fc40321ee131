-- ===== src/Cache/Coherence.antt =====
-- The two tiers: what a read fills in, how long it lasts, and what never reaches Redis.
use redis_kit.Common.{
  ℕ, ◌+◌, ◌≤◌, ◌<◌, String, ◌≡◌, refl, Option, none, some, arith, ltb, Result, ok, Exec, ◌∙◌,
  if◌then◌else◌,
}
use redis_kit.Cache.Local
use redis_kit.Cache.Local.{LruCache, effective_ttl}
use redis_kit.Cache.Local.Laws.{IsValid}
use redis_kit.Cache.Local.Laws
use redis_kit.Cache.Pipeline.{Fetched, miss, hit}
use redis_kit.Cache.Ttl.{Ttl}
use redis_kit.Cache.Client
use redis_kit.Cache.Client.{or_none}
use redis_kit.Cache.Tiered.{
  Slot, negative, value, Tiers, TieredCache, Moment, get, set, delete, remember,
}

pub in_force :
    {A : Type 0} (deadline now : ℕ) (x : A)
    → now ≤ deadline
    → (if ltb deadline now then none else some x) ≡ some x
in_force deadline now x le = ground arith

module _ {V : Type 0} (self : TieredCache V) (key : String) (s : Tiers V) where
  -- The time to live of what a read fills in.
  abbrev pub fill_ttl : Fetched V → ℕ
  fill_ttl miss = self.negative_ttl
  fill_ttl (hit _) = s.l1.default_ttl

  -- A local hit is answered without Redis.
  local_hit :
      (m : Moment) (x : Slot V)
      → (Local.get m.read key s.l1).0 ≡ some x
      → ((get self m key s).0 ≡ ok (elim x [ negative ↦ none | value v ↦ v ]))
        × ((get self m key s).1.world ≡ s.world)
  unfolding get
  local_hit m negative e = ground arith
  local_hit m (value v) e = ground arith

  abbrev slot_of : Fetched V → Slot V
  slot_of miss = negative
  slot_of (hit v) = value v

  abbrev ttl_of : Fetched V → Option ℕ
  ttl_of miss = some self.negative_ttl
  ttl_of (hit v) = none

  filled :
      (m : Moment) (f : Fetched V)
      → (Local.get m.read key s.l1).0 ≡ none
      → (Client.get_raw self.l2 key s.world).0 ≡ ok f
      → ((get self m key s).0 ≡ ok (or_none self.l2 f))
        × ((get self m key s).1.l1
            ≡ Local.set m.write m.again m.lucky key
                (slot_of f)
                (ttl_of f)
                (Local.get m.read key s.l1).1)
  unfolding get
  filled m miss e q = ground arith
  filled m (hit v) e q = ground arith

  ttl_filled :
      (m : Moment) (f : Fetched V)
      → effective_ttl (Local.get m.read key s.l1).1 (ttl_of f) ≡ fill_ttl f
  ttl_filled m miss = refl
  ttl_filled m (hit v) = (Laws.settings-get m.read key s.l1).1

  slot_reply :
      (f : Fetched V)
      → ◌≡◌ {A = Result (Option V)}
          (ok (elim (slot_of f) [ negative ↦ none | value v ↦ v ]))
          (ok (or_none self.l2 f))
  slot_reply miss = refl
  slot_reply (hit v) = refl

module _ {V : Type 0} (self : TieredCache V) (key : String) (s : Tiers V) where
  -- A read that misses the local cache returns what Redis has, and fills it in: until its time to
  -- live is over (the negative one, if Redis had nothing) the next read gives the same and sends
  -- nothing to Redis. (The local cache is valid and has room for an entry, Redis did not raise,
  -- and the clean-up's reading of the clock is not after that of the next read.)
  pub backfill_lasts :
      (m later : Moment) (f : Fetched V)
      → IsValid s.l1
      → 0 < s.l1.maxsize
      → (Local.get m.read key s.l1).0 ≡ none
      → (Client.get_raw self.l2 key s.world).0 ≡ ok f
      → m.again ≤ later.read
      → later.read ≤ m.write + fill_ttl self key s f
      → ((get self m key s).0 ≡ ok (or_none self.l2 f))
        × ((get self later key (get self m key s).1).0 ≡ ok (or_none self.l2 f))
        × ((get self later key (get self m key s).1).1.world ≡ (get self m key s).1.world)
  backfill_lasts m later f valid pos missed fetched after_clean in_time =
      let l0 = (Local.get m.read key s.l1).1 in
      let s1 = (get self m key s).1 in
      let (replied, local) = filled self key s m f missed fetched in
      let found =
        Laws.get-set_local m.write m.again later.read m.lucky key (slot_of self key s f)
          (ttl_of self key s f) l0 (Laws.get-IsValid m.read key s.l1 valid)
          (omega (arith, (Laws.settings-get m.read key s.l1).0)) after_clean in
      let (answer, quiet) =
        local_hit self key s1 later (slot_of self key s f)
          (rw local (found ∙ rw (ttl_filled self key s m f) (in_force _ _ _ in_time))) in
      (replied, answer ∙ slot_reply self key s f, quiet)

  l1_written :
      (m : Moment) (v : Option V) (ttl : Option Ttl)
      → (Client.set self.l2 key v ttl s.world).0 ≡ ok tt
      → (set self m key v ttl s).1.l1 ≡ Local.set m.write m.again m.lucky key (value v) none s.l1
  unfolding set
  l1_written m v ttl written = ground arith

  -- A read after a write through the tiers, until the local time to live is over, returns the
  -- value written and sends nothing to Redis. (The write to Redis did not raise.) (The local
  -- cache is valid and has room for an entry, and the clean-up's reading of the clock is not
  -- after that of the read.)
  pub read_your_write :
      (m later : Moment) (v : Option V) (ttl : Option Ttl)
      → IsValid s.l1
      → 0 < s.l1.maxsize
      → (Client.set self.l2 key v ttl s.world).0 ≡ ok tt
      → m.again ≤ later.read
      → later.read ≤ m.write + s.l1.default_ttl
      → ((get self later key (set self m key v ttl s).1).0 ≡ ok v)
        × ((get self later key (set self m key v ttl s).1).1.world
            ≡ (set self m key v ttl s).1.world)
  read_your_write m later v ttl valid pos written after_clean in_time =
      let s1 = (set self m key v ttl s).1 in
      let found =
        Laws.get-set_local m.write m.again later.read m.lucky key (value v) none s.l1 valid pos
          after_clean in
      local_hit self key s1 later (value v)
        (rw (l1_written m v ttl written) (found ∙ in_force _ _ _ in_time))

  -- A `delete` leaves nothing in the local cache, also if the one in Redis raises.
  pub delete_clears_local : (now : ℕ) → (Local.get now key (delete self key s).1.l1).0 ≡ none
  unfolding delete
  delete_clears_local now = Laws.get-delete now key s.l1

  -- With a negative entry in the local cache `get` returns `None` without asking Redis, while
  -- `remember` asks it and returns what it has by now. (Redis has a value that is read without an
  -- exception.)
  pub negative_entry :
      (m : Moment) (factory : Exec (Tiers V) (Option V)) (ttl : Option Ttl) (v : Option V)
      → (Local.get m.read key s.l1).0 ≡ some negative
      → (Client.get_raw self.l2 key s.world).0 ≡ ok (hit v)
      → ((get self m key s).0 ≡ ok none)
        × ((get self m key s).1.world ≡ s.world)
        × ((remember self m key factory ttl s).0 ≡ ok v)
  unfolding get remember
  negative_entry m factory ttl v e q = ground arith
