-- ===== src/Async/TieredRace.antt =====
-- A read of `AsyncTieredCache` that is suspended while another coroutine deletes the key.
use redis_kit.Common.{
  ◌+◌, ◌≤◌, ◌<◌, String, Bool, true, false, Option, none, some, List, [], ◌∷◌, ok, arith, eq_refl,
  ◌≡◌, refl, ◌∙◌, ap,
}
use redis_kit.Redis.Keyspace.{Datum}
use redis_kit.Redis.Server.{Follows}
use redis_kit.Async.Task.{done, run, settle, advance, interleave}
use redis_kit.Async.Caching
use redis_kit.Async.Tiered.{AsyncTieredCache, get, delete}
use redis_kit.Cache.Client.{make_key}
use redis_kit.Cache.Local
use redis_kit.Cache.Local.Laws
use redis_kit.Cache.Coherence.{in_force}
use redis_kit.Cache.Patterns.{del-remove}
use redis_kit.Async.TieredValid.{delete-IsValid}
use redis_kit.Redis.Documented.Strings.{present}
use redis_kit.Cache.Local.Laws.{IsValid}
use redis_kit.Cache.Pipeline.{hit, decode}
use redis_kit.Cache.Policy.{notify}
use redis_kit.Cache.Tiered.{value, Tiers, Moment}

-- The read is under way and has its reply; then the whole delete; then the rest of the read.
abbrev pub overlap : List Bool
overlap = true ∷ true ∷ false ∷ false ∷ false ∷ true ∷ []

module _ {V : Type 0} (self : AsyncTieredCache V) (key : String) (s : Tiers V) where
  raced :
      (m : Moment) (raw : Option Datum) (v : Option V) (there : Bool)
      → (Local.get m.read key s.l1).0 ≡ none
      → self.l2.base.client.get (make_key self.l2.base key) s.world.store ≡ (ok raw, s.world.store)
      → (self.l2.base.client.del (make_key self.l2.base key) s.world.store).0 ≡ ok there
      → decode self.l2.base.pipeline raw ≡ ok (hit v)
      → let end = interleave overlap (get self m key) (delete self key) s in
        (end.0 ≡ done (ok v))
        × (end.1 ≡ done (ok tt))
        × (end.2.l1
            ≡ Local.set m.write m.again m.lucky key
                (value v)
                none
                (Local.delete key (Local.get m.read key s.l1).1))
        × (end.2.world.store
            ≡ (self.l2.base.client.del (make_key self.l2.base key) s.world.store).1)
  unfolding interleave advance settle get delete Caching.get_raw Caching.delete notify
  raced m raw v there e p q d = rw e (
      rw (ap (λ x. x.1) p) (
        rw (ap (λ x. x.0) p, advance) (rw (d, advance) (rw (q, advance) (refl, refl, refl, refl)))))

  answered :
      (later : Moment) (v : Option V) (t : Tiers V)
      → (Local.get later.read key t.l1).0 ≡ some (value v)
      → (run (get self later key) t).0 ≡ ok v
  unfolding get run
  answered later v t e = rw (e, run) refl

  -- A read that misses the local cache and finds a value in Redis, and a delete of the key that
  -- runs while the read is suspended on the reply: both return as usual, Redis has no such key
  -- any more, and yet reads on this cache return the deleted value until the local time to live
  -- is over. (The server follows its documentation; the local cache is valid and has room for an
  -- entry; the clean-up's reading of the clock is not after that of the later read.)
  pub stale_after_delete :
      (m later : Moment) (raw : Option Datum) (v : Option V)
      → Follows self.l2.base.client
      → IsValid s.l1
      → 0 < s.l1.maxsize
      → (Local.get m.read key s.l1).0 ≡ none
      → self.l2.base.client.get (make_key self.l2.base key) s.world.store ≡ (ok raw, s.world.store)
      → decode self.l2.base.pipeline raw ≡ ok (hit v)
      → m.again ≤ later.read
      → later.read ≤ m.write + s.l1.default_ttl
      → let end = interleave overlap (get self m key) (delete self key) s in
        (end.0 ≡ done (ok v))
        × (end.1 ≡ done (ok tt))
        × (end.2.world.store.cell (make_key self.l2.base key) ≡ none)
        × ((run (get self later key) end.2).0 ≡ ok v)
  unfolding Local.delete
  stale_after_delete m later raw v f valid pos e p d after_clean in_time =
      let k = make_key self.l2.base key in
      let l0 = (Local.get m.read key s.l1).1 in
      let end = interleave overlap (get self m key) (delete self key) s in
      let (read, deleted, local, server) =
        raced m raw v (present (s.world.store.cell k)) e p
          (ap (λ x. x.0) (del-remove f k s.world.store)) d in
      let settings = Laws.settings-get m.read key s.l1 in
      let valid0 = delete-IsValid l0 (Laws.get-IsValid m.read key s.l1 valid) key in
      let found =
        Laws.get-set_local m.write m.again later.read m.lucky key (value v) none
          (Local.delete key l0) valid0 (omega (arith, pos, settings.0)) after_clean in
      (
        read,
        deleted,
        ap (λ x. x.cell k) (server ∙ ap (λ x. x.1) (del-remove f k s.world.store))
            ∙ rw (eq_refl k) refl,
        answered later v end.2 (rw local (found ∙ rw settings.1 (in_force _ _ _ in_time))),
      )
