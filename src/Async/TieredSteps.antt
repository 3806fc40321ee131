-- ===== src/Async/TieredSteps.antt =====
-- The methods of `AsyncTieredCache` on one key against those of `TieredCache`.
use redis_kit.Common.{String, Option, none, some, Result, ok, err, Exec, continue, ◌≡◌, refl, ◌∙◌}
use redis_kit.Async.Task.{Task, done, step, await, pure, run, run-bind, ◌>>=◌, ◌>>◌}
use redis_kit.Async.Caching
use redis_kit.Async.CachingSteps
use redis_kit.Async.CachingSteps.{run-get_raw}
use redis_kit.Async.Tiered.{
  AsyncTieredCache, on_l2, l1_set, backfill, ask_l2, compute, recall, get, set, delete, remember,
}
use redis_kit.Cache.Client
use redis_kit.Cache.Local
use redis_kit.Cache.Pipeline.{Fetched, miss, hit}
use redis_kit.Cache.Policy.{World}
use redis_kit.Cache.Ttl.{Ttl}
use redis_kit.Cache.Tiered
use redis_kit.Cache.Tiered.{TieredCache, Slot, negative, value, Tiers, Moment}

-- The synchronous cache with the same settings.
abbrev pub synchronous : {V : Type 0} → AsyncTieredCache V → TieredCache V
synchronous self = record { l2 = self.l2.base; negative_ttl = self.negative_ttl }

module _ {V : Type 0} (self : AsyncTieredCache V) where
  pub run-on_l2 {ℓ} :
      {A : Type ℓ} (t : Task World A) (s : Tiers V)
      → run (on_l2 t) s ≡ Tiered.on_l2 (synchronous self) (run t) s
  unfolding run
  run-on_l2 (done r) s = refl
  run-on_l2 (step g k) s = run-on_l2 (k s.world) (record s { world = g s.world })
  run-on_l2 (await g k) s = run-on_l2 (k s.world) (record s { world = g s.world })

  -- A coroutine of the Redis cache and what the tiers do with its result.
  pub after_l2 {ℓ κ} :
      {A : Type ℓ} {B : Type κ} (t : Task World A) (m : Exec World A) (f : A → Task (Tiers V) B)
      (g : A → Exec (Tiers V) B)
      → ((w : World) → run t w ≡ m w)
      → ((a : A) (s : Tiers V) → run (f a) s ≡ g a s)
      → (s : Tiers V)
      → run (on_l2 t >>= f) s ≡ continue (m s.world).0 g (record s { world = (m s.world).1 })
  after_l2 {A = A} t m f g h same_rest s =
      run-bind (on_l2 t) f s
      ∙ rw (run-on_l2 t s, h s.world) (rest (m s.world).0 (record s { world = (m s.world).1 }))
    where
      rest :
          (reply : Result A) (u : Tiers V) → continue reply (λ a. run (f a)) u ≡ continue reply g u
      rest (err e) u = refl
      rest (ok a) u = same_rest a u

  backfilled :
      (m : Moment) (key : String) (f : Fetched V) (s : Tiers V)
      → run (backfill self m key f) s ≡ Tiered.backfill (synchronous self) m key f s
  unfolding run
  backfilled m key miss s = refl
  backfilled m key (hit v) s = refl

  pub run-get :
      (m : Moment) (key : String) (s : Tiers V)
      → run (get self m key) s ≡ Tiered.get (synchronous self) m key s
  unfolding get Tiered.get run
  run-get m key s =
      asked (Local.get m.read key s.l1).0 (record s { l1 = (Local.get m.read key s.l1).1 })
    where
      asked :
          (found : Option (Slot V)) (u : Tiers V)
          → run (ask_l2 self m key found) u
            ≡ (elim found as (λ _. Exec (Tiers V) (Option V)) [
              | some negative ↦ λ t. (ok none, t)
              | some (value v) ↦ λ t. (ok v, t)
              | none ↦ λ t.
                  continue
                    (Client.get_raw self.l2.base key t.world).0
                    (Tiered.backfill (synchronous self) m key)
                    (record t { world = (Client.get_raw self.l2.base key t.world).1 })
            ])
                u
      asked (some negative) u = refl
      asked (some (value v)) u = refl
      asked none u =
          after_l2 (Caching.get_raw self.l2 key) (Client.get_raw self.l2.base key)
            (backfill self m key) (Tiered.backfill (synchronous self) m key)
            (run-get_raw self.l2 key) (backfilled m key) u

  pub run-set :
      (m : Moment) (key : String) (v : Option V) (ttl : Option Ttl) (s : Tiers V)
      → run (set self m key v ttl) s ≡ Tiered.set (synchronous self) m key v ttl s
  unfolding set Tiered.set run
  run-set m key v ttl s =
      after_l2 (Caching.set self.l2 key v ttl) (Client.set self.l2.base key v ttl)
        (λ _. l1_set self m key (value v) none)
        (λ _. Tiered.l1_set (synchronous self) m key (value v) none)
        (CachingSteps.run-set self.l2 key v ttl) (λ _ _. refl) s

  pub run-delete :
      (key : String) (s : Tiers V)
      → run (delete self key) s ≡ Tiered.delete (synchronous self) key s
  unfolding delete Tiered.delete run
  run-delete key s =
      let s' = record s { l1 = Local.delete key s.l1 } in
      run-on_l2 (Caching.delete self.l2 key) s'
      ∙ rw (CachingSteps.run-delete self.l2 key s.world) refl

  kept :
      (v : Option V) (m : Moment) (key : String) (u : Tiers V)
      → run (l1_set self m key (value v) none >> pure v) u
        ≡ continue {A = Unit {0}}
            (ok tt)
            (λ _ t. (ok v, t))
            (record u { l1 = Local.set m.write m.again m.lucky key (value v) none u.l1 })
  unfolding run
  kept v m key u = refl

  computed :
      (m : Moment) (key : String) (factory : Task (Tiers V) (Option V)) (ttl : Option Ttl)
      (f : Fetched V) (s : Tiers V)
      → run (compute self m key factory ttl f) s
        ≡ Tiered.compute (synchronous self) m key (run factory) ttl f s
  unfolding run
  computed m key factory ttl (hit v) s = refl
  computed m key factory ttl miss s =
      run-bind factory _ s ∙ made (run factory s).0 (run factory s).1
    where
      made :
          (made_value : Result (Option V)) (u : Tiers V)
          → continue made_value
              (λ v. run (
                on_l2 (Caching.set self.l2 key v ttl) >>= λ _.
                l1_set self m key (value v) none >> pure v))
              u
            ≡ continue made_value
                (λ v t.
                  continue
                    (Client.set self.l2.base key v ttl t.world).0
                    (λ _ t'. (
                      ok v,
                      record t' { l1 = Local.set m.write m.again m.lucky key (value v) none t'.l1 },
                    ))
                    (record t { world = (Client.set self.l2.base key v ttl t.world).1 }))
                u
      made (err e) u = refl
      made (ok v) u =
          after_l2 (Caching.set self.l2 key v ttl) (Client.set self.l2.base key v ttl)
            (λ _. l1_set self m key (value v) none >> pure v) _
            (CachingSteps.run-set self.l2 key v ttl) (λ _ _. refl) u

  recalled :
      (m : Moment) (key : String) (factory : Task (Tiers V) (Option V)) (ttl : Option Ttl)
      (s : Tiers V)
      → run (on_l2 (Caching.get_raw self.l2 key) >>= compute self m key factory ttl) s
        ≡ continue
            (Client.get_raw self.l2.base key s.world).0
            (Tiered.compute (synchronous self) m key (run factory) ttl)
            (record s { world = (Client.get_raw self.l2.base key s.world).1 })
  recalled m key factory ttl s =
      after_l2 (Caching.get_raw self.l2 key) (Client.get_raw self.l2.base key)
        (compute self m key factory ttl) _ (run-get_raw self.l2 key) (computed m key factory ttl) s

  pub run-remember :
      (m : Moment) (key : String) (factory : Task (Tiers V) (Option V)) (ttl : Option Ttl)
      (s : Tiers V)
      → run (remember self m key factory ttl) s
        ≡ Tiered.remember (synchronous self) m key (run factory) ttl s
  unfolding remember Tiered.remember run
  run-remember m key factory ttl s =
      elim (Local.get m.read key s.l1).0
        as (λ found.
          run (recall self m key factory ttl found)
            (record s { l1 = (Local.get m.read key s.l1).1 })
          ≡ (elim found as (λ _. Exec (Tiers V) (Option V)) [
            | some (value v) ↦ λ t. (ok v, t)
            | _ ↦ λ t.
                continue (Client.get_raw self.l2.base key t.world).0
                  (Tiered.compute (synchronous self) m key (run factory) ttl)
                  (record t { world = (Client.get_raw self.l2.base key t.world).1 })
          ])
              (record s { l1 = (Local.get m.read key s.l1).1 })) [
                | some (value v) ↦ refl
                | some negative ↦ recalled m key factory ttl _
                | none ↦ recalled m key factory ttl _
              ]
