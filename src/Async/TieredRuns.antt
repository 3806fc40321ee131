-- ===== src/Async/TieredRuns.antt =====
-- A coroutine of `AsyncTieredCache` that runs alone against the method of `TieredCache`.
use redis_kit.Common.{
  ℕ, suc, String, Option, none, some, List, [], ◌∷◌, Error, Result, ok, err, Exec, continue, length,
  ◌≡◌, refl, ◌∙◌,
}
use redis_kit.Async.Task.{Task, pure, run, run-bind, ◌>>=◌}
use redis_kit.Async.Caching
use redis_kit.Async.CachingRuns
use redis_kit.Async.CachingRuns.{run-get_many_raw}
use redis_kit.Async.Tiered.{
  AsyncTieredCache, on_l2, fetch_rest, get, set, delete, remember, look_up, fill_in, get_many,
  set_all_local, set_many, delete_pattern,
}
use redis_kit.Cache.Bulk
use redis_kit.Cache.Bulk.{put_in}
use redis_kit.Cache.Local
use redis_kit.Cache.Pipeline.{Fetched, miss, hit}
use redis_kit.Cache.Ttl.{Ttl}
use redis_kit.Cache.Tiered
use redis_kit.Cache.Tiered.{TieredCache, Slot, negative, value, Tiers, Moment}
use redis_kit.Cache.TieredBulk
use redis_kit.Async.TieredSteps.{synchronous}
use redis_kit.Async.TieredSteps
use redis_kit.Async.Tiered as AsyncTiered
use redis_kit.Async.DeadlinesRun.{run-deadlines}
use redis_kit.Cache.Client
use redis_kit.Cache.Policy.{World}
use redis_kit.Common.{Exec}

module _ {V : Type 0} (self : AsyncTieredCache V) where
  run-fill_in :
      (m : ℕ → Moment) (n : ℕ) (l : List (String × Fetched V)) (result : List (String × Option V))
      (s : Tiers V)
      → run (fill_in self m n l result) s ≡ TieredBulk.fill_in (synchronous self) m n l result s
  unfolding fill_in TieredBulk.fill_in run
  run-fill_in m n [] result s = refl
  run-fill_in m n ((key, hit v) ∷ l) result s = run-fill_in m (suc n) l _ _
  run-fill_in m n ((key, miss) ∷ l) result s = run-fill_in m (suc n) l _ _

  run-look_up :
      (m : ℕ → Moment) (n : ℕ) (keys : List String) (result : List (String × Option V))
      (s : Tiers V)
      → run (look_up self m n keys result) s
        ≡ TieredBulk.look_up (synchronous self) m n keys result s
  unfolding look_up TieredBulk.look_up run
  run-look_up m n [] result s = refl
  run-look_up m n (key ∷ keys) result s =
      elim (Local.get (m n).read key s.l1).0
        as (λ found.
          run
            (elim found as (λ _. Task (Tiers V) (List (String × Option V) × List String)) [
              | some negative ↦ look_up self m (suc n) keys (put_in key none result)
              | some (value v) ↦ look_up self m (suc n) keys (put_in key v result)
              | none ↦ look_up self m (suc n) keys result >>= (λ l. pure (l.0, key ∷ l.1))
            ])
            (record s { l1 = (Local.get (m n).read key s.l1).1 })
          ≡ (elim found as (λ _. Exec (Tiers V) (List (String × Option V) × List String)) [
            | some negative ↦
                TieredBulk.look_up (synchronous self) m (suc n) keys (put_in key none result)
            | some (value v) ↦
                TieredBulk.look_up (synchronous self) m (suc n) keys (put_in key v result)
            | none ↦ λ t.
                continue (TieredBulk.look_up (synchronous self) m (suc n) keys result t).0
                  (λ l u. (ok (l.0, key ∷ l.1), u))
                  (TieredBulk.look_up (synchronous self) m (suc n) keys result t).1
          ])
              (record s { l1 = (Local.get (m n).read key s.l1).1 })) [
                | some negative ↦ run-look_up m (suc n) keys _ _
                | some (value v) ↦ run-look_up m (suc n) keys _ _
                | none ↦
                    run-bind (look_up self m (suc n) keys result) _ _
                    ∙ rw
                        (run-look_up m (suc n) keys result
                          (record s { l1 = (Local.get (m n).read key s.l1).1 }))
                        refl
              ]

  run-fetch_rest :
      (m : ℕ → Moment) (n : ℕ) (found : List (String × Option V) × List String) (s : Tiers V)
      → run (fetch_rest self m n found) s ≡ TieredBulk.fetch_rest (synchronous self) m n found s
  unfolding run
  run-fetch_rest m n (result, []) s = refl
  run-fetch_rest m n (result, k ∷ keys) s =
      TieredSteps.after_l2 self (Caching.get_many_raw self.l2 (k ∷ keys))
        (Bulk.get_many_raw self.l2.base (k ∷ keys)) (λ l. fill_in self m n l result) _
        (run-get_many_raw self.l2 (k ∷ keys)) (λ l u. run-fill_in m n l result u) s

  pub run-get_many :
      (m : ℕ → Moment) (keys : List String) (s : Tiers V)
      → run (get_many self m keys) s ≡ TieredBulk.get_many (synchronous self) m keys s
  unfolding get_many TieredBulk.get_many
  run-get_many m keys s =
      run-bind (look_up self m 0 keys []) _ s
      ∙ rw (run-look_up m 0 keys [] s)
          (rest (TieredBulk.look_up (synchronous self) m 0 keys [] s).0 _)
    where
      rest :
          (reply : Result (List (String × Option V) × List String)) (u : Tiers V)
          → continue reply (λ found. run (fetch_rest self m (length keys) found)) u
            ≡ continue reply (TieredBulk.fetch_rest (synchronous self) m (length keys)) u
      rest (err e) u = refl
      rest (ok found) u = run-fetch_rest m (length keys) found u

  run-set_all_local :
      (m : ℕ → Moment) (n : ℕ) (mapping : List (String × Option V)) (s : Tiers V)
      → run (set_all_local self m n mapping) s
        ≡ TieredBulk.set_all_local (synchronous self) m n mapping s
  unfolding set_all_local TieredBulk.set_all_local run
  run-set_all_local m n [] s = refl
  run-set_all_local m n ((key, v) ∷ mapping) s = run-set_all_local m (suc n) mapping _

  pub run-set_many :
      (m : ℕ → Moment) (mapping : List (String × Option V)) (ttl : Option Ttl) (s : Tiers V)
      → run (set_many self m mapping ttl) s ≡ TieredBulk.set_many (synchronous self) m mapping ttl s
  unfolding set_many TieredBulk.set_many
  run-set_many m mapping ttl s =
      TieredSteps.after_l2 self (Caching.set_many self.l2 mapping ttl)
        (Bulk.set_many self.l2.base mapping ttl) (λ _. set_all_local self m 0 mapping) _
        (CachingRuns.run-set_many self.l2 mapping ttl) (λ _ u. run-set_all_local m 0 mapping u) s

  pub run-delete_pattern :
      (found : List String) (ended : Option Error) (pattern' : String) (n : ℕ) (s : Tiers V)
      → run (delete_pattern self found ended pattern' n) s
        ≡ TieredBulk.delete_pattern (synchronous self) found ended pattern' n s
  unfolding delete_pattern TieredBulk.delete_pattern Tiered.clear_local run
  run-delete_pattern found ended pattern' n s =
      let s' = record s { l1 = Local.clear s.l1 } in
      TieredSteps.run-on_l2 self (Caching.delete_pattern self.l2 found ended pattern' n) s'
      ∙ rw (CachingRuns.run-delete_pattern self.l2 found ended pattern' n s.world) refl

  -- A coroutine of the Redis cache that runs as the method does, between the tiers.
  passed {ℓ} :
      {A : Type ℓ} (t : Task World A) (m : Exec World A) (s : Tiers V)
      → run t s.world ≡ m s.world
      → run (on_l2 t) s ≡ Tiered.on_l2 (synchronous self) m s
  passed t m s same = TieredSteps.run-on_l2 self t s ∙ rw same refl

  -- Each coroutine of `AsyncTieredCache`, run alone, returns what the one of `TieredCache` does and
  -- leaves the same in both tiers, errors included.
  pub run-tiered :
      (m : Moment) (ms : ℕ → Moment) (key : String) (v : Option V) (ttl : Option Ttl)
      (factory : Task (Tiers V) (Option V)) (keys : List String)
      (mapping : List (String × Option V)) (ended : Option Error) (batch_size seconds when : ℕ)
      (s : Tiers V)
      → (run (get self m key) s ≡ Tiered.get (synchronous self) m key s)
        × (run (set self m key v ttl) s ≡ Tiered.set (synchronous self) m key v ttl s)
        × (run (delete self key) s ≡ Tiered.delete (synchronous self) key s)
        × (run (remember self m key factory ttl) s
            ≡ Tiered.remember (synchronous self) m key (run factory) ttl s)
        × (run (get_many self ms keys) s ≡ TieredBulk.get_many (synchronous self) ms keys s)
        × (run (set_many self ms mapping ttl) s
            ≡ TieredBulk.set_many (synchronous self) ms mapping ttl s)
        × (run (delete_pattern self keys ended key batch_size) s
            ≡ TieredBulk.delete_pattern (synchronous self) keys ended key batch_size s)
        × (run (AsyncTiered.ttl self key) s ≡ TieredBulk.ttl (synchronous self) key s)
        × (run (AsyncTiered.pttl self key) s ≡ TieredBulk.pttl (synchronous self) key s)
        × (run (AsyncTiered.persist self key) s ≡ TieredBulk.persist (synchronous self) key s)
        × (run (AsyncTiered.expire self key seconds) s
            ≡ TieredBulk.expire (synchronous self) key seconds s)
        × (run (AsyncTiered.expire_at self key when) s
            ≡ TieredBulk.expire_at (synchronous self) key when s)
        × (run (AsyncTiered.iter_keys self keys) s
            ≡ (ok (TieredBulk.iter_keys (synchronous self) keys), s))
  unfolding AsyncTiered.ttl AsyncTiered.pttl AsyncTiered.persist AsyncTiered.expire
      AsyncTiered.expire_at AsyncTiered.iter_keys TieredBulk.ttl TieredBulk.pttl TieredBulk.persist
      TieredBulk.expire TieredBulk.expire_at TieredBulk.iter_keys
  run-tiered m ms key v ttl factory keys mapping ended batch_size seconds when s =
      let (a, b, c, d, e, f) = run-deadlines self.l2 key seconds when keys s.world in
      (
        TieredSteps.run-get self m key s,
        TieredSteps.run-set self m key v ttl s,
        TieredSteps.run-delete self key s,
        TieredSteps.run-remember self m key factory ttl s,
        run-get_many ms keys s,
        run-set_many ms mapping ttl s,
        run-delete_pattern keys ended key batch_size s,
        passed (Caching.ttl self.l2 key) (Client.ttl self.l2.base key) s a,
        passed (Caching.pttl self.l2 key) (Client.pttl self.l2.base key) s b,
        passed (Caching.persist self.l2 key) (Client.persist self.l2.base key) s c,
        passed (Caching.expire self.l2 key seconds) (Client.expire self.l2.base key seconds) s d,
        passed (Caching.expire_at self.l2 key when) (Client.expire_at self.l2.base key when) s e,
        passed (Caching.iter_keys self.l2 keys) (λ w. (ok (Client.iter_keys self.l2.base keys), w))
            s f,
      )
