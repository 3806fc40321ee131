-- ===== src/Async/TieredValid.antt =====
-- The local cache of `AsyncTieredCache` under every interleaving of its methods.
use redis_kit.Common.{ℕ, suc, String, Bool, Option, none, some, List, [], ◌∷◌, Error, length, arith}
use redis_kit.Async.Task.{
  Task, done, step, await, pure, interleave, Keeps, bind-Keeps, interleave-Keeps, ◌>>=◌, ◌>>◌,
}
use redis_kit.Async.Caching
use redis_kit.Async.Tiered.{
  AsyncTieredCache, on_l2, l1_get, l1_set, backfill, ask_l2, compute, recall, fetch_rest, get, set,
  delete, remember, look_up, fill_in, get_many, set_all_local, set_many, delete_pattern,
}
use redis_kit.Cache.Local
use redis_kit.Cache.Local.{LruCache}
use redis_kit.Cache.Local.Order.{without-Unique, length-without-le}
use redis_kit.Cache.Bulk.{put_in}
use redis_kit.Cache.Local.Laws
use redis_kit.Cache.Local.Laws.{IsValid}
use redis_kit.Cache.Pipeline.{Fetched, miss, hit}
use redis_kit.Cache.Policy.{World}
use redis_kit.Cache.Ttl.{Ttl}
use redis_kit.Cache.Tiered.{Slot, negative, value, Tiers, Moment}

-- What clients may call. A factory works on the server.
pub data Call (V : Type 0) : Type 0 where
  getting : Moment → String → Call V
  setting : Moment → String → Option V → Option Ttl → Call V
  deleting : String → Call V
  remembering : Moment → String → Task World (Option V) → Option Ttl → Call V
  getting_many : (ℕ → Moment) → List String → Call V
  setting_many : (ℕ → Moment) → List (String × Option V) → Option Ttl → Call V
  deleting_pattern : List String → Option Error → String → ℕ → Call V

module _ {ℓ} {V : Type ℓ} (self : LruCache V) (valid : IsValid self) where
  pub delete-IsValid : (key : String) → IsValid (Local.delete key self)
  unfolding Local.delete
  delete-IsValid key = record {
    distinct = without-Unique key self.entries valid.distinct;
    bounded = omega (arith, valid.bounded, length-without-le key self.entries);
  }

  clear-IsValid : IsValid (Local.clear self)
  unfolding Local.clear
  clear-IsValid = record { distinct = tt; bounded = omega arith }

module _ {V : Type 0} (self : AsyncTieredCache V) where
  -- The coroutine of a call, its result dropped.
  abbrev pub start : Call V → Task (Tiers V) (Unit {0})
  start (getting m key) = get self m key >>= λ _. pure tt
  start (setting m key v ttl) = set self m key v ttl
  start (deleting key) = delete self key
  start (remembering m key factory ttl) = remember self m key (on_l2 factory) ttl >>= λ _. pure tt
  start (getting_many m keys) = get_many self m keys >>= λ _. pure tt
  start (setting_many m mapping ttl) = set_many self m mapping ttl
  start (deleting_pattern found ended pattern' n) =
      delete_pattern self found ended pattern' n >>= λ _. pure tt

  abbrev pub Valid : Tiers V → Type 0
  Valid s = IsValid s.l1

  on_l2-Keeps {ℓ} : {A : Type ℓ} (t : Task World A) → Keeps Valid (on_l2 t)
  on_l2-Keeps (done r) = tt
  on_l2-Keeps (step g k) = λ s p. (p, on_l2-Keeps (k s.world))
  on_l2-Keeps (await g k) = λ s p. (p, on_l2-Keeps (k s.world))

  l1_get-Keeps : (m : Moment) (key : String) → Keeps Valid (l1_get self m key)
  l1_get-Keeps m key = λ s p. (Laws.get-IsValid m.read key s.l1 p, tt)

  l1_set-Keeps :
      (m : Moment) (key : String) (v : Slot V) (ttl : Option ℕ)
      → Keeps Valid (l1_set self m key v ttl)
  l1_set-Keeps m key v ttl = λ s p. (Laws.set-IsValid m.write m.again m.lucky key v ttl s.l1 p, tt)

  store-Keeps {ℓ} :
      {A : Type ℓ} (m : Moment) (key : String) (v : Slot V) (ttl : Option ℕ) (t : Task (Tiers V) A)
      → Keeps Valid t
      → Keeps Valid (l1_set self m key v ttl >> t)
  store-Keeps m key v ttl t h =
      λ s p. (Laws.set-IsValid m.write m.again m.lucky key v ttl s.l1 p, h)

  backfill-Keeps : (m : Moment) (key : String) (f : Fetched V) → Keeps Valid (backfill self m key f)
  backfill-Keeps m key miss =
      store-Keeps {A = Option V} m key negative (some self.negative_ttl) (pure none) tt
  backfill-Keeps m key (hit v) = store-Keeps m key (value v) none (pure v) tt

  ask_l2-Keeps :
      (m : Moment) (key : String) (found : Option (Slot V)) → Keeps Valid (ask_l2 self m key found)
  ask_l2-Keeps m key (some negative) = tt
  ask_l2-Keeps m key (some (value v)) = tt
  ask_l2-Keeps m key none =
      bind-Keeps Valid (on_l2 (Caching.get_raw self.l2 key)) _ (on_l2-Keeps _)
        (backfill-Keeps m key)

  get-Keeps : (m : Moment) (key : String) → Keeps Valid (get self m key)
  unfolding get
  get-Keeps m key = bind-Keeps Valid (l1_get self m key) _ (l1_get-Keeps m key) (ask_l2-Keeps m key)

  set-Keeps :
      (m : Moment) (key : String) (v : Option V) (ttl : Option Ttl)
      → Keeps Valid (set self m key v ttl)
  unfolding set
  set-Keeps m key v ttl =
      bind-Keeps Valid (on_l2 (Caching.set self.l2 key v ttl)) _ (on_l2-Keeps _)
        (λ _. l1_set-Keeps m key (value v) none)

  delete-Keeps : (key : String) → Keeps Valid (delete self key)
  unfolding delete
  delete-Keeps key = λ s p. (delete-IsValid s.l1 p key, on_l2-Keeps (Caching.delete self.l2 key))

  compute-Keeps :
      (m : Moment) (key : String) (factory : Task World (Option V)) (ttl : Option Ttl)
      (f : Fetched V)
      → Keeps Valid (compute self m key (on_l2 factory) ttl f)
  compute-Keeps m key factory ttl (hit v) = store-Keeps m key (value v) none (pure v) tt
  compute-Keeps m key factory ttl miss =
      bind-Keeps Valid (on_l2 factory) _ (on_l2-Keeps factory) (λ v.
        bind-Keeps Valid (on_l2 (Caching.set self.l2 key v ttl))
          (λ _. l1_set self m key (value v) none >> pure v) (on_l2-Keeps _)
          (λ _. store-Keeps m key (value v) none (pure v) tt))

  recall-Keeps :
      (m : Moment) (key : String) (factory : Task World (Option V)) (ttl : Option Ttl)
      (found : Option (Slot V))
      → Keeps Valid (recall self m key (on_l2 factory) ttl found)
  recall-Keeps m key factory ttl (some (value v)) = tt
  recall-Keeps m key factory ttl (some negative) =
      bind-Keeps Valid (on_l2 (Caching.get_raw self.l2 key)) _ (on_l2-Keeps _)
        (compute-Keeps m key factory ttl)
  recall-Keeps m key factory ttl none =
      bind-Keeps Valid (on_l2 (Caching.get_raw self.l2 key)) _ (on_l2-Keeps _)
        (compute-Keeps m key factory ttl)

  look_up-Keeps :
      (m : ℕ → Moment) (n : ℕ) (keys : List String) (result : List (String × Option V))
      → Keeps Valid (look_up self m n keys result)
  unfolding look_up
  look_up-Keeps m n [] result = tt
  look_up-Keeps m n (key ∷ keys) result =
      bind-Keeps Valid (l1_get self (m n) key) _ (l1_get-Keeps (m n) key)
        (behind (look_up-Keeps m (suc n) keys))
    where
      behind :
          ((r : List (String × Option V)) → Keeps Valid (look_up self m (suc n) keys r))
          → (found : Option (Slot V))
          → Keeps Valid
              (elim found as (λ _. Task (Tiers V) (List (String × Option V) × List String)) [
                | some negative ↦ look_up self m (suc n) keys (put_in key none result)
                | some (value v) ↦ look_up self m (suc n) keys (put_in key v result)
                | none ↦
                    look_up self m (suc n) keys result >>= (λ found. pure (found.0, key ∷ found.1))
              ])
      behind h (some negative) = h (put_in key none result)
      behind h (some (value v)) = h (put_in key v result)
      behind h none =
          bind-Keeps Valid (look_up self m (suc n) keys result)
            (λ found. pure (found.0, key ∷ found.1)) (h result) (λ _. tt)

  remember-Keeps :
      (m : Moment) (key : String) (factory : Task World (Option V)) (ttl : Option Ttl)
      → Keeps Valid (remember self m key (on_l2 factory) ttl)
  unfolding remember
  remember-Keeps m key factory ttl =
      bind-Keeps Valid (l1_get self m key) _ (l1_get-Keeps m key) (recall-Keeps m key factory ttl)

  fill_in-Keeps :
      (m : ℕ → Moment) (n : ℕ) (l : List (String × Fetched V)) (result : List (String × Option V))
      → Keeps Valid (fill_in self m n l result)
  unfolding fill_in
  fill_in-Keeps m n [] result = tt
  fill_in-Keeps m n ((key, hit v) ∷ l) result =
      store-Keeps (m n) key (value v) none _ (fill_in-Keeps m (suc n) l (put_in key v result))
  fill_in-Keeps m n ((key, miss) ∷ l) result =
      store-Keeps (m n) key negative (some self.negative_ttl) _
        (fill_in-Keeps m (suc n) l (put_in key none result))

  fetch_rest-Keeps :
      (m : ℕ → Moment) (n : ℕ) (found : List (String × Option V) × List String)
      → Keeps Valid (fetch_rest self m n found)
  fetch_rest-Keeps m n (result, []) = tt
  fetch_rest-Keeps m n (result, k ∷ keys) =
      bind-Keeps Valid (on_l2 (Caching.get_many_raw self.l2 (k ∷ keys))) _ (on_l2-Keeps _)
        (λ l. fill_in-Keeps m n l result)

  get_many-Keeps : (m : ℕ → Moment) (keys : List String) → Keeps Valid (get_many self m keys)
  unfolding get_many
  get_many-Keeps m keys =
      bind-Keeps Valid (look_up self m 0 keys []) _ (look_up-Keeps m 0 keys [])
        (fetch_rest-Keeps m (length keys))

  set_all_local-Keeps :
      (m : ℕ → Moment) (n : ℕ) (mapping : List (String × Option V))
      → Keeps Valid (set_all_local self m n mapping)
  unfolding set_all_local
  set_all_local-Keeps m n [] = tt
  set_all_local-Keeps m n ((key, v) ∷ mapping) =
      store-Keeps (m n) key (value v) none _ (set_all_local-Keeps m (suc n) mapping)

  set_many-Keeps :
      (m : ℕ → Moment) (mapping : List (String × Option V)) (ttl : Option Ttl)
      → Keeps Valid (set_many self m mapping ttl)
  unfolding set_many
  set_many-Keeps m mapping ttl =
      bind-Keeps Valid (on_l2 (Caching.set_many self.l2 mapping ttl)) _ (on_l2-Keeps _)
        (λ _. set_all_local-Keeps m 0 mapping)

  delete_pattern-Keeps :
      (found : List String) (ended : Option Error) (pattern' : String) (n : ℕ)
      → Keeps Valid (delete_pattern self found ended pattern' n)
  unfolding delete_pattern
  delete_pattern-Keeps found ended pattern' n = λ s p.
      (clear-IsValid s.l1 p, on_l2-Keeps (Caching.delete_pattern self.l2 found ended pattern' n))

  dropped {ℓ} :
      {A : Type ℓ} (t : Task (Tiers V) A)
      → Keeps Valid t
      → Keeps Valid (t >>= λ _. pure {A = Unit {0}} tt)
  dropped t h = bind-Keeps Valid t _ h (λ _. tt)

  start-Keeps : (c : Call V) → Keeps Valid (start c)
  start-Keeps (getting m key) = dropped (get self m key) (get-Keeps m key)
  start-Keeps (setting m key v ttl) = set-Keeps m key v ttl
  start-Keeps (deleting key) = delete-Keeps key
  start-Keeps (remembering m key factory ttl) =
      dropped (remember self m key (on_l2 factory) ttl) (remember-Keeps m key factory ttl)
  start-Keeps (getting_many m keys) = dropped (get_many self m keys) (get_many-Keeps m keys)
  start-Keeps (setting_many m mapping ttl) = set_many-Keeps m mapping ttl
  start-Keeps (deleting_pattern found ended pattern' n) =
      dropped (delete_pattern self found ended pattern' n)
        (delete_pattern-Keeps found ended pattern' n)

  -- The coroutines of two calls on one tiered cache, run under any schedule and stopped anywhere,
  -- leave the local cache valid, if it was: no key twice and at most `maxsize` entries. (A factory
  -- does not touch the local cache.)
  pub interleaved-Valid :
      (schedule : List Bool) (c d : Call V) (s : Tiers V)
      → IsValid s.l1
      → IsValid (interleave schedule (start c) (start d) s).2.l1
  interleaved-Valid schedule c d s =
      interleave-Keeps Valid schedule (start c) (start d) s (start-Keeps c) (start-Keeps d)
