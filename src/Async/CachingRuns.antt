-- ===== src/Async/CachingRuns.antt =====
-- A coroutine of `AsyncCache` that runs alone against the method of `Cache`.
use redis_kit.Common.{
  ℕ, ◌+◌, String, Bool-cases, inl, inr, Option, none, some, List, [], ◌∷◌, ◌++◌, map, length, leb,
  ◌≡◌, refl, ◌∙◌, Error, Result, ok, err, Exec,
}
use redis_kit.Common.Keys.{joined}
use redis_kit.Redis.Keyspace.{Datum, Keyspace}
use redis_kit.Async.Task.{Task, done, command, caught, run, run-bind, run-caught, ◌>>=◌}
use redis_kit.Cache.Ttl.{Ttl}
use redis_kit.Cache.Pipeline.{Fetched}
use redis_kit.Cache.Policy.{World, before, after, notify, send}
use redis_kit.Cache.Client
use redis_kit.Cache.Client.{Cache}
use redis_kit.Cache.Bulk
use redis_kit.Async.Caching.{
  AsyncCache, note, got, finished, or_compute, got_many, executed, set_many_from, delete_reported,
  handle_fallback, get_raw, get, set, delete, remember, get_many_raw, get_many, set_many,
  flush_delete_batch, delete_loop, delete_pattern,
}
use redis_kit.Async.CachingLoops
use redis_kit.Async.Caching
use redis_kit.Async.DeadlinesRun.{run-deadlines}
use redis_kit.Async.CachingLoopsRun.{
  raw_values-many_raw, decode_all-zip, nones-same, plain-same, base_of-same, set_commands-same,
}
use redis_kit.Async.CachingSteps
use redis_kit.Async.CachingSteps.{send_bind}

module _ {ℓ} {V : Type ℓ} (self : AsyncCache V) where
  pub run-get_many_raw :
      (keys : List String) (w : World)
      → run (get_many_raw self keys) w ≡ Bulk.get_many_raw self.base keys w
  unfolding get_many_raw Bulk.get_many_raw run
  run-get_many_raw [] w = refl
  run-get_many_raw (k ∷ ks) w = rw (raw_values-many_raw self.base (k ∷ ks)) (
      replied (Bulk.many_raw self.base (k ∷ ks) w.store).0
        (record w { store = (Bulk.many_raw self.base (k ∷ ks) w.store).1 }))
    where
      replied :
          (reply : Result (List (Option Datum))) (u : World)
          → run
              (done reply >>= (λ raws.
                done (CachingLoops.decode_all self.base (CachingLoops.zip (k ∷ ks) raws) [])))
              u
            ≡ elim reply [
              | err e ↦ (err e, u)
              | ok raws ↦ (Bulk.decode_all self.base (k ∷ ks) raws [], u)
            ]
      replied (err e) u = refl
      replied (ok raws) u = rw (decode_all-zip self.base (k ∷ ks) raws []) refl

  got_many_runs :
      (from_callback : List (String × Option V) → Option V → List (String × Option V))
      (keys : List String) (reply : Result (List (String × Fetched V))) (w : World)
      → run (got_many self from_callback keys reply) w ≡ elim reply [
        | err e ↦ Bulk.many_failed self.base from_callback keys e w
        | ok raw ↦ (ok (Bulk.plain self.base raw), (notify after "GET_MANY" (joined keys) w).1)
      ]
  unfolding run notify
  got_many_runs from_callback keys (err e) w =
      rw (nones-same self.base keys []) (CachingSteps.handled self e "GET_MANY" (joined keys) _ _ _)
  got_many_runs from_callback keys (ok raw) w = rw (plain-same self.base raw) refl

  pub run-get_many :
      (from_callback : List (String × Option V) → Option V → List (String × Option V))
      (keys : List String) (w : World)
      → run (get_many self from_callback keys) w ≡ Bulk.get_many self.base from_callback keys w
  unfolding get_many Bulk.get_many run notify
  run-get_many from_callback keys w =
      let w1 = (notify before "GET_MANY" (joined keys) w).1 in
      run-bind (caught (get_many_raw self keys)) _ w1
      ∙ rw (run-caught (get_many_raw self keys) w1, run-get_many_raw keys w1)
          (got_many_runs from_callback keys (Bulk.get_many_raw self.base keys w1).0
            (Bulk.get_many_raw self.base keys w1).1)

  executed_runs :
      (ms : Result (List (Exec Keyspace (Unit {0})))) (w : World)
      → run (executed self ms) w
        ≡ send
            (elim ms as (λ _. Exec Keyspace (List (Unit {0}))) [
              | err e ↦ λ s. (err e, s)
              | ok l ↦ Bulk.pipeline l
            ])
            w
  unfolding run
  executed_runs (err e) w = refl
  executed_runs (ok l) w = refl

  set_many_behind :
      (mapping : List (String × Option V)) (base_ttl : Result (Option ℕ)) (w : World)
      → run (set_many_from self mapping base_ttl) w
        ≡ Bulk.set_many_from self.base mapping base_ttl w
  unfolding run notify
  set_many_behind mapping (err e) w = refl
  set_many_behind mapping (ok base_ttl) w =
      let keys_str = joined (map (λ m. m.0) mapping) in
      let w1 = (notify before "SET_MANY" keys_str w).1 in
      let ms = Bulk.set_commands self.base base_ttl 0 mapping in
      rw (set_commands-same self.base base_ttl 0 mapping) (
        run-bind (caught (executed self ms)) _ w1
        ∙ rw (run-caught (executed self ms) w1, executed_runs ms w1)
            (CachingSteps.finished_runs self "SET_MANY" keys_str _ _))

  pub run-set_many :
      (mapping : List (String × Option V)) (ttl : Option Ttl) (w : World)
      → run (set_many self mapping ttl) w ≡ Bulk.set_many self.base mapping ttl w
  unfolding set_many Bulk.set_many
  run-set_many mapping ttl w =
      rw (base_of-same self.base ttl) (set_many_behind mapping (Bulk.base_of self.base ttl) w)

  run-flush :
      (batch : List String) (w : World)
      → run (flush_delete_batch self batch) w ≡ send (Bulk.flush_delete_batch self.base batch) w
  unfolding flush_delete_batch Bulk.flush_delete_batch run
  run-flush batch w = elim (Bool-cases self.base.is_cluster) [
    | inl c ↦ rw c (
        run-bind (command (send (Bulk.pipeline (map self.base.client.del batch)))) _ w
        ∙ send_bind (Bulk.pipeline (map self.base.client.del batch)) _ _ (λ _ _. refl) w)
    | inr c ↦ rw c refl
  ]

  run-delete_loop :
      (n : ℕ) (ended : Option Error) (found : List String) (count : ℕ) (batch : List String)
      (w : World)
      → run (delete_loop self n ended found count batch) w
        ≡ send (Bulk.delete_loop self.base n ended found count batch) w
  unfolding delete_loop Bulk.delete_loop run
  run-delete_loop n (some e) [] count batch w = refl
  run-delete_loop n none [] count [] w = refl
  run-delete_loop n none [] count (b ∷ bs) w =
      run-bind (flush_delete_batch self (b ∷ bs)) _ w
      ∙ rw (run-flush (b ∷ bs) w)
          (send_bind (Bulk.flush_delete_batch self.base (b ∷ bs)) _ _ (λ _ _. refl) w)
  run-delete_loop n ended (k ∷ found) count batch w =
      elim (Bool-cases (leb n (length (batch ++ k ∷ [])))) [
        | inl e ↦ rw e (
            run-bind (flush_delete_batch self (batch ++ k ∷ [])) _ w
            ∙ rw (run-flush (batch ++ k ∷ []) w) (
                send_bind (Bulk.flush_delete_batch self.base (batch ++ k ∷ [])) _ _
                  (λ _ u. run-delete_loop n ended found (count + length (batch ++ k ∷ [])) [] u) w))
        | inr e ↦ rw e (run-delete_loop n ended found count (batch ++ k ∷ []) w)
      ]

  pub run-delete_pattern :
      (found : List String) (ended : Option Error) (pattern' : String) (n : ℕ) (w : World)
      → run (delete_pattern self found ended pattern' n) w
        ≡ Bulk.delete_pattern self.base found ended pattern' n w
  unfolding delete_pattern Bulk.delete_pattern run notify
  run-delete_pattern found ended pattern' n w =
      let w1 = (notify before "DELETE_PATTERN" pattern' w).1 in
      let t = delete_loop self n ended found 0 [] in
      run-bind (caught t) _ w1
      ∙ rw (run-caught t w1, run-delete_loop n ended found 0 [] w1)
          (reported (send (Bulk.delete_loop self.base n ended found 0 []) w1))
    where
      reported :
          (x : Result ℕ × World)
          → run (delete_reported self pattern' x.0) x.1 ≡ Bulk.delete_reported self.base pattern' x
      reported (err e, u) = refl
      reported (ok count, u) = refl

  -- Each command of `AsyncCache`, run alone, returns what the method of `Cache` does, sends the
  -- same commands and notes the same rounds over the hooks, errors included; a factory or a
  -- callback may be a coroutine.
  pub run-cache :
      (key : String) (v : Option V) (ttl : Option Ttl) (factory : Task World (Option V))
      (from_callback : List (String × Option V) → Option V → List (String × Option V))
      (keys : List String) (mapping : List (String × Option V)) (ended : Option Error)
      (batch_size seconds when : ℕ) (w : World)
      → (run (get self key) w ≡ Client.get self.base key w)
        × (run (set self key v ttl) w ≡ Client.set self.base key v ttl w)
        × (run (delete self key) w ≡ Client.delete self.base key w)
        × (run (remember self key factory ttl) w
            ≡ Client.remember self.base key (run factory) ttl w)
        × (run (get_many self from_callback keys) w ≡ Bulk.get_many self.base from_callback keys w)
        × (run (set_many self mapping ttl) w ≡ Bulk.set_many self.base mapping ttl w)
        × (run (delete_pattern self keys ended key batch_size) w
            ≡ Bulk.delete_pattern self.base keys ended key batch_size w)
        × (run (Caching.ttl self key) w ≡ Client.ttl self.base key w)
        × (run (Caching.pttl self key) w ≡ Client.pttl self.base key w)
        × (run (Caching.persist self key) w ≡ Client.persist self.base key w)
        × (run (Caching.expire self key seconds) w ≡ Client.expire self.base key seconds w)
        × (run (Caching.expire_at self key when) w ≡ Client.expire_at self.base key when w)
        × (run (Caching.iter_keys self keys) w ≡ (ok (Client.iter_keys self.base keys), w))
  run-cache key v ttl factory from_callback keys mapping ended batch_size seconds when w =
      let (a, b, c, d, e, f) = run-deadlines self key seconds when keys w in
      (
        CachingSteps.run-get self key w,
        CachingSteps.run-set self key v ttl w,
        CachingSteps.run-delete self key w,
        CachingSteps.run-remember self key factory ttl w,
        run-get_many from_callback keys w,
        run-set_many mapping ttl w,
        run-delete_pattern keys ended key batch_size w,
        a,
        b,
        c,
        d,
        e,
        f,
      )
