-- ===== src/Async/LocksRun.antt =====
-- A block of `AsyncLock` that runs alone against the block of `Lock` in the name of the same owner.
use redis_kit.Common.{
  ℕ, zero, suc, ◌+◌, ◌*◌, ◌/◌, String, Bool, true, false, Bool-cases, inl, inr, Option, none, some,
  lock_acquire, lock_release, Result, ok, err, Exec, continue, ltb, ◌≡◌, refl, ◌∙◌, if◌then◌else◌,
}
use redis_kit.Redis.Keyspace.{text, Keyspace}
use redis_kit.Redis.Server.{Redis}
use redis_kit.Lock.Scripts.{
  release_lock, reentrant_acquire, reentrant_release, write_acquire, write_release,
}
use redis_kit.Lock.Methods
use redis_kit.Lock.Methods.{
  LockBase, make_key, rwlock_key, writer_key_of, Waiting, swallow, Timers, renew,
}
use redis_kit.Lock.Watchdog
use redis_kit.Async.Task.{
  Task, done, await, pure, raise, command, caught, run, run-bind, run-caught, ◌>>=◌,
}
use redis_kit.Async.Locks.{
  AsyncCaller, owner_of, spin_loop, spin_acquire, checked, release_basic, release_reentrant,
  release_write, watchdog, after_body, guarded, acquired_then, call, write, Tasks, start_watchdog,
}

module _ (w : Waiting) (m : Exec Keyspace Bool) where
  run-spin_loop :
      (rounds n deadline : ℕ) (s : Keyspace)
      → run (spin_loop w (command m) rounds n deadline) s
        ≡ Methods.spin_loop w m rounds n deadline s
  unfolding spin_loop Methods.spin_loop run
  run-spin_loop zero n deadline s = refl
  run-spin_loop (suc rounds) n deadline s = elim (Bool-cases (ltb (w.monotonic n) deadline)) [
    | inl e ↦ rw e (tried (m s).0 (m s).1 (run-spin_loop rounds (suc n) deadline))
    | inr e ↦ rw e refl
  ]
    where
      tried :
          (reply : Result Bool) (u : Keyspace)
          → ((u : Keyspace)
              → run (spin_loop w (command m) rounds (suc n) deadline) u
                ≡ Methods.spin_loop w m rounds (suc n) deadline u)
          → run
              (done reply >>= λ acquired. elim acquired as (λ _. Task Keyspace Bool) [
                | true ↦ pure true
                | false ↦ await (w.sleep n) (λ _. spin_loop w (command m) rounds (suc n) deadline)
              ])
              u
            ≡ continue reply
                (λ acquired s'. elim acquired as (λ _. Result Bool × Keyspace) [
                  | true ↦ (ok true, s')
                  | false ↦ Methods.spin_loop w m rounds (suc n) deadline (w.sleep n s')
                ])
                u
      tried (err e) u go_on = refl
      tried (ok true) u go_on = refl
      tried (ok false) u go_on = go_on (w.sleep n u)

  run-spin_acquire :
      (limit : Option ℕ) (s : Keyspace)
      → run (spin_acquire w (command m) limit) s ≡ Methods.spin_acquire w m limit s
  unfolding spin_acquire Methods.spin_acquire run
  run-spin_acquire none s = refl
  run-spin_acquire (some t) s = run-spin_loop (t / 50 + 1) 1 (w.monotonic 0 + t) s

run-checked :
    (m : Exec Keyspace Bool) (s : Keyspace) → run (checked (command m)) s ≡ Methods.checked m s
unfolding run
run-checked m s = replied (m s).0 (m s).1
  where
    replied :
        (reply : Result Bool) (u : Keyspace)
        → Path
            (Result (Unit {0}) × Keyspace)
            (run (done reply >>= λ result. if result then pure tt else raise lock_release) u)
            (continue reply
              (λ result. if result then (λ t. (ok tt, t)) else (λ t. (err lock_release, t)))
              u)
    replied (err e) u = refl
    replied (ok true) u = refl
    replied (ok false) u = refl

module _ (r : Redis) (key owner : String) (s : Keyspace) where
  run-release_basic : run (release_basic r key owner) s ≡ Methods.release_basic r key owner s
  unfolding release_basic Methods.release_basic
  run-release_basic = run-checked (release_lock r key owner) s

  run-release_reentrant :
      run (release_reentrant r key owner) s ≡ Methods.release_reentrant r key owner s
  unfolding release_reentrant Methods.release_reentrant
  run-release_reentrant = run-checked (reentrant_release r key owner) s

  run-release_write : run (release_write r key owner) s ≡ Methods.release_write r key owner s
  unfolding release_write Methods.release_write
  run-release_write = run-checked (write_release r key owner) s

module _ {ℓ} {A : Type ℓ} where
  run-guarded :
      (body : Task Keyspace A) (body' : Exec Keyspace A) (t : Task Keyspace (Unit {0}))
      (release : Exec Keyspace (Unit {0})) (s : Keyspace)
      → ((u : Keyspace) → run body u ≡ body' u)
      → ((u : Keyspace) → run t u ≡ release u)
      → run (guarded body t) s ≡ Methods.guarded body' release s
  unfolding guarded Methods.guarded run
  run-guarded body body' t release s same h =
      run-bind (caught body) (after_body t) s
      ∙ rw (run-caught body s, same s) (ended (body' s).0 (body' s).1)
    where
      ended :
          (outcome : Result A) (u : Keyspace)
          → run (after_body t outcome) u ≡ Methods.after_body release outcome u
      ended (ok a) u = run-bind t _ u ∙ rw (h u) refl
      ended (err e) u = run-bind (caught t) _ u ∙ rw (run-caught t u, h u) refl

  run-acquired_then :
      (t : Task Keyspace Bool) (acquire : Exec Keyspace Bool) (rest : Task Keyspace A)
      (rest' : Exec Keyspace A) (s : Keyspace)
      → run t s ≡ acquire s
      → ((u : Keyspace) → run rest u ≡ rest' u)
      → run (acquired_then t rest) s ≡ Methods.acquired_then acquire rest' s
  unfolding acquired_then Methods.acquired_then run
  run-acquired_then t acquire rest rest' s h h' =
      run-bind t _ s ∙ rw h (replied (acquire s).0 (acquire s).1)
    where
      replied :
          (reply : Result Bool) (u : Keyspace)
          → continue reply (λ acquired. run (if acquired then rest else raise lock_acquire)) u
            ≡ continue reply
                (λ acquired. if acquired then rest' else (λ t. (err lock_acquire, t)))
                u
      replied (err e) u = refl
      replied (ok true) u = h' u
      replied (ok false) u = refl

module _ {ℓ} {A : Type ℓ} (r : Redis) (self : LockBase) (w : Waiting) (c : AsyncCaller)
    (name : String) (timeout : ℕ) where
  -- The body with the watchdog, where there is one, does alone what it does beside the timers.
  abbrev pub SameWatch :
      String → String → Bool → Option (Tasks A) → Option (Timers A) → Task Keyspace A → Type ℓ
  SameWatch key owner reentrant tasks timers body =
      (u : Keyspace)
      → run (start_watchdog r key owner timeout reentrant tasks body) u
        ≡ Methods.start_watchdog r key owner timeout reentrant timers (run body) u

  -- A block of `AsyncLock` that runs alone does what the block of `Lock` does in the name of the
  -- same owner, with any body, any limit on the waiting, reentrant or not; with `auto_renew` off,
  -- or where the task of the watchdog and the timers do the same round the body.
  pub run-call :
      (limit : Option ℕ) (reentrant : Bool) (tasks : Option (Tasks A)) (timers : Option (Timers A))
      (body : Task Keyspace A) (s : Keyspace)
      → SameWatch (make_key self name) (owner_of c reentrant) reentrant tasks timers body
      → run (call r self w c name timeout limit reentrant tasks body) s
        ≡ Methods.block r w
            (make_key self name)
            (owner_of c reentrant)
            timeout
            limit
            reentrant
            timers
            (run body)
            s
  unfolding call Methods.block
  run-call limit true tasks timers body s same =
      let key = make_key self name in
      let m = reentrant_acquire r key (owner_of c true) timeout in
      run-acquired_then (spin_acquire w (command m) limit) (Methods.spin_acquire w m limit) _ _ s
        (run-spin_acquire w m limit s)
        (λ u.
          run-guarded _ _ (release_reentrant r key (owner_of c true)) _ u same
            (run-release_reentrant r key (owner_of c true)))
  run-call limit false tasks timers body s same =
      let key = make_key self name in
      let m = r.set_nx_ex key (text (owner_of c false)) timeout in
      run-acquired_then (spin_acquire w (command m) limit) (Methods.spin_acquire w m limit) _ _ s
        (run-spin_acquire w m limit s)
        (λ u.
          run-guarded _ _ (release_basic r key (owner_of c false)) _ u same
            (run-release_basic r key (owner_of c false)))

  run-write :
      (d : Methods.Caller) (limit : ℕ) (tasks : Option (Tasks A)) (timers : Option (Timers A))
      (body : Task Keyspace A) (s : Keyspace)
      → c.uuid ≡ d.uuid
      → SameWatch (writer_key_of (rwlock_key self name)) c.uuid false tasks timers body
      → run (write r self w c name timeout limit tasks body) s
        ≡ Methods.write r self w d name timeout limit timers (run body) s
  unfolding write Methods.write
  run-write d limit tasks timers body s e same =
      let key = rwlock_key self name in
      let m = write_acquire r key (writer_key_of key) c.uuid timeout in
      run-acquired_then (spin_acquire w (command m) (some limit))
        (Methods.spin_acquire w m (some limit)) _ _ s (run-spin_acquire w m (some limit) s)
        (λ u.
          run-guarded _ _ (release_write r (writer_key_of key) c.uuid) _ u same
            (run-release_write r (writer_key_of key) c.uuid))
      ∙ rw e refl

module _ (r : Redis) (reentrant : Bool) (key owner : String) (timeout : ℕ)
    (interval : ℕ → ℕ → Keyspace → Keyspace) where
  pub run-watchdog :
      (rounds n : ℕ) (s : Keyspace)
      → run (watchdog r reentrant key owner timeout interval rounds n) s
        ≡ Watchdog.watchdog r reentrant key owner timeout interval rounds n s
  unfolding watchdog Watchdog.watchdog run
  run-watchdog zero n s = refl
  run-watchdog (suc rounds) n s =
      renewed (renew r reentrant key owner timeout (interval (timeout * 1000 / 3) n s)).0
        (renew r reentrant key owner timeout (interval (timeout * 1000 / 3) n s)).1
        (run-watchdog rounds (suc n))
    where
      renewed :
          (reply : Result Bool) (u : Keyspace)
          → ((u : Keyspace)
              → run (watchdog r reentrant key owner timeout interval rounds (suc n)) u
                ≡ Watchdog.watchdog r reentrant key owner timeout interval rounds (suc n) u)
          → run
              (done reply >>= λ result. elim result as (λ _. Task Keyspace Bool) [
                | true ↦ watchdog r reentrant key owner timeout interval rounds (suc n)
                | false ↦ pure false
              ])
              u
            ≡ continue reply
                (λ result. elim result as (λ _. Exec Keyspace Bool) [
                  | true ↦ Watchdog.watchdog r reentrant key owner timeout interval rounds (suc n)
                  | false ↦ λ t. (ok false, t)
                ])
                u
      renewed (err e) u go_on = refl
      renewed (ok true) u go_on = go_on u
      renewed (ok false) u go_on = refl
