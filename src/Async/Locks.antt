-- ===== src/Async/Locks.antt =====
-- redis_kit/lock/async_lock.py.
use Prim.Native.String.{◌++◌}
use redis_kit.Common.{
  ℕ, zero, suc, ◌+◌, ◌*◌, ◌/◌, String, Bool, true, false, Option, none, some, lock_acquire,
  lock_release, Result, ok, err, ltb, if◌then◌else◌,
}
use redis_kit.Redis.Keyspace.{text, Keyspace}
use redis_kit.Redis.Server.{Redis}
use redis_kit.Lock.Scripts.{
  release_lock, reentrant_acquire, reentrant_release, read_acquire, read_release, write_acquire,
  write_release,
}
use redis_kit.Lock.Methods.{LockBase, make_key, rwlock_key, writer_key_of, Waiting, swallow, renew}
use redis_kit.Async.Task.{Task, await, pure, raise, command, caught, ◌>>=◌, ◌>>◌}

-- Who calls: the process, the coroutine's task if it runs in one, and the random text of `uuid`.
pub record AsyncCaller : Type 0 where
  pub pid : String
  pub task : Option String
  pub uuid : String

unfoldable pub owner_of : AsyncCaller → Bool → String
owner_of c false = c.uuid
owner_of c true = elim c.task [ none ↦ c.uuid | some id ↦ "task:" ++ c.pid ++ ":" ++ id ]

-- The loop of `_spin_acquire`; `sleep` is what the server sees of the awaited `asyncio.sleep`.
unfoldable pub spin_loop : Waiting → Task Keyspace Bool → ℕ → ℕ → ℕ → Task Keyspace Bool
spin_loop w attempt zero n deadline = pure false
spin_loop w attempt (suc rounds) n deadline =
    let round = attempt >>= λ acquired. elim acquired [
      | true ↦ pure true
      | false ↦ await (w.sleep n) (λ _. spin_loop w attempt rounds (suc n) deadline)
    ] in
    if ltb (w.monotonic n) deadline then round else pure false

-- Every round sleeps for 50 ms at least.
unfoldable pub spin_acquire : Waiting → Task Keyspace Bool → Option ℕ → Task Keyspace Bool
unfolding spin_loop
spin_acquire w attempt none = attempt
spin_acquire w attempt (some blocking_timeout) =
    spin_loop w attempt (blocking_timeout / 50 + 1) 1 (w.monotonic 0 + blocking_timeout)

abbrev pub checked : Task Keyspace Bool → Task Keyspace (Unit {0})
checked release = do result ← release; if result then pure tt else raise lock_release

module _ (r : Redis) where
  unfoldable pub release_basic : String → String → Task Keyspace (Unit {0})
  release_basic key owner = checked (command (release_lock r key owner))

  unfoldable pub release_reentrant : String → String → Task Keyspace (Unit {0})
  release_reentrant key owner = checked (command (reentrant_release r key owner))

  unfoldable pub release_write : String → String → Task Keyspace (Unit {0})
  release_write writer_key owner = checked (command (write_release r writer_key owner))

  -- `_watchdog`, for so many rounds; `interval` is what the server sees of the n-th sleep, whose
  -- milliseconds it gets, and the result says whether it still runs.
  unfoldable pub watchdog :
      Bool → String → String → ℕ → (ℕ → ℕ → Keyspace → Keyspace) → ℕ → ℕ → Task Keyspace Bool
  watchdog reentrant key owner timeout interval zero n = pure true
  watchdog reentrant key owner timeout interval (suc rounds) n =
      await (interval (timeout * 1000 / 3) n) (λ _.
        command (renew r reentrant key owner timeout) >>= λ result. elim result [
          | true ↦ watchdog reentrant key owner timeout interval rounds (suc n)
          | false ↦ pure false
        ])

-- What `create_task` makes of a watchdog and a body, until the watchdog is cancelled when the body
-- ends: the watchdog by its sleeps and its rounds, the body, and both on one event loop.
abbrev pub Tasks {ℓ} : Type ℓ → Type ℓ
Tasks A =
    ((ℕ → ℕ → Keyspace → Keyspace) → ℕ → Task Keyspace Bool) → Task Keyspace A → Task Keyspace A

module _ {ℓ} {A : Type ℓ} where
  -- `auto_renew`: none is `False`.
  unfoldable pub start_watchdog :
      Redis → String → String → ℕ → Bool → Option (Tasks A) → Task Keyspace A → Task Keyspace A
  unfolding watchdog
  start_watchdog r key owner timeout reentrant none body = body
  start_watchdog r key owner timeout reentrant (some tasks) body =
      tasks (λ interval rounds. watchdog r reentrant key owner timeout interval rounds 0) body

  abbrev pub after_body : Task Keyspace (Unit {0}) → Result A → Task Keyspace A
  after_body release (ok a) = release >> pure a
  after_body release (err e) = caught release >>= λ released. raise (swallow released e)

  -- `try: yield / except BaseException: … raise / else: …`
  unfoldable pub guarded : Task Keyspace A → Task Keyspace (Unit {0}) → Task Keyspace A
  guarded body release = caught body >>= after_body release

  unfoldable pub acquired_then : Task Keyspace Bool → Task Keyspace A → Task Keyspace A
  acquired_then acquire rest = do acquired ← acquire; if acquired then rest else raise lock_acquire

  module _ (r : Redis) (self : LockBase) (w : Waiting) (c : AsyncCaller) (name : String)
      (timeout : ℕ) where
    -- `async with lock(name, timeout, blocking_timeout, reentrant, auto_renew):`
    unfoldable pub call : Option ℕ → Bool → Option (Tasks A) → Task Keyspace A → Task Keyspace A
    unfolding guarded acquired_then spin_acquire release_basic release_reentrant start_watchdog
    call blocking_timeout true auto_renew body =
        let key = make_key self name in
        let owner = owner_of c true in
        acquired_then
          (spin_acquire w (command (reentrant_acquire r key owner timeout)) blocking_timeout)
          (guarded (start_watchdog r key owner timeout true auto_renew body)
            (release_reentrant r key owner))
    call blocking_timeout false auto_renew body =
        let key = make_key self name in
        let owner = owner_of c false in
        acquired_then
          (spin_acquire w (command (r.set_nx_ex key (text owner) timeout)) blocking_timeout)
          (guarded (start_watchdog r key owner timeout false auto_renew body)
            (release_basic r key owner))

    -- `async with lock.read(name, timeout, blocking_timeout):`
    unfoldable pub read : Option ℕ → Task Keyspace A → Task Keyspace A
    unfolding guarded acquired_then spin_acquire
    read blocking_timeout body =
        let key = rwlock_key self name in
        acquired_then
          (spin_acquire w (command (read_acquire r key (writer_key_of key) timeout))
            blocking_timeout)
          (guarded body (command (read_release r key) >>= λ _. pure tt))

    -- `async with lock.write(name, timeout, blocking_timeout, auto_renew):`
    unfoldable pub write : ℕ → Option (Tasks A) → Task Keyspace A → Task Keyspace A
    unfolding guarded acquired_then spin_acquire release_write start_watchdog
    write blocking_timeout auto_renew body =
        let key = rwlock_key self name in
        let writer_key = writer_key_of key in
        acquired_then
          (spin_acquire w (command (write_acquire r key writer_key c.uuid timeout))
            (some blocking_timeout))
          (guarded (start_watchdog r writer_key c.uuid timeout false auto_renew body)
            (release_write r writer_key c.uuid))
