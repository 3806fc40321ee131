-- ===== src/Lock/Methods.antt =====
-- redis_kit/lock/_base.py and redis_kit/lock/lock.py.
use Prim.Native.String.{◌++◌}
use redis_kit.Common.{
  ℕ, zero, suc, ◌+◌, ◌*◌, ◌/◌, String, ◌==◌, Bool, true, false, Option, none, some, Result, ok, err,
  lock_acquire, lock_release, Error, Exec, pure, raise, ◌>>=◌, ◌>>◌, ltb, if◌then◌else◌,
}
use redis_kit.Redis.Keyspace.{text, Keyspace}
use redis_kit.Redis.Server.{Redis}
use redis_kit.Lock.Scripts.{
  release_lock, reentrant_acquire, reentrant_release, read_acquire, read_release, write_acquire,
  write_release, extend_lock, extend_reentrant_lock,
}

pub record LockBase : Type 0 where
  pub prefix : String
  pub is_cluster : Bool

unfoldable pub make_key : LockBase → String → String
make_key self name =
    let base = if self.prefix == "" then name else self.prefix ++ ":" ++ name in
    if self.is_cluster then "{" ++ base ++ "}" else base

-- Who calls: the process, the thread, and the random text of `uuid`.
pub record Caller : Type 0 where
  pub pid : String
  pub ident : String
  pub uuid : String

abbrev pub basic_owner : Caller → String
basic_owner c = c.ident ++ ":" ++ c.uuid

abbrev pub reentrant_owner : Caller → String
reentrant_owner c = "thread:" ++ c.pid ++ ":" ++ c.ident

-- The owner of a block, reentrant or not.
abbrev pub owner_of : Caller → Bool → String
owner_of c true = reentrant_owner c
owner_of c false = basic_owner c

abbrev pub rwlock_key : LockBase → String → String
rwlock_key self name = make_key self name ++ ":rwlock"

abbrev pub writer_key_of : String → String
writer_key_of key = key ++ ":writer"

-- The n-th reading of `time.monotonic()`, in milliseconds, and what the server sees of the n-th
-- `time.sleep(0.05)`: time goes by, and other clients act.
pub record Waiting : Type 0 where
  pub monotonic : ℕ → ℕ
  pub sleep : ℕ → Keyspace → Keyspace

-- The loop of `_spin_acquire`. The first number bounds the rounds.
unfoldable pub spin_loop : Waiting → Exec Keyspace Bool → ℕ → ℕ → ℕ → Exec Keyspace Bool
spin_loop w attempt zero n deadline s = (ok false, s)
spin_loop w attempt (suc rounds) n deadline s =
    let round =
      (attempt >>= λ acquired s'. elim acquired [
        | true ↦ (ok true, s')
        | false ↦ spin_loop w attempt rounds (suc n) deadline (w.sleep n s')
      ])
        s in
    if ltb (w.monotonic n) deadline then round else (ok false, s)

-- Every round sleeps for 50 ms at least.
unfoldable pub spin_acquire : Waiting → Exec Keyspace Bool → Option ℕ → Exec Keyspace Bool
unfolding spin_loop
spin_acquire w attempt none = attempt
spin_acquire w attempt (some blocking_timeout) =
    spin_loop w attempt (blocking_timeout / 50 + 1) 1 (w.monotonic 0 + blocking_timeout)

abbrev pub checked : Exec Keyspace Bool → Exec Keyspace (Unit {0})
checked release = do result ← release; if result then pure tt else raise lock_release

module _ (r : Redis) where
  unfoldable pub release_basic : String → String → Exec Keyspace (Unit {0})
  release_basic key owner = checked (release_lock r key owner)

  unfoldable pub release_reentrant : String → String → Exec Keyspace (Unit {0})
  release_reentrant key owner = checked (reentrant_release r key owner)

  unfoldable pub release_write : String → String → Exec Keyspace (Unit {0})
  release_write writer_key owner = checked (write_release r writer_key owner)

  -- `renew`, run by a timer; the reply says whether the next timer starts.
  unfoldable pub renew : Bool → String → String → ℕ → Exec Keyspace Bool
  renew reentrant key owner timeout =
      if reentrant
      then extend_reentrant_lock r key owner timeout
      else extend_lock r key owner timeout

-- `except BaseException`: a `LockReleaseError` is logged, and the exception of the body goes on.
abbrev pub swallow : Result (Unit {0}) → Error → Error
swallow (ok _) e = e
swallow (err lock_release) e = e
swallow (err other) e = other

-- What the timers that `_start_watchdog` starts do while the body runs, until they are cancelled when
-- it ends: the interval in milliseconds, what a timer runs, the body, and both together.
abbrev pub Timers {ℓ} : Type ℓ → Type ℓ
Timers A = ℕ → Exec Keyspace Bool → Exec Keyspace A → Exec Keyspace A

module _ {ℓ} {A : Type ℓ} where
  abbrev pub after_body : Exec Keyspace (Unit {0}) → Result A → Exec Keyspace A
  after_body release (ok a) = release >> pure a
  after_body release (err e) = λ s. (err (swallow (release s).0 e), (release s).1)

  -- `try: yield / except BaseException: … raise / else: …`
  unfoldable pub guarded : Exec Keyspace A → Exec Keyspace (Unit {0}) → Exec Keyspace A
  guarded body release s = after_body release (body s).0 (body s).1

  unfoldable pub acquired_then : Exec Keyspace Bool → Exec Keyspace A → Exec Keyspace A
  acquired_then acquire rest = do acquired ← acquire; if acquired then rest else raise lock_acquire

  module _ (r : Redis) where
    -- `auto_renew`: none is `False`. The interval is a third of the timeout.
    unfoldable pub start_watchdog :
        String → String → ℕ → Bool → Option (Timers A) → Exec Keyspace A → Exec Keyspace A
    unfolding renew
    start_watchdog key owner timeout reentrant none body = body
    start_watchdog key owner timeout reentrant (some timers) body =
        timers (timeout * 1000 / 3) (renew r reentrant key owner timeout) body

    -- The block on a key in the name of an owner.
    unfoldable pub block :
        Waiting
        → String
        → String
        → ℕ
        → Option ℕ
        → Bool
        → Option (Timers A)
        → Exec Keyspace A
        → Exec Keyspace A
    unfolding guarded acquired_then spin_acquire release_basic release_reentrant start_watchdog
    block w key owner timeout blocking_timeout true auto_renew body =
        acquired_then (spin_acquire w (reentrant_acquire r key owner timeout) blocking_timeout) (
          guarded (start_watchdog key owner timeout true auto_renew body)
            (release_reentrant r key owner))
    block w key owner timeout blocking_timeout false auto_renew body =
        acquired_then (spin_acquire w (r.set_nx_ex key (text owner) timeout) blocking_timeout) (
          guarded (start_watchdog key owner timeout false auto_renew body)
            (release_basic r key owner))

  module _ (r : Redis) (self : LockBase) (w : Waiting) (c : Caller) (name : String)
      (timeout : ℕ) where
    -- `with lock(name, timeout, blocking_timeout, reentrant, auto_renew):`
    unfoldable pub call : Option ℕ → Bool → Option (Timers A) → Exec Keyspace A → Exec Keyspace A
    unfolding block
    call blocking_timeout reentrant auto_renew body =
        block r w (make_key self name) (owner_of c reentrant) timeout blocking_timeout reentrant
          auto_renew body

    -- `with lock.read(name, timeout, blocking_timeout):`
    unfoldable pub read : Option ℕ → Exec Keyspace A → Exec Keyspace A
    unfolding guarded acquired_then spin_acquire
    read blocking_timeout body =
        let key = rwlock_key self name in
        acquired_then
          (spin_acquire w (read_acquire r key (writer_key_of key) timeout) blocking_timeout)
          (guarded body (read_release r key >>= λ _. pure tt))

    -- `with lock.write(name, timeout, blocking_timeout, auto_renew):`
    unfoldable pub write : ℕ → Option (Timers A) → Exec Keyspace A → Exec Keyspace A
    unfolding guarded acquired_then spin_acquire release_write start_watchdog
    write blocking_timeout auto_renew body =
        let key = rwlock_key self name in
        let writer_key = writer_key_of key in
        acquired_then
          (spin_acquire w (write_acquire r key writer_key c.uuid timeout) (some blocking_timeout))
          (guarded (start_watchdog r writer_key c.uuid timeout false auto_renew body)
            (release_write r writer_key c.uuid))
