-- ===== src/Lock/Blocks.antt =====
-- `_spin_acquire`, and what a `with lock(name):` block does with the result of its body.
use redis_kit.Common.{
  ℕ, zero, suc, ◌+◌, ◌*◌, ◌/◌, ◌≤◌, ◌<◌, Error, String, eq_refl, ◌≡◌, ◌≢◌, refl, Bool, true, false,
  Bool-cases, Option, none, some, arith, lock_acquire, lock_release, Result, ok, err, Exec, ◌>>=◌,
  ltb, inl, inr, if◌then◌else◌,
}
use redis_kit.Redis.Keyspace.{Datum, text, Keyspace}
use redis_kit.Redis.Documented.Strings.{get_reply, get, del}
use redis_kit.Redis.Server.{Redis, Follows, documented, same}
use redis_kit.Lock.Scripts.{matches, release_lock}
use redis_kit.Lock.Methods.{
  LockBase, Caller, Waiting, spin_loop, spin_acquire, guarded, acquired_then, block, call, Timers,
  release_basic, after_body, start_watchdog, make_key, basic_owner,
}

-- The `while` loop of `_spin_acquire` from its n-th reading of the clock on: when it comes to an end,
-- and with what. A round is made only before the deadline; after a reply no it sleeps and goes on.
pub data Spins (w : Waiting) (attempt : Exec Keyspace Bool) (deadline : ℕ)
    : ℕ → Keyspace → Result Bool × Keyspace → Type 0 where
  late :
      (n : ℕ) (s : Keyspace) → deadline ≤ w.monotonic n → Spins w attempt deadline n s (ok false, s)
  acquired :
      (n : ℕ) (s t : Keyspace)
      → w.monotonic n < deadline
      → attempt s ≡ (ok true, t)
      → Spins w attempt deadline n s (ok true, t)
  raised :
      (n : ℕ) (s t : Keyspace) (e : Error)
      → w.monotonic n < deadline
      → attempt s ≡ (err e, t)
      → Spins w attempt deadline n s (err e, t)
  again :
      (n : ℕ) (s t : Keyspace) (end : Result Bool × Keyspace)
      → w.monotonic n < deadline
      → attempt s ≡ (ok false, t)
      → Spins w attempt deadline (suc n) (w.sleep n t) end
      → Spins w attempt deadline n s end

module _ (w : Waiting) (attempt : Exec Keyspace Bool)
    (steady : (n : ℕ) → w.monotonic (suc n) + 50 ≤ w.monotonic (suc (suc n))) where
  spin_loop-Spins :
      (rounds n deadline : ℕ) (s : Keyspace)
      → deadline ≤ w.monotonic (suc n) + rounds * 50
      → Spins w attempt deadline (suc n) s (spin_loop w attempt rounds (suc n) deadline s)
  unfolding spin_loop
  spin_loop-Spins zero n deadline s enough = late (suc n) s (omega arith)
  spin_loop-Spins (suc rounds) n deadline s enough =
      elim (Bool-cases (ltb (w.monotonic (suc n)) deadline)) [
        | inr past ↦ rw past (late (suc n) s (ground arith))
        | inl early ↦ rw early (
            tried (ground arith)
              (λ u.
                spin_loop-Spins rounds (suc n) deadline (w.sleep (suc n) u)
                  (omega (arith, steady n)))
              (attempt s) refl)
      ]
    where
      tried :
          w.monotonic (suc n) < deadline
          → ((u : Keyspace)
              → Spins w attempt deadline
                  (suc (suc n))
                  (w.sleep (suc n) u)
                  (spin_loop w attempt rounds (suc (suc n)) deadline (w.sleep (suc n) u)))
          → (answer : Result Bool × Keyspace) → attempt s ≡ answer
          → Spins w attempt deadline (suc n) s (
              (attempt >>= λ acquired s'. elim acquired [
                | true ↦ (ok true, s')
                | false ↦ spin_loop w attempt rounds (suc (suc n)) deadline (w.sleep (suc n) s')
              ])
                s)
      tried in_time go_on (ok true, t) e = rw e (acquired (suc n) s t in_time e)
      tried in_time go_on (ok false, t) e = rw e (again (suc n) s t _ in_time e (go_on t))
      tried in_time go_on (err x, t) e = rw e (raised (suc n) s t x in_time e)

-- A wait with a timeout always ends, and as the loop does that is bounded by nothing but its
-- deadline: it tries at once and after every sleep for as long as the clock reads less than the
-- deadline, and it ends with the first yes, with the first exception, or with no at the first
-- reading that has reached the deadline. (Each sleep moves the clock by 50 ms at least, and the
-- clock does not go back between its first two readings.)
pub spin_ends :
    (w : Waiting) (attempt : Exec Keyspace Bool) (blocking_timeout : ℕ) (s : Keyspace)
    → ((n : ℕ) → w.monotonic (suc n) + 50 ≤ w.monotonic (suc (suc n)))
    → w.monotonic 0 ≤ w.monotonic 1
    → Spins w attempt
        (w.monotonic 0 + blocking_timeout)
        1
        s
        (spin_acquire w attempt (some blocking_timeout) s)
spin_ends w attempt b s steady start =
    unfold spin_acquire in
    spin_loop-Spins w attempt steady (b / 50 + 1) 0 (w.monotonic 0 + b) s (omega arith)

-- A blocking timeout of 0 never tries: whatever the state of the lock, the attempt is not made, and
-- the block raises `LockAcquireError` and changes nothing.
pub zero_timeout_never_tries {ℓ} :
    {A : Type ℓ} (r : Redis) (self : LockBase) (w : Waiting) (c : Caller) (name : String)
    (timeout : ℕ) (reentrant : Bool) (auto_renew : Option (Timers A)) (body : Exec Keyspace A)
    (s : Keyspace)
    → w.monotonic 0 ≤ w.monotonic 1
    → call r self w c name timeout (some 0) reentrant auto_renew body s ≡ (err lock_acquire, s)
unfolding call block acquired_then spin_acquire spin_loop
zero_timeout_never_tries r self w c name timeout true auto_renew body s later = ground arith
zero_timeout_never_tries r self w c name timeout false auto_renew body s later = ground arith

-- What comes out of a block, by the outcome of its body and by whether the caller still holds the
-- lock when the body ends.
abbrev pub outcome {ℓ} : {A : Type ℓ} → Result A → Bool → Result A
outcome (ok a) true = ok a
outcome (ok a) false = err lock_release
outcome (err e) _ = err e

module _ {ℓ} {A : Type ℓ} {r : Redis} (h : Follows r) (key owner : String) where
  after-outcome :
      (answer : Result A) (d : Option Datum) (s : Keyspace)
      → get_reply (s.cell key) ≡ ok d
      → ((after_body (release_basic r key owner) answer s).0 ≡ outcome answer (matches d owner))
        × ((after_body (release_basic r key owner) answer s).1.cell key
            ≡ (if matches d owner then none else s.cell key))
  after-outcome (ok a) d s e = rw (same h) (
      unfold release_basic release_lock documented get del in
      (ground (arith, eq_refl key), ground (arith, eq_refl key)))
  after-outcome (err x) d s e = rw (same h) (
      unfold release_basic release_lock documented get del in
      (ground (arith, eq_refl key), ground (arith, eq_refl key)))

  -- On a server that follows its documentation, where no command raises, a block round the basic lock
  -- does not mask the exception of its body, even if the lock was lost meanwhile; a body that returns has its result returned if the lock is still the caller's, and
  -- `LockReleaseError` raised if not. The key is freed if it is the caller's and left alone if not.
  -- (The key holds a string or nothing when the body ends.)
  pub block_outcome :
      (body : Exec Keyspace A) (d : Option Datum) (s : Keyspace)
      → get_reply ((body s).1.cell key) ≡ ok d
      → ((guarded body (release_basic r key owner) s).0 ≡ outcome (body s).0 (matches d owner))
        × ((guarded body (release_basic r key owner) s).1.cell key
            ≡ (if matches d owner then none else (body s).1.cell key))
  unfolding guarded
  block_outcome body d s e = after-outcome (body s).0 d (body s).1 e

-- A block round the basic lock masks the exception of its body when the release itself raises one
-- other than `LockReleaseError`: whatever the body raised, the block raises the exception of the
-- release, for instance that the connection broke, and the lock stays as the release left it. (The
-- lock was acquired, with neither a limit on the waiting nor `auto_renew`; the server may do
-- anything.)
pub release_error_masks {ℓ} :
    {A : Type ℓ} (r : Redis) (self : LockBase) (w : Waiting) (c : Caller) (name : String)
    (timeout : ℕ) (body : Exec Keyspace A) (s u v z : Keyspace) (e broken : Error)
    → r.set_nx_ex (make_key self name) (text (basic_owner c)) timeout s ≡ (ok true, u)
    → body u ≡ (err e, v)
    → release_lock r (make_key self name) (basic_owner c) v ≡ (err broken, z)
    → broken ≢ lock_release
    → call r self w c name timeout none false none body s ≡ (err broken, z)
unfolding call block acquired_then spin_acquire guarded start_watchdog release_basic
release_error_masks r self w c name timeout body s u v z e broken got failed stuck other =
    ground (arith, got, failed, stuck, other)
