-- ===== src/Lock/Watchdog.antt =====
-- `auto_renew`: `_start_watchdog` of redis_kit/lock/lock.py.
use redis_kit.Common.{
  ℕ, zero, suc, ◌+◌, ◌*◌, ◌/◌, ◌<◌, String, eq_iff, ◌≡◌, refl, Bool, true, false, List, arith, ok,
  Exec, pure, ◌>>=◌, All,
}
use redis_kit.Redis.Keyspace.{Keyspace}
use redis_kit.Redis.Documented.Strings.{get, expire}
use redis_kit.Redis.Server.{Redis, Follows, documented, same}
use redis_kit.Lock.Scripts.{extend_lock}
use redis_kit.Lock.Methods.{renew}
use redis_kit.Lock.Exclusion.{Event, Foreign, IsHeld, play, play-IsHeld, waited}

module _ (r : Redis) (reentrant : Bool) (key owner : String) (timeout : ℕ) where
  -- The first timers, one after the other, and whether the next one runs. Each takes a third
  -- of the timeout, in milliseconds; `interval` is what the server sees in the n-th.
  unfoldable pub watchdog : (ℕ → ℕ → Keyspace → Keyspace) → ℕ → ℕ → Exec Keyspace Bool
  unfolding renew
  watchdog interval zero n s = (ok true, s)
  watchdog interval (suc rounds) n s =
      (renew r reentrant key owner timeout >>= λ result. elim result [
        | true ↦ watchdog interval rounds (suc n)
        | false ↦ pure false
      ])
        (interval (timeout * 1000 / 3) n s)

module _ {r : Redis} (h : Follows r) (key owner : String) (t : ℕ) where
  extend-IsHeld :
      (deadline : ℕ) (s : Keyspace)
      → IsHeld key owner deadline s
      → ((extend_lock r key owner (suc t) s).0 ≡ ok true)
        × IsHeld key owner (s.clock + suc t * 1000) (extend_lock r key owner (suc t) s).1
        × ((extend_lock r key owner (suc t) s).1.clock ≡ s.clock)
  unfolding documented extend_lock get expire
  extend-IsHeld deadline s i = rw (same h) (
    ground (arith, i.entry, eq_iff owner owner),
    record {
      entry = ground (arith, i.entry, eq_iff owner owner, eq_iff key key);
      running = ground (arith, i.entry, eq_iff owner owner);
    },
    ground (arith, i.entry, eq_iff owner owner),
  )

  module _ (others : ℕ → List Event) (f : (i : ℕ) → All (Foreign key owner) (others i))
      (w : (i : ℕ) → waited (others i) < suc t * 1000) where
    abbrev watched : ℕ → ℕ → Exec Keyspace Bool
    watched rounds n = watchdog r false key owner (suc t) (λ _ i. play r (others i)) rounds n

    abbrev after_interval : ℕ → Keyspace → Keyspace
    after_interval n s = (extend_lock r key owner (suc t) (play r (others n) s)).1

    one_round :
        (rounds n deadline : ℕ) (s : Keyspace)
        → IsHeld key owner deadline s
        → s.clock + waited (others n) < deadline
        → (watched (suc rounds) n s ≡ watched rounds (suc n) (after_interval n s))
          × IsHeld key owner ((after_interval n s).clock + suc t * 1000) (after_interval n s)
    unfolding watchdog renew
    one_round rounds n deadline s i in_time =
        let s1 = play r (others n) s in
        let held = play-IsHeld h key owner deadline (others n) s (f n) i in_time in
        let (answered, renewed, clock) = extend-IsHeld deadline s1 held in
        (rw answered refl, rw clock renewed)

    kept_up :
        (rounds n : ℕ) (s : Keyspace)
        → IsHeld key owner (s.clock + suc t * 1000) s
        → ((watched rounds n s).0 ≡ ok true)
          × IsHeld key owner ((watched rounds n s).1.clock + suc t * 1000) (watched rounds n s).1
    unfolding watchdog
    kept_up zero n s i = (refl, i)
    kept_up (suc rounds) n s i =
        let (e, i') = one_round rounds n (s.clock + suc t * 1000) s i (omega (arith, w n)) in
        rw e (kept_up rounds (suc n) (after_interval n s) i')

  -- With the watchdog a basic lock does not run out. As long as each interval is shorter than the
  -- timeout, the watchdog goes on after any number of intervals and the lock is still its owner's,
  -- with the whole timeout left, whatever other clients do in between. (They send no release or
  -- extension in the owner's name; the lock is the owner's for longer than the first interval.)
  pub watchdog-IsHeld :
      (others : ℕ → List Event) (rounds n deadline : ℕ) (s : Keyspace)
      → ((i : ℕ) → All (Foreign key owner) (others i))
      → ((i : ℕ) → waited (others i) < suc t * 1000)
      → IsHeld key owner deadline s
      → s.clock + waited (others n) < deadline
      → let end = watchdog r false key owner (suc t) (λ _ i. play r (others i)) (suc rounds) n s in
        (end.0 ≡ ok true) × IsHeld key owner (end.1.clock + suc t * 1000) end.1
  watchdog-IsHeld others rounds n deadline s f w i in_time =
      let (e, i') = one_round others f w rounds n deadline s i in_time in
      rw e (kept_up others f w rounds (suc n) (after_interval others f w n s) i')
