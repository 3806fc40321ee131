-- ===== src/Lock/Exclusion.antt =====
-- The basic lock: SET with NX and EX, RELEASE_LOCK and EXTEND_LOCK, against every interleaving.
use redis_kit.Common.{
  ℕ, suc, ◌+◌, ◌*◌, ◌<◌, String, eq_iff, ◌≡◌, ◌≢◌, ◌⊎◌, true, false, Option, none, some, List, [],
  ◌∷◌, arith, ok, All,
}
use redis_kit.Redis.Keyspace.{text, str, Keyspace}
use redis_kit.Redis.Documented.Strings.{get, set_nx_ex, del, expire, elapse}
use redis_kit.Redis.Server.{Redis, Follows, documented, same}
use redis_kit.Lock.Scripts.{release_lock, extend_lock}

-- What a client of the server, or time, can do next.
pub data Event : Type 0 where
  acquire : String → String → ℕ → Event
  release : String → String → Event
  extend : String → String → ℕ → Event
  wait : ℕ → Event

module _ (r : Redis) where
  unfoldable pub step : Event → Keyspace → Keyspace
  step (acquire k o t) s = (r.set_nx_ex k (text o) t s).1
  step (release k o) s = (release_lock r k o s).1
  step (extend k o t) s = (extend_lock r k o t s).1
  step (wait ms) s = r.elapse ms s

  unfoldable pub play : List Event → Keyspace → Keyspace
  unfolding step
  play [] s = s
  play (e ∷ es) s = play es (step e s)

abbrev pub waited : List Event → ℕ
waited [] = 0
waited (wait ms ∷ es) = ms + waited es
waited (_ ∷ es) = waited es

waited-cons : (e : Event) (es : List Event) → waited (e ∷ es) ≡ waited (e ∷ []) + waited es
waited-cons (acquire k o t) es = omega arith
waited-cons (release k o) es = omega arith
waited-cons (extend k o t) es = omega arith
waited-cons (wait ms) es = omega arith

-- The event is no release or extension of the lock `key` by `owner`.
abbrev pub Foreign : String → String → Event → Type 0
Foreign key owner (release k o) = (k ≢ key) ⊎ (o ≢ owner)
Foreign key owner (extend k o t) = (k ≢ key) ⊎ (o ≢ owner)
Foreign key owner _ = Unit

pub record IsHeld (key owner : String) (deadline : ℕ) (s : Keyspace) : Type 0 where
  pub entry : s.cell key ≡ some (record { value = str (text owner); expires = some deadline })
  pub running : s.clock < deadline

module _ {r : Redis} (h : Follows r) (key owner : String) (deadline : ℕ) where
  step-IsHeld :
      (e : Event) (s : Keyspace)
      → Foreign key owner e
      → IsHeld key owner deadline s
      → s.clock + waited (e ∷ []) < deadline
      → IsHeld key owner deadline (step r e s)
  unfolding step documented release_lock extend_lock get set_nx_ex del expire elapse
  step-IsHeld (acquire k o t) s f i w = rw (same h) (ground (arith, eq_iff k key))
  step-IsHeld (release k o) s f i w = rw (same h) (ground (arith, eq_iff k key, eq_iff owner o))
  step-IsHeld (extend k o t) s f i w = rw (same h) (ground (arith, eq_iff k key, eq_iff owner o))
  step-IsHeld (wait ms) s f i w = rw (same h) (ground arith)

  clock-step : (e : Event) (s : Keyspace) → (step r e s).clock ≡ s.clock + waited (e ∷ [])
  unfolding step documented release_lock extend_lock get set_nx_ex del expire elapse
  clock-step (acquire k o t) s = rw (same h) (ground arith)
  clock-step (release k o) s = rw (same h) (ground arith)
  clock-step (extend k o t) s = rw (same h) (ground arith)
  clock-step (wait ms) s = rw (same h) (ground arith)

  pub play-IsHeld :
      (es : List Event) (s : Keyspace)
      → All (Foreign key owner) es
      → IsHeld key owner deadline s
      → s.clock + waited es < deadline
      → IsHeld key owner deadline (play r es s)
  unfolding play
  play-IsHeld [] s f i w = i
  play-IsHeld (e ∷ es) s f i w =
      play-IsHeld es (step r e s) f.1 (step-IsHeld e s f.0 i (omega (arith, waited-cons e es)))
        (omega (arith, waited-cons e es, clock-step e s))

module _ {r : Redis} (h : Follows r) (key : String) where
  acquire-IsHeld :
      (owner : String) (t : ℕ) (s : Keyspace)
      → s.cell key ≡ none
      → IsHeld key owner (s.clock + suc t * 1000) (step r (acquire key owner (suc t)) s)
  unfolding step documented set_nx_ex
  acquire-IsHeld owner t s free = rw (same h) (ground (arith, eq_iff key key))

  at_holder :
      (owner o : String) (u : ℕ) (s : Keyspace) {d : Option ℕ}
      → s.cell key ≡ some (record { value = str (text owner); expires = d })
      → (r.set_nx_ex key (text o) (suc u) s ≡ (ok false, s))
        × ((release_lock r key owner s).0 ≡ ok true)
        × ((release_lock r key owner s).1.cell key ≡ none)
  unfolding documented set_nx_ex release_lock get del
  at_holder owner o u s e = rw (same h) (
    ground arith,
    ground (arith, eq_iff owner owner),
    ground (arith, eq_iff owner owner, eq_iff key key),
  )

  -- A lock that is taken on a free key stays with its owner until the timeout is over: whatever
  -- other clients do meanwhile (they may acquire, release and extend this and any other lock; only
  -- releases and extensions of this lock in the owner's name are left out), an attempt to acquire
  -- it replies no and changes nothing, and the owner's release replies yes and frees the key.
  pub exclusion :
      (owner : String) (t : ℕ) (s : Keyspace) (es : List Event)
      → s.cell key ≡ none
      → All (Foreign key owner) es
      → waited es < suc t * 1000
      → (o : String) (u : ℕ)
      → (r.set_nx_ex key (text o) (suc u) (play r es (step r (acquire key owner (suc t)) s))
          ≡ (ok false, play r es (step r (acquire key owner (suc t)) s)))
        × ((release_lock r key owner (play r es (step r (acquire key owner (suc t)) s))).0
            ≡ ok true)
        × ((release_lock r key owner (play r es (step r (acquire key owner (suc t)) s))).1.cell key
            ≡ none)
  exclusion owner t s es free f w o u =
      let s1 = step r (acquire key owner (suc t)) s in
      let start = acquire-IsHeld owner t s free in
      let held =
        play-IsHeld h key owner (s.clock + suc t * 1000) es s1 f start
          (omega (arith, clock-acquire)) in
      at_holder owner o u (play r es s1) held.entry
    where
      clock-acquire : (step r (acquire key owner (suc t)) s).clock ≡ s.clock + 0
      clock-acquire = clock-step h key owner 0 (acquire key owner (suc t)) s

  -- A release in a name that does not hold the lock replies no and changes nothing; so does an
  -- extension.
  pub not_owner :
      (owner o : String) (d : Option ℕ) (t : ℕ) (s : Keyspace)
      → s.cell key ≡ some (record { value = str (text owner); expires = d })
      → o ≢ owner
      → (release_lock r key o s ≡ (ok false, s)) × (extend_lock r key o t s ≡ (ok false, s))
  unfolding documented release_lock extend_lock get
  not_owner owner o d t s held ne =
      rw (same h) (ground (arith, eq_iff owner o), ground (arith, eq_iff owner o))
