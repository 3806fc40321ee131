-- ===== src/RateLimit/Window.antt =====
-- What the sliding window grants, and what it remembers.
use redis_kit.Common.{
  ℕ, suc, ◌+◌, ◌-◌, ◌*◌, ◌≤◌, max, String, eq_refl, ◌≡◌, refl, true, Bool-cases, inl, inr, Option,
  none, some, [], ◌∷◌, arith, length, ok, ltb, if◌then◌else◌,
}
use redis_kit.Redis.Keyspace.{Datum, Keyspace}
use redis_kit.Redis.Documented.Strings.{pexpire}
use redis_kit.Redis.Documented.SortedSets.{
  Members, members_at, above, insert_member, without_member, zadd, zcard, zfirst, zremrangebyscore,
}
use redis_kit.Redis.Server.{Redis, Follows, documented, same}
use redis_kit.RateLimit.SlidingWindow.{
  SlidingWindow, make_key, trim, granted, denied, sliding_window_script, acquire,
}

-- The grants that are still in the window at `now`.
abbrev pub recent : ℕ → ℕ → Members → Members
recent window_ms now l = if ltb now window_ms then l else above (now - window_ms) l

abbrev pub oldest : Members → Option (ℕ × Datum)
oldest [] = none
oldest (x ∷ _) = some x

length-insert_member :
    (t : ℕ) (d : Datum) (l : Members) → length (insert_member t d l) ≡ suc (length l)
unfolding insert_member
length-insert_member t d [] = refl
length-insert_member t d ((u, x) ∷ l) = ground (arith, length-insert_member t d l)

length-without_member-le : (d : Datum) (l : Members) → length (without_member d l) ≤ length l
unfolding without_member
length-without_member-le d [] = omega arith
length-without_member-le d ((u, x) ∷ l) = ground (arith, length-without_member-le d l)

module _ {r : Redis} (h : Follows r) (k : String) (limit window_ms : ℕ) where
  trimmed :
      (l : Members) (s : Keyspace)
      → members_at (s.cell k) ≡ ok l
      → ((trim r k limit window_ms s).0 ≡ ok tt)
        × (members_at ((trim r k limit window_ms s).1.cell k) ≡ ok (recent window_ms s.clock l))
        × ((trim r k limit window_ms s).1.clock ≡ s.clock)
  trimmed l s at = rw (same h) (
      unfold trim documented zremrangebyscore in
      (ground (arith, at), ground (arith, at, eq_refl k), ground (arith, at, eq_refl k)))

  counted :
      (l : Members) (s : Keyspace)
      → members_at (s.cell k) ≡ ok l
      → (r.zcard k s ≡ (ok (length l), s)) × (r.zfirst k s ≡ (ok (oldest l), s))
  counted l s at =
      rw (same h) (unfold documented zcard zfirst in (ground (arith, at), ground (arith, at)))

  added :
      (t ttl : ℕ) (member : Datum) (l : Members) (s : Keyspace)
      → members_at (s.cell k) ≡ ok l
      → let s1 = (r.zadd k t member s).1 in
        ((r.zadd k t member s).0 ≡ ok tt)
        × ((r.pexpire k (suc ttl) s1).0 ≡ ok true)
        × (members_at ((r.pexpire k (suc ttl) s1).1.cell k)
            ≡ ok (insert_member t member (without_member member l)))
  added t ttl member l s at = rw (same h) (
      unfold documented zadd pexpire in
      (ground (arith, at), ground (arith, at, eq_refl k), ground (arith, at, eq_refl k)))

  script_lem :
      (member : Datum) (ttl : ℕ) (l : Members) (s : Keyspace)
      → members_at (s.cell k) ≡ ok l
      → let left = recent window_ms s.clock l in
        ((sliding_window_script r k limit window_ms member (suc ttl) s).0
          ≡ ok (
              if ltb (length left) limit
              then granted r k limit window_ms s.clock (length left)
              else denied r k limit window_ms s.clock (oldest left)))
        × (members_at ((sliding_window_script r k limit window_ms member (suc ttl) s).1.cell k)
            ≡ ok (
                if ltb (length left) limit
                then insert_member s.clock member (without_member member left)
                else left))
  unfolding sliding_window_script
  script_lem member ttl l s at =
      let left = recent window_ms s.clock l in
      let s1 = (trim r k limit window_ms s).1 in
      let (done, at1, clock) = trimmed l s at in
      let (count, first) = counted left s1 at1 in
      let (put, lives, at2) = added s.clock ttl member left s1 at1 in
      elim (Bool-cases (ltb (length left) limit)) [
        | inl room ↦ rw done (rw count (rw room (rw put (rw lives (refl, at2)))))
        | inr full ↦ rw done (rw count (rw full (rw first (refl, at1))))
      ]

  kept-bounded :
      (now : ℕ) (member : Datum) (left : Members)
      → length (
          if ltb (length left) limit
          then insert_member now member (without_member member left)
          else left)
        ≤ max limit (length left)
  kept-bounded now member left = ground (
    arith,
    length-insert_member now member (without_member member left),
    length-without_member-le member left,
  )

-- The limiter grants exactly while fewer than `limit` of the grants it remembers lie in the
-- window that ends now. It remembers a grant under the server's time, forgets what left the
-- window, and remembers nothing of a refusal. The grants that it remembers then are at most
-- `limit`, or as many as lay in the window before, if that is more. (The key holds a sorted set,
-- or nothing.)
pub window_exact :
    (self : SlidingWindow) (h : Follows self.client) (member : Datum) (key : String) (l : Members)
    (s : Keyspace)
    → members_at (s.cell (make_key self key)) ≡ ok l
    → let k = make_key self key in
      let window_ms = self.window * 1000 in
      let left = recent window_ms s.clock l in
      let after =
        if ltb (length left) self.limit
        then insert_member s.clock member (without_member member left)
        else left in
      ((acquire self member key s).0
        ≡ ok (
            if ltb (length left) self.limit
            then granted self.client k self.limit window_ms s.clock (length left)
            else denied self.client k self.limit window_ms s.clock (oldest left)))
      × (members_at ((acquire self member key s).1.cell k) ≡ ok after)
      × (length after ≤ max self.limit (length left))
unfolding acquire
window_exact self h member key l s at =
    let k = make_key self key in
    let window_ms = self.window * 1000 in
    let positive : window_ms + 1000 ≡ suc (window_ms + 999) = omega arith in
    let (reply, kept) = script_lem h k self.limit window_ms member (window_ms + 999) l s at in
    rw positive (
      reply,
      kept,
      kept-bounded h k self.limit window_ms s.clock member (recent window_ms s.clock l),
    )
