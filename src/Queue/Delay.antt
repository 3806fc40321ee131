-- ===== src/Queue/Delay.antt =====
-- The delay queue: when a message is delivered.
use redis_kit.Common.{
  Bool-cases, inl, inr, ℕ, zero, suc, ◌+◌, ◌*◌, ◌≤◌, ◌<◌, String, eq_refl, ◌≡◌, refl, none, some,
  [], ◌∷◌, arith, leb, ok, take, if◌then◌else◌,
}
use redis_kit.Redis.Keyspace.{Datum, zset, Keyspace, datum_eq_iff}
use redis_kit.Redis.Documented.Strings.{elapse}
use redis_kit.Redis.Documented.SortedSets.{
  insert_member, without_member, without_members, up_to, zadd, zrangebyscore, zrem,
}
use redis_kit.Redis.Server.{Redis, Follows, documented, same}
use redis_kit.Queue.Methods.{
  DelayQueue, key, put_script, poll_script, decode_poll_results, put_delayed, poll,
}

take-nil : (n : ℕ) → take {A = ℕ × Datum} n [] ≡ []
take-nil zero = refl
take-nil (suc n) = refl

module _ {r : Redis} (h : Follows r) (k : String) where
  -- One message with its due time, under a key without a deadline.
  abbrev Alone : ℕ → Datum → ℕ → Keyspace → Type 0
  Alone due payload now s =
      (s.cell k ≡ some (record { value = zset ((due, payload) ∷ []); expires = none }))
      × (s.clock ≡ now)

  put-Alone :
      (payload : Datum) (delay ms : ℕ) (s : Keyspace)
      → s.cell k ≡ none
      → Alone
          (s.clock + delay * 1000)
          payload
          (s.clock + ms)
          (r.elapse ms (put_script r k delay payload s).1)
  put-Alone payload delay ms s free = rw (same h) (
      unfold put_script documented elapse zadd insert_member without_member in
      (ground (arith, eq_refl k), ground (arith, eq_refl k)))

  poll_early :
      (payload : Datum) (due now n : ℕ) (s : Keyspace)
      → Alone due payload now s
      → now < due
      → poll_script r k (suc n) s ≡ (ok [], s)
  poll_early payload due now n s at early =
      rw (same h) (
        unfold poll_script documented zrangebyscore up_to in ground (arith, at.0, at.1, take-nil n))

  poll_late :
      (payload : Datum) (due now n : ℕ) (s : Keyspace)
      → Alone due payload now s
      → due ≤ now
      → ((poll_script r k (suc n) s).0 ≡ ok (payload ∷ []))
        × ((poll_script r k (suc n) s).1.cell k ≡ none)
  poll_late payload due now n s at late = rw (same h) (
      unfold poll_script documented zrangebyscore zrem without_member without_members up_to in
      (
        ground (arith, at.0, at.1, take-nil n),
        ground (arith, at.0, at.1, take-nil n, eq_refl k, datum_eq_iff payload payload),
      ))

  poll_none : (n : ℕ) (s : Keyspace) → s.cell k ≡ none → poll_script r k (suc n) s ≡ (ok [], s)
  poll_none n s free =
      rw (same h)
        (unfold poll_script documented zrangebyscore up_to in ground (arith, free, take-nil n))

module _ {ℓ} {A : Type ℓ} (self : DelayQueue A) (h : Follows self.client) where
  -- A message that is put alone on a delay queue with a delay in seconds is delivered by a `poll`
  -- that comes `ms` milliseconds later if these cover the delay, and not before; once delivered
  -- it is gone: the next `poll` delivers nothing. (There is nothing under the key before, and the
  -- JSON text of the message is read back.)
  pub delay_exact :
      (msg_id : String) (a : A) (delay ms n again : ℕ) (s : Keyspace)
      → s.cell (key self) ≡ none
      → self.loads (self.dumps msg_id a) ≡ ok a
      → let later = self.client.elapse ms (put_delayed self msg_id a delay s).1 in
        ((poll self (suc n) later).0 ≡ ok (if leb (delay * 1000) ms then a ∷ [] else []))
        × ((poll self (suc again) (poll self (suc n) later).1).0 ≡ ok [])
  unfolding poll put_delayed decode_poll_results
  delay_exact msg_id a delay ms n again s free json =
      let later = self.client.elapse ms (put_delayed self msg_id a delay s).1 in
      let raw = self.dumps msg_id a in
      let at = put-Alone h (key self) raw delay ms s free in
      elim (Bool-cases (leb (delay * 1000) ms)) [
        | inl due ↦
            let (got, gone) = poll_late h (key self) raw _ _ n later at (ground arith) in
            (
              rw got (rw (json, decode_poll_results) (rw due refl)),
              rw got (
                  rw
                    (poll_none h (key self) again
                      (poll_script self.client (key self) (suc n) later).1 gone)
                    refl),
            )
        | inr early ↦
            let nothing = poll_early h (key self) raw _ _ n later at (ground arith) in
            let still = poll_early h (key self) raw _ _ again later at (ground arith) in
            (rw nothing (rw early refl), rw nothing (rw still refl))
      ]
