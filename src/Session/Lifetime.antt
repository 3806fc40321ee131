-- ===== src/Session/Lifetime.antt =====
-- How long a session lives.
use redis_kit.Common.{
  ℕ, suc, ◌+◌, ◌*◌, String, eq_refl, ◌≡◌, refl, true, false, not, Option, none, some, List, [], ◌∷◌,
  arith, leb, session_not_found, ok, err,
}
use redis_kit.Redis.Keyspace.{hash, Fields, Entry, Keyspace}
use redis_kit.Redis.Fields.{with_fields}
use redis_kit.Redis.Documented.Strings
use redis_kit.Redis.Documented.Hashes.{fields_at, hset, hgetall}
use redis_kit.Redis.Server.{Redis, Follows, documented, same}
use redis_kit.Session.Methods.{
  SessionManager, update_script, make_key, dumped, get, update, refresh, exists,
}

-- The hash `l` with this deadline.
abbrev pub dated : Fields → Option ℕ → Option Entry
dated l d = some (record { value = hash l; expires = d })

module _ {r : Redis} (h : Follows r) (k : String) where
  update_done :
      (ttl t : ℕ) (new l : Fields) (d : Option ℕ) (s : Keyspace)
      → ttl ≡ suc t
      → s.cell k ≡ dated l d
      → ((update_script r k ttl new s).0 ≡ ok true)
        × ((update_script r k ttl new s).1.cell k
            ≡ dated (with_fields new l) (some (s.clock + suc t * 1000)))
        × ((update_script r k ttl new s).1.clock ≡ s.clock)
  update_done ttl t [] l d s lives at =
      rw (same h, lives)
        (unfold update_script documented Strings.exists Strings.expire with_fields in
          (ground (arith, at), ground (arith, at, eq_refl k), ground (arith, at)))
  update_done ttl t (f ∷ new) l d s lives at =
      rw (same h, lives)
        (unfold update_script documented Strings.exists Strings.expire hset in
          (ground (arith, at), ground (arith, at, eq_refl k), ground (arith, at, eq_refl k)))

  exists_later :
      (l : Fields) (now t ms : ℕ) (s : Keyspace)
      → s.cell k ≡ dated l (some (now + t))
      → s.clock ≡ now
      → (r.exists k (r.elapse ms s)).0 ≡ ok (not (leb t ms))
  exists_later l now t ms s at clock =
      rw (same h) (unfold documented Strings.exists Strings.elapse in ground (arith, at, clock))

  refresh_done :
      (ttl t : ℕ) (l : Fields) (d : Option ℕ) (s : Keyspace)
      → ttl ≡ suc t
      → s.cell k ≡ dated l d
      → ((r.expire k ttl s).0 ≡ ok true)
        × ((r.expire k ttl s).1.cell k ≡ dated l (some (s.clock + suc t * 1000)))
        × ((r.expire k ttl s).1.clock ≡ s.clock)
  refresh_done ttl t l d s lives at =
      rw (same h, lives)
        (unfold documented Strings.expire in
          (ground (arith, at), ground (arith, at, eq_refl k), ground (arith, at)))

  absent :
      (t : ℕ) (s : Keyspace)
      → s.cell k ≡ none
      → (r.exists k s ≡ (ok false, s))
        × (r.expire k t s ≡ (ok false, s))
        × (r.hgetall k s ≡ (ok [], s))
  absent t s free = rw (same h) (
      unfold documented Strings.exists Strings.expire hgetall in
      (ground (arith, free), ground (arith, free), ground (arith, free)))

module _ {ℓ} {A : Type ℓ} (self : SessionManager A) (h : Follows self.client) where
  -- Expiry slides: an `update` and a `refresh` of a live session both give it a full time to live
  -- from that moment, whatever was left; `ms` milliseconds later it is there exactly if they do
  -- not cover the time to live. The update overwrites the fields it names and keeps the others.
  -- (The time to live is 1 second or more.)
  pub sliding :
      (id : String) (content : List (String × A)) (t ms : ℕ) (l : Fields) (d : Option ℕ)
      (s : Keyspace)
      → s.cell (make_key self id) ≡ dated l d
      → self.ttl ≡ suc t
      → let updated = (update self id content s).1 in
        let refreshed = (refresh self id s).1 in
        ((update self id content s).0 ≡ ok tt)
        × (fields_at (updated.cell (make_key self id)) ≡ ok (with_fields (dumped self content) l))
        × ((exists self id (self.client.elapse ms updated)).0 ≡ ok (not (leb (suc t * 1000) ms)))
        × ((refresh self id s).0 ≡ ok tt)
        × ((exists self id (self.client.elapse ms refreshed)).0 ≡ ok (not (leb (suc t * 1000) ms)))
  unfolding update refresh exists
  sliding id content t ms l d s at lives =
      let (done, cell, clock) =
        update_done h (make_key self id) self.ttl t (dumped self content) l d s lives at in
      let (done', cell', clock') = refresh_done h (make_key self id) self.ttl t l d s lives at in
      rw done (
        rw done' (
          refl,
          rw cell refl,
          exists_later h (make_key self id) _ s.clock _ ms _ cell clock,
          refl,
          exists_later h (make_key self id) _ s.clock _ ms _ cell' clock',
        ))

  -- A session that is not there stays so: `update` and `refresh` raise `SessionNotFoundError` and
  -- change nothing, `get` returns `None`, `exists` says no.
  pub missing :
      (id : String) (content : List (String × A)) (s : Keyspace)
      → s.cell (make_key self id) ≡ none
      → (update self id content s ≡ (err session_not_found, s))
        × (refresh self id s ≡ (err session_not_found, s))
        × (get self id s ≡ (ok none, s))
        × (exists self id s ≡ (ok false, s))
  unfolding update refresh exists get update_script
  missing id content s free =
      let (no_key, no_expiry, no_fields) = absent h (make_key self id) self.ttl s free in
      (rw no_key refl, rw no_expiry refl, rw no_fields refl, no_key)
