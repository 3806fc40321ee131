-- ===== src/Lock/Reentrant.antt =====
-- The reentrant lock counts its holds, and opens for others at the last release only.
use redis_kit.Common.{
  ℕ, zero, suc, ◌+◌, ◌*◌, String, eq_iff, ◌≡◌, ◌≢◌, true, false, Option, none, some, [], ◌∷◌, arith,
  ok,
}
use redis_kit.Common.Integers.{pos, ◌+ℤ◌}
use redis_kit.Redis.Keyspace.{text, number, hash, Entry, Keyspace}
use redis_kit.Redis.Fields.{field_of, with_field, with_fields}
use redis_kit.Redis.Documented.Strings.{del, expire}
use redis_kit.Redis.Documented.Hashes.{hget, hset, hincrby}
use redis_kit.Redis.Server.{Redis, Follows, documented, same}
use redis_kit.Lock.Scripts.{reentrant_acquire, reentrant_release}

-- The hash of a reentrant lock that its owner holds `n` times.
abbrev pub held : String → ℕ → Option ℕ → Option Entry
held owner n d =
    some (record {
      value = hash (("owner", text owner) ∷ ("count", number (pos n)) ∷ []);
      expires = d;
    })

-- `owner` holds the lock `n` times in all.
abbrev pub Holds : String → String → ℕ → Keyspace → Type 0
Holds key owner zero s = s.cell key ≡ none
Holds key owner (suc n) s = (d : Option ℕ) × (s.cell key ≡ held owner (suc n) d)

module _ {r : Redis} (h : Follows r) (key owner : String) where
  acquire_free :
      (t : ℕ) (s : Keyspace)
      → s.cell key ≡ none
      → ((reentrant_acquire r key owner (suc t) s).0 ≡ ok true)
        × ((reentrant_acquire r key owner (suc t) s).1.cell key
            ≡ held owner 1 (some (s.clock + suc t * 1000)))
  acquire_free t s e = rw (same h) (
      unfold reentrant_acquire documented field_of with_field with_fields hget hset expire in
      (ground (arith, eq_iff key key), ground (arith, eq_iff key key)))

  acquire_again :
      (n t : ℕ) (d : Option ℕ) (s : Keyspace)
      → s.cell key ≡ held owner (suc n) d
      → ((reentrant_acquire r key owner (suc t) s).0 ≡ ok true)
        × ((reentrant_acquire r key owner (suc t) s).1.cell key
            ≡ held owner (suc (suc n)) (some (s.clock + suc t * 1000)))
  acquire_again n t d s e = rw (same h) (
      unfold reentrant_acquire documented field_of with_field with_fields hget hincrby expire
        ◌+ℤ◌ in
      (
        ground (arith, eq_iff owner owner, eq_iff key key),
        ground (arith, eq_iff owner owner, eq_iff key key),
      ))

  release_outer :
      (n : ℕ) (d : Option ℕ) (s : Keyspace)
      → s.cell key ≡ held owner (suc (suc n)) d
      → ((reentrant_release r key owner s).0 ≡ ok true)
        × ((reentrant_release r key owner s).1.cell key ≡ held owner (suc n) d)
  release_outer n d s e = rw (same h) (
      unfold reentrant_release documented field_of with_field with_fields hget hincrby del ◌+ℤ◌ in
      (
        ground (arith, eq_iff owner owner, eq_iff key key),
        ground (arith, eq_iff owner owner, eq_iff key key),
      ))

  release_last :
      (d : Option ℕ) (s : Keyspace)
      → s.cell key ≡ held owner 1 d
      → ((reentrant_release r key owner s).0 ≡ ok true)
        × ((reentrant_release r key owner s).1.cell key ≡ none)
  release_last d s e = rw (same h) (
      unfold reentrant_release documented field_of with_field with_fields hget hincrby del ◌+ℤ◌ in
      (
        ground (arith, eq_iff owner owner, eq_iff key key),
        ground (arith, eq_iff owner owner, eq_iff key key),
      ))

  pub acquire-Holds :
      (n t : ℕ) (s : Keyspace)
      → Holds key owner n s
      → ((reentrant_acquire r key owner (suc t) s).0 ≡ ok true)
        × Holds key owner (suc n) (reentrant_acquire r key owner (suc t) s).1
  acquire-Holds zero t s e =
      let got = acquire_free t s e in (got.0, (some (s.clock + suc t * 1000), got.1))
  acquire-Holds (suc n) t s (d, e) =
      let got = acquire_again n t d s e in (got.0, (some (s.clock + suc t * 1000), got.1))

  pub release-Holds :
      (n : ℕ) (s : Keyspace)
      → Holds key owner (suc n) s
      → ((reentrant_release r key owner s).0 ≡ ok true)
        × Holds key owner n (reentrant_release r key owner s).1
  release-Holds zero s (d, e) = release_last d s e
  release-Holds (suc n) s (d, e) = let got = release_outer n d s e in (got.0, (d, got.1))

  -- While one owner holds a reentrant lock any number of times, an attempt of another replies no
  -- and changes nothing, and so does a release in the name of another.
  pub stranger :
      (o : String) (n t : ℕ) (s : Keyspace)
      → Holds key owner (suc n) s
      → o ≢ owner
      → (reentrant_acquire r key o t s ≡ (ok false, s))
        × (reentrant_release r key o s ≡ (ok false, s))
  stranger o n t s (d, e) ne = rw (same h) (
      unfold reentrant_acquire reentrant_release documented field_of with_field with_fields hget in
      (ground (arith, eq_iff owner o), ground (arith, eq_iff owner o)))
