-- ===== src/Lock/Overlap.antt =====
-- Two ways in which a writer gets in while a reader still relies on its own timeout.
use redis_kit.Common.{
  ℕ, suc, ◌+◌, ◌*◌, ◌≤◌, ◌<◌, String, eq_iff, ◌≡◌, refl, true, Option, none, some, [], ◌∷◌, arith,
  ok,
}
use redis_kit.Common.Integers.{pos, ◌+ℤ◌}
use redis_kit.Redis.Keyspace.{number, hash, Entry, Keyspace}
use redis_kit.Redis.Fields.{field_of, with_field, without_field}
use redis_kit.Redis.Documented.Strings.{get, setex, expire, elapse}
use redis_kit.Redis.Documented.Hashes.{hget, hincrby, hdel}
use redis_kit.Redis.Server.{Redis, Follows, documented, same}
use redis_kit.Lock.Scripts.{read_acquire, read_release, write_acquire}
use redis_kit.Lock.Methods.{writer_key_of}
use redis_kit.Lock.ReadWrite.{read_enter, read_leave, wait, step, play, other_key}

abbrev readers : ℕ → ℕ → Option Entry
readers n deadline =
    some (record { value = hash (("readers", number (pos n)) ∷ []); expires = some deadline })

-- The lock's two keys, and the clock.
record Has (key : String) (e : Option Entry) (now : ℕ) (s : Keyspace) : Type 0 where
  count : s.cell key ≡ e
  writer : s.cell (writer_key_of key) ≡ none
  clock : s.clock ≡ now

module _ {r : Redis} (h : Follows r) (key : String) where
  first_reader :
      {now : ℕ} (t : ℕ) (s : Keyspace)
      → Has key none now s
      → Has key (readers 1 (now + suc t * 1000)) now (step r key (read_enter (suc t)) s)
  first_reader t s at = rw (same h) (
      unfold step read_acquire documented get hincrby expire with_field field_of in
      ground (arith, eq_iff key key, other_key key))

  next_reader :
      {now deadline : ℕ} (n t : ℕ) (s : Keyspace)
      → Has key (readers n deadline) now s
      → Has key (readers (n + 1) (now + suc t * 1000)) now (step r key (read_enter (suc t)) s)
  next_reader n t s at = rw (same h) (
      unfold step read_acquire documented get hincrby expire with_field field_of ◌+ℤ◌ in
      ground (arith, eq_iff key key, other_key key))

  last_reader :
      {now deadline : ℕ} (s : Keyspace)
      → Has key (readers 1 deadline) now s
      → Has key none now (step r key read_leave s)
  last_reader s at = rw (same h) (
      unfold step read_release documented hincrby hdel with_field without_field field_of ◌+ℤ◌ in
      ground (arith, eq_iff key key, other_key key))

  expired :
      {now deadline : ℕ} (n ms : ℕ) (s : Keyspace)
      → Has key (readers n deadline) now s
      → deadline ≤ now + ms
      → Has key none (now + ms) (r.elapse ms s)
  expired n ms s at le = rw (same h) (unfold documented elapse in ground arith)

  writer_enters :
      {now : ℕ} (o : String) (u : ℕ) (s : Keyspace)
      → Has key none now s
      → (write_acquire r key (writer_key_of key) o (suc u) s).0 ≡ ok true
  writer_enters o u s at =
      rw (same h) (unfold write_acquire documented get hget setex field_of in ground arith)

  -- A read lock of a short timeout cuts short the ones before it: EXPIRE moves the deadline of the
  -- shared hash, so after that short timeout a writer gets in, while the first reader's longer
  -- timeout still runs.
  pub short_reader_admits_writer :
      (o : String) (long short u : ℕ) (s : Keyspace)
      → s.cell key ≡ none
      → s.cell (writer_key_of key) ≡ none
      → short < long
      → (write_acquire r key (writer_key_of key) o (suc u) (
          r.elapse
            (suc short * 1000)
            (play r key (read_enter (suc long) ∷ read_enter (suc short) ∷ []) s))).0
        ≡ ok true
  short_reader_admits_writer o long short u s free no_writer lt =
      let s1 = step r key (read_enter (suc long)) s in
      let s2 = step r key (read_enter (suc short)) s1 in
      unfold play in
      writer_enters o u (r.elapse (suc short * 1000) s2) (
        expired 2 (suc short * 1000) s2
          (next_reader 1 short s1
            (first_reader long s (record { count = free; writer = no_writer; clock = refl })))
          (omega arith))

  -- A reader that leaves after its own timeout takes away the hold of a reader that came later: the
  -- count is not tied to an owner, so a writer gets in while the later reader's timeout still runs.
  pub stale_reader_admits_writer :
      (o : String) (first second late u : ℕ) (s : Keyspace)
      → s.cell key ≡ none
      → s.cell (writer_key_of key) ≡ none
      → suc first * 1000 ≤ late
      → (write_acquire r key (writer_key_of key) o (suc u) (
          play r key
            (read_enter (suc first) ∷ wait late ∷ read_enter (suc second) ∷ read_leave ∷ [])
            s)).0
        ≡ ok true
  stale_reader_admits_writer o first second late u s free no_writer le =
      let s1 = step r key (read_enter (suc first)) s in
      let s2 = r.elapse late s1 in
      let s3 = step r key (read_enter (suc second)) s2 in
      unfold play step in
      writer_enters o u (step r key read_leave s3) (
        last_reader s3 (
          first_reader second s2 (
            expired 1 late s1
              (first_reader first s (record { count = free; writer = no_writer; clock = refl }))
              (omega arith))))
