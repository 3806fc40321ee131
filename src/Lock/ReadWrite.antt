-- ===== src/Lock/ReadWrite.antt =====
-- The read-write lock: a writer and readers never hold it together,
-- in any interleaving.
use redis_kit.Common.{
  ℕ, suc, String, ◌==◌, eq_iff, eq_false, ◌≡◌, refl, sym, ◌⊎◌, Bool, false, not, ◌&&◌, Option, none,
  some, List, [], ◌∷◌, arith, Error, Result, ok, err,
}
use redis_kit.Common.Keys.{append-ne_self}
use redis_kit.Common.Integers.{ℤ, negsuc, is_positive, ◌+ℤ◌}
use redis_kit.Redis.Keyspace.{Datum, text, number, Fields, hash, Entry, Keyspace}
use redis_kit.Redis.Fields.{field_of, field_of-nil, without_field, field_of-without_field}
use redis_kit.Redis.Documented.Strings.{get_reply, present, get, setex, del, expire, elapse}
use redis_kit.Redis.Documented.Hashes.{fields_at, write_hash, hget, hincrby, hdel}
use redis_kit.Redis.Server.{Redis, Follows, documented, same}
use redis_kit.Lock.Scripts.{read_acquire, read_release, write_acquire, write_release, extend_lock}
use redis_kit.Lock.Methods.{writer_key_of}

pub data Event : Type 0 where
  read_enter : ℕ → Event
  read_leave : Event
  write_enter : String → ℕ → Event
  write_leave : String → Event
  write_extend : String → ℕ → Event
  wait : ℕ → Event

module _ (r : Redis) (key : String) where
  unfoldable pub step : Event → Keyspace → Keyspace
  step (read_enter t) s = (read_acquire r key (writer_key_of key) t s).1
  step read_leave s = (read_release r key s).1
  step (write_enter o t) s = (write_acquire r key (writer_key_of key) o t s).1
  step (write_leave o) s = (write_release r (writer_key_of key) o s).1
  step (write_extend o t) s = (extend_lock r (writer_key_of key) o t s).1
  step (wait ms) s = r.elapse ms s

  unfoldable pub play : List Event → Keyspace → Keyspace
  unfolding step
  play [] s = s
  play (e ∷ es) s = play es (step e s)

abbrev pub positive : Option Datum → Bool
positive none = false
positive (some (text _)) = false
positive (some (number n)) = is_positive n

-- The reader count stored under the lock's hash is above 0.
unfoldable pub has_readers : Option Entry → Bool
has_readers none = false
has_readers (some e) = elim e.value [ hash l ↦ positive (field_of "readers" l) | _ ↦ false ]

abbrev pub IsExclusive : String → Keyspace → Type 0
IsExclusive key s = (has_readers (s.cell key) ≡ false) ⊎ (s.cell (writer_key_of key) ≡ none)

pub writer_key_ne : (key : String) → (writer_key_of key == key) ≡ false
writer_key_ne key =
    eq_false _ _ (append-ne_self key ":writer" (λ e. ground (arith, eq_iff ":writer" "")))

pub other_key : (key : String) → (key == writer_key_of key) ≡ false
other_key key =
    eq_false _ _
      (λ e. append-ne_self key ":writer" (λ x. ground (arith, eq_iff ":writer" "")) (sym e))

-- What HINCRBY and HDEL do to the reader count and to another key.
hincrby_reply :
    (key : String) (s : Keyspace) (c : ℤ)
    → has_readers (s.cell key) ≡ false
    → (hincrby key "readers" (negsuc 0) s).0 ≡ ok c
    → is_positive c ≡ false
unfolding hincrby has_readers ◌+ℤ◌
hincrby_reply key s c none_left replied = ground (arith, field_of-nil "readers")

hincrby_raised :
    (key : String) (s : Keyspace) (e : Error)
    → (hincrby key "readers" (negsuc 0) s).0 ≡ err e
    → (hincrby key "readers" (negsuc 0) s).1 ≡ s
unfolding hincrby
hincrby_raised key s e raised = ground arith

hincrby_other :
    (key j : String) (s : Keyspace)
    → (key == j) ≡ false
    → (hincrby key "readers" (negsuc 0) s).1.cell j ≡ s.cell j
unfolding hincrby
hincrby_other key j s ne = ground arith

hdel_other :
    (key j : String) (s : Keyspace)
    → (key == j) ≡ false
    → (hdel key "readers" s).1.cell j ≡ s.cell j
unfolding hdel
hdel_other key j s ne = ground arith

without_readers :
    (o : Option Entry) (k : String) (s : Keyspace) (l : Fields)
    → field_of "readers" l ≡ none
    → has_readers ((write_hash k l s).cell k) ≡ false
unfolding has_readers
without_readers o k s [] gone = ground (arith, eq_iff k k)
without_readers o k s (f ∷ l) gone = ground (arith, eq_iff k k)

hdel_readers :
    (key : String) (s : Keyspace) → has_readers ((hdel key "readers" s).1.cell key) ≡ false
unfolding hdel
hdel_readers key s = go (fields_at (s.cell key)) refl
  where
    go :
        (f : Result Fields)
        → fields_at (s.cell key) ≡ f
        → has_readers ((hdel key "readers" s).1.cell key) ≡ false
    go (ok l) e =
        rw (e, hdel)
          (without_readers (s.cell key) key s (without_field "readers" l)
            (field_of-without_field "readers" "readers" l))
    go (err x) e = unfold has_readers in ground arith

module _ {r : Redis} (h : Follows r) (key : String) where
  step-IsExclusive :
      (e : Event) (s : Keyspace) → IsExclusive key s → IsExclusive key (step r key e s)
  unfolding step
  step-IsExclusive (read_enter t) s i = rw (same h) (
      unfold read_acquire documented get hincrby expire has_readers ◌+ℤ◌ in
      ground (arith, writer_key_ne key, eq_iff key (writer_key_of key), eq_iff key key))
  step-IsExclusive read_leave s i = rw (same h) (
      unfold read_release documented in
      let s1 = (hincrby key "readers" (negsuc 0) s).1 in
      grind (
        arith,
        hincrby_reply key s,
        hincrby_raised key s,
        hincrby_other key (writer_key_of key) s (other_key key),
        hdel_other key (writer_key_of key) s1 (other_key key),
        hdel_readers key s1,
      ))
  step-IsExclusive (write_enter o t) s i = rw (same h) (
      unfold write_acquire documented get hget setex has_readers in
      ground (arith, writer_key_ne key, eq_iff key (writer_key_of key), eq_iff key key))
  step-IsExclusive (write_leave o) s i =
      rw (same h) (unfold write_release documented get del in ground (arith, writer_key_ne key))
  step-IsExclusive (write_extend o t) s i = rw (same h) (
      unfold extend_lock documented get expire in
      ground (arith, writer_key_ne key, eq_iff (writer_key_of key) (writer_key_of key)))
  step-IsExclusive (wait ms) s i =
      rw (same h) (unfold documented elapse has_readers in ground arith)

  -- Whatever readers and writers do on one name, in any order and with any timeouts and waits, the
  -- writer key and a positive reader count are never there together, once they are not.
  pub never_both :
      (es : List Event) (s : Keyspace) → IsExclusive key s → IsExclusive key (play r key es s)
  unfolding play
  never_both [] s i = i
  never_both (e ∷ es) s i = never_both es (step r key e s) (step-IsExclusive e s i)

  -- A writer is refused exactly while there is a writer, or a positive reader count: on a key that
  -- holds nothing or a hash with a numeric count, the reply is yes if neither is there, and no
  -- otherwise.
  pub write_acquire_exact :
      (o : String) (t : ℕ) (s : Keyspace) (l : Fields) (n : ℤ)
      → fields_at (s.cell key) ≡ ok l
      → (field_of "readers" l ≡ none) ⊎ (field_of "readers" l ≡ some (number n))
      → (get_reply (s.cell (writer_key_of key)) ≡ ok none)
        ⊎ ((d : Datum) × (get_reply (s.cell (writer_key_of key)) ≡ ok (some d)))
      → (write_acquire r key (writer_key_of key) o (suc t) s).0
        ≡ ok (not (present (s.cell (writer_key_of key))) && not (has_readers (s.cell key)))
  write_acquire_exact o t s l n fields count writer = rw (same h) (
      unfold write_acquire documented get hget setex has_readers in
      ground (arith, field_of-nil "readers"))
