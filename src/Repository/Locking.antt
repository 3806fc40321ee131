-- ===== src/Repository/Locking.antt =====
-- The two scripts on a hash and its history.
use redis_kit.Common.{
  zero, suc, String, ◌==◌, eq_refl, ◌≡◌, refl, true, false, List, [], ◌∷◌, arith, take, ok,
}
use redis_kit.Common.Integers.{ℤ, pos, negsuc}
use redis_kit.Redis.Keyspace.{Datum, Fields, Keyspace}
use redis_kit.Redis.Fields.{field_of, with_fields}
use redis_kit.Redis.Documented.Hashes.{fields_at, hget, hgetall, hset}
use redis_kit.Redis.Documented.Lists.{items_at, lpush, ltrim, lrange_all}
use redis_kit.Redis.Server.{Redis, Follows, documented, same}
use redis_kit.Repository.Scripts.{
  differs, absent_or_differs, optimistic_lock_set, optimistic_lock_partial_set, write_fields,
  append_history, trim,
}

-- What the history becomes.
abbrev pub bounded : ℤ → List Datum → List Datum
bounded (pos (suc n)) l = take (suc n) l
bounded _ l = l

abbrev pub extended : (Fields → Datum) → ℤ → Fields → List Datum → List Datum
extended encode max [] hist = hist
extended encode max (f ∷ l) hist = bounded max (encode (f ∷ l) ∷ hist)

-- The hash under `key` and the list under `history_key`.
pub record Holds (key history_key : String) (l : Fields) (hist : List Datum) (s : Keyspace)
    : Type 0 where
  pub fields : fields_at (s.cell key) ≡ ok l
  pub history : items_at (s.cell history_key) ≡ ok hist

module _ {r : Redis} (h : Follows r) (encode : Fields → Datum) {key hk : String}
    (apart : (key == hk) ≡ false) (apart' : (hk == key) ≡ false) where
  hset-Holds :
      (l new : Fields) (hist : List Datum) (s : Keyspace)
      → Holds key hk l hist s
      → ((write_fields r encode key new s).0 ≡ ok tt)
        × Holds key hk (with_fields new l) hist (write_fields r encode key new s).1
  hset-Holds l [] hist s at = (refl, unfold with_fields in at)
  hset-Holds l (n ∷ new) hist s at =
      rw (same h) (unfold documented hset in (ground arith, ground (arith, eq_refl key)))

  lpush-Holds :
      (l : Fields) (d : Datum) (hist : List Datum) (s : Keyspace)
      → Holds key hk l hist s
      → ((r.lpush hk d s).0 ≡ ok tt) × Holds key hk l (d ∷ hist) (r.lpush hk d s).1
  lpush-Holds l d hist s at =
      rw (same h) (unfold documented lpush in (ground arith, ground (arith, eq_refl hk)))

  trim-Holds :
      (l : Fields) (max : ℤ) (d : Datum) (hist : List Datum) (s : Keyspace)
      → Holds key hk l (d ∷ hist) s
      → ((trim r encode hk max s).0 ≡ ok tt)
        × Holds key hk l (bounded max (d ∷ hist)) (trim r encode hk max s).1
  trim-Holds l (negsuc n) d hist s at = (refl, at)
  trim-Holds l (pos zero) d hist s at = (refl, at)
  trim-Holds l (pos (suc n)) d hist s at =
      rw (same h) (unfold documented ltrim in (ground arith, ground (arith, eq_refl hk)))

  append-Holds :
      (l : Fields) (max : ℤ) (old : Fields) (hist : List Datum) (s : Keyspace)
      → Holds key hk l hist s
      → ((append_history r encode hk max old s).0 ≡ ok tt)
        × Holds key hk l (extended encode max old hist) (append_history r encode hk max old s).1
  append-Holds l max [] hist s at = (refl, at)
  append-Holds l max (f ∷ old) hist s at =
      let (pushed, at1) = lpush-Holds l (encode (f ∷ old)) hist s at in
      let (trimmed, at2) =
        trim-Holds l max (encode (f ∷ old)) hist (r.lpush hk (encode (f ∷ old)) s).1 at1 in
      rw pushed (trimmed, at2)

  pub listed :
      (l : Fields) (hist : List Datum) (s : Keyspace)
      → Holds key hk l hist s
      → r.lrange_all hk s ≡ (ok hist, s)
  listed l hist s at = rw (same h) (unfold documented lrange_all in rw (at.history) refl)

  pub reads :
      (l : Fields) (hist : List Datum) (s : Keyspace)
      → Holds key hk l hist s
      → (r.hget key "version" s ≡ (ok (field_of "version" l), s)) × (r.hgetall key s ≡ (ok l, s))
  reads l hist s at = rw (same h) (unfold documented hget hgetall in (ground arith, ground arith))

  -- OPTIMISTIC_LOCK_SET refuses a stale version and changes nothing; otherwise it writes the fields
  -- and puts what the hash held before in front of the history.
  pub lock_set_refused :
      (l new : Fields) (hist : List Datum) (expected : Datum) (max : ℤ) (s : Keyspace)
      → Holds key hk l hist s
      → differs (field_of "version" l) expected ≡ true
      → optimistic_lock_set r encode key hk expected max new s ≡ (ok false, s)
  unfolding optimistic_lock_set
  lock_set_refused l new hist expected max s at stale = rw ((reads l hist s at).0) (rw stale refl)

  pub partial_set_refused :
      (l new : Fields) (hist : List Datum) (expected : Datum) (max : ℤ) (s : Keyspace)
      → Holds key hk l hist s
      → absent_or_differs (field_of "version" l) expected ≡ true
      → optimistic_lock_partial_set r encode key hk expected max new s ≡ (ok false, s)
  unfolding optimistic_lock_partial_set
  partial_set_refused l new hist expected max s at stale =
      rw ((reads l hist s at).0) (rw stale refl)

  pub lock_set_done :
      (l new : Fields) (hist : List Datum) (expected : Datum) (max : ℤ) (s : Keyspace)
      → Holds key hk l hist s
      → differs (field_of "version" l) expected ≡ false
      → ((optimistic_lock_set r encode key hk expected max new s).0 ≡ ok true)
        × Holds key hk
            (with_fields new l)
            (extended encode max l hist)
            (optimistic_lock_set r encode key hk expected max new s).1
  unfolding optimistic_lock_set
  lock_set_done l new hist expected max s at fresh =
      let (stored, at1) = hset-Holds l new hist s at in
      let (kept, at2) =
        append-Holds (with_fields new l) max l hist (write_fields r encode key new s).1 at1 in
      let (got, all) = reads l hist s at in
      rw got (rw fresh (rw all (rw stored (rw kept (refl, at2)))))

  pub partial_set_done :
      (l new : Fields) (hist : List Datum) (expected : Datum) (max : ℤ) (s : Keyspace)
      → Holds key hk l hist s
      → absent_or_differs (field_of "version" l) expected ≡ false
      → ((optimistic_lock_partial_set r encode key hk expected max new s).0 ≡ ok true)
        × Holds key hk
            (with_fields new l)
            (extended encode max l hist)
            (optimistic_lock_partial_set r encode key hk expected max new s).1
  unfolding optimistic_lock_partial_set
  partial_set_done l new hist expected max s at fresh =
      let (stored, at1) = hset-Holds l new hist s at in
      let (kept, at2) =
        append-Holds (with_fields new l) max l hist (write_fields r encode key new s).1 at1 in
      let (got, all) = reads l hist s at in
      rw got (rw fresh (rw all (rw stored (rw kept (refl, at2)))))
