-- ===== src/Redis/Documented/SortedSets.antt =====
-- Commands on sorted sets, with scores in milliseconds, and on single bits of a string.
use redis_kit.Common.{
  ℕ, String, Bool, true, false, Option, none, some, List, [], ◌∷◌, Result, ok, err, response, Exec,
  length, take, leb, nat_eq, if◌then◌else◌,
}
use redis_kit.Redis.Keyspace.{Datum, datum_eq, zset, bits, Entry, Keyspace, write, remove}

abbrev pub Members : Type 0
Members = List (ℕ × Datum)

-- A missing key counts as an empty set.
abbrev pub members_at : Option Entry → Result Members
members_at none = ok []
members_at (some e) = elim e.value [ zset l ↦ ok l | _ ↦ err response ]

-- An empty set is no key.
abbrev pub write_zset : String → Members → Keyspace → Keyspace
write_zset k [] s = remove k s
write_zset k (x ∷ l) s = write k (zset (x ∷ l)) s

unfoldable pub without_member : Datum → Members → Members
without_member d [] = []
without_member d ((t, x) ∷ l) =
    let rest = without_member d l in if datum_eq x d then rest else (t, x) ∷ rest

-- Behind the members of the same score.
unfoldable pub insert_member : ℕ → Datum → Members → Members
insert_member t d [] = (t, d) ∷ []
insert_member t d ((u, x) ∷ l) =
    let rest = insert_member t d l in if leb u t then (u, x) ∷ rest else (t, d) ∷ (u, x) ∷ l

-- The members with a score above the bound; up to the bound.
unfoldable pub above : ℕ → Members → Members
above t [] = []
above t ((u, x) ∷ l) = let rest = above t l in if leb u t then rest else (u, x) ∷ rest

unfoldable pub up_to : ℕ → Members → Members
up_to t [] = []
up_to t ((u, x) ∷ l) = let rest = up_to t l in if leb u t then (u, x) ∷ rest else rest

unfoldable pub without_members : Members → Members → Members
unfolding without_member
without_members [] l = l
without_members ((_, d) ∷ gone) l = without_members gone (without_member d l)

abbrev pub bits_at : Option Entry → Result (ℕ → Bool)
bits_at none = ok (λ _. false)
bits_at (some e) = elim e.value [ bits b ↦ ok b | _ ↦ err response ]

module _ (k : String) where
  -- ZADD
  unfoldable pub zadd : ℕ → Datum → Exec Keyspace (Unit {0})
  unfolding without_member insert_member
  zadd t d s = elim (members_at (s.cell k)) [
    | ok l ↦ (ok tt, write k (zset (insert_member t d (without_member d l))) s)
    | err e ↦ (err e, s)
  ]

  -- ZCARD
  unfoldable pub zcard : Exec Keyspace ℕ
  zcard s = elim (members_at (s.cell k)) [ ok l ↦ (ok (length l), s) | err e ↦ (err e, s) ]

  -- ZREMRANGEBYSCORE -inf t
  unfoldable pub zremrangebyscore : ℕ → Exec Keyspace (Unit {0})
  unfolding above
  zremrangebyscore t s = elim (members_at (s.cell k)) [
    | ok l ↦ (ok tt, write_zset k (above t l) s)
    | err e ↦ (err e, s)
  ]

  -- ZRANGE 0 0 WITHSCORES
  unfoldable pub zfirst : Exec Keyspace (Option (ℕ × Datum))
  zfirst s = elim (members_at (s.cell k)) [
    | ok [] ↦ (ok none, s)
    | ok (x ∷ _) ↦ (ok (some x), s)
    | err e ↦ (err e, s)
  ]

  -- ZRANGEBYSCORE -inf t LIMIT 0 n
  unfoldable pub zrangebyscore : ℕ → ℕ → Exec Keyspace Members
  unfolding up_to
  zrangebyscore t n s = elim (members_at (s.cell k)) [
    | ok l ↦ (ok (take n (up_to t l)), s)
    | err e ↦ (err e, s)
  ]

  -- ZREM
  unfoldable pub zrem : Members → Exec Keyspace (Unit {0})
  unfolding without_members
  zrem gone s = elim (members_at (s.cell k)) [
    | ok l ↦ (ok tt, write_zset k (without_members gone l) s)
    | err e ↦ (err e, s)
  ]

  -- SETBIT with value 1
  unfoldable pub setbit : ℕ → Exec Keyspace (Unit {0})
  setbit i s = elim (bits_at (s.cell k)) [
    | ok b ↦ (ok tt, write k (bits (λ j. if nat_eq i j then true else b j)) s)
    | err e ↦ (err e, s)
  ]

  -- GETBIT
  unfoldable pub getbit : ℕ → Exec Keyspace Bool
  getbit i s = elim (bits_at (s.cell k)) [ ok b ↦ (ok (b i), s) | err e ↦ (err e, s) ]
