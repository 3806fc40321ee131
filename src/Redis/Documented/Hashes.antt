-- ===== src/Redis/Documented/Hashes.antt =====
-- Commands on hashes.
use redis_kit.Common.{String, Option, none, some, [], ◌∷◌, Result, ok, err, response, Exec}
use redis_kit.Common.Integers.{ℤ, ◌+ℤ◌}
use redis_kit.Redis.Keyspace.{Datum, text, number, Fields, hash, Entry, Keyspace, write, remove}
use redis_kit.Redis.Fields.{field_of, with_field, with_fields, without_field}

-- The fields of a hash; a missing key counts as a hash with no field.
abbrev pub fields_at : Option Entry → Result Fields
fields_at none = ok []
fields_at (some e) = elim e.value [ hash l ↦ ok l | _ ↦ err response ]

-- HGET
unfoldable pub hget : String → String → Exec Keyspace (Option Datum)
hget k f s = elim (fields_at (s.cell k)) [ ok l ↦ (ok (field_of f l), s) | err e ↦ (err e, s) ]

-- HGETALL
unfoldable pub hgetall : String → Exec Keyspace Fields
hgetall k s = (fields_at (s.cell k), s)

-- HSET
unfoldable pub hset : String → Fields → Exec Keyspace (Unit {0})
hset k [] s = (err response, s)
hset k (n ∷ new) s = elim (fields_at (s.cell k)) [
  | ok l ↦ (ok tt, write k (hash (with_fields (n ∷ new) l)) s)
  | err e ↦ (err e, s)
]

-- HINCRBY: a missing field counts as 0, a text that is no number is refused.
unfoldable pub hincrby : String → String → ℤ → Exec Keyspace ℤ
hincrby k f n s = elim (fields_at (s.cell k)) [
  | err e ↦ (err e, s)
  | ok l ↦ elim (field_of f l) [
    | none ↦ (ok n, write k (hash (with_field f (number n) l)) s)
    | some (number m) ↦ (ok (m +ℤ n), write k (hash (with_field f (number (m +ℤ n)) l)) s)
    | some (text _) ↦ (err response, s)
  ]
]

-- A hash with no field is no key.
abbrev pub write_hash : String → Fields → Keyspace → Keyspace
write_hash k [] s = remove k s
write_hash k (f ∷ l) s = write k (hash (f ∷ l)) s

-- HDEL
unfoldable pub hdel : String → String → Exec Keyspace (Unit {0})
hdel k f s = elim (fields_at (s.cell k)) [
  | ok l ↦ (ok tt, write_hash k (without_field f l) s)
  | err e ↦ (err e, s)
]
