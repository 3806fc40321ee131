-- ===== src/Redis/Documented/Sets.antt =====
-- Commands on sets, held as lists without repetition.
use redis_kit.Common.{
  String, Option, none, some, List, [], ◌∷◌, Result, ok, err, response, Exec, if◌then◌else◌,
}
use redis_kit.Redis.Keyspace.{Datum, datum_eq, members, Entry, Keyspace, write, remove}

-- A missing key counts as an empty set.
abbrev pub elements_at : Option Entry → Result (List Datum)
elements_at none = ok []
elements_at (some e) = elim e.value [ members l ↦ ok l | _ ↦ err response ]

unfoldable pub without_element : Datum → List Datum → List Datum
without_element d [] = []
without_element d (x ∷ l) =
    let rest = without_element d l in if datum_eq x d then rest else x ∷ rest

-- SADD
unfoldable pub sadd : String → Datum → Exec Keyspace (Unit {0})
sadd k d s = elim (elements_at (s.cell k)) [
  | ok l ↦ (ok tt, write k (members (d ∷ without_element d l)) s)
  | err e ↦ (err e, s)
]

-- An empty set is no key.
abbrev pub write_set : String → List Datum → Keyspace → Keyspace
write_set k [] s = remove k s
write_set k (x ∷ l) s = write k (members (x ∷ l)) s

-- SREM
unfoldable pub srem : String → Datum → Exec Keyspace (Unit {0})
srem k d s = elim (elements_at (s.cell k)) [
  | ok l ↦ (ok tt, write_set k (without_element d l) s)
  | err e ↦ (err e, s)
]

-- SMEMBERS
unfoldable pub smembers : String → Exec Keyspace (List Datum)
smembers k s = (elements_at (s.cell k), s)
