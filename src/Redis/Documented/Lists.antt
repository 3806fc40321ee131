-- ===== src/Redis/Documented/Lists.antt =====
-- Commands on lists. The head of a list is its left end.
use redis_kit.Common.{
  ℕ, String, Option, none, some, List, [], ◌∷◌, Result, ok, err, response, Exec, length, take,
  if◌then◌else◌,
}
use redis_kit.Redis.Keyspace.{Datum, datum_eq, list, Entry, Keyspace, write, remove}

-- A missing key counts as an empty list.
abbrev pub items_at : Option Entry → Result (List Datum)
items_at none = ok []
items_at (some e) = elim e.value [ list l ↦ ok l | _ ↦ err response ]

-- An empty list is no key.
abbrev pub write_list : String → List Datum → Keyspace → Keyspace
write_list k [] s = remove k s
write_list k (x ∷ l) s = write k (list (x ∷ l)) s

-- LPUSH
unfoldable pub lpush : String → Datum → Exec Keyspace (Unit {0})
lpush k d s = elim (items_at (s.cell k)) [
  | ok l ↦ (ok tt, write k (list (d ∷ l)) s)
  | err e ↦ (err e, s)
]

-- LLEN
unfoldable pub llen : String → Exec Keyspace ℕ
llen k s = elim (items_at (s.cell k)) [ ok l ↦ (ok (length l), s) | err e ↦ (err e, s) ]

-- LRANGE 0 -1
unfoldable pub lrange_all : String → Exec Keyspace (List Datum)
lrange_all k s = (items_at (s.cell k), s)

-- LTRIM 0 (n - 1), for a positive n
unfoldable pub ltrim : String → ℕ → Exec Keyspace (Unit {0})
ltrim k n s = elim (items_at (s.cell k)) [
  | ok l ↦ (ok tt, write_list k (take n l) s)
  | err e ↦ (err e, s)
]

unfoldable pub remove_first : Datum → List Datum → List Datum
remove_first d [] = []
remove_first d (x ∷ l) = if datum_eq x d then l else x ∷ remove_first d l

-- LREM with count 1
unfoldable pub lrem : String → Datum → Exec Keyspace (Unit {0})
unfolding remove_first
lrem k d s = elim (items_at (s.cell k)) [
  | ok l ↦ (ok tt, write_list k (remove_first d l) s)
  | err e ↦ (err e, s)
]

-- The right end of a list, and the rest.
unfoldable pub split_last : List Datum → Option (List Datum × Datum)
split_last [] = none
split_last (x ∷ l) = elim (split_last l) [
  | none ↦ some ([], x)
  | some (rest, y) ↦ some (x ∷ rest, y)
]

-- LMOVE RIGHT LEFT
unfoldable pub lmove : String → String → Exec Keyspace (Option Datum)
unfolding split_last
lmove source target s = elim (items_at (s.cell source)) [
  | err e ↦ (err e, s)
  | ok l ↦ elim (split_last l) [
    | none ↦ (ok none, s)
    | some (rest, d) ↦
        let s' = write_list source rest s in
        elim (items_at (s'.cell target)) [
          | ok m ↦ (ok (some d), write target (list (d ∷ m)) s')
          | err e ↦ (err e, s)
        ]
  ]
]
