-- ===== src/Redis/Keyspace.antt =====
-- What a Redis server holds, as a client can observe it: a value and perhaps a deadline at each
-- live key, and the server's clock, in milliseconds.
use redis_kit.Common.{
  ℕ, String, Bool, true, false, Option, none, some, List, ◌≡◌, ◌↔◌, arith, ◌==◌, eq_iff,
  if◌then◌else◌,
}
use redis_kit.Common.Integers.{ℤ, eq_ℤ, eq_ℤ_iff}

-- A string that the server holds. `number n` is the decimal text of `n`.
pub data Datum : Type 0 where
  text : String → Datum
  number : ℤ → Datum

abbrev pub datum_eq : Datum → Datum → Bool
datum_eq (text s) (text t) = s == t
datum_eq (number m) (number n) = eq_ℤ m n
datum_eq (text s) (number n) = false
datum_eq (number m) (text t) = false

pub datum_eq_iff : (a b : Datum) → (datum_eq a b ≡ true) ↔ (a ≡ b)
datum_eq_iff (text s) (text t) = ground (arith, eq_iff s t)
datum_eq_iff (number m) (number n) = ground (arith, eq_ℤ_iff m n)
datum_eq_iff (text s) (number n) = ground arith
datum_eq_iff (number m) (text t) = ground arith

abbrev pub Fields : Type 0
Fields = List (String × Datum)

-- A sorted set is held in ascending order of its scores. `bits` is a string that is read and
-- written bit by bit.
pub data Value : Type 0 where
  str : Datum → Value
  hash : Fields → Value
  list : List Datum → Value
  zset : List (ℕ × Datum) → Value
  bits : (ℕ → Bool) → Value
  members : List Datum → Value

pub record Entry : Type 0 where
  pub value : Value
  pub expires : Option ℕ

pub record Keyspace : Type 0 where
  pub cell : String → Option Entry
  pub clock : ℕ

abbrev pub put : String → Option Entry → Keyspace → Keyspace
put k e s = record s { cell = λ j. if k == j then e else s.cell j }

-- A new value under a key keeps the key's deadline.
abbrev pub keep : Option Entry → Value → Option Entry
keep none v = some (record { value = v; expires = none })
keep (some e) v = some (record e { value = v })

abbrev pub write : String → Value → Keyspace → Keyspace
write k v s = put k (keep (s.cell k) v) s

abbrev pub remove : String → Keyspace → Keyspace
remove k s = put k none s
