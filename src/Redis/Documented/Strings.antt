-- ===== src/Redis/Documented/Strings.antt =====
-- Commands on strings, on any key, and the passage of time.
use redis_kit.Common.{
  ℕ, zero, suc, ◌+◌, ◌-◌, ◌*◌, ◌/◌, String, List, [], ◌∷◌, map, Bool, true, false, Option, none,
  some, leb, if◌then◌else◌, Result, ok, err, response, Exec,
}
use redis_kit.Common.Integers.{ℤ, pos, negsuc, ◌+ℤ◌}
use redis_kit.Redis.Keyspace.{Datum, number, str, Entry, Keyspace, put, write, remove}

abbrev pub get_reply : Option Entry → Result (Option Datum)
get_reply none = ok none
get_reply (some e) = elim e.value [ str d ↦ ok (some d) | _ ↦ err response ]

-- GET
unfoldable pub get : String → Exec Keyspace (Option Datum)
get k s = (get_reply (s.cell k), s)

-- SET drops the deadline.
unfoldable pub set : String → Datum → Exec Keyspace (Unit {0})
set k d s = (ok tt, put k (some (record { value = str d; expires = none })) s)

abbrev pub lasting : Datum → ℕ → Keyspace → Option Entry
lasting d seconds s = some (record { value = str d; expires = some (s.clock + seconds * 1000) })

-- SETEX, SET with EX: a time to live of 0 is refused.
unfoldable pub setex : String → ℕ → Datum → Exec Keyspace (Unit {0})
setex k zero d s = (err response, s)
setex k (suc t) d s = (ok tt, put k (lasting d (suc t) s) s)

-- SET with NX and EX; the reply says whether the key was set.
unfoldable pub set_nx_ex : String → Datum → ℕ → Exec Keyspace Bool
set_nx_ex k d zero s = (err response, s)
set_nx_ex k d (suc t) s = elim (s.cell k) [
  | none ↦ (ok true, put k (lasting d (suc t) s) s)
  | some _ ↦ (ok false, s)
]

abbrev pub present : Option Entry → Bool
present none = false
present (some _) = true

-- DEL; the reply says whether there was a key.
unfoldable pub del : String → Exec Keyspace Bool
del k s = (ok (present (s.cell k)), remove k s)

unfoldable pub exists : String → Exec Keyspace Bool
exists k s = (ok (present (s.cell k)), s)

-- EXPIRE; the reply says whether there was a key. A time to live of 0 deletes it.
unfoldable pub expire : String → ℕ → Exec Keyspace Bool
expire k t s = elim (s.cell k) [
  | none ↦ (ok false, s)
  | some e ↦ (
    ok true,
    elim t [
      | zero ↦ remove k s
      | suc n ↦ put k (some (record e { expires = some (s.clock + suc n * 1000) })) s
    ],
  )
]

-- PEXPIRE counts in milliseconds.
unfoldable pub pexpire : String → ℕ → Exec Keyspace Bool
pexpire k t s = elim (s.cell k) [
  | none ↦ (ok false, s)
  | some e ↦ (
    ok true,
    elim t [
      | zero ↦ remove k s
      | suc n ↦ put k (some (record e { expires = some (s.clock + suc n) })) s
    ],
  )
]

-- PTTL and TTL: -2 for no key, -1 for a key without a deadline. TTL rounds to seconds.
unfoldable pub pttl : String → Exec Keyspace ℤ
pttl k s = (
  elim (s.cell k) [
    | none ↦ ok (negsuc 1)
    | some e ↦ elim e.expires [ none ↦ ok (negsuc 0) | some t ↦ ok (pos (t - s.clock)) ]
  ],
  s,
)

unfoldable pub ttl : String → Exec Keyspace ℤ
ttl k s = (
  elim (s.cell k) [
    | none ↦ ok (negsuc 1)
    | some e ↦ elim e.expires [
      | none ↦ ok (negsuc 0)
      | some t ↦ ok (pos ((t - s.clock + 500) / 1000))
    ]
  ],
  s,
)

-- PERSIST drops the deadline; the reply says whether there was one.
unfoldable pub persist : String → Exec Keyspace Bool
persist k s = elim (s.cell k) [
  | none ↦ (ok false, s)
  | some e ↦ elim e.expires [
    | none ↦ (ok false, s)
    | some _ ↦ (ok true, put k (some (record e { expires = none })) s)
  ]
]

-- EXPIREAT, with the instant in milliseconds; one that is past deletes the key.
unfoldable pub expireat : String → ℕ → Exec Keyspace Bool
expireat k t s = elim (s.cell k) [
  | none ↦ (ok false, s)
  | some e ↦ (
    ok true,
    if leb t s.clock then remove k s else put k (some (record e { expires = some t })) s,
  )
]

abbrev pub text_at : Option Entry → Option Datum
text_at none = none
text_at (some e) = elim e.value [ str d ↦ some d | _ ↦ none ]

-- MGET: a key that holds no string counts as missing.
unfoldable pub mget : List String → Exec Keyspace (List (Option Datum))
mget ks s = (ok (map (λ k. text_at (s.cell k)) ks), s)

abbrev pub remove_all : List String → Keyspace → Keyspace
remove_all [] s = s
remove_all (k ∷ ks) s = remove_all ks (remove k s)

-- DEL of several keys; without keys it is refused.
unfoldable pub del_many : List String → Exec Keyspace (Unit {0})
del_many [] s = (err response, s)
del_many (k ∷ ks) s = (ok tt, remove_all (k ∷ ks) s)

-- INCRBY: a missing key counts as 0, a text that is no number is refused.
unfoldable pub incrby : String → ℤ → Exec Keyspace ℤ
incrby k n s = elim (s.cell k) [
  | none ↦ (ok n, write k (str (number n)) s)
  | some e ↦ elim e.value [
    | str (number m) ↦ (ok (m +ℤ n), write k (str (number (m +ℤ n))) s)
    | _ ↦ (err response, s)
  ]
]

-- An entry whose deadline has come is gone.
abbrev pub live : ℕ → Option Entry → Option Entry
live now none = none
live now (some e) = elim e.expires [ none ↦ some e | some t ↦ if leb t now then none else some e ]

-- `ms` milliseconds go by.
unfoldable pub elapse : ℕ → Keyspace → Keyspace
elapse ms s = record { cell = λ k. live (s.clock + ms) (s.cell k); clock = s.clock + ms }
