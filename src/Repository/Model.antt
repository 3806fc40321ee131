-- ===== src/Repository/Model.antt =====
-- redis_kit/repository/model.py and redis_kit/repository/_hash.py.
use Prim.Native.String.{◌++◌}
use redis_kit.Common.{
  ℕ, suc, String, Bool, true, false, Option, none, some, List, [], ◌∷◌, value, type, repository,
  Result, ok, err, if◌then◌else◌,
}
use redis_kit.Common.Integers.{ℤ, pos, negsuc}
use redis_kit.Redis.Keyspace.{Datum, text, number, datum_eq, Fields}
use redis_kit.Redis.Fields.{field_of}
use redis_kit.Counter.Ids.{decimal}

-- An instant is a number of microseconds. `iso` is `isoformat`; `from_iso` is
-- `datetime.fromisoformat`, and `int_of` is `int` on texts other than the decimal text of an integer
-- (as " 7" or "007"), which raise `ValueError` on what they cannot read.
pub record Calendar : Type 0 where
  pub iso : ℕ → String
  pub from_iso : String → Option ℕ
  pub int_of : String → Option ℤ

-- `BaseModel` with the further fields of a model class, each a string or `None`, by name.
pub record Entity : Type 0 where
  pub id : String
  pub version : ℤ
  pub created_at : Option ℕ
  pub updated_at : Option ℕ
  pub deleted : Bool
  pub deleted_at : Option ℕ
  pub extra : List (String × Option Datum)

-- `_NONE_SENTINEL`
abbrev pub none_sentinel : Datum
none_sentinel = text "\0__NONE__\0"

-- A flag is stored as 1 or 0.
abbrev pub flag : Bool → Datum
flag true = number (pos 1)
flag false = number (pos 0)

abbrev pub is_one : Datum → Bool
is_one d = datum_eq d (number (pos 1))

abbrev pub optional : Option Datum → Datum
optional none = none_sentinel
optional (some d) = d

unfoldable pub extra_fields : List (String × Option Datum) → Fields
extra_fields [] = []
extra_fields ((n, v) ∷ l) = (n, optional v) ∷ extra_fields l

-- The branches of the loop of `from_hash`, by the type of the field. A missing field takes its
-- default. An id of `None` is the empty text here; the code treats both alike.
abbrev pub read_id : Option Datum → Result String
read_id none = ok ""
read_id (some (text s)) = ok (if datum_eq (text s) none_sentinel then "" else s)
read_id (some (number (pos n))) = ok (decimal n)
read_id (some (number (negsuc n))) = ok ("-" ++ decimal (suc n))

unfoldable pub read_bool : Option Datum → Result Bool
read_bool none = ok false
read_bool (some d) = ok (is_one d)

-- A further field has no default.
unfoldable pub read_optional : Option Datum → Result (Option Datum)
read_optional none = err repository
read_optional (some d) = ok (if datum_eq d none_sentinel then none else some d)

infixl 5 ◌>>=◌
abbrev pub ◌>>=◌ {ℓ κ} : {A : Type ℓ} {B : Type κ} → Result A → (A → Result B) → Result B
ok a >>= f = f a
err e >>= f = err e

unfoldable pub read_extra : List String → Fields → Result (List (String × Option Datum))
read_extra [] l = ok []
read_extra (n ∷ names) l =
    read_optional (field_of n l) >>= λ v. read_extra names l >>= λ rest. ok ((n, v) ∷ rest)

module _ (c : Calendar) where
  abbrev pub instant : Option ℕ → Datum
  instant none = none_sentinel
  instant (some t) = text (c.iso t)

  unfoldable pub to_hash : Entity → Fields
  to_hash e =
      ("id", text e.id)
      ∷ ("version", number e.version)
      ∷ ("created_at", instant e.created_at)
      ∷ ("updated_at", instant e.updated_at)
      ∷ ("deleted", flag e.deleted)
      ∷ ("deleted_at", instant e.deleted_at)
      ∷ extra_fields e.extra

  -- A version of `None`, which no entity has by its type, is a `TypeError` here already and not only
  -- where 1 is added to it.
  abbrev pub read_int : Option Datum → Result ℤ
  read_int none = ok (pos 0)
  read_int (some (number n)) = ok n
  read_int (some (text s)) =
      if datum_eq (text s) none_sentinel
      then err type
      else (elim (c.int_of s) [ none ↦ err value | some n ↦ ok n ])

  abbrev pub or_value_error : Option ℕ → Result (Option ℕ)
  or_value_error none = err value
  or_value_error (some t) = ok (some t)

  abbrev pub read_instant : Option Datum → Result (Option ℕ)
  read_instant none = ok none
  read_instant (some (number n)) = err value
  read_instant (some (text s)) =
      if datum_eq (text s) none_sentinel then ok none else or_value_error (c.from_iso s)

  -- `names` are the further fields of the model class.
  unfoldable pub from_hash : List String → Fields → Result Entity
  from_hash names l = do
    id ← read_id (field_of "id" l)
    version ← read_int (field_of "version" l)
    created_at ← read_instant (field_of "created_at" l)
    updated_at ← read_instant (field_of "updated_at" l)
    deleted ← read_bool (field_of "deleted" l)
    deleted_at ← read_instant (field_of "deleted_at" l)
    extra ← read_extra names l
    ok (record {
      id = id;
      version = version;
      created_at = created_at;
      updated_at = updated_at;
      deleted = deleted;
      deleted_at = deleted_at;
      extra = extra;
    })
