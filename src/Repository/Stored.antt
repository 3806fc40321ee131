-- ===== src/Repository/Stored.antt =====
-- Which entity a hash shows, and that `from_hash` reads it back.
use redis_kit.Common.{
  ℕ, String, ◌==◌, ◌≡◌, refl, Bool, true, false, Option, none, some, List, [], ◌∷◌, arith, ok, All,
}
use redis_kit.Redis.Keyspace.{Datum, text, number, datum_eq, Fields}
use redis_kit.Redis.Fields.{field_of}
use redis_kit.Repository.Model.{
  Calendar, Entity, none_sentinel, flag, instant, optional, read_bool, read_optional, read_extra,
  read_instant, from_hash,
}

abbrev pub names_of : List (String × Option Datum) → List String
names_of [] = []
names_of ((n, v) ∷ l) = n ∷ names_of l

-- ISO texts are read back, and are not the sentinel of `None`.
pub record IsFaithful (c : Calendar) : Type 0 where
  pub from_iso-iso : (t : ℕ) → c.from_iso (c.iso t) ≡ some t
  pub no_sentinel : (t : ℕ) → datum_eq (text (c.iso t)) none_sentinel ≡ false

abbrev pub Apart : String → String × Option Datum → Type 0
Apart n (m, v) = (m == n) ≡ false

-- The name is none of the fields of `BaseModel`.
abbrev pub Further : String × Option Datum → Type 0
Further x =
    Apart "id" x
    × Apart "version" x
    × Apart "created_at" x
    × Apart "updated_at" x
    × Apart "deleted" x
    × Apart "deleted_at" x

-- The value is not the text that stands for `None`.
abbrev pub Clean : String × Option Datum → Type 0
Clean (n, v) = read_optional (some (optional v)) ≡ ok v

abbrev pub Distinct : List (String × Option Datum) → Type 0
Distinct [] = Unit
Distinct ((n, v) ∷ l) = All (Apart n) l × Distinct l

-- The further fields of the entity are those of its class, under different names.
pub record IsModelled (names : List String) (e : Entity) : Type 0 where
  pub named : names ≡ names_of e.extra
  pub distinct : Distinct e.extra
  pub further : All Further e.extra
  pub clean : All Clean e.extra
  pub id_clean : datum_eq (text e.id) none_sentinel ≡ false

abbrev pub Kept : Fields → String × Option Datum → Type 0
Kept l (n, v) = field_of n l ≡ some (optional v)

-- The hash `l` shows the entity `e`.
pub record Shows (c : Calendar) (e : Entity) (l : Fields) : Type 0 where
  pub id : field_of "id" l ≡ some (text e.id)
  pub version : field_of "version" l ≡ some (number e.version)
  pub created_at : field_of "created_at" l ≡ some (instant c e.created_at)
  pub updated_at : field_of "updated_at" l ≡ some (instant c e.updated_at)
  pub deleted : field_of "deleted" l ≡ some (flag e.deleted)
  pub deleted_at : field_of "deleted_at" l ≡ some (instant c e.deleted_at)
  pub extra : All (Kept l) e.extra

module _ {c : Calendar} (faithful : IsFaithful c) where
  read-instant : (t : Option ℕ) → read_instant c (some (instant c t)) ≡ ok t
  read-instant none = refl
  read-instant (some t) = ground (arith, faithful.from_iso-iso t, faithful.no_sentinel t)

  read-flag : (b : Bool) → read_bool (some (flag b)) ≡ ok b
  unfolding read_bool
  read-flag true = refl
  read-flag false = refl

  read-extra :
      (l : Fields) (extra : List (String × Option Datum))
      → All (Kept l) extra
      → All Clean extra
      → read_extra (names_of extra) l ≡ ok extra
  unfolding read_extra
  read-extra l [] kept clean = refl
  read-extra l ((n, v) ∷ extra) kept clean =
      rw (kept.0) (rw (clean.0) (rw (read-extra l extra kept.1 clean.1) refl))

  -- A hash that shows an entity is read as that entity. (The texts of instants are read back, and
  -- the entity has the fields of its class.)
  pub from_hash_lem :
      (names : List String) (e : Entity) (l : Fields)
      → IsModelled names e
      → Shows c e l
      → from_hash c names l ≡ ok e
  unfolding from_hash
  from_hash_lem names e l m at =
      rw (at.id, m.id_clean, at.version, at.created_at, read-instant e.created_at)
        (rw (at.updated_at, read-instant e.updated_at)
          (rw (at.deleted, read-flag e.deleted)
            (rw (at.deleted_at, read-instant e.deleted_at)
              (rw (m.named, read-extra l e.extra at.extra m.clean) refl))))
