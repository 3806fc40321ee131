-- ===== src/Repository/Shown.antt =====
-- `to_hash` shows the entity, and the marks of `delete` and `restore` change what they name.
use redis_kit.Common.{
  ℕ, String, ◌==◌, eq_iff, eq_refl, ◌≡◌, refl, ap, ◌∙◌, Bool, false, Option, none, some, List, [],
  ◌∷◌, ◌++◌, arith, All, All-map,
}
use redis_kit.Common.Integers.{ℤ}
use redis_kit.Redis.Keyspace.{Datum, text, number, Fields}
use redis_kit.Redis.Fields.{field_of, with_fields, last_of, or_else, field_of-with_fields}
use redis_kit.Repository.Model.{Calendar, Entity, flag, instant, optional, extra_fields, to_hash}
use redis_kit.Repository.Methods.{Repository, marks}
use redis_kit.Repository.Stored.{IsModelled, Further, Apart, Distinct, Kept, Shows}

abbrev Written : Fields → String × Option Datum → Type 0
Written new (n, v) = last_of n new ≡ some (optional v)

not_last :
    (n : String) (l : List (String × Option Datum))
    → All (Apart n) l
    → last_of n (extra_fields l) ≡ none
unfolding last_of extra_fields
not_last n [] a = refl
not_last n ((m, v) ∷ l) a = rw (not_last n l a.1) (rw (a.0) refl)

-- A later write of other fields keeps what was written.
cons-Written :
    (f : String) (d : Datum) (new : Fields) (l : List (String × Option Datum))
    → All (Written new) l
    → All (Written ((f, d) ∷ new)) l
unfolding last_of
cons-Written f d new [] a = tt
cons-Written f d new ((n, v) ∷ l) a = (rw (a.0) refl, cons-Written f d new l a.1)

append-Written :
    (base new : Fields) (l : List (String × Option Datum))
    → All (Written new) l
    → All (Written (base ++ new)) l
append-Written [] new l a = a
append-Written ((f, d) ∷ base) new l a =
    cons-Written f d (base ++ new) l (append-Written base new l a)

extra_fields-Written :
    (l : List (String × Option Datum)) → Distinct l → All (Written (extra_fields l)) l
unfolding extra_fields last_of
extra_fields-Written [] d = tt
extra_fields-Written ((n, v) ∷ l) d = (
  rw (not_last n l d.0) (rw (eq_refl n) refl),
  cons-Written n (optional v) (extra_fields l) l (extra_fields-Written l d.1),
)

module _ (c : Calendar) where
  pub field_of-new :
      (n : String) (d : Datum) (new l : Fields)
      → last_of n new ≡ some d
      → field_of n (with_fields new l) ≡ some d
  field_of-new n d new l p = field_of-with_fields n new l ∙ ap (λ o. or_else o (field_of n l)) p

  field_of-old :
      (n : String) (new l : Fields)
      → last_of n new ≡ none
      → field_of n (with_fields new l) ≡ field_of n l
  field_of-old n new l p = field_of-with_fields n new l ∙ ap (λ o. or_else o (field_of n l)) p

  -- Whatever the hash held before, with the fields of an entity written it shows the entity. (The
  -- entity has the fields of its class.)
  pub to_hash-Shows :
      (names : List String) (e : Entity) (l : Fields)
      → IsModelled names e
      → Shows c e (with_fields (to_hash c e) l)
  unfolding last_of to_hash
  to_hash-Shows names e l m =
      let absent : (n : String) → All (Apart n) e.extra → last_of n (extra_fields e.extra) ≡ none =
        λ n a. not_last n e.extra a in
      let f = m.further in
      let new = to_hash c e in
      let base : Fields =
        ("id", text e.id)
        ∷ ("version", number e.version)
        ∷ ("created_at", instant c e.created_at)
        ∷ ("updated_at", instant c e.updated_at)
        ∷ ("deleted", flag e.deleted)
        ∷ ("deleted_at", instant c e.deleted_at)
        ∷ [] in
      let after_base : All (Written new) e.extra =
        append-Written base (extra_fields e.extra) e.extra
          (extra_fields-Written e.extra m.distinct) in
      record {
        id =
            field_of-new "id" (text e.id) new l
              (rw (absent "id" (All-map (λ x a. a.0) e.extra f), last_of) refl);
        version =
            field_of-new "version" (number e.version) new l
              (rw (absent "version" (All-map (λ x a. a.1) e.extra f), last_of) refl);
        created_at =
            field_of-new "created_at" (instant c e.created_at) new l
              (rw (absent "created_at" (All-map (λ x a. a.2) e.extra f), last_of) refl);
        updated_at =
            field_of-new "updated_at" (instant c e.updated_at) new l
              (rw (absent "updated_at" (All-map (λ x a. a.3) e.extra f), last_of) refl);
        deleted =
            field_of-new "deleted" (flag e.deleted) new l
              (rw (absent "deleted" (All-map (λ x a. a.4) e.extra f), last_of) refl);
        deleted_at =
            field_of-new "deleted_at" (instant c e.deleted_at) new l
              (rw (absent "deleted_at" (All-map (λ x a. a.5) e.extra f), last_of) refl);
        extra = All-map (λ x w. field_of-new x.0 (optional x.1) new l w) e.extra after_base;
      }

  -- The entity with the fields that `delete` and `restore` set.
  abbrev pub marked : ℕ → Bool → Option ℕ → ℤ → Entity → Entity
  marked now deleted deleted_at version e = record e {
    deleted = deleted;
    deleted_at = deleted_at;
    version = version;
    updated_at = some now;
  }

flipped : (a b : String) → (a == b) ≡ false → (b == a) ≡ false
flipped a b e = ground (arith, eq_iff a b, eq_iff b a)

unmarked :
    (self : Repository) (now : ℕ) (b : Bool) (t : Option ℕ) (v : ℤ) (x : String × Option Datum)
    → Further x
    → last_of (x.0) (marks self now b t v) ≡ none
unfolding last_of
unmarked self now b t v (n, d) f = ground (
  arith,
  flipped n "updated_at" f.3,
  flipped n "version" f.1,
  flipped n "deleted_at" f.5,
  flipped n "deleted" f.4,
)

marks-Kept :
    (self : Repository) (now : ℕ) (b : Bool) (t : Option ℕ) (v : ℤ) (l : Fields)
    (extra : List (String × Option Datum))
    → All Further extra
    → All (Kept l) extra
    → All (Kept (with_fields (marks self now b t v) l)) extra
marks-Kept self now b t v l [] f k = tt
marks-Kept self now b t v l (x ∷ extra) f k = (
  field_of-old self.calendar x.0 (marks self now b t v) l (unmarked self now b t v x f.0) ∙ k.0,
  marks-Kept self now b t v l extra f.1 k.1,
)

-- Writing the marks over a hash that shows an entity shows the marked entity.
pub marks-Shows :
    (self : Repository) (now : ℕ) (b : Bool) (t : Option ℕ) (v : ℤ) (e : Entity) (l : Fields)
    → All Further e.extra
    → Shows self.calendar e l
    → Shows self.calendar (marked self.calendar now b t v e) (with_fields (marks self now b t v) l)
unfolding last_of
marks-Shows self now b t v e l further at =
    let c = self.calendar in
    let new = marks self now b t v in
    record {
      id = field_of-old c "id" new l refl ∙ at.id;
      version = field_of-new c "version" (number v) new l refl;
      created_at = field_of-old c "created_at" new l refl ∙ at.created_at;
      updated_at = field_of-new c "updated_at" (text (c.iso now)) new l refl;
      deleted = field_of-new c "deleted" (flag b) new l refl;
      deleted_at = field_of-new c "deleted_at" (instant c t) new l refl;
      extra = marks-Kept self now b t v l e.extra further at.extra;
    }
