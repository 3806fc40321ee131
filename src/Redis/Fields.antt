-- ===== src/Redis/Fields.antt =====
-- The fields of a hash, as an association list with one entry for each field.
use redis_kit.Common.{
  String, Option, none, some, [], ◌∷◌, ◌≡◌, ◌≢◌, refl, arith, ◌==◌, eq_iff, if◌then◌else◌,
}
use redis_kit.Redis.Keyspace.{Datum, Fields}

unfoldable pub field_of : String → Fields → Option Datum
field_of f [] = none
field_of f ((g, v) ∷ l) = if g == f then some v else field_of f l

unfoldable pub with_field : String → Datum → Fields → Fields
with_field f v [] = (f, v) ∷ []
with_field f v ((g, w) ∷ l) = if g == f then (f, v) ∷ l else (g, w) ∷ with_field f v l

unfoldable pub without_field : String → Fields → Fields
without_field f [] = []
without_field f ((g, w) ∷ l) =
    let rest = without_field f l in if g == f then rest else (g, w) ∷ rest

-- HSET with several fields writes them from left to right.
unfoldable pub with_fields : Fields → Fields → Fields
with_fields [] l = l
with_fields ((f, v) ∷ new) l = with_fields new (with_field f v l)

pub field_of-with_field :
    (f g : String) (v : Datum) (l : Fields)
    → field_of g (with_field f v l) ≡ (if f == g then some v else field_of g l)
unfolding field_of with_field
field_of-with_field f g v [] = refl
field_of-with_field f g v ((h, w) ∷ l) =
    ground (arith, eq_iff f g, eq_iff h f, eq_iff h g, field_of-with_field f g v l)

pub field_of-without_field :
    (f g : String) (l : Fields)
    → field_of g (without_field f l) ≡ (if f == g then none else field_of g l)
unfolding field_of without_field
field_of-without_field f g [] = ground arith
field_of-without_field f g ((h, w) ∷ l) =
    ground (arith, field_of-without_field f g l, eq_iff h f, eq_iff h g, eq_iff f g)

pub field_of-nil : (f : String) → field_of f [] ≡ none
unfolding field_of
field_of-nil f = refl

-- The value that a run of writes leaves in a field, if it writes it.
unfoldable pub last_of : String → Fields → Option Datum
last_of n [] = none
last_of n ((f, v) ∷ new) = elim (last_of n new) [
  | some d ↦ some d
  | none ↦ if f == n then some v else none
]

abbrev pub or_else : Option Datum → Option Datum → Option Datum
or_else (some d) o = some d
or_else none o = o

pub field_of-with_fields :
    (n : String) (new l : Fields)
    → field_of n (with_fields new l) ≡ or_else (last_of n new) (field_of n l)
unfolding with_fields last_of
field_of-with_fields n [] l = refl
field_of-with_fields n ((f, v) ∷ new) l =
    ground (arith, field_of-with_fields n new (with_field f v l), field_of-with_field f n v l)

-- A hash that was written has a field.
pub with_field-ne-nil : (f : String) (v : Datum) (l : Fields) → with_field f v l ≢ []
unfolding with_field
with_field-ne-nil f v [] e = ground arith
with_field-ne-nil f v ((g, w) ∷ l) e = ground arith

pub with_fields-ne-nil :
    (f : String) (v : Datum) (new l : Fields) → with_fields ((f, v) ∷ new) l ≢ []
unfolding with_fields
with_fields-ne-nil f v [] l = with_field-ne-nil f v l
with_fields-ne-nil f v ((g, w) ∷ new) l = with_fields-ne-nil g w new (with_field f v l)
