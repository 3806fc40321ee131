-- ===== src/Common/Results.antt =====
-- redis_kit/exceptions.py, and methods that change a state and may raise. What was written before
-- an exception stays written, so the state comes back beside the error too.
use mathlib.Core.Path.{◌≡◌, refl}
use mathlib.Core.Logic.{◌⊎◌, inl, inr}

-- The exceptions that the modelled code raises or meets, by their class. The hierarchy is left out,
-- with the classes that are only bases or that nothing here raises and with the attributes: the
-- modelled `except` clauses name single classes or all of `Exception`. `redis_connection`,
-- `redis_timeout` (each with its subclasses in the redis client) and `response` are raised by the redis client, `value` and
-- `type` by Python, `user` by a callable that the caller passed in.
pub data Error : Type 0 where
  redis_connection redis_timeout response value type user : Error
  serialization lock_acquire lock_release queue_empty session_not_found : Error
  repository entity_not_found optimistic_lock stream rate_limit_exceeded : Error

pub data Result {ℓ} (A : Type ℓ) : Type ℓ where
  ok : A → Result A
  err : Error → Result A

abbrev pub Exec {ℓ} : Type 0 → Type ℓ → Type ℓ
Exec S A = S → Result A × S

module _ {ℓ} {S : Type 0} {A : Type ℓ} where
  abbrev pub pure : A → Exec S A
  pure a s = (ok a, s)

  abbrev pub raise : Error → Exec S A
  raise e s = (err e, s)

module _ {ℓ κ} {S : Type 0} {A : Type ℓ} {B : Type κ} where
  abbrev pub continue : Result A → (A → Exec S B) → Exec S B
  continue (ok a) f s = f a s
  continue (err e) f s = (err e, s)

  infixl 5 ◌>>=◌
  abbrev pub ◌>>=◌ : Exec S A → (A → Exec S B) → Exec S B
  ◌>>=◌ m f s = continue (m s).0 f (m s).1

infixl 5 ◌>>◌
abbrev pub ◌>>◌ {ℓ} : {S : Type 0} {B : Type ℓ} → Exec S (Unit {0}) → Exec S B → Exec S B
m >> k = m >>= λ _. k

pub Result-cases {ℓ} :
    {A : Type ℓ} (r : Result A) → ((a : A) × (r ≡ ok a)) ⊎ ((e : Error) × (r ≡ err e))
Result-cases (ok a) = inl (a, refl)
Result-cases (err e) = inr (e, refl)

-- A pipeline of two commands as one transaction: both are executed, then the first error is raised.
abbrev pub both {ℓ κ} :
    {S : Type 0} {A : Type ℓ} {B : Type κ} → Exec S A → Exec S B → Exec S (Unit {0})
both m n s =
    let first = m s in
    let second = n first.1 in
    (
      elim first.0 [ err e ↦ err e | ok _ ↦ elim second.0 [ err e ↦ err e | ok _ ↦ ok tt ] ],
      second.1,
    )
